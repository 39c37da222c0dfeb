-- ===== src/SellInformation/Signed.antt =====
-- What the first cut and choose of the sale shows of an instance that the buyer did not pick: a
-- signature on the hash of the buyer's own transaction.
use zkfactorization.Prelude.{
  ℕ, zero, suc, ◌+◌, ◌<◌, ◌≡◌, refl, sym, ap, subst, ◌∙◌, List, [], ◌∷◌, All, true, false, inl, inr,
  map, arith,
}
use zkfactorization.Prelude.Int.{ℤ, pos}
use zkfactorization.Prelude.Result.{ok, bind-eq-ok, ok-injective}
use zkfactorization.Libraries.{Libraries}
use zkfactorization.BitUtils.{integer_to_bits}
use zkfactorization.ShaCommitment
use zkfactorization.TimedCommitment
use zkfactorization.CutAndChoose.{Protocol, run_all}
use zkfactorization.CutAndChoose.Rounds.{contains}
use zkfactorization.CutAndChoose.Opening.{Fates}
use zkfactorization.SharedSignature.Parties
use zkfactorization.SharedSignature.Parties.{set_data_seller, set_data_buyer}
use zkfactorization.SharedSignature.Verify.{verify}
use zkfactorization.SharedSignature.Checked.{exec-verifies}
use zkfactorization.SignatureKey.{
  SingleSeller, SingleBuyer, gen_keys, gen_keys_and_setup_commits, commit_all, exec, init, reveal,
}
use zkfactorization.SignatureKey.Opening.{Opened, AllOpened, reveal-shows}
use zkfactorization.SignatureKey.Keys.{AllPrefix}
use zkfactorization.SignatureKey.Honest.{signature_key_protocol}
use zkfactorization.SellInformation.{read}
use zkfactorization.SellInformation.Exec.{show_hash}

module _ {R A B : Type 0} (proto : Protocol R A B) (past : ℕ → ℤ) where
  -- An instance that was not chosen was opened.
  pub Fates-opened :
      (chosen : List ℤ) (left i : ℕ) (ps : List A) (vs : List B) (ps' : List A) (vs' : List B)
      → Fates proto past chosen left i ps vs ps' vs'
      → (d n : ℕ) → d < left
      → n ≡ i + d
      → contains chosen n ≡ false
      → (a : A) × (b : B) × (a' : A) × (b' : B) × (rng : R) × (rng' : R) × (read ps d ≡ ok a)
        × (read vs d ≡ ok b)
        × (read ps' d ≡ ok a')
        × (read vs' d ≡ ok b')
        × (proto.reveal a b rng ≡ ok ((a', b'), rng'))
        × (proto.verified b' ≡ true)
  unfolding read
  Fates-opened chosen zero i ps vs ps' vs' fates d n lt e absent = absurd (omega arith)
  Fates-opened chosen (suc left) i (a ∷ ps) (b ∷ vs) (a' ∷ ps') (b' ∷ vs')
        ((inr (_, (rng, rng', opens, verifies))), rest) zero n lt e absent =
      (a, b, a', b', rng, rng', refl, refl, refl, refl, opens, verifies)
  Fates-opened chosen (suc left) i (a ∷ ps) (b ∷ vs) (a' ∷ ps') (b' ∷ vs')
        ((inl (present, _, _)), rest) zero n lt e absent =
      let same : n ≡ i = omega arith in
      let here : contains chosen n ≡ true = ap (contains chosen) same ∙ present in absurd (cc)
  Fates-opened chosen (suc left) i (a ∷ ps) (b ∷ vs) (a' ∷ ps') (b' ∷ vs') (here, rest) (suc d) n lt
        e absent =
      Fates-opened chosen left (i + 1) ps vs ps' vs' rest d n (omega arith) (omega arith) absent
  Fates-opened chosen (suc left) i _ _ _ _ fates d n lt e absent = absurd fates

module _ (libraries : Libraries) (past : ℕ → ℤ) (fuel t r l k : ℕ) where
  open libraries use {random, codec, sha, ofb, arithmetic, curve}
  open random use {Rng}
  open curve use {Point}

  abbrev Holds : List ℕ → SingleBuyer Point → Type 0
  Holds hash b = b.t2_hash ≡ hash

  exec-message :
      (s : SingleSeller Point) (b : SingleBuyer Point) (rng : Rng)
      {e : (SingleSeller Point × SingleBuyer Point) × Rng}
      → exec random codec sha ofb arithmetic curve l k s b rng ≡ ok e
      → e.0.1.shared_signature_b.message ≡ b.t2_hash
  unfolding exec set_data_seller set_data_buyer ShaCommitment.init
  exec-message s b rng h =
      let signer = set_data_seller random codec arithmetic curve s.shared_signature_s b.t2_hash in
      let cosigner = set_data_buyer random codec arithmetic curve b.shared_signature_b b.t2_hash in
      let (signed, e₁, h₁) =
        bind-eq-ok (Parties.exec random codec arithmetic curve signer cosigner rng) _ h in
      let (secret, e₂, h₂) = bind-eq-ok (integer_to_bits codec (pos signed.0.0.ds)) _ h₁ in
      let (locked, e₃, h₃) =
        bind-eq-ok
          (TimedCommitment.commit random ofb arithmetic s.timed_commitment_commiter
            b.timed_commitment_receiver k secret signed.1)
          _ h₂ in
      let s₁ =
        gen_keys_and_setup_commits random codec sha ofb arithmetic curve l k
          (record s { shared_signature_s = signed.0.0; timed_commitment_commiter = locked.0.0 }) in
      let (committed, e₄, h₄) =
        bind-eq-ok
          (commit_all random codec sha ofb arithmetic curve l k s₁.keys_commits b.keys_commits
            locked.1)
          _ h₃ in
      let (last, e₅, h₅) =
        bind-eq-ok
          (ShaCommitment.exec sha random s₁.signature_commit b.signature_commit committed.1) _ h₄ in
      let (valid, same_q, kept, same_ds) =
        exec-verifies random codec arithmetic curve signer cosigner rng e₁ in
      sym (
        ap
          (λ (x : (SingleSeller Point × SingleBuyer Point) × Rng). x.0.1.shared_signature_b.message)
          (ok-injective h₅))
      ∙ kept

  run_all-message :
      (hash : List ℕ) (left : ℕ) (sellers : List (SingleSeller Point))
      (buyers : List (SingleBuyer Point)) (rng : Rng)
      {done : (List (SingleSeller Point) × List (SingleBuyer Point)) × Rng}
      → All (Holds hash) buyers
      → run_all
          (signature_key_protocol random codec sha ofb arithmetic curve l k)
          past
          left
          sellers
          buyers
          rng
        ≡ ok done
      → (i : ℕ) (b : SingleBuyer Point) → i < left
      → read done.0.1 i ≡ ok b
      → b.shared_signature_b.message ≡ hash
  unfolding run_all read init
  run_all-message hash zero sellers buyers rng all h i b lt at = absurd (omega arith)
  run_all-message hash (suc left) [] buyers rng all h i b lt at = absurd (cc h)
  run_all-message hash (suc left) (x ∷ sellers) [] rng all h i b lt at = absurd (cc h)
  run_all-message hash (suc left) (x ∷ sellers) (y ∷ buyers) rng all h i b lt at =
      let proto = signature_key_protocol random codec sha ofb arithmetic curve l k in
      let (e, e₁, h₁) = bind-eq-ok (exec random codec sha ofb arithmetic curve l k x y rng) _ h in
      let (rest, e₂, h₂) = bind-eq-ok (run_all proto past left sellers buyers e.1) _ h₁ in
      let same = ok-injective h₂ in
      at_index e.0.1 rest.0.1 i lt
        (ap (λ (d : (List (SingleSeller Point) × List (SingleBuyer Point)) × Rng). read d.0.1 i)
            same
          ∙ at)
        (exec-message x y rng e₁ ∙ all.0) (run_all-message hash left sellers buyers e.1 all.1 e₂)
    where
      at_index :
          (z : SingleBuyer Point) (zs : List (SingleBuyer Point)) (i : ℕ)
          → i < suc left
          → read (z ∷ zs) i ≡ ok b
          → z.shared_signature_b.message ≡ hash
          → ((i : ℕ) (b : SingleBuyer Point)
              → i < left
              → read zs i ≡ ok b
              → b.shared_signature_b.message ≡ hash)
          → b.shared_signature_b.message ≡ hash
      at_index z zs zero lt at here later =
          ap (λ (c : SingleBuyer Point). c.shared_signature_b.message) (sym (ok-injective at))
          ∙ here
      at_index z zs (suc i) lt at here later = later i b (omega arith) at

  shown-Holds :
      (hash : List ℕ) (buyers : List (SingleBuyer Point))
      → All
          (Holds hash)
          (map {A = SingleBuyer Point} (λ single. record single { t2_hash = hash }) buyers)
  shown-Holds hash [] = tt
  shown-Holds hash (b ∷ buyers) = (refl, shown-Holds hash buyers)

  -- Instance `d` was opened: the seller's signature verifies under the joint key on `hash`, every
  -- commitment was opened to the message that the seller shows, and the keys are beginnings of those that
  -- the signature shown gives.
  pub record Signed (hash : List ℕ) (ran : List (SingleSeller Point) × List (SingleBuyer Point))
      (sellers : List (SingleSeller Point)) (buyers : List (SingleBuyer Point)) (d : ℕ)
      : Type 0 where
    pub s : SingleSeller Point
    pub b : SingleBuyer Point
    pub b' : SingleBuyer Point
    pub executed : (read ran.0 d ≡ ok s) × (read ran.1 d ≡ ok b)
    pub opened : (read sellers d ≡ ok s) × (read buyers d ≡ ok b')
    pub verifies :
        verify codec arithmetic curve b.shared_signature_b.q hash s.shared_signature_s.r
          s.shared_signature_s.s
        ≡ ok true
    pub commits :
        AllOpened random codec sha ofb arithmetic curve l k s.keys_commits b.keys_commits
          b'.keys_commits
    pub signature :
        Opened random codec sha ofb arithmetic curve l k s.signature_commit b.signature_commit
          b'.signature_commit
    pub keys :
        AllPrefix b'.keys_commits
          (gen_keys random codec sha ofb arithmetic curve l k s.signature_commit.m)

  pub run_all-Signed :
      (hash : List ℕ) (chosen : List ℤ)
      (singles : List (SingleSeller Point) × List (SingleBuyer Point)) (rng : Rng)
      (sellers : List (SingleSeller Point)) (buyers : List (SingleBuyer Point))
      {ran : (List (SingleSeller Point) × List (SingleBuyer Point)) × Rng}
      → let proto = signature_key_protocol random codec sha ofb arithmetic curve l k in
        let shown = show_hash libraries past fuel t r l k hash singles in
        run_all proto past t shown.0 shown.1 rng ≡ ok ran
        → Fates
            (signature_key_protocol random codec sha ofb arithmetic curve l k)
            past
            chosen
            t
            0
            ran.0.0
            ran.0.1
            sellers
            buyers
        → (d : ℕ) → d < t
        → contains chosen d ≡ false
        → Signed hash ran.0 sellers buyers d
  unfolding show_hash
  run_all-Signed hash chosen singles rng sellers buyers {ran} runs fates d lt absent =
      let proto = signature_key_protocol random codec sha ofb arithmetic curve l k in
      let shown = show_hash libraries past fuel t r l k hash singles in
      let (s, b, s', b', before, after, s_in, b_in, s_at, b_at, opens, verified) =
        Fates-opened proto past chosen t 0 ran.0.0 ran.0.1 sellers buyers fates d d lt (omega arith)
          absent in
      let (opened, e, last) =
        bind-eq-ok (reveal random codec sha ofb arithmetic curve l k s b) _ opens in
      let same_s : s ≡ s' = ap (λ x. x.0.0) (ok-injective last) in
      let same_b : opened ≡ b' = ap (λ x. x.0.1) (ok-injective last) in
      let (checks, commits, signature, keys) =
        reveal-shows random codec sha ofb arithmetic curve l k s b
          (subst (λ x. reveal random codec sha ofb arithmetic curve l k s b ≡ ok x) same_b e) in
      let message =
        run_all-message hash t shown.0 shown.1 rng (shown-Holds hash singles.1) runs d b lt b_in in
      record {
        s = s;
        b = b;
        b' = b';
        executed = (s_in, b_in);
        opened = (subst (λ x. read sellers d ≡ ok x) (sym same_s) s_at, b_at);
        verifies =
            ap
              (λ (m : List ℕ).
                verify codec arithmetic curve b.shared_signature_b.q m s.shared_signature_s.r
                  s.shared_signature_s.s)
              (sym message)
            ∙ checks
            ∙ ap ok verified;
        commits = commits;
        signature = signature;
        keys = keys;
      }
