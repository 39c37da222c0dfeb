-- ===== src/SellInformation/Executed.antt =====
-- What an execution of SignatureKeyProtocol leaves for the second cut and choose: commitments that can
-- be opened, to the keys that the seller's signature gives.
use zkfactorization.Prelude.{
  ℕ, zero, suc, ◌+◌, ◌<◌, ◌≡◌, refl, sym, ap, ap₂, subst, ◌∙◌, List, [], ◌∷◌, All, length, arith,
}
use zkfactorization.Prelude.Int.{ℤ, pos}
use zkfactorization.Prelude.Result.{ok, bind-eq-ok, ok-injective}
use zkfactorization.Libraries.{Libraries}
use zkfactorization.Aes.{aes_length}
use zkfactorization.BitUtils.{integer_to_bits}
use zkfactorization.ShaCommitment
use zkfactorization.TimedCommitment
use zkfactorization.CutAndChoose.{run_all}
use zkfactorization.SharedSignature.Parties
use zkfactorization.SharedSignature.Parties.{get_signature, set_data_seller, set_data_buyer}
use zkfactorization.SignatureKey.{
  SingleSeller, SingleBuyer, gen_keys_from, gen_keys, gen_keys_and_setup_commits, commit_all, exec,
  init,
}
use zkfactorization.SignatureKey.Commits.{sent, sent-assign_keys, length-gen_keys_from}
use zkfactorization.SignatureKey.Honest.{signature_key_protocol}
use zkfactorization.SellInformation.{read}
use zkfactorization.SellInformation.Openings.{Opens, AllOpen}

-- Keys are digests.
gen_keys_from-long :
    (libraries : Libraries) (signature : List ℕ) (i left : ℕ)
    → All
        (λ key. length key ≡ aes_length)
        (gen_keys_from libraries.codec libraries.sha signature i left)
unfolding gen_keys_from
gen_keys_from-long libraries signature i zero = tt
gen_keys_from-long libraries signature i (suc left) =
    (libraries.sha.length-digest _, gen_keys_from-long libraries signature (i + 1) left)

All-sent :
    (senders : List ShaCommitment.Sender)
    → All (λ key. length key ≡ aes_length) (sent senders)
    → All (λ c. length c.m ≡ aes_length) senders
All-sent [] h = tt
All-sent (s ∷ senders) h = (h.0, All-sent senders h.1)

module _ (libraries : Libraries) (past : ℕ → ℤ) (l k : ℕ) where
  open libraries use {random, codec, sha, ofb, arithmetic, ecb, curve}
  open random use {Rng}
  open curve use {Point}

  -- A seller and a buyer after the execution.
  pub record Executed (s : SingleSeller Point) (b : SingleBuyer Point) : Type 0 where
    pub count : length s.keys_commits ≡ l
    pub opens : AllOpen random codec sha ecb l s.keys_commits b.keys_commits
    pub keys :
        sent s.keys_commits
        ≡ gen_keys_from codec sha
            (get_signature random codec arithmetic curve s.shared_signature_s)
            0
            l

  pub Executed-long :
      (s : SingleSeller Point) (b : SingleBuyer Point)
      → Executed s b
      → All (λ c. length c.m ≡ aes_length) s.keys_commits
  Executed-long s b e = All-sent s.keys_commits (
      subst (All (λ key. length key ≡ aes_length)) (sym e.keys)
        (gen_keys_from-long libraries _ 0 l))

  AllOpen-cons :
      (n : ℕ) (s : ShaCommitment.Sender) (rc : ShaCommitment.Receiver)
      (senders : List ShaCommitment.Sender) (receivers : List ShaCommitment.Receiver)
      → rc.commitment ≡ ShaCommitment.compute_sha sha random s.m s.seed
      → AllOpen random codec sha ecb n senders receivers
      → AllOpen random codec sha ecb (suc n) (s ∷ senders) (rc ∷ receivers)
  unfolding read
  AllOpen-cons n s rc senders receivers same (long, all) = (ap suc long, at)
    where
      at : (i : ℕ) → i < suc n → Opens random codec sha ecb (s ∷ senders) (rc ∷ receivers) i
      at zero lt = record { s = s; r = rc; sender = refl; receiver = refl; commits = same }
      at (suc i) lt =
          let o = all i (omega arith) in
          record { s = o.s; r = o.r; sender = o.sender; receiver = o.receiver; commits = o.commits }

  exec-commits :
      (s : ShaCommitment.Sender) (rc : ShaCommitment.Receiver) (rng : Rng)
      {e : (ShaCommitment.Sender × ShaCommitment.Receiver) × Rng}
      → ShaCommitment.exec sha random s rc rng ≡ ok e
      → (e.0.0.m ≡ s.m)
        × (e.0.1.commitment ≡ ShaCommitment.compute_sha sha random e.0.0.m e.0.0.seed)
  unfolding ShaCommitment.exec
  exec-commits s rc rng h =
      subst
        (λ (x : (ShaCommitment.Sender × ShaCommitment.Receiver) × Rng).
          (x.0.0.m ≡ s.m)
          × (x.0.1.commitment ≡ ShaCommitment.compute_sha sha random x.0.0.m x.0.0.seed))
        (ok-injective h) (refl, refl)

  commit_all-AllOpen :
      (senders : List ShaCommitment.Sender) (receivers : List ShaCommitment.Receiver) (rng : Rng)
      {done : (List ShaCommitment.Sender × List ShaCommitment.Receiver) × Rng}
      → length senders ≡ length receivers
      → commit_all random codec sha ofb arithmetic curve l k senders receivers rng ≡ ok done
      → (sent done.0.0 ≡ sent senders)
        × (length done.0.0 ≡ length senders)
        × AllOpen random codec sha ecb (length senders) done.0.0 done.0.1
  unfolding commit_all ShaCommitment.init
  commit_all-AllOpen [] [] rng long h =
      subst
        (λ (d : (List ShaCommitment.Sender × List ShaCommitment.Receiver) × Rng).
          (sent d.0.0 ≡ []) × (length d.0.0 ≡ 0) × AllOpen random codec sha ecb 0 d.0.0 d.0.1)
        (ok-injective h) (refl, refl, (refl, λ i lt. absurd (omega arith)))
  commit_all-AllOpen [] (r ∷ receivers) rng long h = absurd (omega arith)
  commit_all-AllOpen (s ∷ senders) [] rng long h = absurd (omega arith)
  commit_all-AllOpen (s ∷ senders) (r ∷ receivers) rng long h =
      let (e, e₁, h₁) = bind-eq-ok (ShaCommitment.exec sha random s r rng) _ h in
      let (rest, e₂, h₂) =
        bind-eq-ok (commit_all random codec sha ofb arithmetic curve l k senders receivers e.1) _
          h₁ in
      let (same, commits) = exec-commits s r rng e₁ in
      let (messages, count, all) = commit_all-AllOpen senders receivers e.1 (omega arith) e₂ in
      subst
        (λ (d : (List ShaCommitment.Sender × List ShaCommitment.Receiver) × Rng).
          (sent d.0.0 ≡ s.m ∷ sent senders)
          × (length d.0.0 ≡ suc (length senders))
          × AllOpen random codec sha ecb (suc (length senders)) d.0.0 d.0.1)
        (ok-injective h₂)
        (
          ap₂ ◌∷◌ same messages,
          ap suc count,
          AllOpen-cons (length senders) e.0.0 e.0.1 rest.0.0 rest.0.1 commits all,
        )

  -- As many commitments as there are keys.
  abbrev pub SellerSized : SingleSeller Point → Type 0
  SellerSized s = length s.keys_commits ≡ l

  abbrev pub BuyerSized : SingleBuyer Point → Type 0
  BuyerSized b = length b.keys_commits ≡ l

  exec-Executed :
      (s : SingleSeller Point) (b : SingleBuyer Point) (rng : Rng)
      {e : (SingleSeller Point × SingleBuyer Point) × Rng}
      → SellerSized s
      → BuyerSized b
      → exec random codec sha ofb arithmetic curve l k s b rng ≡ ok e
      → Executed e.0.0 e.0.1
  unfolding exec gen_keys_and_setup_commits gen_keys ShaCommitment.init
  exec-Executed s b rng sized_s sized_b h =
      let signer = set_data_seller random codec arithmetic curve s.shared_signature_s b.t2_hash in
      let cosigner = set_data_buyer random codec arithmetic curve b.shared_signature_b b.t2_hash in
      let (signed, e₁, h₁) =
        bind-eq-ok (Parties.exec random codec arithmetic curve signer cosigner rng) _ h in
      let (secret, e₂, h₂) = bind-eq-ok (integer_to_bits codec (pos signed.0.0.ds)) _ h₁ in
      let (locked, e₃, h₃) =
        bind-eq-ok
          (TimedCommitment.commit random ofb arithmetic s.timed_commitment_commiter
            b.timed_commitment_receiver k secret signed.1)
          _ h₂ in
      let s₁ =
        gen_keys_and_setup_commits random codec sha ofb arithmetic curve l k
          (record s { shared_signature_s = signed.0.0; timed_commitment_commiter = locked.0.0 }) in
      let (committed, e₄, h₄) =
        bind-eq-ok
          (commit_all random codec sha ofb arithmetic curve l k s₁.keys_commits b.keys_commits
            locked.1)
          _ h₃ in
      let (last, e₅, h₅) =
        bind-eq-ok
          (ShaCommitment.exec sha random s₁.signature_commit b.signature_commit committed.1) _ h₄ in
      let signature = get_signature random codec arithmetic curve signed.0.0 in
      let keys_long = length-gen_keys_from codec sha signature 0 l in
      let (assigned, long) = sent-assign_keys s₁.keys s.keys_commits (keys_long ∙ sym sized_s) in
      let (messages, count, all) =
        commit_all-AllOpen s₁.keys_commits b.keys_commits locked.1 (long ∙ sized_s ∙ sym sized_b)
          e₄ in
      let sized : length s₁.keys_commits ≡ l = long ∙ sized_s in
      subst (λ (x : (SingleSeller Point × SingleBuyer Point) × Rng). Executed x.0.0 x.0.1)
        (ok-injective h₅)
        (record {
          count = count ∙ sized;
          opens = subst (λ n. AllOpen random codec sha ecb n committed.0.0 committed.0.1) sized all;
          keys = messages ∙ assigned;
        })

  Executed-cons :
      (left : ℕ) (x : SingleSeller Point) (y : SingleBuyer Point)
      (sellers : List (SingleSeller Point)) (buyers : List (SingleBuyer Point))
      → Executed x y
      → ((i : ℕ) (s : SingleSeller Point) (b : SingleBuyer Point)
          → i < left
          → read sellers i ≡ ok s
          → read buyers i ≡ ok b
          → Executed s b)
      → (i : ℕ) (s : SingleSeller Point) (b : SingleBuyer Point) → i < suc left
      → read (x ∷ sellers) i ≡ ok s
      → read (y ∷ buyers) i ≡ ok b
      → Executed s b
  unfolding read
  Executed-cons left x y sellers buyers here later zero s b lt at_s at_b =
      subst (λ t. Executed s t) (ok-injective at_b)
        (subst (λ t. Executed t y) (ok-injective at_s) here)
  Executed-cons left x y sellers buyers here later (suc i) s b lt at_s at_b =
      later i s b (omega arith) at_s at_b

  -- Every instance that was run has been executed.
  pub run_all-Executed :
      (left : ℕ) (sellers : List (SingleSeller Point)) (buyers : List (SingleBuyer Point))
      (rng : Rng) {done : (List (SingleSeller Point) × List (SingleBuyer Point)) × Rng}
      → All SellerSized sellers
      → All BuyerSized buyers
      → run_all
          (signature_key_protocol random codec sha ofb arithmetic curve l k)
          past
          left
          sellers
          buyers
          rng
        ≡ ok done
      → (i : ℕ) (s : SingleSeller Point) (b : SingleBuyer Point) → i < left
      → read done.0.0 i ≡ ok s
      → read done.0.1 i ≡ ok b
      → Executed s b
  unfolding run_all read init
  run_all-Executed zero sellers buyers rng sized_s sized_b h i s b lt at_s at_b =
      absurd (omega arith)
  run_all-Executed (suc left) [] buyers rng sized_s sized_b h i s b lt at_s at_b = absurd (cc h)
  run_all-Executed (suc left) (x ∷ sellers) [] rng sized_s sized_b h i s b lt at_s at_b =
      absurd (cc h)
  run_all-Executed (suc left) (x ∷ sellers) (y ∷ buyers) rng sized_s sized_b h i s b lt at_s at_b =
      let proto = signature_key_protocol random codec sha ofb arithmetic curve l k in
      let (e, e₁, h₁) = bind-eq-ok (exec random codec sha ofb arithmetic curve l k x y rng) _ h in
      let (rest, e₂, h₂) = bind-eq-ok (run_all proto past left sellers buyers e.1) _ h₁ in
      let here = exec-Executed x y rng sized_s.0 sized_b.0 e₁ in
      let later = run_all-Executed left sellers buyers e.1 sized_s.1 sized_b.1 e₂ in
      let same = ok-injective h₂ in
      Executed-cons left e.0.0 e.0.1 rest.0.0 rest.0.1 here later i s b lt
        (ap (λ (d : (List (SingleSeller Point) × List (SingleBuyer Point)) × Rng). read d.0.0 i)
            same
          ∙ at_s)
        (ap (λ (d : (List (SingleSeller Point) × List (SingleBuyer Point)) × Rng). read d.0.1 i)
            same
          ∙ at_b)
