-- ===== src/SignatureKey/Honest.antt =====
-- An honest instance: what was executed opens and verifies, so that cut and choose accepts it.
use zkfactorization.Prelude.{
  ℕ, ◌<◌, ◌≡◌, refl, sym, ap, subst, ◌∙◌, List, Bool, true, false, length,
}
use zkfactorization.Prelude.Int.{ℤ, pos, eqb_ℤ, minus_one}
use zkfactorization.Prelude.Result.{ok, bind, bind-eq-ok, ok-injective}
use zkfactorization.CryptoPp.{Random, Sha256, Codec, Ofb, ModArith, Curve}
use zkfactorization.BitUtils.{integer_to_bits}
use zkfactorization.ShaCommitment
use zkfactorization.TimedCommitment
use zkfactorization.TimedCommitment.Opening.{IsKeyed, open_commitment-commit}
use zkfactorization.CutAndChoose.{Protocol, cut_and_choose}
use zkfactorization.CutAndChoose.Honest.{IsHonest, IsReady, honest_accepted}
use zkfactorization.SharedSignature.Parties
use zkfactorization.SharedSignature.Parties.{get_signature, set_data_seller, set_data_buyer}
use zkfactorization.SharedSignature.Verify.{verify}
use zkfactorization.SharedSignature.Checked.{exec-verifies}
use zkfactorization.SignatureKey.{
  SingleSeller, SingleBuyer, gen_keys, gen_keys_and_setup_commits, verify_keys, commit_all,
  open_all, init, exec, reveal, cheat,
}
use zkfactorization.SignatureKey.Keys.{verify_all_iff}
use zkfactorization.SignatureKey.Commits.{
  received, received-AllPrefix, sent-assign_keys, length-gen_keys_from, exec-reveal,
  commit_all-opens,
}

module _ (random : Random) (codec : Codec) (sha : Sha256) (ofb : Ofb) (arithmetic : ModArith)
    (curve : Curve) (l k : ℕ) where
  open random use {Rng}
  open curve use {Point}

  -- What the key exchange and the constructors leave: one public key, a time lock whose modulus and
  -- totient belong together, and `l` commitments on each side.
  pub record Matched (s : SingleSeller Point) (b : SingleBuyer Point) : Type 0 where
    pub same_q : s.shared_signature_s.q ≡ b.shared_signature_b.q
    pub keyed : IsKeyed s.timed_commitment_commiter
    pub senders : length s.keys_commits ≡ l
    pub receivers : length b.keys_commits ≡ l

  -- The opening of an instance whose parts open.
  reveal-parts :
      (s : SingleSeller Point) (b : SingleBuyer Point) {secret : List Bool}
      {opened : List ShaCommitment.Receiver} {last : ShaCommitment.Receiver}
      → verify codec arithmetic curve b.shared_signature_b.q b.shared_signature_b.message
          s.shared_signature_s.r s.shared_signature_s.s
        ≡ ok true
      → TimedCommitment.open_commitment random ofb arithmetic s.timed_commitment_commiter
          b.timed_commitment_receiver
        ≡ ok secret
      → open_all random codec sha ofb arithmetic curve l k s.keys_commits b.keys_commits ≡ ok opened
      → ShaCommitment.reveal sha random s.signature_commit b.signature_commit ≡ ok last
      → received opened ≡ gen_keys random codec sha ofb arithmetic curve l k last.m
      → (b' : SingleBuyer Point) × (reveal random codec sha ofb arithmetic curve l k s b ≡ ok b')
        × (b'.open_verified ≡ true)
  unfolding reveal Parties.reveal verify_keys
  reveal-parts s b {secret} {opened} {last} checks unlocks opens shows keys =
      let passes =
        (verify_all_iff opened (gen_keys random codec sha ofb arithmetic curve l k last.m)).1
          (received-AllPrefix opened _ keys) in
      (
        record b {
          shared_signature_b = record b.shared_signature_b { open_verified = true };
          keys_commits = opened;
          signature_commit = last;
          open_verified = true;
        },
        rw checks (rw unlocks (rw opens (rw shows (rw passes refl)))),
        refl,
      )

  -- Where the execution of two matched parties returns, the opening that follows returns and sets the
  -- buyer's flag to true.
  pub exec-opens :
      (s : SingleSeller Point) (b : SingleBuyer Point) (rng : Rng)
      {e : (SingleSeller Point × SingleBuyer Point) × Rng}
      → Matched s b
      → exec random codec sha ofb arithmetic curve l k s b rng ≡ ok e
      → (b' : SingleBuyer Point) × (reveal random codec sha ofb arithmetic curve l k e.0.0 e.0.1
          ≡ ok b')
        × (b'.open_verified ≡ true)
  unfolding exec set_data_seller set_data_buyer gen_keys_and_setup_commits gen_keys
      ShaCommitment.init
  exec-opens s b rng matched h =
      let signer = set_data_seller random codec arithmetic curve s.shared_signature_s b.t2_hash in
      let cosigner = set_data_buyer random codec arithmetic curve b.shared_signature_b b.t2_hash in
      let (signed, e₁, h₁) =
        bind-eq-ok (Parties.exec random codec arithmetic curve signer cosigner rng) _ h in
      let (secret, e₂, h₂) = bind-eq-ok (integer_to_bits codec (pos signed.0.0.ds)) _ h₁ in
      let (locked, e₃, h₃) =
        bind-eq-ok
          (TimedCommitment.commit random ofb arithmetic s.timed_commitment_commiter
            b.timed_commitment_receiver k secret signed.1)
          _ h₂ in
      let s₁ =
        gen_keys_and_setup_commits random codec sha ofb arithmetic curve l k
          (record s { shared_signature_s = signed.0.0; timed_commitment_commiter = locked.0.0 }) in
      let (committed, e₄, h₄) =
        bind-eq-ok
          (commit_all random codec sha ofb arithmetic curve l k s₁.keys_commits b.keys_commits
            locked.1)
          _ h₃ in
      let (last, e₅, h₅) =
        bind-eq-ok
          (ShaCommitment.exec sha random s₁.signature_commit b.signature_commit committed.1) _ h₄ in
      let signature = get_signature random codec arithmetic curve signed.0.0 in
      let keys_long = length-gen_keys_from codec sha signature 0 l in
      let (assigned, long) =
        sent-assign_keys s₁.keys s.keys_commits (keys_long ∙ sym matched.senders) in
      let (passes, q_kept, m_kept, _) =
        exec-verifies random codec arithmetic curve signer cosigner rng e₁ in
      let (c', r', rng', commits, unlocks) =
        open_commitment-commit random ofb arithmetic s.timed_commitment_commiter
          b.timed_commitment_receiver k secret signed.1 matched.keyed in
      let same_lock = ok-injective (sym commits ∙ e₃) in
      let (opened, opens, messages) =
        commit_all-opens random codec sha ofb arithmetic curve l k s₁.keys_commits b.keys_commits
          locked.1 (long ∙ matched.senders ∙ sym matched.receivers) e₄ in
      let (shown, shows) =
        exec-reveal random codec sha ofb arithmetic curve l k s₁.signature_commit b.signature_commit
          committed.1 e₅ in
      subst
        (λ (x : (SingleSeller Point × SingleBuyer Point) × Rng).
          (b' : SingleBuyer Point) × (reveal random codec sha ofb arithmetic curve l k x.0.0 x.0.1
            ≡ ok b')
          × (b'.open_verified ≡ true))
        (ok-injective h₅)
        (reveal-parts (record s₁ { keys_commits = committed.0.0; signature_commit = last.0.0 })
          (record b {
            shared_signature_b = signed.0.1;
            timed_commitment_receiver = locked.0.1;
            keys_commits = committed.0.1;
            signature_commit = last.0.1;
          })
          (ap (λ q. verify codec arithmetic curve q signed.0.1.message signed.0.0.r signed.0.0.s)
              (q_kept ∙ sym matched.same_q)
            ∙ ap
                (λ m.
                  verify codec arithmetic curve s.shared_signature_s.q m signed.0.0.r signed.0.0.s)
                m_kept
            ∙ passes)
          (ap
              (λ (x : (TimedCommitment.Commiter × TimedCommitment.Receiver) × Rng).
                TimedCommitment.open_commitment random ofb arithmetic x.0.0 x.0.1)
              (sym same_lock)
            ∙ unlocks)
          opens shows
          (messages
            ∙ assigned
            ∙ ap (λ m. gen_keys random codec sha ofb arithmetic curve l k m) (sym shown)))

  -- `SignatureKeyProtocol` as cut and choose uses it.
  abbrev pub signature_key_protocol : Protocol Rng (SingleSeller Point) (SingleBuyer Point)
  signature_key_protocol = record {
    init = init random codec sha ofb arithmetic curve l k;
    exec = exec random codec sha ofb arithmetic curve l k;
    reveal = λ s b rng.
        bind (reveal random codec sha ofb arithmetic curve l k s b) λ b'. ok ((s, b'), rng);
    verified = λ b. b.open_verified;
    cheat = cheat random codec sha ofb arithmetic curve l k;
  }

  signature_keys-IsHonest : (past : ℕ → ℤ) → IsHonest signature_key_protocol past Matched
  unfolding init
  signature_keys-IsHonest past s b rng i e fit hi he =
      let start = ok-injective hi in
      let (b', opens, verified) = exec-opens s b rng fit (
        ap
          (λ (x : (SingleSeller Point × SingleBuyer Point) × Rng).
            exec random codec sha ofb arithmetic curve l k x.0.0 x.0.1 x.1)
          start
        ∙ he) in
      λ g. (((e.0.0, b'), g), rw opens refl, verified)

  -- Cut and choose over instances of the protocol whose parties are matched returns with `res` true,
  -- where the executions return, the indices are given and pass the check, and what stands in memory
  -- behind the last index is no instance.
  pub signature_keys_accepted :
      (past : ℕ → ℤ) (t r : ℕ) (ps : List (SingleSeller Point)) (vs : List (SingleBuyer Point))
      (given : List ℤ) (rng : Rng)
      → IsReady signature_key_protocol past Matched t r ps vs given rng
      → ((x : ℕ) → x < t → eqb_ℤ (pos x) (past r) ≡ false)
      → (ps' : List (SingleSeller Point)) × (vs' : List (SingleBuyer Point)) × (rng' : Rng)
        × (cut_and_choose signature_key_protocol past t r ps vs given minus_one rng
            ≡ ok ((ps', vs', true), rng'))
  signature_keys_accepted past t r ps vs given rng ready =
      honest_accepted signature_key_protocol past Matched t r ps vs given rng ready
        (signature_keys-IsHonest past)
