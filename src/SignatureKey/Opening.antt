-- ===== src/SignatureKey/Opening.antt =====
-- What an opening that returns shows of an instance.
use zkfactorization.Prelude.{ℕ, ◌≡◌, sym, ap, subst, ◌∙◌, List, [], ◌∷◌, inl, inr}
use zkfactorization.Prelude.Result.{ok, bind-eq-ok, ok-injective}
use zkfactorization.CryptoPp.{Random, Sha256, Codec, Ofb, ModArith, Curve}
use zkfactorization.ShaCommitment
use zkfactorization.TimedCommitment
use zkfactorization.ShaCommitment.Opening.{accepted, reveal_cases}
use zkfactorization.SharedSignature.Parties
use zkfactorization.SharedSignature.Verify.{verify}
use zkfactorization.SignatureKey.{
  SingleSeller, SingleBuyer, gen_keys, verify_keys, verify_all, open_all, reveal,
}
use zkfactorization.SignatureKey.Keys.{AllPrefix, verify_all_iff}

module _ (random : Random) (codec : Codec) (sha : Sha256) (ofb : Ofb) (arithmetic : ModArith)
    (curve : Curve) (l k : ℕ) where
  open curve use {Point}

  -- An opened commitment is to the sender's message.
  abbrev pub Opened :
      ShaCommitment.Sender → ShaCommitment.Receiver → ShaCommitment.Receiver → Type 0
  Opened s r r' =
      (r.commitment ≡ ShaCommitment.compute_sha sha random s.m s.seed)
      × (r' ≡ accepted sha random s r)

  abbrev pub AllOpened :
      List ShaCommitment.Sender → List ShaCommitment.Receiver → List ShaCommitment.Receiver → Type 0
  AllOpened [] rs rs' = rs' ≡ rs
  AllOpened (s ∷ ss) (r ∷ rs) (r' ∷ rs') = Opened s r r' × AllOpened ss rs rs'
  AllOpened (s ∷ ss) _ _ = ⊥

  reveal-Opened :
      (s : ShaCommitment.Sender) (r : ShaCommitment.Receiver) {r' : ShaCommitment.Receiver}
      → ShaCommitment.reveal sha random s r ≡ ok r'
      → Opened s r r'
  reveal-Opened s r h = elim (reveal_cases sha random s r) [
    | inl p ↦ (p.0, ok-injective (sym h ∙ p.1))
    | inr p ↦ absurd (cc p.1)
  ]

  open_all-AllOpened :
      (ss : List ShaCommitment.Sender) (rs : List ShaCommitment.Receiver)
      {rs' : List ShaCommitment.Receiver}
      → open_all random codec sha ofb arithmetic curve l k ss rs ≡ ok rs'
      → AllOpened ss rs rs'
  unfolding open_all
  open_all-AllOpened [] rs h = sym (ok-injective h)
  open_all-AllOpened (s ∷ ss) [] h = absurd (cc h)
  open_all-AllOpened (s ∷ ss) (r ∷ rs) h =
      let (r', e₁, h₁) = bind-eq-ok (ShaCommitment.reveal sha random s r) _ h in
      let (rest, e₂, h₂) =
        bind-eq-ok (open_all random codec sha ofb arithmetic curve l k ss rs) _ h₁ in
      subst (λ x. AllOpened (s ∷ ss) (r ∷ rs) x) (ok-injective h₂)
        (reveal-Opened s r e₁, open_all-AllOpened ss rs e₂)

  -- Where an opening returns, the buyer's flag is the outcome of checking the seller's signature
  -- under the common key on the buyer's own message, every commitment was opened to the message that
  -- the seller shows, and each key shown is a beginning of the key that is derived from the
  -- signature shown.
  pub reveal-shows :
      (s : SingleSeller Point) (b : SingleBuyer Point) {b' : SingleBuyer Point}
      → reveal random codec sha ofb arithmetic curve l k s b ≡ ok b'
      → (verify codec arithmetic curve b.shared_signature_b.q b.shared_signature_b.message
            s.shared_signature_s.r s.shared_signature_s.s
          ≡ ok b'.open_verified)
        × AllOpened s.keys_commits b.keys_commits b'.keys_commits
        × Opened s.signature_commit b.signature_commit b'.signature_commit
        × AllPrefix b'.keys_commits
            (gen_keys random codec sha ofb arithmetic curve l k s.signature_commit.m)
  unfolding reveal verify_keys Parties.reveal
  reveal-shows s b {b'} h =
      let signer = s.shared_signature_s in
      let cosigner = b.shared_signature_b in
      let (signed, e₁, h₁) =
        bind-eq-ok (Parties.reveal random codec arithmetic curve signer cosigner) _ h in
      let (result, checked, set) =
        bind-eq-ok (verify codec arithmetic curve cosigner.q cosigner.message signer.r signer.s) _
          e₁ in
      let (secret, e₂, h₂) =
        bind-eq-ok
          (TimedCommitment.open_commitment random ofb arithmetic s.timed_commitment_commiter
            b.timed_commitment_receiver)
          _ h₁ in
      let (opened, e₃, h₃) =
        bind-eq-ok
          (open_all random codec sha ofb arithmetic curve l k s.keys_commits b.keys_commits) _ h₂ in
      let (last, e₄, h₄) =
        bind-eq-ok (ShaCommitment.reveal sha random s.signature_commit b.signature_commit) _ h₃ in
      let (done, e₅, h₅) =
        bind-eq-ok (verify_all opened (gen_keys random codec sha ofb arithmetic curve l k last.m)) _
          h₄ in
      let ended = ok-injective h₅ in
      let shown = reveal-Opened s.signature_commit b.signature_commit e₄ in
      (
        checked
            ∙ ap ok (
                ap (λ (x : Parties.Buyer Point). x.open_verified) (ok-injective set)
                ∙ ap (λ (x : SingleBuyer Point). x.open_verified) ended),
        subst (λ (x : SingleBuyer Point). AllOpened s.keys_commits b.keys_commits x.keys_commits)
            ended (open_all-AllOpened s.keys_commits b.keys_commits e₃),
        subst
            (λ (x : SingleBuyer Point).
              Opened s.signature_commit b.signature_commit x.signature_commit)
            ended shown,
        subst
            (λ (x : SingleBuyer Point).
              AllPrefix x.keys_commits
                (gen_keys random codec sha ofb arithmetic curve l k s.signature_commit.m))
            ended
            (subst (λ m. AllPrefix opened (gen_keys random codec sha ofb arithmetic curve l k m))
              (ap (λ (x : ShaCommitment.Receiver). x.m) shown.1)
              ((verify_all_iff opened (gen_keys random codec sha ofb arithmetic curve l k last.m)).0
                e₅)),
      )
