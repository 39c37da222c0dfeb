-- ===== src/SellInformation/SharedLock.antt =====
-- The time locks of the instances: `exec` copies one commiter into all of them.
use zkfactorization.Prelude.{
  ℕ, ◌-◌, ◌<◌, ◌≡◌, sym, ap, subst, ◌∙◌, List, Bool, Bool-cases, inl, inr, All, length,
  replicate-All, length-replicate,
}
use zkfactorization.Prelude.Int.{ℤ}
use zkfactorization.Prelude.Result.{ok, bind-eq-ok, ok-injective}
use zkfactorization.Libraries.{Libraries}
use zkfactorization.Paillier.{get_n, get_g}
use zkfactorization.TimedCommitment
use zkfactorization.TimedCommitment.{new_commiter, blank_commitment}
use zkfactorization.TimedCommitment.Opening.{IsKeyed, new_commiter-IsKeyed, open_commitment-commit}
use zkfactorization.SharedSignature.Parties
use zkfactorization.SignatureKey.{SingleSeller, SingleBuyer, new_single_seller}
use zkfactorization.SellInformation.Exec.{new_singles}

module _ (libraries : Libraries) (past : ℕ → ℤ) (fuel t r l k : ℕ) where
  open libraries use {random, codec, ofb, arithmetic, curve}
  open random use {Rng}
  open curve use {Point}

  commit-p :
      (c : TimedCommitment.Commiter) (receiver : TimedCommitment.Receiver) (m : List Bool)
      (rng : Rng) {done : (TimedCommitment.Commiter × TimedCommitment.Receiver) × Rng}
      → TimedCommitment.commit random ofb arithmetic c receiver k m rng ≡ ok done
      → done.0.0.p ≡ c.p
  unfolding TimedCommitment.commit TimedCommitment.commit_message
  commit-p c receiver m rng h =
      let (made, e, rest) =
        bind-eq-ok (TimedCommitment.commit_message random ofb arithmetic c k m rng) _ h in
      sym (ap (λ x. x.0.0.p) (ok-injective rest))
      ∙ elim (Bool-cases (TimedCommitment.is_binary m)) [
        | inl binary ↦
            let (u, made_key, last) =
              bind-eq-ok
                (TimedCommitment.create_timed_key random ofb arithmetic c.n c.phi
                  (random.integer 2 (c.n - 1) rng).0 k)
                _ (rw binary at e) in
            sym (ap (λ x. x.0.p) (ok-injective last))
        | inr other ↦ absurd (cc (rw other at e))
      ]

  -- A seller's time lock closes any message, shows `p` when it is opened, and gives the message to
  -- a receiver who has `p`.
  abbrev pub OpensWith : ℕ → SingleSeller Point → Type 0
  OpensWith p s =
      (receiver : TimedCommitment.Receiver) (m : List Bool) (rng : Rng)
      → (done : (TimedCommitment.Commiter × TimedCommitment.Receiver) × Rng)
        × (TimedCommitment.commit random ofb arithmetic s.timed_commitment_commiter receiver k m rng
            ≡ ok done)
        × (TimedCommitment.open_with random ofb arithmetic done.0.1 p ≡ ok m)
        × (done.0.0.p ≡ p)

  new_single_seller-OpensWith :
      (c : TimedCommitment.Commiter) (l : ℕ) (signer : Parties.Seller Point) (hash : List ℕ)
      → IsKeyed c
      → OpensWith c.p (new_single_seller l signer hash c)
  unfolding new_single_seller TimedCommitment.open_commitment
  new_single_seller-OpensWith c l signer hash keyed receiver m rng =
      let (c', r', rng', commits, unlocks) =
        open_commitment-commit random ofb arithmetic c receiver k m rng keyed in
      let kept : c'.p ≡ c.p = commit-p c receiver m rng commits in
      (
        ((c', r'), rng'),
        commits,
        subst (λ p. TimedCommitment.open_with random ofb arithmetic r' p ≡ ok m) kept unlocks,
        kept,
      )

  -- When `exec` has made its t instances, there is one number p above one such that the seller of
  -- each of them can close any message with its time lock, shows p when it opens that lock, and the
  -- receiver opens the lock at once with p: the opening of one instance opens all of them.
  pub new_singles-OpensWith :
      (hash : List ℕ) (rng : Rng)
      {done : (List (SingleSeller Point) × List (SingleBuyer Point)) × Rng}
      → new_singles libraries past fuel t r l k hash rng ≡ ok done
      → (p : ℕ) × (1 < p) × All (OpensWith p) done.0.0 × (length done.0.0 ≡ t)
  unfolding new_singles
  new_singles-OpensWith hash rng h =
      let (signer, rng₁) = Parties.new_seller random codec arithmetic curve rng in
      let (n, e₁, h₁) = bind-eq-ok (get_n signer.paillier) _ h in
      let (g, e₂, h₂) = bind-eq-ok (get_g signer.paillier) _ h₁ in
      let (cosigner, e₃, h₃) =
        bind-eq-ok (Parties.new_buyer random codec arithmetic curve n g) _ h₂ in
      let (commiter, e₄, h₄) =
        bind-eq-ok (new_commiter random ofb arithmetic blank_commitment rng₁) _ h₃ in
      let (keyed, _, _) = new_commiter-IsKeyed random ofb arithmetic blank_commitment rng₁ e₄ in
      subst (λ x. (p : ℕ) × (1 < p) × All (OpensWith p) x.0.0 × (length x.0.0 ≡ t))
        (ok-injective h₄)
        (
          commiter.0.p,
          keyed.p_pos,
          replicate-All (OpensWith commiter.0.p) t (new_single_seller l signer hash commiter.0)
              (new_single_seller-OpensWith commiter.0 l signer hash keyed),
          length-replicate t (new_single_seller l signer hash commiter.0),
        )
