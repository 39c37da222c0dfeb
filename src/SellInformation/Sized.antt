-- ===== src/SellInformation/Sized.antt =====
-- The instances have as many commitments as there are keys, from their construction on.
use zkfactorization.Prelude.{
  ℕ, ◌≡◌, subst, List, [], ◌∷◌, All, map, replicate-All, length-replicate, length,
}
use zkfactorization.Prelude.Int.{ℤ}
use zkfactorization.Prelude.Result.{ok, bind-eq-ok, ok-injective}
use zkfactorization.Libraries.{Libraries}
use zkfactorization.Paillier.{get_n, get_g}
use zkfactorization.ShaCommitment.{blank_sender, blank_receiver}
use zkfactorization.TimedCommitment.{new_commiter, blank_commitment}
use zkfactorization.SharedSignature.Parties
use zkfactorization.SignatureKey.{SingleSeller, SingleBuyer, new_single_seller, new_single_buyer}
use zkfactorization.SellInformation.Exec.{new_singles, exchange_keys, show_hash}

module _ (libraries : Libraries) (past : ℕ → ℤ) (fuel t r l k : ℕ) where
  open libraries use {random, codec, ofb, arithmetic, curve}
  open random use {Rng}
  open curve use {Point}

  abbrev pub Sized : List (SingleSeller Point) × List (SingleBuyer Point) → Type 0
  Sized singles =
      All (λ s. length s.keys_commits ≡ l) singles.0
      × All (λ b. length b.keys_commits ≡ l) singles.1

  pub new_singles-Sized :
      (hash : List ℕ) (rng : Rng)
      {done : (List (SingleSeller Point) × List (SingleBuyer Point)) × Rng}
      → new_singles libraries past fuel t r l k hash rng ≡ ok done
      → Sized done.0
  unfolding new_singles new_single_seller new_single_buyer
  new_singles-Sized hash rng h =
      let (signer, rng₁) = Parties.new_seller random codec arithmetic curve rng in
      let (n, e₁, h₁) = bind-eq-ok (get_n signer.paillier) _ h in
      let (g, e₂, h₂) = bind-eq-ok (get_g signer.paillier) _ h₁ in
      let (cosigner, e₃, h₃) =
        bind-eq-ok (Parties.new_buyer random codec arithmetic curve n g) _ h₂ in
      let (commiter, e₄, h₄) =
        bind-eq-ok (new_commiter random ofb arithmetic blank_commitment rng₁) _ h₃ in
      subst (λ x. Sized x.0) (ok-injective h₄)
        (
          replicate-All (λ s. length s.keys_commits ≡ l) t
              (new_single_seller l signer hash commiter.0) (length-replicate l blank_sender),
          replicate-All (λ b. length b.keys_commits ≡ l) t (new_single_buyer l cosigner hash)
              (length-replicate l blank_receiver),
        )

  pub exchange_keys-Sized :
      (sellers : List (SingleSeller Point)) (buyers : List (SingleBuyer Point)) (rng : Rng)
      {done : (List (SingleSeller Point) × List (SingleBuyer Point)) × Rng}
      → Sized (sellers, buyers)
      → exchange_keys libraries past fuel t r l k sellers buyers rng ≡ ok done
      → Sized done.0
  unfolding exchange_keys
  exchange_keys-Sized [] buyers rng sized h = subst (λ x. Sized x.0) (ok-injective h) sized
  exchange_keys-Sized (s ∷ sellers) [] rng sized h = absurd (cc h)
  exchange_keys-Sized (s ∷ sellers) (b ∷ buyers) rng ((s_long, s_all), (b_long, b_all)) h =
      let (keyed, e₁, h₁) =
        bind-eq-ok
          (Parties.init random codec arithmetic curve s.shared_signature_s b.shared_signature_b rng)
          _ h in
      let (rest, e₂, h₂) =
        bind-eq-ok (exchange_keys libraries past fuel t r l k sellers buyers keyed.1) _ h₁ in
      let (s_rest, b_rest) = exchange_keys-Sized sellers buyers keyed.1 (s_all, b_all) e₂ in
      subst (λ x. Sized x.0) (ok-injective h₂) ((s_long, s_rest), (b_long, b_rest))

  shown_sellers :
      (hash : List ℕ) (sellers : List (SingleSeller Point))
      → All (λ s. length s.keys_commits ≡ l) sellers
      → All
          (λ s. length s.keys_commits ≡ l)
          (map {A = SingleSeller Point} (λ single. record single { t2_hash = hash }) sellers)
  shown_sellers hash [] all = tt
  shown_sellers hash (s ∷ sellers) all = (all.0, shown_sellers hash sellers all.1)

  shown_buyers :
      (hash : List ℕ) (buyers : List (SingleBuyer Point))
      → All (λ b. length b.keys_commits ≡ l) buyers
      → All
          (λ b. length b.keys_commits ≡ l)
          (map {A = SingleBuyer Point} (λ single. record single { t2_hash = hash }) buyers)
  shown_buyers hash [] all = tt
  shown_buyers hash (b ∷ buyers) all = (all.0, shown_buyers hash buyers all.1)

  pub show_hash-Sized :
      (hash : List ℕ) (singles : List (SingleSeller Point) × List (SingleBuyer Point))
      → Sized singles
      → Sized (show_hash libraries past fuel t r l k hash singles)
  unfolding show_hash
  show_hash-Sized hash singles (sellers, buyers) =
      (shown_sellers hash singles.0 sellers, shown_buyers hash singles.1 buyers)
