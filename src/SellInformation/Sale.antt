-- ===== src/SellInformation/Sale.antt =====
-- All rounds of the second cut and choose between honest parties, and the factorization after them.
use zkfactorization.Prelude.{
  ℕ, zero, suc, ◌+◌, ◌*◌, ◌≤◌, ◌<◌, ◌≡◌, ◌≢◌, refl, sym, ap, subst, ◌∙◌, List, [], ◌∷◌, All, length,
  map, arith,
}
use zkfactorization.Prelude.Int.{ℤ}
use zkfactorization.Prelude.Result.{ok, ok-injective}
use zkfactorization.Libraries.{Libraries}
use zkfactorization.ShaCommitment
use zkfactorization.SignatureKey.{SingleSeller, gen_keys_from}
use zkfactorization.SignatureKey.Commits.{sent}
use zkfactorization.SellInformation.{read, gen_squares}
use zkfactorization.SellInformation.Operations.{first_r, opened_messages, keys_of, factorise_buyer}
use zkfactorization.SellInformation.Factorise.{factorise}
use zkfactorization.SellInformation.Exec.{exchange_all}
use zkfactorization.SellInformation.State.{Seller, Buyer}
use zkfactorization.SellInformation.Protocol
use zkfactorization.SellInformation.Split.{IsSplit}
use zkfactorization.SellInformation.Works.{IsUnitSquare}
use zkfactorization.SellInformation.Reads.{first_r-all}
use zkfactorization.SellInformation.Prepared.{AreFactors}
use zkfactorization.SellInformation.Bought.{Sold}
use zkfactorization.SellInformation.Fits.{Fits, Frame-Fits}
use zkfactorization.SellInformation.Completed.{exchange-returns}

-- A row that can be read at its head.
read-head :
    {A : Type 0} (row : List A) {a : A} → read row 0 ≡ ok a → (rest : List A) × (row ≡ a ∷ rest)
unfolding read
read-head [] h = absurd (cc h)
read-head (x ∷ row) h = (row, ap (λ t. t ∷ row) (ok-injective h))

module _ (libraries : Libraries) (past : ℕ → ℤ) (fuel t r l k p q : ℕ)
    (factors : AreFactors libraries p q) (some_l : 0 < l) where
  open libraries use {random, codec, sha, ecb, gcd, curve}
  open random use {Rng}
  open curve use {Point}

  -- Along a run of the loop, the squares that the buyer draws have no factor in common with p * q.
  abbrev pub DrawsUnits : ℕ → ℕ → Seller Point → Buyer Point → Rng → Type 0
  DrawsUnits zero j s b rng = Unit
  DrawsUnits (suc left) j s b rng =
      All (IsUnitSquare p q) (gen_squares random b.n l rng).0.1
      × ((done : (Seller Point × Buyer Point) × Rng)
          → Protocol.exchange libraries past fuel t r l k j s b rng ≡ ok done
          → DrawsUnits left (j + 1) done.0.0 done.0.1 done.1)

  exchange_all-returns :
      (left j : ℕ) (s : Seller Point) (b : Buyer Point) (rng : Rng)
      → DrawsUnits left j s b rng
      → ((i : ℕ) → j ≤ i → i < j + left → Fits libraries past fuel t r l k p q i s b)
      → (done : (Seller Point × Buyer Point) × Rng) × (exchange_all libraries past fuel t r l k left
            j s b rng
          ≡ ok done)
        × (done.0.1.n ≡ b.n)
        × ((i : ℕ)
            → i < j
            → (read done.0.1.d1 i ≡ read b.d1 i) × (read done.0.1.d2 i ≡ read b.d2 i))
  unfolding exchange_all
  exchange_all-returns zero j s b rng draws fits = (((s, b), rng), refl, refl, λ i lt. (refl, refl))
  exchange_all-returns (suc left) j s b rng draws fits =
      let (mid, e, round) =
        exchange-returns libraries past fuel t r l k p q factors j s b rng
          (fits j (omega arith) (omega arith)) some_l draws.0 in
      let later : (i : ℕ)
          → j + 1 ≤ i
          → i < j + 1 + left
          → Fits libraries past fuel t r l k p q i mid.0.0 mid.0.1 =
        λ i low high.
          Frame-Fits libraries past fuel t r l k p q j i s b mid.0.0 mid.0.1 round.frame
            (λ same. omega arith) (fits i (omega arith) (omega arith)) in
      let (done, e₁, same_n, kept) =
        exchange_all-returns left (j + 1) mid.0.0 mid.0.1 mid.1 (draws.1 mid e) later in
      (
        done,
        rw e e₁,
        same_n ∙ round.frame.buyer_n,
        λ i lt.
            let (k1, k2) = kept i (omega arith) in
            let ne : i ≢ j = λ same. omega arith in
            (k1 ∙ round.frame.receivers1 i ne, k2 ∙ round.frame.receivers2 i ne),
      )

  factorise_buyer-Sold :
      (b : Buyer Point) (signature : List ℕ) (signatures : List (List ℕ))
      {shown1 shown2 : List ShaCommitment.Receiver}
      → b.n ≡ p * q
      → b.signatures ≡ signature ∷ signatures
      → length b.signatures ≡ r
      → read b.d1 0 ≡ ok shown1
      → read b.d2 0 ≡ ok shown2
      → Sold libraries r l p q factors (gen_keys_from codec sha signature 0 l) shown1 shown2
      → (pq : ℕ × ℕ) × (factorise_buyer libraries r l b ≡ ok (record b { p = pq.0; q = pq.1 }))
        × IsSplit codec ecb gcd p q factors.law factors.prime_p factors.prime_q factors.differ pq
  unfolding factorise_buyer keys_of
  factorise_buyer-Sold b signature signatures {shown1} {shown2} n_eq first count at1 at2 sold =
      let (others1, e₁) = read-head b.d1 at1 in
      let (others2, e₂) = read-head b.d2 at2 in
      let (pq, e, split) =
        sold (keys_of libraries r l signatures) (map opened_messages others1)
          (map opened_messages others2) in
      let all : first_r r b.signatures ≡ ok (signature ∷ signatures) =
        subst (λ m. first_r m b.signatures ≡ ok b.signatures) count (first_r-all b.signatures)
        ∙ ap ok first in
      let found : factorise codec ecb gcd b.n (keys_of libraries r l (signature ∷ signatures))
            (map opened_messages b.d1) (map opened_messages b.d2)
          ≡ ok pq =
        rw (n_eq, e₁, e₂) e in
      (pq, rw all (rw found refl), split)

  first_round :
      (left : ℕ) (s : Seller Point) (b : Buyer Point) (rng : Rng) (single : SingleSeller Point)
      → DrawsUnits (suc left) 0 s b rng
      → ((i : ℕ) → i < suc left → Fits libraries past fuel t r l k p q i s b)
      → read s.single_sellers 0 ≡ ok single
      → (done : (Seller Point × Buyer Point) × Rng) × (exchange_all libraries past fuel t r l k
            (suc left)
            0
            s
            b
            rng
          ≡ ok done)
        × (done.0.1.n ≡ p * q)
        × (shown1 : List ShaCommitment.Receiver) × (shown2 : List ShaCommitment.Receiver) × (read
              done.0.1.d1 0
            ≡ ok shown1)
        × (read done.0.1.d2 0 ≡ ok shown2)
        × Sold libraries r l p q factors (sent single.keys_commits) shown1 shown2
  unfolding exchange_all
  first_round left s b rng single draws fits at =
      let first = fits 0 (omega arith) in
      let (mid, e, round) =
        exchange-returns libraries past fuel t r l k p q factors 0 s b rng first some_l draws.0 in
      let later : (i : ℕ)
          → 1 ≤ i
          → i < 1 + left
          → Fits libraries past fuel t r l k p q i mid.0.0 mid.0.1 =
        λ i low high.
          Frame-Fits libraries past fuel t r l k p q 0 i s b mid.0.0 mid.0.1 round.frame
            (λ same. omega arith) (fits i (omega arith)) in
      let (done, e₁, same_n, kept) =
        exchange_all-returns left 1 mid.0.0 mid.0.1 mid.1 (draws.1 mid e) later in
      let (k1, k2) = kept 0 (omega arith) in
      let same : first.single_s ≡ single = ok-injective (sym first.seller_at ∙ at) in
      (
        done,
        rw e e₁,
        same_n ∙ round.frame.buyer_n ∙ first.buyer_n,
        round.shown1,
        round.shown2,
        k1 ∙ round.at1,
        k2 ∙ round.at2,
        subst (λ x. Sold libraries r l p q factors (sent x.keys_commits) round.shown1 round.shown2)
            same round.sold,
      )

  -- Let p and q be different odd primes with the product n, whose roots the seller can find, and L be
  -- above 0; let the parties have rows of L items for each of the R instances, the buyer hold the
  -- commitments to the seller's keys of 32 bytes, and the squares that the buyer draws in the run have no
  -- factor in common with n. Then the loop of `exec` over the instances returns, and once the buyer has R
  -- signatures, the first of which gives the keys that the seller committed to for the first instance,
  -- `Buyer::factorise` writes p and q to its results, in one order or the other.
  pub exchange_all-factorise_buyer :
      (s : Seller Point) (b : Buyer Point) (rng : Rng) (single : SingleSeller Point)
      (signature : List ℕ) (signatures : List (List ℕ))
      → DrawsUnits r 0 s b rng
      → ((i : ℕ) → i < r → Fits libraries past fuel t r l k p q i s b)
      → read s.single_sellers 0 ≡ ok single
      → length (signature ∷ signatures) ≡ r
      → gen_keys_from codec sha signature 0 l ≡ sent single.keys_commits
      → (done : (Seller Point × Buyer Point) × Rng) × (pq : ℕ × ℕ) × (exchange_all libraries past
            fuel t r l k r 0 s b rng
          ≡ ok done)
        × (factorise_buyer libraries r l (record done.0.1 { signatures = signature ∷ signatures })
            ≡ ok (record done.0.1 { signatures = signature ∷ signatures; p = pq.0; q = pq.1 }))
        × IsSplit codec ecb gcd p q factors.law factors.prime_p factors.prime_q factors.differ pq
  exchange_all-factorise_buyer s b rng single signature signatures draws fits at count keys =
      let (done, e, n_eq, shown1, shown2, at1, at2, sold) =
        first_round (length signatures) s b rng single
          (subst (λ m. DrawsUnits m 0 s b rng) (sym count) draws) (λ i lt. fits i (omega arith))
          at in
      let ready : Buyer Point = record done.0.1 { signatures = signature ∷ signatures } in
      let (pq, e₁, split) =
        factorise_buyer-Sold ready signature signatures n_eq refl count at1 at2
          (subst (λ x. Sold libraries r l p q factors x shown1 shown2) (sym keys) sold) in
      (
        done,
        pq,
        subst (λ m. exchange_all libraries past fuel t r l k m 0 s b rng ≡ ok done) count e,
        e₁,
        split,
      )
