-- ===== src/SellInformation/Whole.antt =====
-- `SellInformationProtocol::exec` of new parties, from the first cut and choose to the factorization.
use zkfactorization.Prelude.{ℕ, suc, ◌*◌, ◌<◌, ◌≡◌, sym, subst, ◌∙◌, List, ◌∷◌, Bool, length, arith}
use zkfactorization.Prelude.Int.{ℤ}
use zkfactorization.Prelude.Result.{ok, ok-injective}
use zkfactorization.Libraries.{Libraries}
use zkfactorization.SharedSignature.Parties.{get_signature}
use zkfactorization.SignatureKey.{SingleSeller, SingleBuyer, gen_keys_from}
use zkfactorization.SignatureKey.Commits.{sent}
use zkfactorization.SellInformation.{read}
use zkfactorization.SellInformation.Operations.{factorise_buyer}
use zkfactorization.SellInformation.Exec.{agree, keep, exchange_all}
use zkfactorization.SellInformation.State.{Seller, Buyer, new_seller, new_buyer}
use zkfactorization.SellInformation.Split.{IsSplit}
use zkfactorization.SellInformation.Prepared.{AreFactors}
use zkfactorization.SellInformation.Agreed.{agree-Agreed_rows}
use zkfactorization.SellInformation.Kept.{new_seller-NewSeller, keep-Kept}
use zkfactorization.SellInformation.Passed.{keep-Passed, Passed}
use zkfactorization.SellInformation.Sale.{DrawsUnits, exchange_all-factorise_buyer}

module _ (libraries : Libraries) (past : ℕ → ℤ) (fuel t r l k p q : ℕ)
    (factors : AreFactors libraries p q) (some_l : 0 < l) where
  open libraries use {random, codec, sha, arithmetic, theory, ecb, gcd, curve, bitcoin}
  open random use {Rng}
  open bitcoin use {World}
  open curve use {Point}

  -- Let p and q be different odd primes, whose roots the seller can find, and L and T be above 0. Let a
  -- new seller of p and q and a new buyer of their product get through the first cut and choose and the
  -- seller's check of the signature of T2, and let the squares that the buyer then draws have no factor
  -- in common with p * q. Then the loop of `exec` over the R instances returns, and once the buyer has R
  -- signatures, the first of which is the signature in the seller's first instance, `Buyer::factorise`
  -- writes p and q to its results, in one order or the other.
  pub agree-factorise_buyer :
      (price : ℕ) (cheat : Bool) (opened : World) (made : Seller Point × World) (rng : Rng)
      (world : World)
      (agreed : ((List (SingleSeller Point) × List (SingleBuyer Point)) × Buyer Point)
        × (Rng × World))
      (kept : (Seller Point × Buyer Point) × World) (single : SingleSeller Point)
      (signatures : List (List ℕ))
      → 0 < t
      → new_seller arithmetic theory bitcoin Point r l p q price cheat opened ≡ ok made
      → agree libraries past fuel t r l k made.0.address
          (new_buyer arithmetic theory bitcoin Point r l (p * q) price)
          (rng, world)
        ≡ ok agreed
      → keep libraries past fuel t r l k made.0 agreed.0.1 agreed.0.0 agreed.1.1 ≡ ok kept
      → DrawsUnits libraries past fuel t r l k p q factors some_l r 0 kept.0.0 kept.0.1 agreed.1.0
      → read kept.0.0.single_sellers 0 ≡ ok single
      → suc (length signatures) ≡ r
      → let signature = get_signature random codec arithmetic curve single.shared_signature_s in
        (done : (Seller Point × Buyer Point) × Rng) × (pq : ℕ × ℕ) × (exchange_all libraries past
            fuel t r l k r 0 kept.0.0 kept.0.1 agreed.1.0
          ≡ ok done)
        × (factorise_buyer libraries r l (record done.0.1 { signatures = signature ∷ signatures })
            ≡ ok (record done.0.1 { signatures = signature ∷ signatures; p = pq.0; q = pq.1 }))
        × IsSplit codec ecb gcd p q factors.law factors.prime_p factors.prime_q factors.differ pq
  agree-factorise_buyer price cheat opened made rng world agreed kept single signatures some_t makes
        agrees keeps draws at count =
      let blank = new_buyer arithmetic theory bitcoin Point r l (p * q) price in
      let (known, rows) =
        agree-Agreed_rows libraries past fuel t r l k made.0.address blank (rng, world) some_t
          agrees in
      let new = new_seller-NewSeller libraries past fuel t r l k p q price cheat opened makes in
      let taken =
        keep-Kept libraries past fuel t r l k made.0 agreed.0.1 agreed.0.0 agreed.1.1 known.picked.1
          keeps in
      let passed : (i : ℕ) → i < r → Passed libraries past fuel t r l k p q i kept.0.0 kept.0.1 =
        λ i lt.
          keep-Passed libraries past fuel t r l k p q price i made.0 agreed.0.1 agreed.0.0 kept.0.0
            kept.0.1 new rows known taken lt in
      let first = passed 0 (omega arith) in
      let same : first.fits.single_s ≡ single = ok-injective (sym first.fits.seller_at ∙ at) in
      exchange_all-factorise_buyer libraries past fuel t r l k p q factors some_l kept.0.0 kept.0.1
        agreed.1.0 single (get_signature random codec arithmetic curve single.shared_signature_s)
        signatures draws (λ i lt. (passed i lt).fits) at count
        (sym (
          subst
            (λ (x : SingleSeller Point).
              sent x.keys_commits
              ≡ gen_keys_from codec sha
                  (get_signature random codec arithmetic curve x.shared_signature_s) 0 l)
            same first.executed.keys))
