-- ===== src/Examples/Factors.antt =====
-- The factors of 77 from the roots 2 and 9 of 4.
use zkfactorization.Prelude.{ℕ, ◌*◌, ◌≡◌, ◌≢◌, ◌⊎◌, refl, inl, inr, arith, List, [], ◌∷◌, replicate}
use zkfactorization.Prelude.Result.{ok, throw, protocol}
use zkfactorization.Common.{to_bytes}
use zkfactorization.Aes
use zkfactorization.SellInformation.Factorise.{try_roots, try_row, factorise, factorise-product}
use zkfactorization.Examples.Toy.{codec, ecb}
use zkfactorization.Examples.Euclid.{gcd, gcd-IsGcd, seven-IsPrime, eleven-IsPrime}
use zkfactorization.SellInformation.Split.{IsSplit, Shown, AllHonest, NothingShown, factorise_cases}

abbrev key : List ℕ
key = replicate 32 7

different : ◌≢◌ {A = ℕ} 7 11
different e = omega arith

finds :
    factorise codec ecb gcd 77
      ((key ∷ key ∷ []) ∷ [])
      (([] ∷ (1 ∷ 2 ∷ []) ∷ []) ∷ [])
      (([] ∷ (1 ∷ 9 ∷ []) ∷ []) ∷ [])
    ≡ ok (7, 11)
unfolding factorise try_row try_roots Aes.dec Aes.decrypted
finds = refl

factorise-product_example : 7 * 11 ≡ 77
factorise-product_example =
    factorise-product codec ecb gcd 77 ((key ∷ key ∷ []) ∷ []) (([] ∷ (1 ∷ 2 ∷ []) ∷ []) ∷ [])
      (([] ∷ (1 ∷ 9 ∷ []) ∷ []) ∷ []) finds

shows :
    Shown codec ecb gcd 7 11 gcd-IsGcd seven-IsPrime eleven-IsPrime different key
      (1 ∷ 2 ∷ [])
      (1 ∷ 9 ∷ [])
unfolding Aes.enc to_bytes
shows = record {
  a = 2;
  b = 9;
  long = refl;
  apart = record { same_square = refl; differ = λ e. omega arith; small = omega arith };
  first = (refl, λ e. omega arith);
  second = (refl, λ e. omega arith);
}

honest :
    AllHonest codec ecb gcd 7 11 gcd-IsGcd seven-IsPrime eleven-IsPrime different
      ((key ∷ key ∷ []) ∷ [])
      (([] ∷ (1 ∷ 2 ∷ []) ∷ []) ∷ [])
      (([] ∷ (1 ∷ 9 ∷ []) ∷ []) ∷ [])
honest = ((inl (inl refl), (inr shows, tt)), tt)

factorise_cases_example :
    ((found : ℕ × ℕ) × (factorise codec ecb gcd 77
          ((key ∷ key ∷ []) ∷ [])
          (([] ∷ (1 ∷ 2 ∷ []) ∷ []) ∷ [])
          (([] ∷ (1 ∷ 9 ∷ []) ∷ []) ∷ [])
        ≡ ok found)
      × IsSplit codec ecb gcd 7 11 gcd-IsGcd seven-IsPrime eleven-IsPrime different found)
    ⊎ (factorise codec ecb gcd 77
          ((key ∷ key ∷ []) ∷ [])
          (([] ∷ (1 ∷ 2 ∷ []) ∷ []) ∷ [])
          (([] ∷ (1 ∷ 9 ∷ []) ∷ []) ∷ [])
        ≡ throw (protocol "Factorization failed!"))
      × NothingShown codec ecb gcd 7 11 gcd-IsGcd seven-IsPrime eleven-IsPrime different
          ((key ∷ key ∷ []) ∷ [])
          (([] ∷ (1 ∷ 2 ∷ []) ∷ []) ∷ [])
          (([] ∷ (1 ∷ 9 ∷ []) ∷ []) ∷ [])
factorise_cases_example =
    factorise_cases codec ecb gcd 7 11 gcd-IsGcd seven-IsPrime eleven-IsPrime different
      ((key ∷ key ∷ []) ∷ []) (([] ∷ (1 ∷ 2 ∷ []) ∷ []) ∷ []) (([] ∷ (1 ∷ 9 ∷ []) ∷ []) ∷ []) honest
