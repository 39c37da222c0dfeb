-- ===== src/SellInformation/Prepared.antt =====
-- The rows that the two parties prepare for one instance: no step of the preparation fails, and each
-- index holds what belongs together.
use zkfactorization.Prelude.{
  ℕ, zero, suc, ◌+◌, ◌*◌, ◌%◌, ◌<◌, ◌≡◌, ◌≢◌, ◌⊎◌, inl, inr, refl, sym, ap, subst, ◌∙◌, List, [],
  ◌∷◌, All, length, ◌==◌, if◌then◌else◌, Bool-cases,
}
use zkfactorization.Prelude.Int.{ℤ, pos}
use zkfactorization.Prelude.Prime.{IsPrime, IsGcd}
use zkfactorization.Prelude.Result.{ok, ok-injective}
use zkfactorization.Libraries.{Libraries}
use zkfactorization.SquareRoot.{new_square_root, all_square_roots}
use zkfactorization.SquareRoot.Roots.{FindsRoots}
use zkfactorization.SquareRoot.Smallest.{all_square_roots-TwoRoots}
use zkfactorization.SellInformation.{read}
use zkfactorization.SellInformation.Operations.{find_roots_row}
use zkfactorization.SellInformation.Works.{IsUnitSquare}
use zkfactorization.SellInformation.OnlyRoots.{one_of_two}

-- Different odd primes, of which the first one has an inverse modulo the second one, where roots are
-- found modulo both, and `GCD` finds greatest common divisors.
pub record AreFactors (libraries : Libraries) (p q : ℕ) : Type 0 where
  pub prime_p : IsPrime p
  pub prime_q : IsPrime q
  pub differ : p ≢ q
  pub p_odd : p % 2 ≡ 1
  pub q_odd : q % 2 ≡ 1
  pub v : ℕ
  pub inverse : p * v % q ≡ 1
  pub finds_p : FindsRoots libraries.arithmetic libraries.theory p
  pub finds_q : FindsRoots libraries.arithmetic libraries.theory q
  pub law : IsGcd (λ a b. libraries.gcd (pos a) (pos b))

-- The two roots that the seller found of a square: each root below half of n is one of them.
pub record Covers (n square : ℕ) (root1 root2 : ℤ) : Type 0 where
  pub a : ℕ
  pub b : ℕ
  pub first : root1 ≡ pos a
  pub second : root2 ≡ pos b
  pub only : (x : ℕ) → x * x % n ≡ square → x + x < n → (x ≡ a) ⊎ (x ≡ b)

-- The two rows of roots at one index.
pub record FoundAt (n square : ℕ) (roots1 roots2 : List ℤ) (i : ℕ) : Type 0 where
  pub root1 : ℤ
  pub root2 : ℤ
  pub at1 : read roots1 i ≡ ok root1
  pub at2 : read roots2 i ≡ ok root2
  pub covers : Covers n square root1 root2

Covers-symm :
    (n square : ℕ) (root1 root2 : ℤ) → Covers n square root1 root2 → Covers n square root2 root1
Covers-symm n square root1 root2 c = record {
  a = c.b;
  b = c.a;
  first = c.second;
  second = c.first;
  only = λ x e h. elim (c.only x e h) [ inl same ↦ inr same | inr same ↦ inl same ];
}

FoundAt-cons :
    (n square : ℕ) (squares : List ℕ) (roots1 roots2 : List ℤ) (root1 root2 : ℤ)
    → Covers n square root1 root2
    → ((i a : ℕ) → read squares i ≡ ok a → FoundAt n a roots1 roots2 i)
    → (i a : ℕ) → read (square ∷ squares) i ≡ ok a
    → FoundAt n a (root1 ∷ roots1) (root2 ∷ roots2) i
unfolding read
FoundAt-cons n square squares roots1 roots2 root1 root2 covers at zero a h = record {
  root1 = root1;
  root2 = root2;
  at1 = refl;
  at2 = refl;
  covers = subst (λ t. Covers n t root1 root2) (ok-injective h) covers;
}
FoundAt-cons n square squares roots1 roots2 root1 root2 covers at (suc i) a h =
    let found = at i a h in
    record {
      root1 = found.root1;
      root2 = found.root2;
      at1 = found.at1;
      at2 = found.at2;
      covers = found.covers;
    }

module _ (libraries : Libraries) (r l : ℕ) where
  open libraries use {random, codec, sha, arithmetic, theory, ecb, gcd}
  open random use {Rng, generate_bit, generate_block}

  module _ (p q : ℕ) (factors : AreFactors libraries p q) where
    all_square_roots-Covers :
        (square : ℕ)
        → IsUnitSquare p q square
        → (a₁ : ℕ) × (a₂ : ℕ) × (rest : List ℤ) × (all_square_roots arithmetic theory
              (new_square_root arithmetic theory p q)
              square
            ≡ ok (pos a₁ ∷ pos a₂ ∷ rest))
          × Covers (p * q) square (pos a₁) (pos a₂)
    all_square_roots-Covers square (b, lt, is_square, unit_p, unit_q) =
        let (a₁, a₂, rest, e, two) =
          all_square_roots-TwoRoots arithmetic theory p q square b factors.v factors.prime_p.0
            factors.prime_q.0 factors.inverse factors.finds_p factors.finds_q lt is_square
            factors.p_odd factors.q_odd unit_p unit_q in
        (
          a₁,
          a₂,
          rest,
          e,
          record {
            a = a₁;
            b = a₂;
            first = refl;
            second = refl;
            only = λ x root half.
                one_of_two codec ecb gcd p q factors.law factors.prime_p factors.prime_q
                  factors.differ a₁ a₂ x two.apart (root ∙ sym two.is_root) half two.half₁
                  two.half₂;
          },
        )

    -- The seller finds the roots of all squares.
    pub find_roots_row-Covers :
        (squares : List ℕ) (rng : Rng)
        → All (IsUnitSquare p q) squares
        → (done : (List ℤ × List ℤ) × Rng) × (find_roots_row libraries r l
              (new_square_root arithmetic theory p q)
              squares
              rng
            ≡ ok done)
          × (length done.0.0 ≡ length squares)
          × (length done.0.1 ≡ length squares)
          × ((i square : ℕ)
              → read squares i ≡ ok square
              → FoundAt (p * q) square done.0.0 done.0.1 i)
    unfolding find_roots_row read
    find_roots_row-Covers [] rng all =
        ((([], []), rng), refl, refl, refl, λ i square h. absurd (cc h))
    find_roots_row-Covers (square ∷ squares) rng (unit, all) =
        let (a₁, a₂, others, e, covers) = all_square_roots-Covers square unit in
        let drawn = generate_bit rng in
        let (rest, e₁, long1, long2, at) = find_roots_row-Covers squares drawn.1 all in
        let done : (List ℤ × List ℤ) × Rng = (
          (
            (if drawn.0 == 1 then pos a₂ else pos a₁) ∷ rest.0.0,
            (if drawn.0 == 1 then pos a₁ else pos a₂) ∷ rest.0.1,
          ),
          rest.1,
        ) in
        let runs : find_roots_row libraries r l (new_square_root arithmetic theory p q)
              (square ∷ squares) rng
            ≡ ok done =
          rw (e, find_roots_row) (rw e₁ refl) in
        (
          done,
          runs,
          ap suc long1,
          ap suc long2,
          FoundAt-cons (p * q) square squares rest.0.0 rest.0.1 _ _
              (elim (Bool-cases (drawn.0 == 1)) [
                | inl one ↦ rw one (Covers-symm (p * q) square (pos a₁) (pos a₂) covers)
                | inr other ↦ rw other covers
              ])
              at,
        )
