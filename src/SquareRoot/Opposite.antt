-- ===== src/SquareRoot/Opposite.antt =====
-- Pairs of roots with the sum n, and what the two smallest of them are.
use native.Mathlib.Nat
use zkfactorization.Prelude.{
  ℕ, zero, suc, ◌+◌, ◌*◌, ◌/◌, ◌%◌, ◌<◌, ◌≡◌, ◌≢◌, sym, ap, ◌∙◌, List, [], ◌∷◌, arith,
}
use zkfactorization.Prelude.Int.{ℤ, pos}
use zkfactorization.Prelude.Sorting.{sort, insert}
use zkfactorization.Prelude.Modular.{mod_product}

-- Two roots of one square, of different absolute value.
pub record Apart (n a b : ℕ) : Type 0 where
  pub same_square : a * a % n ≡ b * b % n
  pub differ : a ≢ b
  pub small : a + b < n

-- Two roots of the square `a` modulo n that are apart, each less than half of n.
pub record TwoRoots (n a a₁ a₂ : ℕ) : Type 0 where
  pub apart : Apart n a₁ a₂
  pub is_root : a₁ * a₁ % n ≡ a
  pub half₁ : a₁ + a₁ < n
  pub half₂ : a₂ + a₂ < n

-- The first two numbers differ, and their sum, as well as twice each of them, is below `n`.
abbrev pub SmallTwo : ℕ → List ℤ → Type 0
SmallTwo n (pos a ∷ pos b ∷ rest) = (a ≢ b) × (a + b < n) × (a + a < n) × (b + b < n)
SmallTwo n _ = ⊥

-- Of two pairs with the sum n, whose numbers all differ, the two smallest are not one pair.
pub sort-SmallTwo :
    (n w x y z : ℕ)
    → w + z ≡ n
    → x + y ≡ n
    → w ≢ x
    → w ≢ y
    → w ≢ z
    → x ≢ y
    → SmallTwo n (sort (pos w ∷ pos x ∷ pos y ∷ pos z ∷ []))
unfolding sort insert
sort-SmallTwo n w x y z outer inner wx wy wz xy = ground arith

-- A number with the residue 0 that is neither 0 nor twice the modulus is the modulus.
once : (n c s : ℕ) → n * c ≡ s → 0 < s → s < n + n → s ≡ n
once n zero s e some_s small = absurd (omega arith)
once n (suc zero) s e some_s small = omega arith
once n (suc (suc c)) s e some_s small = absurd (omega (arith, Nat.mul_comm n (suc (suc c))))

pub opposite :
    (p q u r s : ℕ)
    → p * u % q ≡ 1 % q
    → 0 < p
    → 0 < q
    → r % p + s % p ≡ p
    → r % q + s % q ≡ q
    → r < p * q
    → s < p * q
    → r + s ≡ p * q
opposite p q u r s inverse p_pos q_pos at_p at_q r_lt s_lt =
    let zero_at : (m : ℕ) → 0 < m → r % m + s % m ≡ m → (r + s) % m ≡ 0 % m = λ m m_pos e.
      Nat.add-mod r s m ∙ ap (λ (t : ℕ). t % m) e ∙ Nat.mod_self m ∙ sym (Nat.zero-mod m) in
    let whole : (r + s) % (p * q) ≡ 0 =
      mod_product (r + s) 0 p q u inverse (zero_at p p_pos at_p) (zero_at q q_pos at_q)
      ∙ Nat.zero-mod (p * q) in
    let split : p * q * ((r + s) / (p * q)) ≡ r + s =
      omega (arith, Nat.div-add-mod (r + s) (p * q)) in
    once (p * q) ((r + s) / (p * q)) (r + s) split (positive p r s p_pos at_p) (omega arith)
  where
    positive : (p r s : ℕ) → 0 < p → r % p + s % p ≡ p → 0 < r + s
    positive p zero zero p_pos e = absurd (omega (arith, Nat.zero-mod p))
    positive p (suc r) s p_pos e = omega arith
    positive p zero (suc s) p_pos e = omega arith

pub differ : (m r s : ℕ) → r % m ≢ s % m → r ≢ s
differ m r s ne e = ne (ap (λ (t : ℕ). t % m) e)
