-- ===== src/Examples/Group.antt =====
-- The integers modulo 7 as a curve: the first coordinate of a point is the smaller one of the point
-- and its negative.
use native.Mathlib.Nat
use zkfactorization.Prelude.{
  ℕ, ◌+◌, ◌-◌, ◌*◌, ◌%◌, ◌<◌, ◌≡◌, refl, sym, ap, ◌∙◌, arith, true, ltb, ◌==◌, ◌||◌, ==_iff,
  if◌then◌else◌,
}
use zkfactorization.Prelude.Modular.{mul_cong}
use zkfactorization.Prelude.Tables.{passes_to, passes_at}
use zkfactorization.CryptoPp.{Curve}
use zkfactorization.SharedSignature.Group.{IsGroup}

abbrev pub curve : Curve
curve = record {
  Point = ℕ;
  multiply = λ a p. a * p % 7;
  add = λ a b. (a + b) % 7;
  identity = 0;
  eq = λ a b. a == b;
  x = λ p. if ltb p 4 then p else 7 - p;
  y = λ p. if ltb p 4 then 0 else 1;
  generator = 1;
  order = 7;
  byte_count = 1;
  bit_count = 3;
}

abbrev fifth : ℕ → ℕ
fifth a = a * a * a * a * a

fermat : passes_to (λ a. a == 0 || a * fifth a % 7 == 1) 7 ≡ true
unfolding passes_to
fermat = refl

pub group : IsGroup curve
group = record {
  eq_iff = λ a b. ==_iff a b;
  order_big = omega arith;
  multiply-multiply = λ a b.
      mul_cong a a (b * 1 % 7) (b * 1) 7 refl (Nat.mod-mod (b * 1) 7)
      ∙ ap (λ (t : ℕ). t % 7) (sym (Nat.mul_assoc a b 1));
  add-multiply = λ a b. omega arith;
  multiply-mod = λ a. omega arith;
  multiply-order = refl;
  multiply-ne = λ a h lt e. omega arith;
  x-negate = λ a h lt. ground arith;
  invertible = λ a h lt. inverse_of a h lt;
}
  where
    inverse_of : (a : ℕ) → 0 < a → a < 7 → (b : ℕ) × (a * b % 7 ≡ 1)
    inverse_of a h lt =
        let entry = passes_at (λ a. a == 0 || a * fifth a % 7 == 1) lt fermat in
        (fifth a, ground arith)
