-- ===== src/SharedSignature/Group.antt =====
-- What the program relies on of the curve's group: its points are the multiples of the base point,
-- whose order is prime, and a point and its inverse have one first coordinate.
use zkfactorization.Prelude.{
  ℕ, ◌+◌, ◌-◌, ◌*◌, ◌%◌, ◌<◌, ◌≡◌, ◌≢◌, ◌↔◌, refl, sym, ap, ◌∙◌, arith, true, false, Bool,
}
use native.Mathlib.Nat
use zkfactorization.CryptoPp.{Curve}

pub record IsGroup (curve : Curve) : Type 0 where
  pub eq_iff : (a b : curve.Point) → (curve.eq a b ≡ true) ↔ (a ≡ b)
  pub order_big : 1 < curve.order
  pub multiply-multiply :
      (a b : ℕ)
      → curve.multiply a (curve.multiply b curve.generator) ≡ curve.multiply (a * b) curve.generator
  pub add-multiply :
      (a b : ℕ)
      → curve.add (curve.multiply a curve.generator) (curve.multiply b curve.generator)
        ≡ curve.multiply (a + b) curve.generator
  pub multiply-mod :
      (a : ℕ) → curve.multiply (a % curve.order) curve.generator ≡ curve.multiply a curve.generator
  pub multiply-order : curve.multiply curve.order curve.generator ≡ curve.identity
  pub multiply-ne :
      (a : ℕ) → 0 < a → a < curve.order → curve.multiply a curve.generator ≢ curve.identity
  pub x-negate :
      (a : ℕ)
      → 0 < a
      → a < curve.order
      → curve.x (curve.multiply (curve.order - a) curve.generator)
        ≡ curve.x (curve.multiply a curve.generator)
  pub invertible : (a : ℕ) → 0 < a → a < curve.order → (b : ℕ) × (a * b % curve.order ≡ 1)

module _ {curve : Curve} (group : IsGroup curve) where
  open curve use {multiply, generator, order, identity, eq}

  -- Factors with one residue give one point.
  pub multiply_cong :
      (a b : ℕ) → a % order ≡ b % order → multiply a generator ≡ multiply b generator
  multiply_cong a b h =
      sym (group.multiply-mod a) ∙ ap (λ (t : ℕ). multiply t generator) h ∙ group.multiply-mod b

  -- Every multiple of the base point has the group's order.
  pub order-multiply : (a : ℕ) → multiply order (multiply a generator) ≡ identity
  order-multiply a =
      group.multiply-multiply order a
      ∙ multiply_cong (order * a) order (Nat.mul-mod_right order a ∙ sym (Nat.mod_self order))
      ∙ group.multiply-order

  pub multiply_ne-identity : (a : ℕ) → a % order ≢ 0 → multiply a generator ≢ identity
  multiply_ne-identity a ne e =
      let big = group.order_big in
      group.multiply-ne (a % order) (omega arith) (Nat.mod-lt a (omega arith))
        (group.multiply-mod a ∙ e)

  pub eq_true : (a : curve.Point) → eq a a ≡ true
  eq_true a = (group.eq_iff a a).1 refl

  pub eq_false : (a b : curve.Point) → a ≢ b → eq a b ≡ false
  eq_false a b ne = decide_false (eq a b) (λ h. ne ((group.eq_iff a b).0 h))
    where
      decide_false : (t : Bool) → (t ≡ true → ⊥) → t ≡ false
      decide_false true h = absurd (h refl)
      decide_false false h = refl
