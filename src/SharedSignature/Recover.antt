-- ===== src/SharedSignature/Recover.antt =====
-- The check of a signature accepts what the equation of ECDSA gives, and its negative.
use native.Mathlib.Nat
use zkfactorization.Prelude.{
  ℕ, ◌+◌, ◌-◌, ◌*◌, ◌%◌, ◌<◌, ◌≡◌, ◌≢◌, sym, ap, ap₂, ◌∙◌, arith, true, List,
}
use zkfactorization.Prelude.Result.{ok}
use zkfactorization.CryptoPp.{Codec, ModArith, Curve}
use zkfactorization.SharedSignature.Equations.{factor, factor_same, factor_negated, unit-ne-zero}
use zkfactorization.SharedSignature.Group.{
  IsGroup, multiply_cong, order-multiply, multiply_ne-identity, eq_true, eq_false,
}
use zkfactorization.SharedSignature.Verify.{hash_m_to_int, recovered, verify}

module _ (codec : Codec) (arithmetic : ModArith) {curve : Curve} (group : IsGroup curve) where
  open curve use {multiply, generator, order, identity, eq, x, byte_count}
  open arithmetic use {a_times_b_mod_c, inverse_mod, times_eq, inverse_eq}

  n_big : 1 < order
  n_big = group.order_big

  pub inverse_lem : (a : ℕ) → 0 < a → a < order → a * inverse_mod a order % order ≡ 1
  inverse_lem a h lt = let (b, e) = group.invertible a h lt in inverse_eq a b order n_big e

  module _ (d z r s k l : ℕ) (unit : k * l % order ≡ 1) where
    -- The recovered point, as a multiple of the base point.
    recovered_eq :
        (q s' : ℕ)
        → (value : q * k % order ≡ (z + r * d) % order)
        → recovered codec arithmetic curve (multiply d generator) z r s'
          ≡ multiply (factor order n_big z r d (inverse_mod s' order) q k value) generator
    unfolding recovered factor
    recovered_eq q s' value =
        let w = inverse_mod s' order in
        let pos : 0 < order = le_trans_pos in
        ap₂ (λ a b. curve.add (multiply a generator) (multiply b (multiply d generator)))
          (times_eq z w order pos) (times_eq r w order pos)
        ∙ ap (curve.add (multiply (z * w % order) generator))
            (group.multiply-multiply (r * w % order) d)
        ∙ group.add-multiply (z * w % order) (r * w % order * d)
      where
        le_trans_pos : 0 < order
        le_trans_pos = let big = n_big in omega arith

    -- The signature that the equation gives recovers the point of the nonce.
    pub recovered_same :
        0 < s
        → s < order
        → s * k % order ≡ (z + r * d) % order
        → x (recovered codec arithmetic curve (multiply d generator) z r s)
          ≡ x (multiply k generator)
    recovered_same pos lt value = ap x (
        recovered_eq s s value
        ∙ multiply_cong group _ k
            (factor_same order n_big z r d (inverse_mod s order) s k value (inverse_lem s pos lt)))

    -- Its negative recovers a point with the same first coordinate.
    pub recovered_negated :
        0 < s
        → s < order
        → s * k % order ≡ (z + r * d) % order
        → x (recovered codec arithmetic curve (multiply d generator) z r (order - s))
          ≡ x (multiply k generator)
    recovered_negated pos lt value =
        let ne = unit-ne-zero order n_big k l unit in
        let big = n_big in
        let below = Nat.mod-lt k {m = order} (omega arith) in
        let w = inverse_mod (order - s) order in
        let inv : (order - s) * w % order ≡ 1 =
          inverse_lem (order - s) (omega arith) (omega arith) in
        let e = factor_negated order n_big z r d w s k value (omega arith) inv ne in
        ap x (
          recovered_eq s (order - s) value
          ∙ sym (group.multiply-mod _)
          ∙ ap (λ (t : ℕ). multiply t generator) e)
        ∙ group.x-negate (k % order) (omega arith) below
        ∙ ap x (group.multiply-mod k)

    -- Both are accepted for the public key, where the nonce's first coordinate is below the order.
    pub verify_passes :
        (m : List ℕ) (s' : ℕ)
        → hash_m_to_int codec m byte_count ≡ ok z
        → d % order ≢ 0
        → 0 < r
        → r < order
        → 0 < s'
        → s' < order
        → x (recovered codec arithmetic curve (multiply d generator) z r s') ≡ r
        → verify codec arithmetic curve (multiply d generator) m r s' ≡ ok true
    unfolding verify
    verify_passes m s' hash key r_pos r_lt s_pos s_lt point =
        let q = multiply d generator in
        rw hash (
          ground (
            arith,
            eq_false group q identity (multiply_ne-identity group d key),
            ap (λ p. eq p identity) (order-multiply group d),
            eq_true group identity,
            point,
          ))
