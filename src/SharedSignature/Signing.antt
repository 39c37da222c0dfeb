-- ===== src/SharedSignature/Signing.antt =====
-- The signature that the parties keep, the smaller one of s and n - s, passes the check.
use zkfactorization.Prelude.{
  ℕ, ◌+◌, ◌-◌, ◌*◌, ◌%◌, ◌<◌, ◌≡◌, ◌≢◌, ◌∙◌, arith, true, List, Bool-cases, inl, inr, ltb,
}
use zkfactorization.Prelude.Result.{ok}
use zkfactorization.CryptoPp.{Random, Codec, ModArith, Curve}
use zkfactorization.SharedSignature.Group.{IsGroup}
use zkfactorization.SharedSignature.Verify.{hash_m_to_int, verify}
use zkfactorization.SharedSignature.Parties.{low_s}
use zkfactorization.SharedSignature.Recover.{recovered_same, recovered_negated, verify_passes}

module _ (random : Random) (codec : Codec) (arithmetic : ModArith) {curve : Curve}
    (group : IsGroup curve) where
  open curve use {multiply, generator, order, x, byte_count}

  -- A signature that satisfies the equation of ECDSA for the secret key d and the nonce k, where k
  -- has an inverse l and the first coordinate r of the nonce's point is below the order and not 0,
  -- passes the check in the form that the seller keeps, the smaller one of s and n - s.
  pub verify-low_s :
      (d z r s k l : ℕ) (m : List ℕ)
      → k * l % order ≡ 1
      → hash_m_to_int codec m byte_count ≡ ok z
      → d % order ≢ 0
      → 0 < r
      → r < order
      → 0 < s
      → s < order
      → s * k % order ≡ (z + r * d) % order
      → x (multiply k generator) ≡ r
      → verify codec arithmetic curve
          (multiply d generator)
          m
          r
          (low_s random codec arithmetic curve s)
        ≡ ok true
  unfolding low_s
  verify-low_s d z r s k l m unit hash key r_pos r_lt s_pos s_lt value point =
      elim (Bool-cases (ltb (order - s) s)) [
        | inl big ↦ rw big (
            verify_passes codec arithmetic group d z r s k l unit m (order - s) hash key r_pos r_lt
              (omega arith) (omega arith)
              (recovered_negated codec arithmetic group d z r s k l unit s_pos s_lt value ∙ point))
        | inr small ↦ rw small (
            verify_passes codec arithmetic group d z r s k l unit m s hash key r_pos r_lt s_pos s_lt
              (recovered_same codec arithmetic group d z r s k l unit s_pos s_lt value ∙ point))
      ]
