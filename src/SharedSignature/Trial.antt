-- ===== src/SharedSignature/Trial.antt =====
-- The program shared_signature/ecdsa.cpp: ECDSA on the numbers of Crypto++, with the check that
-- `verify` of shared_sig.cpp makes, on a key pair and a nonce of its own.
use native.Mathlib.Nat
use zkfactorization.Prelude.{
  ℕ, ◌+◌, ◌*◌, ◌%◌, ◌<◌, ◌≤◌, ◌≡◌, ◌≢◌, ◌⊎◌, inl, inr, refl, sym, ap, ap₂, ◌∙◌, List, Bool, not,
  ◌||◌, ◌==◌, leb, ltb, if◌then◌else◌, Bool-cases, arith,
}
use zkfactorization.Prelude.Modular.{mul_cong}
use zkfactorization.Prelude.Result.{Run, ok, bind}
use zkfactorization.CryptoPp.{Random, Sha256, Codec, ModArith, Curve}
use zkfactorization.SharedSignature.Group.{
  IsGroup, multiply_ne-identity, order-multiply, eq_true, eq_false,
}
use zkfactorization.SharedSignature.Recover.{inverse_lem, recovered_same}
use zkfactorization.SharedSignature.Verify.{m_to_int, encode_signature, recovered}

-- What `main` prints at its end.
pub data Verdict : Type 0 where
  identity_key wrong_order incorrect_r incorrect_s : Verdict
  -- what the program's own check says, and what `VerifyMessage` says
  checked : Bool → Bool → Verdict

-- `verify_message` is the verifier of Crypto++, on a public key, a message and a signature.
module _ (random : Random) (codec : Codec) (sha : Sha256) (arithmetic : ModArith) (curve : Curve)
    (verify_message : curve.Point → List ℕ → List ℕ → Bool) where
  open random use {Rng, integer}
  open arithmetic use {inverse_mod}
  open curve use {Point, multiply, add, identity, eq, x, generator, order, byte_count}

  -- r and s of the secret key `da`, the number `z` and the nonce `k`
  unfoldable pub sign : ℕ → ℕ → ℕ → ℕ × ℕ
  sign da z k =
      let r = x (multiply k generator) % order in (r, inverse_mod k order * (z + r * da) % order)

  unfoldable pub check : Point → List ℕ → ℕ → ℕ → ℕ → Verdict
  unfolding encode_signature
  check qa message z r s =
      if eq qa identity
      then identity_key
      else if not (eq (multiply order qa) identity)
      then wrong_order
      else if leb r 0 || leb order r
      then incorrect_r
      else if leb s 0 || leb order s
      then incorrect_s
      else let w = inverse_mod s order in
        let p2 = add (multiply (z * w % order) generator) (multiply (r * w % order) qa) in
        checked (x p2 == r) (verify_message qa message (encode_signature codec r s))

  unfoldable pub trial : List ℕ → Run Rng Verdict
  unfolding sign check m_to_int
  trial message rng =
      let (da, rng₁) = integer 1 order rng in
      bind (m_to_int codec sha message byte_count) λ z.
        let (k, rng₂) = integer 1 order rng₁ in
        let (r, s) = sign da z k in ok (check (multiply da generator) message z r s, rng₂)

  module _ (group : IsGroup curve) where
    n_big : 1 < order
    n_big = group.order_big

    -- The equation of ECDSA.
    sign-value :
        (da z k : ℕ)
        → 0 < k
        → k < order
        → (sign da z k).1 * k % order ≡ (z + (sign da z k).0 * da) % order
    unfolding sign
    sign-value da z k pos lt =
        let w = z + x (multiply k generator) % order * da in
        let inv = inverse_mod k order in
        let regroup : inv * w * k ≡ k * inv * w = omega arith in
        mul_cong (inv * w % order) (inv * w) k k order (Nat.mod-mod (inv * w) order) refl
        ∙ ap (λ (t : ℕ). t % order) regroup
        ∙ mul_cong (k * inv) 1 w w order
            (inverse_lem codec arithmetic group k pos lt ∙ sym (Nat.mod-eq_of_lt n_big)) refl
        ∙ ap (λ (t : ℕ). t % order) (Nat.one-mul w)

    -- What is its own remainder.
    reduced : (point : ℕ) → (point == point % order) ≡ ltb point order
    reduced point =
        let big = n_big in
        let least = Nat.mod-lt point {m = order} (omega arith) in
        elim (Bool-cases (ltb point order)) [
          | inl lt ↦
              let small : point < order = ground arith in
              let same = Nat.mod-eq_of_lt small in ground arith
          | inr ge ↦ ground arith
        ]

    sign-r : (da z k : ℕ) → (sign da z k).0 ≡ x (multiply k generator) % order
    unfolding sign
    sign-r da z k = refl

    sign-lt : (da z k : ℕ) → ((sign da z k).0 < order) × ((sign da z k).1 < order)
    unfolding sign
    sign-lt da z k = let big = n_big in (Nat.mod-lt _ (omega arith), Nat.mod-lt _ (omega arith))

    -- The point of the check is that of the nonce, in its first coordinate.
    check-point :
        (da z k : ℕ)
        → 0 < k
        → k < order
        → 0 < (sign da z k).1
        → let (r, s) = sign da z k in
          let w = inverse_mod s order in
          x (
            add
              (multiply (z * w % order) generator)
              (multiply (r * w % order) (multiply da generator)))
          ≡ x (multiply k generator)
    unfolding recovered
    check-point da z k pos lt s_pos =
        let (r, s) = sign da z k in
        let w = inverse_mod s order in
        let big = n_big in
        let some : 0 < order = omega arith in
        ap x (
          ap₂ (λ a b. add (multiply a generator) (multiply b (multiply da generator)))
            (sym (arithmetic.times_eq z w order some)) (sym (arithmetic.times_eq r w order some)))
        ∙ recovered_same codec arithmetic group da z r s k (inverse_mod k order)
            (inverse_lem codec arithmetic group k pos lt) s_pos (sign-lt da z k).1
            (sign-value da z k pos lt)

    check-sign :
        (da z k : ℕ) (message : List ℕ)
        → 0 < da
        → da ≤ order
        → 0 < k
        → k < order
        → let (r, s) = sign da z k in
          let q = multiply da generator in
          let point = x (multiply k generator) in
          let said = check q message z r s in
          ((da ≡ order) × (said ≡ identity_key))
          ⊎ ((point % order ≡ 0) × (said ≡ incorrect_r))
          ⊎ ((s ≡ 0) × (said ≡ incorrect_s))
          ⊎ (said
              ≡ checked (ltb point order) (verify_message q message (encode_signature codec r s)))
    unfolding check
    check-sign da z k message da_pos da_le pos lt =
        let (r, s) = sign da z k in
        let q = multiply da generator in
        let point = x (multiply k generator) in
        let (r_lt, s_lt) = sign-lt da z k in
        let of_order = ap (λ p. eq p identity) (order-multiply group da) ∙ eq_true group identity in
        elim (Bool-cases (da == order)) [
          | inl same ↦
              let e : da ≡ order = ground arith in
              let none : q ≡ identity =
                ap (λ (t : ℕ). multiply t generator) e ∙ group.multiply-order in
              inl (e, rw none (rw (eq_true group identity) refl))
          | inr differs ↦
              let small : da % order ≢ 0 = λ zero.
                let lt : da < order = ground arith in
                let kept = Nat.mod-eq_of_lt lt in omega arith in
              let key = eq_false group q identity (multiply_ne-identity group da small) in
              elim (Bool-cases (r == 0)) [
                | inl zero ↦
                    inr (inl (sym (sign-r da z k) ∙ ground arith, ground (arith, key, of_order)))
                | inr r_some ↦ elim (Bool-cases (s == 0)) [
                  | inl zero ↦ inr (inr (inl (ground arith, ground (arith, key, of_order))))
                  | inr s_some ↦
                      let same = check-point da z k pos lt (ground arith) in
                      inr (
                        inr
                          (inr (ground (arith, key, of_order, same, sign-r da z k, reduced point))))
                ]
              ]
        ]

    -- On a curve whose points are the multiples of the base point, in a group of prime order, where the
    -- number z of the message can be read and the nonce that is drawn is not the order, the program ends
    -- in one of four ways: its key is the order and the key's point the identity; r is 0;
    -- s is 0; or its own check says whether the first coordinate of the nonce's point is below the
    -- order, next to what Crypto++ says. It never finds the key's point to have another order.
    pub trial_cases :
        (message : List ℕ) (z : ℕ) (rng : Rng)
        → m_to_int codec sha message byte_count ≡ ok z
        → (integer 1 order (integer 1 order rng).1).0 ≢ order
        → let (da, rng₁) = integer 1 order rng in
          let (k, rng₂) = integer 1 order rng₁ in
          let (r, s) = sign da z k in
          let q = multiply da generator in
          let point = x (multiply k generator) in
          (said : Verdict) × (trial message rng ≡ ok (said, rng₂))
          × (((da ≡ order) × (said ≡ identity_key))
              ⊎ ((point % order ≡ 0) × (said ≡ incorrect_r))
              ⊎ ((s ≡ 0) × (said ≡ incorrect_s))
              ⊎ (said
                  ≡ checked
                      (ltb point order)
                      (verify_message q message (encode_signature codec r s))))
    unfolding trial
    trial_cases message z rng reads differs =
        let big = n_big in
        let (da, rng₁) = integer 1 order rng in
        let (k, rng₂) = integer 1 order rng₁ in
        let (da_pos, da_le) = random.integer_range 1 order rng (omega arith) in
        let (k_pos, k_le) = random.integer_range 1 order rng₁ (omega arith) in
        (
          _,
          rw reads refl,
          check-sign da z k message (omega arith) da_le (omega arith) (omega arith),
        )
