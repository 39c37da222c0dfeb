-- ===== src/SharedSignature/Equations.antt =====
-- The equations of a two-party ECDSA signature modulo the order of the curve's group.
use native.Mathlib.Nat
use zkfactorization.Prelude.{ℕ, ◌+◌, ◌-◌, ◌*◌, ◌%◌, ◌≤◌, ◌<◌, ◌≡◌, ◌≢◌, refl, sym, ap, ◌∙◌, arith}
use zkfactorization.Prelude.Modular.{mul_cong, add_cong}

module _ (n : ℕ) (big : 1 < n) where
  -- What has an inverse is not 0.
  pub unit-ne-zero : (a b : ℕ) → a * b % n ≡ 1 → a % n ≢ 0
  unit-ne-zero a b inv zero_mod =
      let vanish : a * b % n ≡ 0 =
        mul_cong a 0 b b n (zero_mod ∙ sym (Nat.zero-mod n)) refl
        ∙ ap (λ (t : ℕ). t % n) (Nat.zero-mul b)
        ∙ Nat.zero-mod n in
      absurd (omega arith)

  one_mod : 1 % n ≡ 1
  one_mod = Nat.mod-eq_of_lt big

  pub unit-mul : (a b c d : ℕ) → a * b % n ≡ 1 → c * d % n ≡ 1 → a * c * (b * d) % n ≡ 1
  unit-mul a b c d p q =
      ap (λ (t : ℕ). t % n) (Nat.mul-mul-mul_comm a c b d)
      ∙ mul_cong (a * b) 1 (c * d) 1 n (p ∙ sym one_mod) (q ∙ sym one_mod)
      ∙ one_mod

  complement : (a b : ℕ) → a < n → b < n → b ≢ 0 → (a + b) % n ≡ 0 → a ≡ n - b
  complement a b ha hb ne h = grind arith

  -- The half signature that the buyer encrypts: with the buyer's nonce taken off, the number of the
  -- message and the secret keys.
  half_value :
      (kb ikb hi r ds db u : ℕ)
      → (ikb * hi % n + ds * (ikb * r % n * db % n) + u * n) % n ≡ ikb * (hi + r * (ds * db)) % n
  half_value kb ikb hi r ds db u =
      Nat.add-mul-mod_self_right (ikb * hi % n + ds * (ikb * r % n * db % n)) u n
      ∙ add_cong (ikb * hi % n) (ikb * hi) (ds * (ikb * r % n * db % n)) (ds * (ikb * r * db)) n
          (Nat.mod-mod (ikb * hi) n)
          (mul_cong ds ds (ikb * r % n * db % n) (ikb * r * db) n refl (
            Nat.mod-mod (ikb * r % n * db) n
            ∙ mul_cong (ikb * r % n) (ikb * r) db db n (Nat.mod-mod (ikb * r) n) refl))
      ∙ ap (λ (t : ℕ). t % n) regroup
    where
      regroup : ikb * hi + ds * (ikb * r * db) ≡ ikb * (hi + r * (ds * db))
      regroup = omega arith

  -- The signature times both nonces is what ECDSA asks for.
  pub signature_value :
      (ks iks kb ikb hi r ds db u : ℕ)
      → ks * iks % n ≡ 1
      → kb * ikb % n ≡ 1
      → let m = ikb * hi % n + ds * (ikb * r % n * db % n) + u * n in
        iks * (m % n) % n * (kb * ks) % n ≡ (hi + r * (ds * db)) % n
  signature_value ks iks kb ikb hi r ds db u ps pb =
      let m = ikb * hi % n + ds * (ikb * r % n * db % n) + u * n in
      let w = hi + r * (ds * db) in
      let left : iks * (m % n) % n % n ≡ iks * (ikb * w) % n =
        Nat.mod-mod (iks * (m % n)) n
        ∙ mul_cong iks iks (m % n) (ikb * w) n refl
            (Nat.mod-mod m n ∙ half_value kb ikb hi r ds db u) in
      let regroup : iks * (ikb * w) * (kb * ks) ≡ ks * iks * (kb * ikb) * w = omega arith in
      let unit : ks * iks * (kb * ikb) % n ≡ 1 % n =
        mul_cong (ks * iks) 1 (kb * ikb) 1 n (ps ∙ sym one_mod) (pb ∙ sym one_mod) in
      mul_cong (iks * (m % n) % n) (iks * (ikb * w)) (kb * ks) (kb * ks) n left refl
      ∙ ap (λ (t : ℕ). t % n) regroup
      ∙ mul_cong (ks * iks * (kb * ikb)) 1 w w n unit refl
      ∙ ap (λ (t : ℕ). t % n) (Nat.one-mul w)

  -- The factor of the point that the check recovers, for a signature and for its negative.
  module _ (z r d w s k : ℕ) (value : s * k % n ≡ (z + r * d) % n) where
    unfoldable pub factor : ℕ
    factor = z * w % n + r * w % n * d

    factor_value : factor % n ≡ w * (s * k) % n
    unfolding factor
    factor_value =
        add_cong (z * w % n) (z * w) (r * w % n * d) (r * w * d) n (Nat.mod-mod (z * w) n)
          (mul_cong (r * w % n) (r * w) d d n (Nat.mod-mod (r * w) n) refl)
        ∙ ap (λ (t : ℕ). t % n) regroup
        ∙ mul_cong w w (z + r * d) (s * k) n refl (sym value)
      where
        regroup : z * w + r * w * d ≡ w * (z + r * d)
        regroup = omega arith

    pub factor_same : s * w % n ≡ 1 → factor % n ≡ k % n
    factor_same inv =
        let regroup : w * (s * k) ≡ s * w * k = omega arith in
        factor_value
        ∙ ap (λ (t : ℕ). t % n) regroup
        ∙ mul_cong (s * w) 1 k k n (inv ∙ sym one_mod) refl
        ∙ ap (λ (t : ℕ). t % n) (Nat.one-mul k)

    pub factor_negated : s ≤ n → (n - s) * w % n ≡ 1 → k % n ≢ 0 → factor % n ≡ n - k % n
    factor_negated le inv ne =
        complement (factor % n) (k % n) (Nat.mod-lt factor (omega arith))
          (Nat.mod-lt k (omega arith)) ne (sym (Nat.add-mod factor k n) ∙ cancel)
      where
        split : n ≡ s + (n - s)
        split = omega arith

        cross : (t : ℕ) → w * (s * k) + t * w * k ≡ (s + t) * (w * k)
        cross t = omega arith

        cancel : (factor + k) % n ≡ 0
        cancel =
            add_cong factor (w * (s * k)) k ((n - s) * w * k) n factor_value (
              ap (λ (t : ℕ). t % n) (sym (Nat.one-mul k))
              ∙ sym (mul_cong ((n - s) * w) 1 k k n (inv ∙ sym one_mod) refl))
            ∙ ap (λ (t : ℕ). t % n) (cross (n - s) ∙ ap (λ (t : ℕ). t * (w * k)) (sym split))
            ∙ Nat.mul-mod_right n (w * k)
