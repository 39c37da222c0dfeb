-- ===== src/Prelude/Prime.antt =====
-- Primes, and Euclid's lemma from a greatest common divisor.
use native.Mathlib.Nat
use Prim.Native.Nat.{ℕ, zero, suc, ◌*◌, ◌/◌, ◌<◌, ◌∣◌}
use mathlib.Core.Path.{◌≡◌, sym, ap, subst, ◌∙◌}
use mathlib.Core.Logic.{◌≢◌, ◌⊎◌, inl, inr}
use native.Mathlib.Omega.{arith}

abbrev pub IsPrime : ℕ → Type 0
IsPrime p = (1 < p) × ((d : ℕ) → d ∣ p → (d ≡ 1) ⊎ (d ≡ p))

-- A common divisor that every other one divides.
pub record IsGcd (gcd : ℕ → ℕ → ℕ) : Type 0 where
  pub left : (a b : ℕ) → gcd a b ∣ a
  pub right : (a b : ℕ) → gcd a b ∣ b
  pub greatest : (a b d : ℕ) → d ∣ a → d ∣ b → d ∣ gcd a b

module _ {gcd : ℕ → ℕ → ℕ} (law : IsGcd gcd) where
  -- A factor in common can be taken out, as far as the product divides.
  coprime-cancel : (p a b : ℕ) → 0 < b → gcd p a ≡ 1 → p ∣ a * b → p ∣ b
  coprime-cancel p a b some_b one h =
      let d = gcd (p * b) (a * b) in
      let e = d / b in
      let d_eq : d ≡ b * e = sym (
        Nat.mul-div_cancel' b
          (law.greatest (p * b) (a * b) b (Nat.dvd-mul_left b p) (Nat.dvd-mul_left b a))) in
      let both : b * e ∣ p * b = subst (λ t. t ∣ p * b) d_eq (law.left (p * b) (a * b)) in
      let other : b * e ∣ a * b = subst (λ t. t ∣ a * b) d_eq (law.right (p * b) (a * b)) in
      let e_p : e ∣ p =
        Nat.dvd_of_mul-dvd-mul_left e some_b (subst (λ t. b * e ∣ t) (Nat.mul_comm p b) both) in
      let e_a : e ∣ a =
        Nat.dvd_of_mul-dvd-mul_left e some_b (subst (λ t. b * e ∣ t) (Nat.mul_comm a b) other) in
      let e_one : e ≡ 1 =
        Nat.eq-one_of_dvd-one (subst (λ t. e ∣ t) one (law.greatest p a e e_p e_a)) in
      subst (λ t. p ∣ t) (d_eq ∙ ap (λ (t : ℕ). b * t) e_one ∙ Nat.mul-one b)
        (law.greatest (p * b) (a * b) p (Nat.dvd-mul_right p b) h)

  pub euclid : (p a b : ℕ) → IsPrime p → p ∣ a * b → (p ∣ a) ⊎ (p ∣ b)
  euclid p a zero prime h = inr (Nat.dvd-zero p)
  euclid p a (suc b) prime h = elim (prime.1 (gcd p a) (law.left p a)) [
    | inl one ↦ inr (coprime-cancel p a (suc b) (omega arith) one h)
    | inr same ↦ inl (subst (λ t. t ∣ a) same (law.right p a))
  ]

  pub prime-divisor : (p q a : ℕ) → IsPrime p → IsPrime q → p ≢ q → p ∣ a → q ∣ a → p * q ∣ a
  prime-divisor p q a prime_p prime_q ne h_p h_q =
      let c = a / p in
      let a_eq : p * c ≡ a = Nat.mul-div_cancel' p h_p in
      elim (euclid q p c prime_q (subst (λ t. q ∣ t) (sym a_eq) h_q)) [
        | inl in_p ↦ elim (prime_p.1 q in_p) [
          | inl one ↦ absurd (omega (arith, prime_q.0))
          | inr same ↦ absurd (ne (sym same))
        ]
        | inr in_c ↦ subst (λ t. p * q ∣ t) a_eq (Nat.mul-dvd-mul_left q p in_c)
      ]

  gcd-prime : (p q a : ℕ) → IsPrime p → IsPrime q → p ∣ a → ¬ (p * q ∣ a) → gcd a (p * q) ≡ p
  gcd-prime p q a prime_p prime_q h_a misses =
      let g = gcd a (p * q) in
      let e = g / p in
      let g_eq : p * e ≡ g =
        Nat.mul-div_cancel' p (law.greatest a (p * q) p h_a (Nat.dvd-mul_right p q)) in
      let e_q : e ∣ q =
        Nat.dvd_of_mul-dvd-mul_left e (omega (arith, prime_p.0))
          (subst (λ t. t ∣ p * q) (sym g_eq) (law.right a (p * q))) in
      elim (prime_q.1 e e_q) [
        | inl one ↦ sym g_eq ∙ ap (λ (t : ℕ). p * t) one ∙ Nat.mul-one p
        | inr whole ↦ absurd (
            misses
              (subst (λ t. t ∣ a) (sym g_eq ∙ ap (λ (t : ℕ). p * t) whole) (law.left a (p * q))))
      ]

  -- Two numbers that hold the primes p and q only together have them as their common divisors with
  -- the product, in one order or the other.
  pub gcd-split :
      (p q a b : ℕ)
      → IsPrime p
      → IsPrime q
      → p ≢ q
      → p * q ∣ a * b
      → ¬ (p * q ∣ a)
      → ¬ (p * q ∣ b)
      → ((gcd a (p * q) ≡ p) × (gcd b (p * q) ≡ q)) ⊎ ((gcd a (p * q) ≡ q) × (gcd b (p * q) ≡ p))
  gcd-split p q a b prime_p prime_q ne h misses_a misses_b =
      let swap : p * q ≡ q * p = Nat.mul_comm p q in
      let at_q : (c : ℕ) → q ∣ c → ¬ (p * q ∣ c) → gcd c (p * q) ≡ q = λ c h_c misses.
        subst (λ t. gcd c t ≡ q) (sym swap)
          (gcd-prime q p c prime_q prime_p h_c
            (λ bad. misses (subst (λ t. t ∣ c) (sym swap) bad))) in
      let sides : (p ∣ a) ⊎ (p ∣ b) =
        euclid p a b prime_p (Nat.dvd_trans p (Nat.dvd-mul_right p q) h) in
      let others : (q ∣ a) ⊎ (q ∣ b) =
        euclid q a b prime_q (Nat.dvd_trans q (Nat.dvd-mul_left q p) h) in
      elim sides [
        | inl p_a ↦ elim others [
          | inl q_a ↦ absurd (misses_a (prime-divisor p q a prime_p prime_q ne p_a q_a))
          | inr q_b ↦ inl (gcd-prime p q a prime_p prime_q p_a misses_a, at_q b q_b misses_b)
        ]
        | inr p_b ↦ elim others [
          | inl q_a ↦ inr (at_q a q_a misses_a, gcd-prime p q b prime_p prime_q p_b misses_b)
          | inr q_b ↦ absurd (misses_b (prime-divisor p q b prime_p prime_q ne p_b q_b))
        ]
      ]
