-- ===== src/SellInformation/OnlyRoots.antt =====
-- A root of a square that is at most half of n is one of the two that the seller finds.
use native.Mathlib.Nat
use Prim.Native.Nat.{◌∣◌}
use zkfactorization.Prelude.{
  ℕ, ◌+◌, ◌-◌, ◌*◌, ◌%◌, ◌<◌, ◌≡◌, ◌≢◌, ◌⊎◌, inl, inr, ap, subst, ◌∙◌, ◌==◌, ==_iff, Bool-cases,
  leb, arith,
}
use zkfactorization.Prelude.Int.{ℤ, pos}
use zkfactorization.Prelude.Prime.{IsPrime, IsGcd, prime-divisor}
use zkfactorization.CryptoPp.{Codec, Ecb}
use zkfactorization.SquareRoot.Opposite.{Apart}
use zkfactorization.SellInformation.Split.{misses, gcds-IsSplit}

-- A divisor of two numbers divides their difference.
divides_rest : (d x y z : ℕ) → d ∣ x → d ∣ y → y + z ≡ x → d ∣ z
divides_rest d x y z h k e =
    let same : x - y ≡ z = omega arith in subst (λ t. d ∣ t) same (Nat.dvd-sub d h k)

module _ (codec : Codec) (ecb : Ecb) (gcd : ℤ → ℤ → ℕ) (p q : ℕ)
    (law : IsGcd (λ a b. gcd (pos a) (pos b))) (prime_p : IsPrime p) (prime_q : IsPrime q)
    (ne : p ≢ q) where
  -- One prime divides the difference of two roots, the other one their sum.
  abbrev Sides : ℕ → ℕ → Type 0
  Sides a b = (p ∣ (p * q + a - b)) × (q ∣ (a + b)) ⊎ (q ∣ (p * q + a - b)) × (p ∣ (a + b))

  never : (a : ℕ) → 0 < a → a < p * q → p ∣ a → q ∣ a → ⊥
  never a some_a lt h_p h_q =
      misses codec ecb gcd p q law prime_p prime_q ne a some_a (λ e. omega arith) (omega arith)
        (prime-divisor law p q a prime_p prime_q ne h_p h_q)

  Apart-Sides : (a b : ℕ) → Apart (p * q) a b → Sides a b
  Apart-Sides a b apart =
      let shifted = p * q + a - b in
      let left = law.left shifted (p * q) in
      let right = law.left (a + b) (p * q) in
      elim (gcds-IsSplit codec ecb gcd p q law prime_p prime_q ne a b apart) [
        | inl e ↦ inl (
          subst (λ t. t ∣ shifted) (ap (λ (t : ℕ × ℕ). t.0) e) left,
          subst (λ t. t ∣ (a + b)) (ap (λ (t : ℕ × ℕ). t.1) e) right,
        )
        | inr e ↦ inr (
          subst (λ t. t ∣ shifted) (ap (λ (t : ℕ × ℕ). t.0) e) left,
          subst (λ t. t ∣ (a + b)) (ap (λ (t : ℕ × ℕ). t.1) e) right,
        )
      ]

  same_side :
      (r s x a b : ℕ)
      → ((c : ℕ) → 0 < c → c < p * q → r ∣ c → s ∣ c → ⊥)
      → x + a < p * q
      → x + b < p * q
      → a ≢ b
      → r ∣ (p * q + x - a)
      → s ∣ (x + a)
      → r ∣ (p * q + x - b)
      → s ∣ (x + b)
      → ⊥
  same_side r s x a b spared a_lt b_lt differ ra sa rb sb = elim (Bool-cases (leb a b)) [
    | inl le ↦
        spared (b - a) (ground arith) (omega arith)
          (divides_rest r (p * q + x - a) (p * q + x - b) (b - a) ra rb (ground arith))
          (divides_rest s (x + b) (x + a) (b - a) sb sa (ground arith))
    | inr gt ↦
        spared (a - b) (ground arith) (omega arith)
          (divides_rest r (p * q + x - b) (p * q + x - a) (a - b) rb ra (ground arith))
          (divides_rest s (x + a) (x + b) (a - b) sa sb (ground arith))
  ]

  other_side :
      (r s x a b : ℕ)
      → ((c : ℕ) → 0 < c → c < p * q → r ∣ c → s ∣ c → ⊥)
      → (r ∣ (p * q)) × (s ∣ (p * q))
      → x + a < p * q
      → x + b < p * q
      → a + b < p * q
      → a ≢ b
      → r ∣ (p * q + x - a)
      → s ∣ (x + a)
      → s ∣ (p * q + x - b)
      → r ∣ (x + b)
      → ⊥
  other_side r s x a b spared (whole_r, whole_s) a_lt b_lt lt differ ra sa sb rb =
      spared (a + b) (omega arith) lt
        (divides_rest r (p * q + (x + b)) (p * q + x - a) (a + b) (Nat.dvd-add r whole_r rb) ra
          (omega arith))
        (divides_rest s (p * q + (x + a)) (p * q + x - b) (a + b) (Nat.dvd-add s whole_s sa) sb
          (omega arith))

  -- A root that is less than half of n is one of two roots that are apart and less than half of n.
  pub one_of_two :
      (a b x : ℕ)
      → Apart (p * q) a b
      → x * x % (p * q) ≡ a * a % (p * q)
      → x + x < p * q
      → a + a < p * q
      → b + b < p * q
      → (x ≡ a) ⊎ (x ≡ b)
  one_of_two a b x apart root x_half a_half b_half =
      let differ = apart.differ in
      let whole : (p ∣ (p * q)) × (q ∣ (p * q)) = (Nat.dvd-mul_right p q, Nat.dvd-mul_left q p) in
      let swapped : (q ∣ (p * q)) × (p ∣ (p * q)) = (whole.1, whole.0) in
      let never_too : (c : ℕ) → 0 < c → c < p * q → q ∣ c → p ∣ c → ⊥ =
        λ c some_c lt h k. never c some_c lt k h in
      elim (Bool-cases (x == a)) [
        | inl e ↦ inl ((==_iff x a).0 e)
        | inr not_a ↦ elim (Bool-cases (x == b)) [
          | inl e ↦ inr ((==_iff x b).0 e)
          | inr not_b ↦
              let apart_a : Apart (p * q) x a = record {
                same_square = root;
                differ = ground arith;
                small = omega arith;
              } in
              let apart_b : Apart (p * q) x b = record {
                same_square = root ∙ apart.same_square;
                differ = ground arith;
                small = omega arith;
              } in
              let low_a = apart_a.small in
              let low_b = apart_b.small in
              let low = apart.small in
              absurd (elim (Apart-Sides x a apart_a) [
                | inl (pa, qa) ↦ elim (Apart-Sides x b apart_b) [
                  | inl (pb, qb) ↦ same_side p q x a b never low_a low_b differ pa qa pb qb
                  | inr (qb, pb) ↦
                      other_side p q x a b never whole low_a low_b low differ pa qa qb pb
                ]
                | inr (qa, pa) ↦ elim (Apart-Sides x b apart_b) [
                  | inl (pb, qb) ↦
                      other_side q p x a b never_too swapped low_a low_b low differ qa pa pb qb
                  | inr (qb, pb) ↦ same_side q p x a b never_too low_a low_b differ qa pa qb pb
                ]
              ])
        ]
      ]
