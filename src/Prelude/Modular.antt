-- ===== src/Prelude/Modular.antt =====
-- Residues, powers and divisibility over the native numbers.
use Prim.Native.Nat.{ℕ, zero, suc, ◌+◌, ◌-◌, ◌*◌, ◌/◌, ◌%◌, ◌^◌, ◌≤◌}
use mathlib.Core.Path.{◌≡◌, refl, sym, ap, ap₂, ◌∙◌, ◌≡⟨◌⟩◌, ◌∎}
use native.Mathlib.Nat
use native.Mathlib.Decide.{dec_le}
use native.Mathlib.Omega.{arith}

pub mod-mul-mod : (a b n : ℕ) → a % n * b % n ≡ a * b % n
mod-mul-mod a b n = sym (
    a * b % n
    ≡⟨ ap (λ (t : ℕ). t * b % n) (sym (Nat.div-add-mod a n)) ⟩ (n * (a / n) + a % n) * b % n
    ≡⟨ ap (λ (t : ℕ). t % n) (Nat.add-mul (n * (a / n)) (a % n) b) ⟩
      (n * (a / n) * b + a % n * b) % n
    ≡⟨ ap (λ (t : ℕ). (t + a % n * b) % n) (Nat.mul_assoc n (a / n) b) ⟩
      (n * (a / n * b) + a % n * b) % n
    ≡⟨ Nat.mul-add-mod_self_left n (a / n * b) (a % n * b) ⟩ a % n * b % n ∎)

pub mul-mod-mod : (a b n : ℕ) → a * (b % n) % n ≡ a * b % n
mul-mod-mod a b n = rw (Nat.mul_comm a (b % n), mod-mul-mod b a n, Nat.mul_comm b a)

pub mod-mul : (a b n : ℕ) → a % n * (b % n) % n ≡ a * b % n
mod-mul a b n = mod-mul-mod a (b % n) n ∙ mul-mod-mod a b n

-- Equal residues multiply to equal residues.
pub mul_cong : (a b c d n : ℕ) → a % n ≡ b % n → c % n ≡ d % n → a * c % n ≡ b * d % n
mul_cong a b c d n p q = sym (mod-mul a c n) ∙ ap₂ (λ (x y : ℕ). x * y % n) p q ∙ mod-mul b d n

pub add_cong : (a b c d n : ℕ) → a % n ≡ b % n → c % n ≡ d % n → (a + c) % n ≡ (b + d) % n
add_cong a b c d n p q =
    Nat.add-mod a c n ∙ ap₂ (λ (x y : ℕ). (x + y) % n) p q ∙ sym (Nat.add-mod b d n)

pub pow_cong : (a b k n : ℕ) → a % n ≡ b % n → a ^ k % n ≡ b ^ k % n
pow_cong a b zero n p = rw (Nat.pow-zero a, Nat.pow-zero b)
pow_cong a b (suc k) n p =
    rw (Nat.pow-suc a k, Nat.pow-suc b k) (mul_cong (a ^ k) (b ^ k) a b n (pow_cong a b k n p) p)

pub mod-pow-mod : (a k n : ℕ) → (a % n) ^ k % n ≡ a ^ k % n
mod-pow-mod a k n = pow_cong (a % n) a k n (Nat.mod-mod a n)

pub pow-add : (a m k : ℕ) → a ^ (m + k) ≡ a ^ m * a ^ k
pow-add a m zero = rw (Nat.add-zero m, Nat.pow-zero a) (sym (Nat.mul-one (a ^ m)))
pow-add a m (suc k) =
    rw (Nat.add-suc m k, Nat.pow-suc a (m + k), pow-add a m k, Nat.pow-suc a k)
      (Nat.mul_assoc (a ^ m) (a ^ k) a)

pub pow-mul : (a m k : ℕ) → a ^ (m * k) ≡ (a ^ m) ^ k
pow-mul a m zero = rw (Nat.mul-zero m, Nat.pow-zero a, Nat.pow-zero (a ^ m))
pow-mul a m (suc k) =
    rw (Nat.mul-suc m k, pow-add a (m * k) m, pow-mul a m k, Nat.pow-suc (a ^ m) k)

pub one-pow : (k : ℕ) → 1 ^ k ≡ 1
one-pow zero = refl
one-pow (suc k) = rw (Nat.pow-suc 1 k, one-pow k)

pub mul-pow : (a b k : ℕ) → (a * b) ^ k ≡ a ^ k * b ^ k
mul-pow a b zero = rw (Nat.pow-zero (a * b), Nat.pow-zero a, Nat.pow-zero b)
mul-pow a b (suc k) =
    rw (Nat.pow-suc (a * b) k, mul-pow a b k, Nat.pow-suc a k, Nat.pow-suc b k)
      (Nat.mul-mul-mul_comm (a ^ k) (b ^ k) a b)

-- Exponents may be taken modulo a period of the base.
pub pow_period : (a e period n : ℕ) → a ^ period % n ≡ 1 % n → a ^ (e % period) % n ≡ a ^ e % n
pow_period a e period n h = sym (
    a ^ e % n
    ≡⟨ ap (λ (t : ℕ). a ^ t % n) (sym (Nat.div-add-mod e period)) ⟩
      a ^ (period * (e / period) + e % period) % n
    ≡⟨ ap (λ (t : ℕ). t % n) (pow-add a (period * (e / period)) (e % period)) ⟩
      a ^ (period * (e / period)) * a ^ (e % period) % n
    ≡⟨ mul_cong (a ^ (period * (e / period))) 1 (a ^ (e % period)) (a ^ (e % period)) n turns refl ⟩
      1 * a ^ (e % period) % n
    ≡⟨ ap (λ (t : ℕ). t % n) (Nat.one-mul (a ^ (e % period))) ⟩ a ^ (e % period) % n ∎)
  where
    turns : a ^ (period * (e / period)) % n ≡ 1 % n
    turns =
        ap (λ (t : ℕ). t % n) (pow-mul a period (e / period))
        ∙ pow_cong (a ^ period) 1 (e / period) n h
        ∙ ap (λ (t : ℕ). t % n) (one-pow (e / period))

-- Numbers with one residue differ by a multiple.
multiple_of_cong : (x y n : ℕ) → x ≤ y → x % n ≡ y % n → (k : ℕ) × (y ≡ x + n * k)
multiple_of_cong x y n le h = (
  y / n - x / n,
  omega (arith, h, Nat.mul-sub n (y / n) (x / n), Nat.div-add-mod x n, Nat.div-add-mod y n),
)

-- A congruence modulo two numbers is one modulo their product, where the first has an inverse modulo
-- the second.
mod_product_le :
    (x y p q u : ℕ)
    → x ≤ y
    → p * u % q ≡ 1 % q
    → x % p ≡ y % p
    → x % q ≡ y % q
    → x % (p * q) ≡ y % (p * q)
mod_product_le x y p q u le inv hp hq =
    let (k, y_eq) = multiple_of_cong x y p le hp in
    let (l, y_eq') = multiple_of_cong x y q le hq in
    let same : p * k ≡ q * l = omega arith in
    let regroup : p * u * k ≡ q * (u * l) =
      ap (λ (t : ℕ). t * k) (Nat.mul_comm p u)
      ∙ Nat.mul_assoc u p k
      ∙ ap (λ (t : ℕ). u * t) same
      ∙ Nat.mul_left_comm u q l in
    let vanish : k % q ≡ 0 =
      ap (λ (t : ℕ). t % q) (sym (Nat.one-mul k))
      ∙ sym (mul_cong (p * u) 1 k k q inv refl)
      ∙ ap (λ (t : ℕ). t % q) regroup
      ∙ Nat.mul-mod_right q (u * l) in
    let k_eq : k ≡ q * (k / q) = omega (arith, Nat.div-add-mod k q) in
    sym (
      ap (λ (t : ℕ). t % (p * q))
        (y_eq
          ∙ ap (λ (t : ℕ). x + p * t) k_eq
          ∙ ap (λ (t : ℕ). x + t) (sym (Nat.mul_assoc p q (k / q))))
      ∙ Nat.add-mul-mod_self_left x (p * q) (k / q))

pub mod_product :
    (x y p q u : ℕ) → p * u % q ≡ 1 % q → x % p ≡ y % p → x % q ≡ y % q → x % (p * q) ≡ y % (p * q)
mod_product x y p q u inv hp hq = elim (dec_le x y) [
  | yes le ↦ mod_product_le x y p q u le inv hp hq
  | no gt ↦ sym (mod_product_le y x p q u (omega arith) inv (sym hp) (sym hq))
]
