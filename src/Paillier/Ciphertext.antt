-- ===== src/Paillier/Ciphertext.antt =====
-- Keys and ciphertexts: products and powers of ciphertexts encrypt sums and products.
use native.Mathlib.Nat
use zkfactorization.Prelude.{
  ℕ, zero, suc, ◌+◌, ◌-◌, ◌*◌, ◌/◌, ◌%◌, ◌^◌, ◌<◌, ◌≡◌, refl, sym, ap, ap₂, ◌∙◌, arith,
}
use zkfactorization.Prelude.Int.{pos}
use zkfactorization.Prelude.Modular.{
  mul_cong, pow_cong, mod-mul, mod-pow-mod, pow-mul, pow-add, mul-pow, one-pow,
}
use zkfactorization.Paillier.{Paillier}

pub zero_pow : (k : ℕ) → 0 < k → 0 ^ k ≡ 0
zero_pow zero h = absurd (omega arith)
zero_pow (suc k) h = Nat.pow-suc 0 k ∙ Nat.mul-zero (0 ^ k)

-- Powers of n + 1 modulo n * n are linear in the exponent.
pub pow_linear : (n k : ℕ) → (n + 1) ^ k % (n * n) ≡ (1 + k * n) % (n * n)
pow_linear n zero = ap (λ (t : ℕ). t % (n * n)) (Nat.pow-zero (n + 1) ∙ omega arith)
pow_linear n (suc k) =
    ap (λ (t : ℕ). t % (n * n)) (Nat.pow-suc (n + 1) k)
    ∙ mul_cong ((n + 1) ^ k) (1 + k * n) (n + 1) (n + 1) (n * n) (pow_linear n k) refl
    ∙ ap (λ (t : ℕ). t % (n * n)) split
    ∙ Nat.add-mul-mod_self_left (1 + suc k * n) (n * n) k
  where
    split : (1 + k * n) * (n + 1) ≡ 1 + suc k * n + n * n * k
    split = omega arith

-- What `L` finds in such a power.
pub linear_root : (n m : ℕ) → 1 < n → ((1 + m * n) % (n * n) - 1) / n ≡ m % n
linear_root n m h =
    ap (λ (t : ℕ). (t - 1) / n) value ∙ ap (λ (t : ℕ). t / n) minus ∙ Nat.mul-div_left (m % n) n_pos
  where
    n_pos : 0 < n
    n_pos = omega arith

    small : 1 + m % n * n < n * n
    small = grind (arith, Nat.mod-lt m n_pos)

    split : 1 + m * n ≡ 1 + m % n * n + n * n * (m / n)
    split = omega (arith, ap (λ (t : ℕ). t * n) (Nat.div-add-mod m n))

    value : (1 + m * n) % (n * n) ≡ 1 + m % n * n
    value =
        ap (λ (t : ℕ). t % (n * n)) split
        ∙ Nat.add-mul-mod_self_left (1 + m % n * n) (n * n) (m / n)
        ∙ Nat.mod-eq_of_lt small

    minus : 1 + m % n * n - 1 ≡ m % n * n
    minus = omega arith

-- A key whose parts belong together; `u` is an inverse of `y`.
pub record IsPrivate (k : Paillier) : Type 0 where
  pub p : ℕ
  pub q : ℕ
  pub p_eq : k.p ≡ pos p
  pub q_eq : k.q ≡ pos q
  pub p_big : 1 < p
  pub q_big : 1 < q
  pub n_eq : k.n ≡ p * q
  pub n2_eq : k.n2 ≡ k.n * k.n
  pub g_eq : k.g ≡ k.n + 1
  pub y_eq : k.y ≡ (p - 1) * (q - 1)
  pub u_inv : k.y * k.u % k.n ≡ 1

-- `c` is an encryption of `m`, with a factor that `y` and `n` make vanish.
pub record Encrypts (k : Paillier) (m c : ℕ) : Type 0 where
  pub blind : ℕ
  pub vanishes : blind ^ (k.n * k.y) % k.n2 ≡ 1 % k.n2
  pub value : c ≡ k.g ^ m * blind ^ k.n % k.n2

-- The product of two ciphertexts encrypts the sum of the plain texts.
pub mul-Encrypts :
    {k : Paillier} {m m' c c' : ℕ}
    → Encrypts k m c
    → Encrypts k m' c'
    → Encrypts k (m + m') (c * c' % k.n2)
mul-Encrypts {k} {m} {m'} a b = record {
  blind = a.blind * b.blind;
  vanishes =
      ap (λ (t : ℕ). t % k.n2) (mul-pow a.blind b.blind (k.n * k.y))
      ∙ mul_cong _ 1 _ 1 k.n2 a.vanishes b.vanishes;
  value =
      ap₂ (λ (x y : ℕ). x * y % k.n2) a.value b.value
      ∙ mod-mul _ _ k.n2
      ∙ ap (λ (t : ℕ). t % k.n2)
          (Nat.mul-mul-mul_comm (k.g ^ m) (a.blind ^ k.n) (k.g ^ m') (b.blind ^ k.n)
            ∙ ap₂ ◌*◌ (sym (pow-add k.g m m')) (sym (mul-pow a.blind b.blind k.n)));
}

-- A power of a ciphertext encrypts the multiple of the plain text.
pub pow-Encrypts :
    {k : Paillier} {m c : ℕ} (t : ℕ) → Encrypts k m c → Encrypts k (m * t) (c ^ t % k.n2)
pow-Encrypts {k} {m} t a = record {
  blind = a.blind ^ t;
  vanishes =
      ap (λ (x : ℕ). x % k.n2)
        (sym (pow-mul a.blind t (k.n * k.y))
          ∙ ap (λ (e : ℕ). a.blind ^ e) (Nat.mul_comm t (k.n * k.y))
          ∙ pow-mul a.blind (k.n * k.y) t)
      ∙ pow_cong _ 1 t k.n2 a.vanishes
      ∙ ap (λ (x : ℕ). x % k.n2) (one-pow t);
  value =
      ap (λ (x : ℕ). x ^ t % k.n2) a.value
      ∙ mod-pow-mod _ t k.n2
      ∙ ap (λ (x : ℕ). x % k.n2)
          (mul-pow (k.g ^ m) (a.blind ^ k.n) t
            ∙ ap₂ ◌*◌ (sym (pow-mul k.g m t)) (
                sym (pow-mul a.blind k.n t)
                ∙ ap (λ (e : ℕ). a.blind ^ e) (Nat.mul_comm k.n t)
                ∙ pow-mul a.blind t k.n));
}
