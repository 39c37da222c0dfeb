-- ===== src/Paillier/Homomorphic.antt =====
-- Decryption undoes encryption, and finds the plain text of every ciphertext.
use Prim.Native.Nat.{◌∣◌}
use native.Mathlib.Nat
use zkfactorization.Prelude.{
  ℕ, ◌+◌, ◌-◌, ◌*◌, ◌/◌, ◌%◌, ◌^◌, ◌<◌, ◌≡◌, ◌≢◌, ◌⊎◌, refl, sym, ap, ap₂, ◌∙◌, arith,
}
use zkfactorization.Prelude.Int.{ℤ, pos, pos_part, ◌≤ℤ◌, ◌<ℤ◌}
use zkfactorization.Prelude.Result.{ok, throw, paillier}
use zkfactorization.Prelude.Modular.{
  mul_cong, add_cong, pow_cong, mod-mul, mod-mul-mod, mod-pow-mod, pow-mul, mul-pow,
}
use zkfactorization.CryptoPp.{Random, ModArith}
use zkfactorization.Paillier.{Paillier, client_key, enc, dec, l_function}
use zkfactorization.Paillier.Ciphertext.{IsPrivate, Encrypts, zero_pow, pow_linear, linear_root}

module _ {k : Paillier} (key : IsPrivate k) where
  n_big : 1 < k.n
  n_big = rw key.n_eq (grind (arith, key.p_big, key.q_big))

  y_pos : 0 < k.y
  y_pos = rw key.y_eq (Nat.mul-pos (omega (arith, key.p_big)) (omega (arith, key.q_big)))

  p_dvd : key.p ∣ k.n
  p_dvd = rw key.n_eq (Nat.dvd-mul_right key.p key.q)

  q_dvd : key.q ∣ k.n
  q_dvd = rw key.n_eq (Nat.dvd-mul_left key.q key.p)

module _ {k : Paillier} (key : IsPrivate k) {m c : ℕ} (e : Encrypts k m c) where
  -- Raised to the totient, a ciphertext shows its plain text linearly.
  power_lem : c ^ k.y % k.n2 ≡ (1 + m * k.y * k.n) % k.n2
  power_lem =
      ap (λ (t : ℕ). t ^ k.y % k.n2) e.value
      ∙ mod-pow-mod _ k.y k.n2
      ∙ ap (λ (t : ℕ). t % k.n2)
          (mul-pow (k.g ^ m) (e.blind ^ k.n) k.y
            ∙ ap₂ ◌*◌ (sym (pow-mul k.g m k.y)) (sym (pow-mul e.blind k.n k.y)))
      ∙ mul_cong _ (1 + m * k.y * k.n) _ 1 k.n2 linear e.vanishes
      ∙ ap (λ (t : ℕ). t % k.n2) (Nat.mul-one (1 + m * k.y * k.n))
    where
      linear : k.g ^ (m * k.y) % k.n2 ≡ (1 + m * k.y * k.n) % k.n2
      linear = rw (key.g_eq, key.n2_eq) (pow_linear k.n (m * k.y))

  -- A ciphertext is prime to the modulus.
  not_divisible : (d : ℕ) → 1 < d → d ∣ k.n → c % d ≢ 0
  not_divisible d big divides zero_mod = absurd (omega (arith, both))
    where
      divides2 : d ∣ k.n2
      divides2 = rw key.n2_eq (Nat.dvd-mul_right_of_dvd d divides k.n)

      vanish : c ^ k.y % d ≡ 0
      vanish =
          pow_cong c 0 k.y d (zero_mod ∙ sym (Nat.zero-mod d))
          ∙ ap (λ (t : ℕ). t % d) (zero_pow k.y (y_pos key))
          ∙ Nat.zero-mod d

      stay : (1 + m * k.y * k.n) % d ≡ 1
      stay =
          add_cong 1 1 (m * k.y * k.n) 0 d refl (
            Nat.mod-eq-zero_of_dvd d (Nat.dvd-mul_left_of_dvd d divides (m * k.y))
            ∙ sym (Nat.zero-mod d))
          ∙ Nat.mod-eq_of_lt big

      both : ◌≡◌ {A = ℕ} 0 1
      both =
          sym vanish
          ∙ sym (Nat.mod-mod_of_dvd d (c ^ k.y) divides2)
          ∙ ap (λ (t : ℕ). t % d) power_lem
          ∙ Nat.mod-mod_of_dvd d (1 + m * k.y * k.n) divides2
          ∙ stay

  n2_pos : 0 < k.n2
  n2_pos = rw key.n2_eq (Nat.mul-pos (omega (arith, n_big key)) (omega (arith, n_big key)))

  cipher_lt : c < k.n2
  cipher_lt = rw e.value (Nat.mod-lt _ n2_pos)

  cipher_ne-zero : c ≢ 0
  cipher_ne-zero z =
      not_divisible key.p key.p_big (p_dvd key) (ap (λ (t : ℕ). t % key.p) z ∙ Nat.zero-mod key.p)

module _ (random : Random) (arithmetic : ModArith) {k : Paillier} (key : IsPrivate k) where
  open random use {Rng, integer}
  open arithmetic use {a_times_b_mod_c, a_exp_b_mod_c, times_eq, exp_eq}

  dec_passes :
      {m c : ℕ}
      → Encrypts k m c
      → dec random arithmetic k c
        ≡ ok (a_times_b_mod_c (l_function k (a_exp_b_mod_c c k.y k.n2)) k.u k.n)
  unfolding dec
  dec_passes {m} {c} e = ground (
    arith,
    key.p_eq,
    key.q_eq,
    n_big key,
    cipher_lt key e,
    cipher_ne-zero key e,
    ap (λ (t : ℤ). c % pos_part t) key.p_eq,
    ap (λ (t : ℤ). c % pos_part t) key.q_eq,
    not_divisible key e key.p key.p_big (p_dvd key),
    not_divisible key e key.q key.q_big (q_dvd key),
  )

  pub dec-Encrypts : {m c : ℕ} → Encrypts k m c → dec random arithmetic k c ≡ ok (m % k.n)
  unfolding l_function
  dec-Encrypts {m} {c} e =
      dec_passes e
      ∙ ap ok (
          times_eq _ k.u k.n (omega (arith, n_big key))
          ∙ ap (λ (t : ℕ). (t - 1) / k.n * k.u % k.n)
              (exp_eq c k.y k.n2 (n2_pos key e)
                ∙ power_lem key e
                ∙ ap (λ (t : ℕ). (1 + m * k.y * k.n) % t) key.n2_eq)
          ∙ ap (λ (t : ℕ). t * k.u % k.n) (linear_root k.n (m * k.y) (n_big key))
          ∙ mod-mul-mod (m * k.y) k.u k.n
          ∙ ap (λ (t : ℕ). t % k.n) (Nat.mul_assoc m k.y k.u)
          ∙ mul_cong m m (k.y * k.u) 1 k.n refl (key.u_inv ∙ sym (Nat.mod-eq_of_lt (n_big key)))
          ∙ ap (λ (t : ℕ). t % k.n) (Nat.mul-one m))

  -- Encrypting a number below n returns an encryption of it, where the factor drawn vanishes.
  pub enc-Encrypts :
      (m : ℕ) (rng : Rng)
      → m < k.n
      → (integer 1 k.n rng).0 ^ (k.n * k.y) % k.n2 ≡ 1 % k.n2
      → (c : ℕ) × (enc random arithmetic k (pos m) rng ≡ ok (c, (integer 1 k.n rng).1))
        × Encrypts k m c
  unfolding enc
  enc-Encrypts m rng below vanishes =
      let r = (integer 1 k.n rng).0 in
      let c = a_times_b_mod_c (a_exp_b_mod_c k.g m k.n2) (a_exp_b_mod_c r k.n k.n2) k.n2 in
      (
        c,
        ground (arith, n_big key),
        record {
          blind = r;
          vanishes = vanishes;
          value =
              times_eq _ _ k.n2 n2_positive
              ∙ ap₂ (λ (x y : ℕ). x * y % k.n2) (exp_eq k.g m k.n2 n2_positive)
                  (exp_eq r k.n k.n2 n2_positive)
              ∙ mod-mul _ _ k.n2;
        },
      )
    where
      n2_positive : 0 < k.n2
      n2_positive = rw key.n2_eq (Nat.mul-pos (omega (arith, n_big key)) (omega (arith, n_big key)))

  -- Under a key whose fields are those that its factors determine, every plain text below n is
  -- encrypted, and its cipher text is decrypted to it, where the number drawn vanishes under n and
  -- the totient.
  pub dec-enc :
      (m : ℕ) (rng : Rng)
      → m < k.n
      → (integer 1 k.n rng).0 ^ (k.n * k.y) % k.n2 ≡ 1 % k.n2
      → (c : ℕ) × (rng' : Rng) × (enc random arithmetic k (pos m) rng ≡ ok (c, rng'))
        × (dec random arithmetic k c ≡ ok m)
  dec-enc m rng below vanishes =
      let (c, returns, e) = enc-Encrypts m rng below vanishes in
      (c, (integer 1 k.n rng).1, returns, dec-Encrypts e ∙ ap ok (Nat.mod-eq_of_lt below))

-- For a key with n2 above 0, encryption refuses a key that is not set, then every plain text but 0
-- to n - 1; for the others it returns the product of a power of g and an n-th power of the number
-- drawn.
pub enc_cases :
    (random : Random) (arithmetic : ModArith) (k : Paillier) (m : ℤ) (rng : random.Rng)
    → 0 < k.n2
    → let drawn = random.integer 1 k.n rng in
      (k.n ≡ 0) × (enc random arithmetic k m rng ≡ throw (paillier "not initialized"))
      ⊎ (k.n ≢ 0)
        × ((pos k.n ≤ℤ m) ⊎ (m <ℤ pos 0))
        × (enc random arithmetic k m rng ≡ throw (paillier "m >= n || m < 0 "))
      ⊎ (k.n ≢ 0)
        × (pos 0 ≤ℤ m)
        × (m <ℤ pos k.n)
        × (enc random arithmetic k m rng ≡ ok (k.g ^ pos_part m * drawn.0 ^ k.n % k.n2, drawn.1))
unfolding enc
enc_cases random arithmetic k m rng h =
    let drawn = (random.integer 1 k.n rng).0 in
    let value =
      arithmetic.times_eq (arithmetic.a_exp_b_mod_c k.g (pos_part m) k.n2)
        (arithmetic.a_exp_b_mod_c drawn k.n k.n2) k.n2 h
      ∙ ap₂ (λ (x y : ℕ). x * y % k.n2) (arithmetic.exp_eq k.g (pos_part m) k.n2 h)
          (arithmetic.exp_eq drawn k.n k.n2 h)
      ∙ mod-mul (k.g ^ pos_part m) (drawn ^ k.n) k.n2 in
    ground (arith, value)

-- A client that has only the public key, with n not 0, can decrypt nothing.
dec-client_key :
    (random : Random) (arithmetic : ModArith) (n g c : ℕ)
    → n ≢ 0
    → dec random arithmetic (client_key n g) c ≡ throw (paillier "client can not decrypt data")
unfolding dec client_key
dec-client_key random arithmetic n g c h = ground arith
