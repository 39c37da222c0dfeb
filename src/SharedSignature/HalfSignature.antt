-- ===== src/SharedSignature/HalfSignature.antt =====
-- What the buyer sends: an encryption of the half signature under the seller's key, hidden by a
-- multiple of the order.
use native.Mathlib.Nat
use zkfactorization.Prelude.{ℕ, suc, ◌+◌, ◌-◌, ◌*◌, ◌%◌, ◌^◌, ◌≤◌, ◌<◌, ◌≡◌, ◌≢◌, ap, ◌∙◌, arith}
use zkfactorization.Prelude.Int.{pos}
use zkfactorization.Prelude.Result.{ok}
use zkfactorization.CryptoPp.{Random, Codec, ModArith, Curve}
use zkfactorization.Paillier.{Paillier, client_key, get_n2, enc}
use zkfactorization.Paillier.Ciphertext.{IsPrivate, Encrypts, mul-Encrypts, pow-Encrypts}
use zkfactorization.Paillier.Homomorphic.{enc-Encrypts}
use zkfactorization.SharedSignature.Parties.{Buyer, half_signature}

-- The products of numbers below the order stay below the Paillier modulus.
pub wide_enough :
    (n big a c t u : ℕ)
    → 1 < n
    → 2 * n * n * n * n < big
    → a < n
    → c < n
    → t < n
    → u < n * n
    → a + c * t + u * n < big
wide_enough n big a c t u one wide ha hc ht hu =
    let product : c * t ≤ n * n = Nat.mul-le-mul (omega arith) (omega arith) in
    let hidden : suc u * n ≤ n * n * n = Nat.mul-le-mul_right n hu in
    let cube : n * n * 1 ≤ n * n * n = Nat.mul-le-mul_left (n * n) (omega arith) in
    let fourth : n * n * n * 1 ≤ n * n * n * n = Nat.mul-le-mul_left (n * n * n) (omega arith) in
    omega arith

module _ (random : Random) (codec : Codec) (arithmetic : ModArith) (curve : Curve) {k : Paillier}
    (key : IsPrivate k) where
  open random use {Rng, integer, integer_range}
  open curve use {Point, order}
  open arithmetic use {a_times_b_mod_c, a_exp_b_mod_c, inverse_mod, times_eq, exp_eq}

  -- The numbers that encryption draws are units.
  abbrev pub Vanishing : Type 0
  Vanishing = (rng : Rng) → (integer 1 k.n rng).0 ^ (k.n * k.y) % k.n2 ≡ 1 % k.n2

  enc-client_key :
      (m : ℕ) (rng : Rng)
      → enc random arithmetic (client_key k.n k.g) (pos m) rng ≡ enc random arithmetic k (pos m) rng
  unfolding enc client_key
  enc-client_key m rng = rw key.n2_eq

  get_n2-client_key : k.n ≢ 0 → get_n2 (client_key k.n k.g) ≡ ok k.n2
  unfolding get_n2 client_key
  get_n2-client_key ne = rw key.n2_eq (ground arith)

  module _ (big : 1 < order) (wide : 2 * order * order * order * order < k.n)
      (vanishing : Vanishing) where
    order_lt : (u : ℕ) → u < order * order → u * order < k.n
    order_lt u h =
        let fits =
          wide_enough order k.n 0 0 0 u big wide (omega arith) (omega arith) (omega arith) h in
        omega arith

    pub small_lt : (a : ℕ) → a < order → a < k.n
    small_lt a h =
        let square : 0 < order * order = Nat.mul-pos (omega arith) (omega arith) in
        let fits = wide_enough order k.n a 0 0 0 big wide h (omega arith) (omega arith) square in
        omega arith

    n2_pos : 0 < k.n2
    n2_pos =
        let n_pos : 0 < k.n = small_lt 0 (omega arith) in rw key.n2_eq (Nat.mul-pos n_pos n_pos)

    half_code :
        (b : Buyer Point) (kb r hi cs c1 c3 : ℕ) (rng rng₁ rng₃ : Rng)
        → b.paillier ≡ client_key k.n k.g
        → let inv = inverse_mod kb order in
          let drawn = integer 0 (order * order - 1) rng₁ in
          let t = inv * r % order * b.db % order in
          enc random arithmetic k (pos (inv * hi % order)) rng ≡ ok (c1, rng₁)
          → enc random arithmetic k (pos (drawn.0 * order)) drawn.1 ≡ ok (c3, rng₃)
          → half_signature random codec arithmetic curve b kb r hi cs rng
            ≡ ok (c1 * (cs ^ t % k.n2) % k.n2 * c3 % k.n2, rng₃)
    unfolding half_signature
    half_code b kb r hi cs c1 c3 rng rng₁ rng₃ client e₁ e₃ =
        let inv = inverse_mod kb order in
        let drawn = integer 0 (order * order - 1) rng₁ in
        let pos_order : 0 < order = omega arith in
        let n_pos : 0 < k.n = small_lt 0 (omega arith) in
        rw client (
          rw (times_eq inv hi order pos_order) (
            rw (enc-client_key (inv * hi % order) rng ∙ e₁) (
              rw (get_n2-client_key (omega arith)) (
                rw (enc-client_key (drawn.0 * order) drawn.1 ∙ e₃)
                  (ap (λ (c : ℕ). ok (c, rng₃)) cipher)))))
      where
        pos_order : 0 < order
        pos_order = omega arith

        t_eq :
            a_times_b_mod_c (a_times_b_mod_c (inverse_mod kb order) r order) b.db order
            ≡ inverse_mod kb order * r % order * b.db % order
        t_eq =
            times_eq _ b.db order pos_order
            ∙ ap (λ (x : ℕ). x * b.db % order) (times_eq (inverse_mod kb order) r order pos_order)

        cipher :
            let t = a_times_b_mod_c (a_times_b_mod_c (inverse_mod kb order) r order) b.db order in
            a_times_b_mod_c (a_times_b_mod_c c1 (a_exp_b_mod_c cs t k.n2) k.n2) c3 k.n2
            ≡ c1
              * (cs ^ (inverse_mod kb order * r % order * b.db % order) % k.n2)
              % k.n2
              * c3
              % k.n2
        cipher =
            times_eq _ c3 k.n2 n2_pos
            ∙ ap (λ (x : ℕ). x * c3 % k.n2)
                (times_eq c1 _ k.n2 n2_pos
                  ∙ ap (λ (x : ℕ). c1 * x % k.n2)
                      (exp_eq cs _ k.n2 n2_pos ∙ ap (λ (t : ℕ). cs ^ t % k.n2) t_eq))

    -- With a Paillier modulus above 2 * n ^ 4 for the group's order n and draws that vanish, and a
    -- ciphertext cs of the seller's secret, the buyer's half of the signature is computed, and it
    -- encrypts the buyer's share plus the seller's secret times the factor t, plus u times the
    -- order for the random u below the square of the order.
    pub half_signature-Encrypts :
        (b : Buyer Point) (kb r hi ds cs : ℕ) (rng : Rng)
        → b.paillier ≡ client_key k.n k.g
        → Encrypts k ds cs
        → let inv = inverse_mod kb order in
          (c : ℕ) × (u : ℕ) × (rng' : Rng) × (half_signature random codec arithmetic curve b kb r hi
              cs rng
            ≡ ok (c, rng'))
          × (u < order * order)
          × Encrypts k (inv * hi % order + ds * (inv * r % order * b.db % order) + u * order) c
    unfolding half_signature
    half_signature-Encrypts b kb r hi ds cs rng client secret =
        let inv = inverse_mod kb order in
        let t = inv * r % order * b.db % order in
        let pos_order : 0 < order = omega arith in
        let a_lt : inv * hi % order < order = Nat.mod-lt (inv * hi) pos_order in
        let (c1, e₁, h₁) =
          enc-Encrypts random arithmetic key (inv * hi % order) rng (small_lt _ a_lt)
            (vanishing rng) in
        let rng₁ = (integer 1 k.n rng).1 in
        let (u, rng₂) = integer 0 (order * order - 1) rng₁ in
        let square : 0 < order * order = Nat.mul-pos pos_order pos_order in
        let u_lt : u < order * order =
          omega (arith, integer_range 0 (order * order - 1) rng₁ (omega arith)) in
        let (c3, e₃, h₃) =
          enc-Encrypts random arithmetic key (u * order) rng₂ (order_lt u u_lt) (vanishing rng₂) in
        let c2 = c1 * (cs ^ t % k.n2) % k.n2 in
        (
          c2 * c3 % k.n2,
          u,
          (integer 1 k.n rng₂).1,
          half_code b kb r hi cs c1 c3 rng rng₁ (integer 1 k.n rng₂).1 client e₁ e₃,
          u_lt,
          mul-Encrypts (mul-Encrypts h₁ (pow-Encrypts t secret)) h₃,
        )
