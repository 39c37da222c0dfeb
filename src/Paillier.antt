-- ===== src/Paillier.antt =====
-- shared_signature/paillier.{h,cpp}: the additively homomorphic cryptosystem. Plain texts may be
-- negative when they are handed in, and -1 marks the factors that a client does not know.
pub mod Ciphertext
pub mod Homomorphic
use zkfactorization.Prelude.{ℕ, ◌+◌, ◌-◌, ◌*◌, ◌/◌, ◌%◌, ◌^◌, Bool, ◌||◌, ◌==◌, leb, if◌then◌else◌}
use zkfactorization.Prelude.Int.{ℤ, pos, pos_part, minus_one, ltb_ℤ, leb_ℤ, eqb_ℤ}
use zkfactorization.Prelude.Result.{Run, Result, ok, throw, paillier}
use zkfactorization.CryptoPp.{Random, ModArith}

pub record Paillier : Type 0 where
  pub p : ℤ
  pub q : ℤ
  pub n : ℕ
  pub n2 : ℕ
  pub y : ℕ
  pub g : ℕ
  pub u : ℕ
  pub phi : ℕ

-- `Paillier::Paillier()`
unfoldable pub blank_key : Paillier
blank_key = record { p = pos 0; q = pos 0; n = 0; n2 = 0; y = 0; g = 0; u = 0; phi = 0 }

-- `Paillier::Paillier(n, g)`, for a client that has the public key only.
unfoldable pub client_key : ℕ → ℕ → Paillier
client_key n g = record {
  p = minus_one;
  q = minus_one;
  n = n;
  n2 = n * n;
  y = 0;
  g = g;
  u = 0;
  phi = 0;
}

-- `get_n`, `get_n2` and `get_g` refuse a key that is not set.
abbrev if_set : Paillier → ℕ → Result ℕ
if_set k value = if k.n == 0 then throw (paillier "not initialized") else ok value

unfoldable pub get_n : Paillier → Result ℕ
get_n k = if_set k k.n

unfoldable pub get_n2 : Paillier → Result ℕ
get_n2 k = if_set k k.n2

unfoldable pub get_g : Paillier → Result ℕ
get_g k = if_set k k.g

-- `Paillier::L`; its argument is not 0.
unfoldable pub l_function : Paillier → ℕ → ℕ
l_function k x = (x - 1) / k.n

module _ (random : Random) (arithmetic : ModArith) where
  open random use {Rng, integer, prime}
  open arithmetic use {a_times_b_mod_c, a_exp_b_mod_c, inverse_mod}

  -- `Paillier::Paillier(bits)`
  unfoldable pub new_key : ℕ → Rng → Paillier × Rng
  new_key bits rng =
      let (p, rng₁) = prime (2 ^ bits) (2 ^ (bits + 1)) rng in
      let (q, rng₂) = prime (2 ^ bits) (2 ^ (bits + 1)) rng₁ in
      let n = p * q in
      let phi = (p - 1) * (q - 1) in
      (
        record {
          p = pos p;
          q = pos q;
          n = n;
          n2 = n * n;
          y = (p - 1) * (q - 1);
          g = n + 1;
          u = inverse_mod phi n;
          phi = phi;
        },
        rng₂,
      )

  unfoldable pub enc : Paillier → ℤ → Run Rng ℕ
  enc k m rng =
      if k.n == 0
      then throw (paillier "not initialized")
      else if leb_ℤ (pos k.n) m || ltb_ℤ m (pos 0)
      then throw (paillier "m >= n || m < 0 ")
      else let (r, rng') = integer 1 k.n rng in
        ok (
          a_times_b_mod_c (a_exp_b_mod_c k.g (pos_part m) k.n2) (a_exp_b_mod_c r k.n k.n2) k.n2,
          rng',
        )

  unfoldable pub dec : Paillier → ℕ → Result ℕ
  unfolding l_function
  dec k c =
      if k.n == 0
      then throw (paillier "not initialized")
      else if eqb_ℤ k.p minus_one || eqb_ℤ k.q minus_one
      then throw (paillier "client can not decrypt data")
      else if leb c 0 || leb k.n2 c
      then throw (paillier "c <= 0 || c >= n2")
      else if c % pos_part k.p == 0 || c % pos_part k.q == 0
      then throw (paillier "c % p == 0 || c % q == 0")
      else ok (a_times_b_mod_c (l_function k (a_exp_b_mod_c c k.y k.n2)) k.u k.n)
