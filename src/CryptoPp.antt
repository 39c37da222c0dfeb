-- ===== src/CryptoPp.antt =====
-- The parts of the Crypto++ library that the program calls, as interfaces: the pool of random
-- numbers, SHA-256, the byte form of an Integer, and arithmetic modulo an Integer. Each record
-- has the operations and the documented behaviour that the program relies on. The arithmetic
-- operators of Integer itself are those of unbounded numbers.
use zkfactorization.Prelude.{
  ℕ, ◌+◌, ◌*◌, ◌%◌, ◌^◌, ◌≤◌, ◌<◌, ◌≡◌, ◌≢◌, List, length, occurrences, Bool, All, Option, some,
}
use zkfactorization.Prelude.Int.{ℤ, pos}

abbrev pub IsBytes : List ℕ → Type 0
IsBytes = All λ b. b < 256

-- `AutoSeededRandomPool`, with the state that each draw changes.
pub record Random : Type 1 where
  pub Rng : Type 0
  pub generate_block : ℕ → Rng → List ℕ × Rng
  -- `Integer(rng, lo, hi)` and `x.Randomize(rng, lo, hi)`
  pub integer : ℕ → ℕ → Rng → ℕ × Rng
  pub generate_bit : Rng → ℕ × Rng
  -- `Shuffle`, on a whole range
  pub shuffle : List ℕ → Rng → List ℕ × Rng
  -- `PrimeAndGenerator(1, rng, bits).Prime()`
  pub safe_prime : ℕ → Rng → ℕ × Rng
  -- `x.Randomize(rng, lo, hi, Integer::PRIME)`
  pub prime : ℕ → ℕ → Rng → ℕ × Rng
  pub length-generate_block : (n : ℕ) (s : Rng) → length (generate_block n s).0 ≡ n
  pub integer_range :
      (lo hi : ℕ) (s : Rng) → lo ≤ hi → (lo ≤ (integer lo hi s).0) × ((integer lo hi s).0 ≤ hi)
  pub shuffle_occurrences :
      (xs : List ℕ) (s : Rng) (a : ℕ) → occurrences a (shuffle xs s).0 ≡ occurrences a xs
  pub prime_range :
      (lo hi : ℕ) (s : Rng) → lo ≤ hi → (lo ≤ (prime lo hi s).0) × ((prime lo hi s).0 ≤ hi)

-- `SHA256::CalculateDigest`, with the size that `SHA256::DigestSize` returns.
pub record Sha256 : Type 0 where
  pub digest : List ℕ → List ℕ
  pub length-digest : (m : List ℕ) → length (digest m) ≡ 32

-- `Integer::Encode`, `Integer::MinEncodedSize` and `Integer(bytes, size)`, all unsigned.
pub record Codec : Type 0 where
  pub encode : ℤ → ℕ → List ℕ
  pub min_encoded_size : ℤ → ℕ
  pub decode : List ℕ → ℕ
  pub length-encode : (x : ℤ) (n : ℕ) → length (encode x n) ≡ n
  pub encode-IsBytes : (x : ℤ) (n : ℕ) → IsBytes (encode x n)
  pub decode-encode : (n : ℕ) → decode (encode (pos n) (min_encoded_size (pos n))) ≡ n

-- `OFB_Mode<AES>::Encryption` as a generator: `SetKeyWithIV` with a seed of 48 bytes, and
-- `GenerateBlock`. `get_byte` is `Integer::GetByte`.
pub record Ofb : Type 0 where
  pub keystream : List ℕ → ℕ → List ℕ
  pub get_byte : ℕ → ℕ → ℕ
  pub length-keystream : (seed : List ℕ) (n : ℕ) → length (keystream seed n) ≡ n

-- `a_times_b_mod_c`, `a_exp_b_mod_c`, `Integer::InverseMod` and `ModularArithmetic::Square`.
pub record ModArith : Type 0 where
  pub a_times_b_mod_c : ℕ → ℕ → ℕ → ℕ
  pub a_exp_b_mod_c : ℕ → ℕ → ℕ → ℕ
  pub inverse_mod : ℕ → ℕ → ℕ
  pub square_mod : ℕ → ℕ → ℕ
  pub times_eq : (a b c : ℕ) → 0 < c → a_times_b_mod_c a b c ≡ a * b % c
  pub exp_eq : (a b c : ℕ) → 0 < c → a_exp_b_mod_c a b c ≡ a ^ b % c
  -- where there is an inverse, it is found
  pub inverse_eq : (a b c : ℕ) → 1 < c → a * b % c ≡ 1 → a * inverse_mod a c % c ≡ 1
  pub square_eq : (a c : ℕ) → 0 < c → square_mod a c ≡ a * a % c

-- `ECP`, its points, and `DL_GroupParameters_EC`: the base point, the group order and the number of
-- bytes and of bits of the order. `x` and `y` are a point's coordinates.
pub record Curve : Type 1 where
  pub Point : Type 0
  pub multiply : ℕ → Point → Point
  pub add : Point → Point → Point
  pub identity : Point
  pub eq : Point → Point → Bool
  pub x : Point → ℕ
  pub y : Point → ℕ
  pub generator : Point
  pub order : ℕ
  pub byte_count : ℕ
  pub bit_count : ℕ

-- `ECB_Mode<AES>` behind a `StreamTransformationFilter`, on a key of 32 bytes. The filter throws on
-- bytes whose padding is not that of a message.
pub record Ecb : Type 0 where
  pub encrypt : List ℕ → List ℕ → List ℕ
  pub decrypt : List ℕ → List ℕ → Option (List ℕ)
  pub decrypt-encrypt : (key m : List ℕ) → length key ≡ 32 → decrypt key (encrypt key m) ≡ some m
  -- the padding fills a block at least
  pub encrypt-some : (key m : List ℕ) → length key ≡ 32 → length (encrypt key m) ≢ 0

-- `ModularSquareRoot` and `CRT`, from nbtheory.h; `crt xp p xq q u` has `u` the inverse of `p`
-- modulo `q`.
pub record NumberTheory : Type 0 where
  pub modular_square_root : ℕ → ℕ → ℕ
  pub crt : ℕ → ℕ → ℕ → ℕ → ℕ → ℕ
  pub root_lt : (a p : ℕ) → 0 < p → modular_square_root a p < p
  pub crt_left : (x p y q u : ℕ) → 0 < p → 0 < q → p * u % q ≡ 1 % q → crt x p y q u % p ≡ x % p
  pub crt_right : (x p y q u : ℕ) → 0 < p → 0 < q → p * u % q ≡ 1 % q → crt x p y q u % q ≡ y % q
  -- it is a multiple of `p` below `p * q`, plus `xp` as it is given
  pub crt_le : (x p y q u : ℕ) → 0 < p → 0 < q → crt x p y q u + p ≤ p * q + x
