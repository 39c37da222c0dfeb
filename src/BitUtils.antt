-- ===== src/BitUtils.antt =====
-- timed_commitment/bit_utils.cpp: bytes as bits, the lowest bit of each byte first.
pub mod RoundTrip
pub mod Packed
use Prim.Native.Nat.{bit_and}
use zkfactorization.Prelude.{
  ℕ, zero, suc, ◌+◌, ◌/◌, ◌%◌, ◌^◌, List, [], ◌∷◌, ◌++◌, Bool, not, ◌==◌, if◌then◌else◌, length,
}
use zkfactorization.Prelude.Int.{ℤ, pos, ltb_ℤ}
use zkfactorization.Prelude.Result.{Result, ok, throw, standard, bind}
use zkfactorization.CryptoPp.{Codec}

-- The inner loop of `to_bits`: the bits of `e` from bit `i` on, `left` of them.
unfoldable pub bits_from : ℕ → ℕ → ℕ → List Bool
bits_from zero i e = []
bits_from (suc left) i e = not (bit_and e (2 ^ i) == 0) ∷ bits_from left (i + 1) e

unfoldable pub to_bits : List ℕ → List Bool
unfolding bits_from
to_bits [] = []
to_bits (e ∷ cont) = bits_from 8 0 e ++ to_bits cont

-- The inner loop of `from_bits`: `x += 1 << bit` on an unsigned char for each bit that is set,
-- with the bits that are left. No read runs out of range: their number is a multiple of 8.
unfoldable pub octet : ℕ → ℕ → ℕ → List Bool → ℕ × List Bool
octet zero bit x bits = (x, bits)
octet (suc left) bit x [] = (x, [])
octet (suc left) bit x (b ∷ bits) = octet left (bit + 1) (if b then (x + 2 ^ bit) % 256 else x) bits

-- The outer loop of `from_bits`, with the number of rounds left.
unfoldable pub octets : ℕ → List Bool → List ℕ
unfolding octet
octets zero bits = []
octets (suc left) bits = let (x, rest) = octet 8 0 0 bits in x ∷ octets left rest

unfoldable pub from_bits : List Bool → Result (List ℕ)
from_bits bits =
    let l = length bits in if not (l % 8 == 0) then throw standard else ok (octets (l / 8) bits)

-- A C++ string is the list of its bytes.
unfoldable pub string_to_bits : List ℕ → List Bool
string_to_bits = to_bits

unfoldable pub bits_to_string : List Bool → Result (List ℕ)
bits_to_string = from_bits

module _ (codec : Codec) where
  open codec use {encode, min_encoded_size, decode}

  unfoldable pub integer_to_bits : ℤ → Result (List Bool)
  integer_to_bits i =
      if ltb_ℤ i (pos 0) then throw standard else ok (to_bits (encode i (min_encoded_size i)))

  unfoldable pub bits_to_integer : List Bool → Result ℕ
  bits_to_integer bits = bind (from_bits bits) (λ bytes. ok (decode bytes))
