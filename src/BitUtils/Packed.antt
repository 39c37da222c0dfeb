-- ===== src/BitUtils/Packed.antt =====
-- Byte strings and bit strings as types: `to_bits` and `from_bits` are the two directions of an
-- equivalence.
use native.Mathlib.Nat
use native.Mathlib.Bridge.{le_prop}
use native.Mathlib.Nat.{ℕ_set}
use mathlib.Core.Equiv.{◌≃◌, iso_to_equiv}
use mathlib.Core.HLevel.{Σ_prop_path}
use zkfactorization.Prelude.{
  ℕ, zero, suc, ◌+◌, ◌*◌, ◌/◌, ◌%◌, ◌^◌, ◌<◌, ◌≡◌, ◌≢◌, ◌↔◌, refl, ap, ap₂, ◌∙◌, List, [], ◌∷◌,
  Bool, true, false, if◌then◌else◌, length, arith,
}
use zkfactorization.Prelude.Result.{ok, throw, standard}
use zkfactorization.CryptoPp.{IsBytes}
use zkfactorization.BitUtils.{to_bits, octet, octets, from_bits}
use zkfactorization.BitUtils.RoundTrip.{
  length-to_bits, octets-to_bits, to_bits-octets, from_bits-throw_iff,
}

-- A string of bytes, and a string of bits that fills bytes.
abbrev pub Bytes : Type 0
Bytes = (bytes : List ℕ) × IsBytes bytes

abbrev pub Packed : Type 0
Packed = (bits : List Bool) × (length bits % 8 ≡ 0)

IsBytes-IsProp : (bytes : List ℕ) → IsProp (IsBytes bytes)
IsBytes-IsProp [] a b = refl
IsBytes-IsProp (e ∷ bytes) a b =
    ap₂ (λ x y. (x, y)) (le_prop a.0 b.0) (IsBytes-IsProp bytes a.1 b.1)

octet-byte : (left bit x : ℕ) (bits : List Bool) → x < 256 → (octet left bit x bits).0 < 256
unfolding octet
octet-byte zero bit x bits h = h
octet-byte (suc left) bit x [] h = h
octet-byte (suc left) bit x (b ∷ bits) h =
    octet-byte left (bit + 1) (if b then (x + 2 ^ bit) % 256 else x) bits (small b)
  where
    small : (b : Bool) → (if b then (x + 2 ^ bit) % 256 else x) < 256
    small true = Nat.mod-lt (x + 2 ^ bit) (omega arith)
    small false = h

octets-IsBytes : (left : ℕ) (bits : List Bool) → IsBytes (octets left bits)
unfolding octets
octets-IsBytes zero bits = tt
octets-IsBytes (suc left) bits =
    (octet-byte 8 0 0 bits (omega arith), octets-IsBytes left (octet 8 0 0 bits).1)

eighth : (n k : ℕ) → n ≡ 8 * k → n / 8 ≡ k
eighth n k e = omega arith

bytes_packed : Bytes ≃ Packed
bytes_packed = iso_to_equiv (record {
  fun = λ b. (to_bits b.0, omega (arith, length-to_bits b.0));
  inv = λ p. (octets (length p.0 / 8) p.0, octets-IsBytes (length p.0 / 8) p.0);
  rinv = λ p.
      Σ_prop_path (λ bits. ℕ_set _ _) (to_bits-octets (length p.0 / 8) p.0 (omega (arith, p.1)));
  linv = λ b. Σ_prop_path IsBytes-IsProp (
      ap (λ n. octets n (to_bits b.0))
        (eighth (length (to_bits b.0)) (length b.0) (length-to_bits b.0))
      ∙ octets-to_bits b.0 b.1);
})

-- The strings of bytes and the strings of bits whose number is divisible by 8 are equivalent types:
-- `to_bits` is the map, `from_bits` computes its inverse, and throws on every other string of bits.
pub to_bits-from_bits_equiv :
    (e : Bytes ≃ Packed) × ((b : Bytes) → (e.0 b).0 ≡ to_bits b.0)
    × ((p : Packed) → from_bits p.0 ≡ ok (e.1 p).0.0.0)
    × ((bits : List Bool) → (from_bits bits ≡ throw standard) ↔ (length bits % 8 ≢ 0))
unfolding bytes_packed from_bits
to_bits-from_bits_equiv =
    (bytes_packed, (λ b. refl), (λ p. let h = p.1 in ground arith), from_bits-throw_iff)
