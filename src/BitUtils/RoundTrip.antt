-- ===== src/BitUtils/RoundTrip.antt =====
-- Bits and bytes are converted back and forth without loss.
use zkfactorization.Prelude.{
  ℕ, zero, suc, ◌*◌, ◌%◌, ◌<◌, ◌≡◌, refl, ap, ap₂, ◌∙◌, List, [], ◌∷◌, ◌++◌, Bool, true, false,
  ◌&&◌, ◌==◌, ==_iff, if◌then◌else◌, length, arith, not, ◌↔◌, ◌≢◌,
}
use zkfactorization.Prelude.Int.{pos}
use zkfactorization.Prelude.Result.{ok, bind, throw, standard}
use zkfactorization.Prelude.Tables.{passes_to, passes_at}
use zkfactorization.CryptoPp.{Codec, IsBytes}
use zkfactorization.BitUtils.{
  bits_from, to_bits, octet, octets, from_bits, integer_to_bits, bits_to_integer,
}

-- A byte put together again from its bits.
abbrev rebuilt : ℕ → ℕ
unfolding bits_from octet
rebuilt e = (octet 8 0 0 (bits_from 8 0 e)).0

rebuilt_table : passes_to (λ e. rebuilt e == e) 256 ≡ true
unfolding passes_to octet bits_from
rebuilt_table = refl

octet-bits_from :
    (e : ℕ) (rest : List Bool) → e < 256 → octet 8 0 0 (bits_from 8 0 e ++ rest) ≡ (e, rest)
unfolding octet bits_from
octet-bits_from e rest h =
    ap (λ (t : ℕ). (t, rest)) ((==_iff _ e).0 (passes_at (λ b. rebuilt b == b) h rebuilt_table))

pub length-to_bits : (bytes : List ℕ) → length (to_bits bytes) ≡ 8 * length bytes
unfolding to_bits
length-to_bits [] = omega arith
length-to_bits (e ∷ bytes) = omega (arith, length-to_bits bytes)

octets-suc :
    (left : ℕ) (bits rest : List Bool) (x : ℕ)
    → octet 8 0 0 bits ≡ (x, rest)
    → octets (suc left) bits ≡ x ∷ octets left rest
unfolding octets
octets-suc left bits rest x e = ap (λ (r : ℕ × List Bool). r.0 ∷ octets left r.1) e

pub octets-to_bits :
    (bytes : List ℕ) → IsBytes bytes → octets (length bytes) (to_bits bytes) ≡ bytes
unfolding to_bits octets
octets-to_bits [] h = refl
octets-to_bits (e ∷ bytes) h =
    octets-suc (length bytes) (to_bits (e ∷ bytes)) (to_bits bytes) e
      (octet-bits_from e (to_bits bytes) h.0)
    ∙ ap (λ (t : List ℕ). e ∷ t) (octets-to_bits bytes h.1)

-- Every list of bytes is read back from its bits.
pub from_bits-to_bits : (bytes : List ℕ) → IsBytes bytes → from_bits (to_bits bytes) ≡ ok bytes
unfolding from_bits
from_bits-to_bits bytes h = ground (arith, length-to_bits bytes, octets-to_bits bytes h)

every : (Bool → Bool) → Bool
every p = p true && p false

every_sound : (p : Bool → Bool) (b : Bool) → every p ≡ true → p b ≡ true
unfolding every
every_sound p true h = ground arith
every_sound p false h = ground arith

same : List Bool → List Bool → Bool
same [] [] = true
same [] (y ∷ ys) = false
same (x ∷ xs) [] = false
same (x ∷ xs) (y ∷ ys) = (if x then y else not y) && same xs ys

same_sound : (xs ys : List Bool) → same xs ys ≡ true → xs ≡ ys
unfolding same
same_sound [] [] h = refl
same_sound [] (y ∷ ys) h = cc
same_sound (x ∷ xs) [] h = cc
same_sound (true ∷ xs) (true ∷ ys) h = ap (λ (t : List Bool). true ∷ t) (same_sound xs ys h)
same_sound (true ∷ xs) (false ∷ ys) h = cc
same_sound (false ∷ xs) (true ∷ ys) h = cc
same_sound (false ∷ xs) (false ∷ ys) h = ap (λ (t : List Bool). false ∷ t) (same_sound xs ys h)

abbrev eight : Bool → Bool → Bool → Bool → Bool → Bool → Bool → Bool → List Bool
eight a b c d e f g h = a ∷ b ∷ c ∷ d ∷ e ∷ f ∷ g ∷ h ∷ []

abbrev survives : Bool → Bool → Bool → Bool → Bool → Bool → Bool → Bool → Bool
unfolding octet bits_from
survives a b c d e f g h =
    same (bits_from 8 0 (octet 8 0 0 (eight a b c d e f g h)).0) (eight a b c d e f g h)

survives_table :
    every (λ a. every (λ b.
      every
        (λ c. every (λ d. every (λ e. every (λ f. every (λ g. every (survives a b c d e f g))))))))
    ≡ true
unfolding every same octet bits_from
survives_table = refl

bits_from-octet :
    (a b c d e f g h : Bool)
    → bits_from 8 0 (octet 8 0 0 (eight a b c d e f g h)).0 ≡ eight a b c d e f g h
unfolding octet bits_from
bits_from-octet a b c d e f g h = same_sound _ _ (
    every_sound (survives a b c d e f g) h (
      every_sound _ g (
        every_sound _ f (
          every_sound _ e (
            every_sound _ d
              (every_sound _ c (every_sound _ b (every_sound _ a survives_table))))))))

pub to_bits-octets :
    (k : ℕ) (bits : List Bool) → length bits ≡ 8 * k → to_bits (octets k bits) ≡ bits
unfolding to_bits octets
to_bits-octets zero [] e = refl
to_bits-octets zero (b ∷ bits) e = absurd (omega arith)
to_bits-octets (suc k) (a ∷ b ∷ c ∷ d ∷ e ∷ f ∷ g ∷ h ∷ bits) eq =
    ap₂ ◌++◌ (bits_from-octet a b c d e f g h) (to_bits-octets k bits (omega arith))
to_bits-octets (suc k) _ eq = absurd (omega arith)

-- `from_bits` throws exactly when the number of bits is no multiple of 8.
pub from_bits-throw_iff :
    (bits : List Bool) → (from_bits bits ≡ throw standard) ↔ (length bits % 8 ≢ 0)
unfolding from_bits
from_bits-throw_iff bits = ground arith

integer_to_bits-pos :
    (codec : Codec) (n : ℕ)
    → integer_to_bits codec (pos n)
      ≡ ok (to_bits (codec.encode (pos n) (codec.min_encoded_size (pos n))))
unfolding integer_to_bits
integer_to_bits-pos codec n = ground arith

-- A number that is not negative is read back from its bits.
pub bits_to_integer-integer_to_bits :
    (codec : Codec) (n : ℕ) → bind (integer_to_bits codec (pos n)) (bits_to_integer codec) ≡ ok n
unfolding bits_to_integer
bits_to_integer-integer_to_bits codec n =
    let size = codec.min_encoded_size (pos n) in
    rw
      (
        integer_to_bits-pos codec n,
        from_bits-to_bits (codec.encode (pos n) size) (codec.encode-IsBytes (pos n) size),
      )
      (ap ok (codec.decode-encode n))
