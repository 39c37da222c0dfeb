-- ===== src/Examples/Conversions.antt =====
-- Bits, bytes and hexadecimal digits; AES; square roots modulo 77.
use zkfactorization.Prelude.{ℕ, ◌*◌, ◌≡◌, refl, arith, List, [], ◌∷◌, true, false, length, All}
use zkfactorization.Prelude.Int.{ℤ, pos}
use zkfactorization.Prelude.Sorting.{IsSorted, sort}
use zkfactorization.Prelude.Result.{ok, throw, standard, bind}
use zkfactorization.BitUtils.{
  bits_from, octet, octets, to_bits, from_bits, integer_to_bits, bits_to_integer,
}
use zkfactorization.BitUtils.RoundTrip.{bits_to_integer-integer_to_bits}
use zkfactorization.Common.{string2hex}
use zkfactorization.Common.Hex.{from_hex, from_hex-string2hex}
use zkfactorization.SquareRoot.{new_square_root, square_root, all_square_roots, root_of, signed}
use zkfactorization.SquareRoot.Roots.{IsRoot, all_square_roots-roots}
use zkfactorization.Examples.Toy.{codec, arithmetic, theory, root_lem}

abbrev two_bytes : List ℕ
two_bytes = 5 ∷ 255 ∷ []

bits_of_five : to_bits (5 ∷ []) ≡ true ∷ false ∷ true ∷ false ∷ false ∷ false ∷ false ∷ false ∷ []
unfolding to_bits bits_from
bits_of_five = refl

nine_bits : from_bits (true ∷ []) ≡ throw standard
unfolding from_bits
nine_bits = refl

read_back : from_bits (to_bits two_bytes) ≡ ok two_bytes
unfolding from_bits to_bits octets octet bits_from
read_back = refl

bits_to_integer-integer_to_bits_example :
    bind (integer_to_bits codec (pos 70000)) (bits_to_integer codec) ≡ ok 70000
bits_to_integer-integer_to_bits_example = bits_to_integer-integer_to_bits codec 70000

hex_of_bytes : string2hex (74 ∷ 255 ∷ []) ≡ 52 ∷ 65 ∷ 70 ∷ 70 ∷ []
unfolding string2hex
hex_of_bytes = refl

from_hex-string2hex_example :
    (from_hex (string2hex two_bytes) ≡ two_bytes) × (length (string2hex two_bytes) ≡ 4)
from_hex-string2hex_example = from_hex-string2hex two_bytes (omega arith, (omega arith, tt))

abbrev roots_of_four : List ℤ
roots_of_four = pos 2 ∷ pos 9 ∷ pos 68 ∷ pos 75 ∷ []

all_roots_of_four :
    all_square_roots arithmetic theory (new_square_root arithmetic theory 7 11) 4 ≡ ok roots_of_four
unfolding all_square_roots square_root new_square_root root_of signed sort
all_roots_of_four = refl

-- Of 0 the modulus comes out twice, since p - 0 and q - 0 are not reduced.
all_roots_of_zero :
    all_square_roots arithmetic theory (new_square_root arithmetic theory 7 11) 0
    ≡ ok (pos 0 ∷ pos 0 ∷ pos 77 ∷ pos 77 ∷ [])
unfolding all_square_roots square_root new_square_root root_of signed sort
all_roots_of_zero = refl

all_square_roots-roots_example :
    (roots : List ℤ) × (all_square_roots arithmetic theory
        (new_square_root arithmetic theory 7 11)
        4
      ≡ ok roots)
    × (length roots ≡ 4)
    × IsSorted roots
    × All (IsRoot (7 * 11) 4) roots
all_square_roots-roots_example =
    all_square_roots-roots arithmetic theory 7 11 4 9 8 (omega arith) (omega arith) refl
      (λ a b. root_lem 7 a b (omega arith)) (λ a b. root_lem 11 a b (omega arith)) (omega arith)
      refl
