-- ===== src/Common.antt =====
-- common/common.{h,cpp}: the parameters of the protocol and the conversions between numbers, strings
-- and vectors of bytes. A string and a vector of bytes are both the list of their bytes.
pub mod Hex
use Prim.Native.Nat.{bit_and}
use zkfactorization.Prelude.{ℕ, ◌/◌, ◌^◌, List, [], ◌∷◌, ◌++◌, get_or}
use zkfactorization.Prelude.Int.{ℤ}
use zkfactorization.CryptoPp.{Codec}

-- how many instances are executed, the logarithm of the squarings of a time lock, the number of
-- keys of an instance, and how many instances are not opened
abbrev pub t_param : ℕ
t_param = 512

abbrev pub k_param : ℕ
k_param = 37

abbrev pub l_param : ℕ
l_param = 2048

abbrev pub r_param : ℕ
r_param = 8

unfoldable pub concatenate {ℓ} : {A : Type ℓ} → List A → List A → List A
concatenate x y = x ++ y

unfoldable pub to_bytes : Codec → ℤ → List ℕ
to_bytes codec x = codec.encode x (codec.min_encoded_size x)

unfoldable pub integer2string : Codec → ℤ → List ℕ
unfolding to_bytes
integer2string codec x = to_bytes codec x

-- "0123456789ABCDEF"
abbrev pub lut : List ℕ
lut =
    b'0' ∷ b'1' ∷ b'2' ∷ b'3' ∷ b'4' ∷ b'5' ∷ b'6' ∷ b'7' ∷ b'8' ∷ b'9' ∷ b'A' ∷ b'B' ∷ b'C' ∷ b'D'
    ∷ b'E' ∷ b'F' ∷ []

unfoldable pub string2hex : List ℕ → List ℕ
string2hex [] = []
string2hex (c ∷ input) = get_or lut (c / 2 ^ 4) 0 ∷ get_or lut (bit_and c 15) 0 ∷ string2hex input

unfoldable pub string2v : List ℕ → List ℕ
string2v input = input

unfoldable pub v2string : List ℕ → List ℕ
v2string input = input
