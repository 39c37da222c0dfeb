-- ===== src/Common/Hex.antt =====
-- The hexadecimal form of a string is read back without loss.
use Prim.Native.Nat.{bit_and}
use zkfactorization.Prelude.{
  ℕ, ◌+◌, ◌-◌, ◌*◌, ◌/◌, ◌^◌, ◌≡◌, refl, ap₂, List, [], ◌∷◌, true, ◌==◌, ==_iff, ltb, if◌then◌else◌,
  get_or, length, arith,
}
use zkfactorization.Prelude.Tables.{passes_to, passes_at}
use zkfactorization.CryptoPp.{IsBytes}
use zkfactorization.Common.{lut, string2hex}

-- The value of an upper-case hexadecimal digit, and the bytes that pairs of digits stand for.
abbrev pub digit_value : ℕ → ℕ
digit_value c = if ltb c 58 then c - 48 else c - 55

pub from_hex : List ℕ → List ℕ
from_hex [] = []
from_hex (a ∷ []) = []
from_hex (a ∷ b ∷ rest) = (digit_value a * 16 + digit_value b) ∷ from_hex rest

abbrev reread : ℕ → ℕ
reread c = digit_value (get_or lut (c / 2 ^ 4) 0) * 16 + digit_value (get_or lut (bit_and c 15) 0)

reread_table : passes_to (λ c. reread c == c) 256 ≡ true
unfolding passes_to
reread_table = refl

-- For a string of bytes, reading the digits gives the string back, and there are two digits for
-- each byte.
pub from_hex-string2hex :
    (s : List ℕ)
    → IsBytes s
    → (from_hex (string2hex s) ≡ s) × (length (string2hex s) ≡ 2 * length s)
unfolding from_hex string2hex
from_hex-string2hex [] h = (refl, omega arith)
from_hex-string2hex (c ∷ s) h =
    let (same, long) = from_hex-string2hex s h.1 in
    (
      ap₂ ◌∷◌ ((==_iff _ c).0 (passes_at (λ b. reread b == b) h.0 reread_table)) same,
      omega (arith, long),
    )
