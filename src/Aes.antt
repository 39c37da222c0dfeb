-- ===== src/Aes.antt =====
-- common/aes.{h,cpp}: AES in ECB mode under a key of 32 bytes, which a vector has to be checked for.
use zkfactorization.Prelude.{ℕ, List, not, ◌==◌, if◌then◌else◌, length, Option, none, some}
use zkfactorization.Prelude.Result.{Result, ok, throw, protocol, standard, invalid_ciphertext}
use zkfactorization.CryptoPp.{Ecb}

abbrev pub aes_length : ℕ
aes_length = 32

module _ (ecb : Ecb) where
  open ecb use {encrypt, decrypt, decrypt-encrypt}

  unfoldable pub enc : List ℕ → List ℕ → Result (List ℕ)
  enc key m =
      if not (length key == aes_length)
      then throw (protocol "Invalid length")
      else ok (encrypt key m)

  unfoldable pub decrypted : Option (List ℕ) → Result (List ℕ)
  decrypted none = throw invalid_ciphertext
  decrypted (some m) = ok m

  unfoldable pub dec : List ℕ → List ℕ → Result (List ℕ)
  unfolding decrypted
  dec key m = if not (length key == aes_length) then throw standard else decrypted (decrypt key m)
