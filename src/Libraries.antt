-- ===== src/Libraries.antt =====
-- All that the sale calls of Crypto++ and of the bitcoin client, in one record. `gcd` is the function
-- GCD of nbtheory.h.
use zkfactorization.Prelude.{ℕ}
use zkfactorization.Prelude.Int.{ℤ}
use zkfactorization.CryptoPp.{Random, Sha256, Codec, Ofb, ModArith, Curve, Ecb, NumberTheory}
use zkfactorization.Bitcoin.{BitcoinUtils}

pub record Libraries : Type 1 where
  pub random : Random
  pub codec : Codec
  pub sha : Sha256
  pub ofb : Ofb
  pub arithmetic : ModArith
  pub theory : NumberTheory
  pub ecb : Ecb
  pub curve : Curve
  pub bitcoin : BitcoinUtils
  pub gcd : ℤ → ℤ → ℕ
