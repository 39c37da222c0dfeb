-- ===== src/RegularCommitment.antt =====
-- timed_commitment/regular_commitment.{h,cpp}: a digest of a number as a commitment to it.
use zkfactorization.Prelude.{ℕ, zero, suc, List, ◌∷◌, Bool, true, false, ◌==◌, ◌&&◌}
use zkfactorization.Prelude.Int.{ℤ}
use zkfactorization.CryptoPp.{Sha256, Codec}

abbrev pub commitment_size : ℕ
commitment_size = 32

-- `digest` is an array of `COMMITMENT_SIZE` bytes.
pub record RegularCommitment : Type 0 where
  pub digest : List ℕ

-- The loop of `operator==`, on the number of bytes left; the arrays never end before it.
unfoldable pub equal_bytes : ℕ → List ℕ → List ℕ → Bool
equal_bytes zero x y = true
equal_bytes (suc left) (a ∷ x) (b ∷ y) = a == b && equal_bytes left x y
equal_bytes (suc left) _ _ = false

-- `operator==`
unfoldable pub eq : RegularCommitment → RegularCommitment → Bool
unfolding equal_bytes
eq x y = equal_bytes commitment_size x.digest y.digest

module _ (codec : Codec) (sha : Sha256) where
  unfoldable pub sha256 : ℤ → RegularCommitment
  sha256 x = record { digest = sha.digest (codec.encode x (codec.min_encoded_size x)) }

  unfoldable pub regular_commit : ℤ → RegularCommitment
  unfolding sha256
  regular_commit x = sha256 x

  unfoldable pub regular_verify : RegularCommitment → ℤ → Bool
  unfolding eq sha256
  regular_verify c x = eq c (sha256 x)
