-- ===== src/SellInformation.antt =====
-- main/sell_information.{h,cpp}: the parts of the sale that work on one instance `j`, whose rows
-- `x[j]`, `y[j]`, `r1[j]`, `r2[j]`, `c1[j]`, `c2[j]`, `d1[j]`, `d2[j]` are lists. A read behind the end
-- of a row is undefined.
pub mod State
pub mod Reads
pub mod Openings
pub mod OnlyRoots
pub mod Halves
pub mod Draws
pub mod Picked
pub mod Operations
pub mod Exchange
pub mod Revealed
pub mod Answered
pub mod Sets
pub mod Shown
pub mod Protocol
pub mod Exec
pub mod Sized
pub mod Signed
pub mod Transacted
pub mod Agreed
pub mod SharedLock
pub mod Race
pub mod Phases
pub mod Waited
pub mod Subset
pub mod Factorise
pub mod Found
pub mod Split
pub mod Works
pub mod Squares
pub mod Prepared
pub mod Accepted
pub mod Ready
pub mod Steps
pub mod Bought
pub mod Gains
pub mod Fits
pub mod Completed
pub mod Sale
pub mod Executed
pub mod Handed
pub mod Kept
pub mod Passed
pub mod Whole
pub mod Sealed
use zkfactorization.Prelude.{
  ℕ, zero, suc, ◌*◌, ◌/◌, ◌%◌, List, [], ◌∷◌, not, ◌==◌, ltb, if◌then◌else◌, Option, none, some,
  get_elem?,
}
use zkfactorization.Prelude.Int.{ℤ, pos, eqb_ℤ}
use zkfactorization.Prelude.Result.{Result, ok, throw, undefined, protocol, bind}
use zkfactorization.CryptoPp.{Random, Codec, Ecb}
use zkfactorization.Common.{to_bytes}
use zkfactorization.Aes
use zkfactorization.ShaCommitment

-- `row[i]`
unfoldable pub read {ℓ} : {A : Type ℓ} → List A → ℕ → Result A
read [] i = undefined
read (a ∷ row) zero = ok a
read (a ∷ row) (suc i) = read row i

-- `Buyer::genSquares`: the roots and their squares, `left` of them.
unfoldable pub gen_squares : (random : Random) → ℕ → ℕ → random.Rng → (List ℕ × List ℕ) × random.Rng
gen_squares random n zero rng = (([], []), rng)
gen_squares random n (suc left) rng =
    let (x, rng₁) = random.integer 0 (n / 2) rng in
    let ((xs, ys), rng₂) = gen_squares random n left rng₁ in ((x ∷ xs, x * x % n ∷ ys), rng₂)

-- `Seller::encryptRoots`, for one of the two roots
unfoldable pub encrypt_roots :
    Codec → Ecb → List ShaCommitment.Sender → List ℤ → Result (List (List ℕ))
unfolding to_bytes
encrypt_roots codec ecb [] roots = ok []
encrypt_roots codec ecb (c ∷ commits) [] = undefined
encrypt_roots codec ecb (c ∷ commits) (root ∷ roots) =
    bind (Aes.enc ecb c.m (to_bytes codec root))
      λ first. bind (encrypt_roots codec ecb commits roots) λ rest. ok (first ∷ rest)

-- `Seller::setupCommit`, for one of the two rows
unfoldable pub setup_commit : List (List ℕ) → List ShaCommitment.Sender → List ShaCommitment.Sender
setup_commit [] senders = senders
setup_commit (c ∷ cs) [] = []
setup_commit (c ∷ cs) (d ∷ senders) = record d { m = c } ∷ setup_commit cs senders

-- One round of `Seller::acceptSubset`: which of the two roots the value is; 5 if it is neither.
unfoldable pub accept_value : ℕ → ℕ → ℤ → ℤ → ℕ → Result ℕ
accept_value n square root1 root2 val =
    if ltb (n / 2) val
    then throw (protocol "xi > n/2")
    else if not (val * val % n == square)
    then throw (protocol "xi is not a square root of yi")
    else if eqb_ℤ (pos val) root2
    then ok 2
    else if eqb_ℤ (pos val) root1
    then ok 1
    else ok 5

unfoldable pub accept_subset : ℕ → List ℕ → List ℤ → List ℤ → List ℕ → List ℕ → Result (List ℕ)
unfolding read accept_value
accept_subset n y r1 r2 [] values = ok []
accept_subset n y r1 r2 (ind ∷ indices) [] = undefined
accept_subset n y r1 r2 (ind ∷ indices) (val ∷ values) = bind (read y ind) λ square.
    bind (read r1 ind) λ root1. bind (read r2 ind) λ root2.
      bind (accept_value n square root1 root2 val)
        λ first. bind (accept_subset n y r1 r2 indices values) λ rest. ok (first ∷ rest)

-- `Buyer::getSubsetValues`
unfoldable pub get_subset_values : List ℕ → List ℕ → Result (List ℕ)
unfolding read
get_subset_values x [] = ok []
get_subset_values x (ind ∷ indices) =
    bind (read x ind) λ first. bind (get_subset_values x indices) λ rest. ok (first ∷ rest)

-- `Buyer::verifyRoot`, on the root `x[j][ind]`
unfoldable pub verify_root : Codec → Ecb → ℕ → List ℕ → List ℕ → Result (Unit {0})
verify_root codec ecb x key c = bind (Aes.dec ecb key c) λ encoded.
    if not (codec.decode encoded == x) then throw (protocol "verifyRoot failed") else ok tt
