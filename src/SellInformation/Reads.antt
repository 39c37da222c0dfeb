-- ===== src/SellInformation/Reads.antt =====
-- Rows that are long enough: every read of them returns.
use zkfactorization.Prelude.{
  ℕ, zero, suc, ◌<◌, ◌≡◌, refl, ap, ◌∙◌, List, [], ◌∷◌, All, length, set, replicate, subst, arith,
}
use zkfactorization.Prelude.Result.{Result, ok, ok-injective, bind}
use zkfactorization.SellInformation.{read}
use zkfactorization.SellInformation.Operations.{first_r}

-- A call that returns, in front of the rest.
pub bind-ok {ℓ κ} :
    {A : Type ℓ} {B : Type κ} {call : Result A} (next : A → Result B) {a : A} {b : B}
    → call ≡ ok a
    → next a ≡ ok b
    → bind call next ≡ ok b
bind-ok next e h = rw e h

module _ {A : Type 0} where
  pub read-lt : (row : List A) (i : ℕ) {a : A} → read row i ≡ ok a → i < length row
  unfolding read
  read-lt [] i h = absurd (cc h)
  read-lt (a ∷ row) zero h = omega arith
  read-lt (a ∷ row) (suc i) h = omega (arith, read-lt row i h)

  pub read-ok : (row : List A) (i : ℕ) → i < length row → (a : A) × (read row i ≡ ok a)
  unfolding read
  read-ok [] i h = absurd (omega arith)
  read-ok (a ∷ row) zero h = (a, refl)
  read-ok (a ∷ row) (suc i) h = read-ok row i (omega arith)

  pub length-set : (row : List A) (i : ℕ) (v : A) → length (set row i v) ≡ length row
  length-set [] i v = refl
  length-set (a ∷ row) zero v = refl
  length-set (a ∷ row) (suc i) v = ap suc (length-set row i v)

  pub read-set : (row : List A) (i : ℕ) (v : A) → i < length row → read (set row i v) i ≡ ok v
  unfolding read
  read-set [] i v h = absurd (omega arith)
  read-set (a ∷ row) zero v h = refl
  read-set (a ∷ row) (suc i) v h = read-set row i v (omega arith)

  pub read-set_other :
      (row : List A) (i k : ℕ) (v : A) → (i ≡ k → ⊥) → read (set row k v) i ≡ read row i
  unfolding read
  read-set_other [] i k v ne = refl
  read-set_other (a ∷ row) zero zero v ne = absurd (ne refl)
  read-set_other (a ∷ row) zero (suc k) v ne = refl
  read-set_other (a ∷ row) (suc i) zero v ne = refl
  read-set_other (a ∷ row) (suc i) (suc k) v ne = read-set_other row i k v (λ e. ne (ap suc e))

  pub read-set_twice :
      (row : List A) (i k : ℕ) (v w : A) → (i ≡ k → ⊥) → read (set (set row k v) k w) i ≡ read row i
  read-set_twice row i k v w ne =
      read-set_other (set row k v) i k w ne ∙ read-set_other row i k v ne

  pub length-set_twice :
      (row : List A) (k : ℕ) (v w : A) → length (set (set row k v) k w) ≡ length row
  length-set_twice row k v w = length-set (set row k v) k w ∙ length-set row k v

  pub All-read :
      (P : A → Type 0) (row : List A) (i : ℕ) {a : A} → All P row → read row i ≡ ok a → P a
  unfolding read
  All-read P [] i all h = absurd (cc h)
  All-read P (x ∷ row) zero all h = subst P (ok-injective h) all.0
  All-read P (x ∷ row) (suc i) all h = All-read P row i all.1 h

-- A loop over the first items of a list that is long enough.
pub first_r-all : {A : Type 0} (row : List A) → first_r (length row) row ≡ ok row
unfolding first_r
first_r-all [] = refl
first_r-all (a ∷ row) = rw (first_r-all row) refl

pub read-replicate : {A : Type 0} (n i : ℕ) (a : A) → i < n → read (replicate n a) i ≡ ok a
unfolding read
read-replicate zero i a h = absurd (omega arith)
read-replicate (suc n) zero a h = refl
read-replicate (suc n) (suc i) a h = read-replicate n i a (omega arith)
