-- ===== src/Prelude/Sorting.antt =====
-- `std::sort` on signed numbers: what it returns is in order and has the same items.
use zkfactorization.Prelude.Tests.{Bool-cases, if◌then◌else◌}
use zkfactorization.Prelude.Lists.{length, All}
use zkfactorization.Prelude.Int.{ℤ, leb_ℤ, eqb_ℤ, ◌≤ℤ◌}
use Prim.Native.Nat.{ℕ, suc, ◌+◌}
use mathlib.Core.Path.{◌≡◌, refl, ap, ◌∙◌}
use mathlib.Core.Logic.{inl, inr}
use mathlib.Core.List.{List, [], ◌∷◌}
use native.Mathlib.Omega.{arith}

unfoldable pub insert : ℤ → List ℤ → List ℤ
insert c [] = c ∷ []
insert c (d ∷ ds) = if leb_ℤ c d then c ∷ d ∷ ds else d ∷ insert c ds

unfoldable pub sort : List ℤ → List ℤ
unfolding insert
sort [] = []
sort (c ∷ cs) = insert c (sort cs)

-- No item is below the one before it, the first not below `low`.
abbrev pub SortedFrom : ℤ → List ℤ → Type 0
SortedFrom low [] = Unit
SortedFrom low (c ∷ cs) = low ≤ℤ c × SortedFrom c cs

abbrev pub IsSorted : List ℤ → Type 0
IsSorted [] = Unit
IsSorted (c ∷ cs) = SortedFrom c cs

insert-SortedFrom :
    (low c : ℤ) (cs : List ℤ) → low ≤ℤ c → SortedFrom low cs → SortedFrom low (insert c cs)
unfolding insert
insert-SortedFrom low c [] h s = (h, tt)
insert-SortedFrom low c (d ∷ ds) h (below, s) = elim (Bool-cases (leb_ℤ c d)) [
  | inl le ↦ rw le (h, (ground arith, s))
  | inr gt ↦ rw gt (below, insert-SortedFrom d c ds (ground arith) s)
]

insert-IsSorted : (c : ℤ) (cs : List ℤ) → IsSorted cs → IsSorted (insert c cs)
unfolding insert
insert-IsSorted c [] s = tt
insert-IsSorted c (d ∷ ds) s = elim (Bool-cases (leb_ℤ c d)) [
  | inl le ↦ rw le (ground arith, s)
  | inr gt ↦ rw gt (insert-SortedFrom d c ds (ground arith) s)
]

pub sort-IsSorted : (cs : List ℤ) → IsSorted (sort cs)
unfolding sort
sort-IsSorted [] = tt
sort-IsSorted (c ∷ cs) = insert-IsSorted c (sort cs) (sort-IsSorted cs)

-- `std::count`: how often an index stands in a list.
abbrev pub count : ℤ → List ℤ → ℕ
count a [] = 0
count a (c ∷ cs) = (if eqb_ℤ a c then 1 else 0) + count a cs

count-insert : (a c : ℤ) (cs : List ℤ) → count a (insert c cs) ≡ count a (c ∷ cs)
unfolding insert
count-insert a c [] = refl
count-insert a c (d ∷ ds) = elim (Bool-cases (leb_ℤ c d)) [
  | inl le ↦ rw le
  | inr gt ↦ rw gt (omega (arith, count-insert a c ds))
]

-- Sorting keeps each index as often as it was given.
pub count-sort : (a : ℤ) (cs : List ℤ) → count a (sort cs) ≡ count a cs
unfolding sort
count-sort a [] = refl
count-sort a (c ∷ cs) = count-insert a c (sort cs) ∙ omega (arith, count-sort a cs)

length-insert : (c : ℤ) (cs : List ℤ) → length (insert c cs) ≡ suc (length cs)
unfolding insert
length-insert c [] = refl
length-insert c (d ∷ ds) = elim (Bool-cases (leb_ℤ c d)) [
  | inl le ↦ rw le
  | inr gt ↦ rw gt (ap suc (length-insert c ds))
]

pub length-sort : (cs : List ℤ) → length (sort cs) ≡ length cs
unfolding sort
length-sort [] = refl
length-sort (c ∷ cs) = length-insert c (sort cs) ∙ ap suc (length-sort cs)

insert-All : (P : ℤ → Type 0) (c : ℤ) (cs : List ℤ) → P c → All P cs → All P (insert c cs)
unfolding insert
insert-All P c [] h a = (h, tt)
insert-All P c (d ∷ ds) h a = elim (Bool-cases (leb_ℤ c d)) [
  | inl le ↦ rw le (h, a)
  | inr gt ↦ rw gt (a.0, insert-All P c ds h a.1)
]

pub sort-All : (P : ℤ → Type 0) (cs : List ℤ) → All P cs → All P (sort cs)
unfolding sort
sort-All P [] a = tt
sort-All P (c ∷ cs) a = insert-All P c (sort cs) a.0 (sort-All P cs a.1)
