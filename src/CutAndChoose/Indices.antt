-- ===== src/CutAndChoose/Indices.antt =====
-- The check of the indices: what passes is a strictly ascending list of instances.
use zkfactorization.Prelude.{
  ℕ, suc, ◌≤◌, ◌<◌, ◌≡◌, subst, ◌∙◌, List, [], ◌∷◌, true, none, some, length, arith,
}
use zkfactorization.Prelude.Int.{ℤ, pos, negsuc}
use zkfactorization.Prelude.Sorting.{
  sort, SortedFrom, IsSorted, sort-IsSorted, count, count-sort, length-sort,
}
use zkfactorization.Prelude.Result.{ok}
use zkfactorization.CutAndChoose.{valid_from, check_indices}

-- Instances in strictly ascending order, from `low` on and below `t`.
abbrev pub Ascending : ℕ → ℕ → List ℤ → Type 0
Ascending t low [] = Unit
Ascending t low (pos n ∷ cs) = (low ≤ n) × (n < t) × Ascending t (suc n) cs
Ascending t low (negsuc n ∷ cs) = ⊥

valid_from-Ascending :
    (t d : ℕ) (cs : List ℤ)
    → SortedFrom (pos d) cs
    → valid_from t (some (pos d)) cs ≡ true
    → Ascending t (suc d) cs
unfolding valid_from
valid_from-Ascending t d [] s h = tt
valid_from-Ascending t d (pos n ∷ cs) s h =
    let rest : valid_from t (some (pos n)) cs ≡ true = ground arith in
    (ground arith, ground arith, valid_from-Ascending t n cs s.1 rest)
valid_from-Ascending t d (negsuc n ∷ cs) s h = ground arith

valid-Ascending :
    (t : ℕ) (cs : List ℤ) → IsSorted cs → valid_from t none cs ≡ true → Ascending t 0 cs
unfolding valid_from
valid-Ascending t [] s h = tt
valid-Ascending t (pos n ∷ cs) s h =
    let rest : valid_from t (some (pos n)) cs ≡ true = ground arith in
    (ground arith, ground arith, valid_from-Ascending t n cs s rest)
valid-Ascending t (negsuc n ∷ cs) s h = ground arith

-- Where the check returns, its indices are `r` in number, strictly ascend below `t`, and are those
-- that the verifier gave, each as often.
pub check_indices-Ascending :
    (t r : ℕ) (given : List ℤ) {chosen : List ℤ}
    → check_indices t r given ≡ ok chosen
    → Ascending t 0 chosen × (length chosen ≡ r) × ((a : ℤ) → count a chosen ≡ count a given)
unfolding check_indices
check_indices-Ascending t r given {chosen} h =
    let long : length given ≡ r = ground arith in
    let valid : valid_from t none (sort given) ≡ true = ground arith in
    let same : sort given ≡ chosen = ground arith in
    subst (λ cs. Ascending t 0 cs × (length cs ≡ r) × ((a : ℤ) → count a cs ≡ count a given)) same
      (
        valid-Ascending t (sort given) (sort-IsSorted given) valid,
        length-sort given ∙ long,
        λ a. count-sort a given,
      )
