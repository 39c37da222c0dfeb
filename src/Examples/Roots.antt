-- ===== src/Examples/Roots.antt =====
-- A subset of two roots modulo 77.
use zkfactorization.Prelude.{ℕ, ◌≡◌, refl, List, [], ◌∷◌}
use zkfactorization.Prelude.Int.{ℤ, pos}
use zkfactorization.Prelude.Result.{ok}
use zkfactorization.SellInformation.{
  read, accept_value, accept_subset, gen_squares, get_subset_values,
}
use zkfactorization.SellInformation.Subset.{AllRoots, accept_subset-AllRoots}
use zkfactorization.Examples.Toy.{random}

abbrev squares : List ℕ
squares = 4 ∷ 25 ∷ 36 ∷ []

abbrev firsts : List ℤ
firsts = pos 2 ∷ pos 5 ∷ pos 6 ∷ []

abbrev seconds : List ℤ
seconds = pos 9 ∷ pos 16 ∷ pos 71 ∷ []

accepts : accept_subset 77 squares firsts seconds (2 ∷ 0 ∷ []) (6 ∷ 9 ∷ []) ≡ ok (1 ∷ 2 ∷ [])
unfolding accept_subset read accept_value
accepts = refl

accept_subset-AllRoots_example : AllRoots 77 squares (2 ∷ 0 ∷ []) (6 ∷ 9 ∷ [])
accept_subset-AllRoots_example =
    accept_subset-AllRoots 77 squares firsts seconds (2 ∷ 0 ∷ []) (6 ∷ 9 ∷ []) accepts

-- The squares 1, 4 and 9 of the draws 1, 2 and 3
shows : get_subset_values (gen_squares random 77 3 1).0.0 (2 ∷ 0 ∷ []) ≡ ok (3 ∷ 1 ∷ [])
unfolding get_subset_values read gen_squares
shows = refl
