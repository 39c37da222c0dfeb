-- ===== src/Examples/Drawn.antt =====
-- Two of five instances, from the draws 3, 4 and on.
use zkfactorization.Prelude.{ℕ, ◌<◌, ◌≡◌, refl, All, List, [], ◌∷◌, length, map, arith}
use zkfactorization.Prelude.Int.{pos}
use zkfactorization.Prelude.Result.{ok}
use zkfactorization.CutAndChoose.{check_indices}
use zkfactorization.SellInformation.Draws.{set_insert, set_of, pick_loop, pick_r, pick_subset}
use zkfactorization.SellInformation.Picked.{Strict, draws, pick_r-check_indices, pick_r-returns}
use zkfactorization.SellInformation.Exchange.{check_subset}
use zkfactorization.SellInformation.Halves.{pick_subset-check_subset}
use zkfactorization.Examples.Toy.{random}

abbrev two : List ℕ
two = 3 ∷ 4 ∷ []

picks : pick_r random 9 5 2 3 ≡ ok (two, 5)
unfolding pick_r pick_loop set_insert
picks = refl

pick_r-check_indices_example :
    Strict 5 0 two × (length two ≡ 2) × (check_indices 5 2 (map pos two) ≡ ok (map pos two))
pick_r-check_indices_example = pick_r-check_indices random 9 5 2 3 (omega arith) picks

two_drawn : length (set_of (draws random 2 5 3)) ≡ 2
unfolding set_of set_insert
two_drawn = refl

pick_r-returns_example :
    (chosen : List ℕ) × (rng' : ℕ) × (pick_r random 2 5 2 3 ≡ ok (chosen, rng'))
pick_r-returns_example = pick_r-returns random 2 5 2 3 (omega arith) (omega (arith, two_drawn))

pick_subset-check_subset_example :
    (length (pick_subset random 4 3).0 ≡ 2)
    × All (λ i. i < 4) (pick_subset random 4 3).0
    × (check_subset 4 (pick_subset random 4 3).0 ≡ ok (set_of (pick_subset random 4 3).0))
    × (length (set_of (pick_subset random 4 3).0) ≡ 2)
pick_subset-check_subset_example = pick_subset-check_subset random 4 3
