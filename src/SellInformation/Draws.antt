-- ===== src/SellInformation/Draws.antt =====
-- What the buyer picks at random: the instances that stay closed, and the subset whose roots it
-- shows.
use zkfactorization.Prelude.{
  ℕ, zero, suc, ◌+◌, ◌-◌, ◌/◌, List, [], ◌∷◌, ◌==◌, ltb, if◌then◌else◌, length, take,
}
use zkfactorization.Prelude.Result.{Run, ok, hangs}
use zkfactorization.CryptoPp.{Random}

-- `set<int>::insert`; the set is the list of its items in order.
unfoldable pub set_insert : ℕ → List ℕ → List ℕ
set_insert c [] = c ∷ []
set_insert c (d ∷ ds) =
    if c == d then d ∷ ds else if ltb c d then c ∷ d ∷ ds else d ∷ set_insert c ds

-- `set<unsigned>(first, last)`
unfoldable pub set_of : List ℕ → List ℕ
unfolding set_insert
set_of [] = []
set_of (c ∷ cs) = set_insert c (set_of cs)

-- `std::iota` from `i` on
unfoldable pub iota : ℕ → ℕ → List ℕ
iota zero i = []
iota (suc left) i = i ∷ iota left (i + 1)

module _ (random : Random) where
  open random use {Rng, integer, shuffle}

  -- The loop of `Buyer::pickR`, on fuel.
  unfoldable pub pick_loop : ℕ → ℕ → ℕ → List ℕ → Run Rng (List ℕ)
  unfolding set_insert
  pick_loop zero t r chosen rng = if ltb (length chosen) r then hangs else ok (chosen, rng)
  pick_loop (suc fuel) t r chosen rng =
      let drawn = integer 0 (t - 1) rng in
      let rest = pick_loop fuel t r (set_insert drawn.0 chosen) drawn.1 in
      if ltb (length chosen) r then rest else ok (chosen, rng)

  unfoldable pub pick_r : ℕ → ℕ → ℕ → Run Rng (List ℕ)
  unfolding pick_loop
  pick_r fuel t r rng = pick_loop fuel t r [] rng

  -- `Buyer::pickSubset`, for one instance
  unfoldable pub pick_subset : ℕ → Rng → List ℕ × Rng
  unfolding iota
  pick_subset l rng = let (shuffled, rng') = shuffle (iota l 0) rng in (take (l / 2) shuffled, rng')
