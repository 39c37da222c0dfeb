-- ===== src/SellInformation/Picked.antt =====
-- The instances that `Buyer::pickR` picks: they are what cut and choose asks for, and the loop ends once
-- the draws have shown enough of them.
use zkfactorization.Prelude.{
  ℕ, zero, suc, ◌-◌, ◌≤◌, ◌<◌, ◌≡◌, refl, sym, ap, subst, ◌∙◌, List, [], ◌∷◌, Bool-cases, inl, inr,
  map, some, none, true, false, ltb, ◌==◌, length, All, arith,
}
use zkfactorization.Prelude.Int.{pos}
use zkfactorization.Prelude.Sorting.{sort, insert}
use zkfactorization.Prelude.Result.{ok}
use zkfactorization.CryptoPp.{Random}
use zkfactorization.CutAndChoose.{valid_from, check_indices}
use zkfactorization.SellInformation.Draws.{set_insert, set_of, pick_loop, pick_r}

-- In strictly ascending order, from `low` on and below `t`.
abbrev pub Strict : ℕ → ℕ → List ℕ → Type 0
Strict t low [] = Unit
Strict t low (c ∷ cs) = (low ≤ c) × (c < t) × Strict t (suc c) cs

set_insert-Strict :
    (t low c : ℕ) (cs : List ℕ) → low ≤ c → c < t → Strict t low cs → Strict t low (set_insert c cs)
unfolding set_insert
set_insert-Strict t low c [] above below s = (above, below, tt)
set_insert-Strict t low c (d ∷ ds) above below s = elim (Bool-cases (c == d)) [
  | inl e ↦ rw e s
  | inr ne ↦ elim (Bool-cases (ltb c d)) [
    | inl lt ↦ rw ne (rw lt (above, below, (ground arith, s.1, s.2)))
    | inr ge ↦ rw ne (rw ge (s.0, s.1, set_insert-Strict t (suc d) c ds (ground arith) below s.2))
  ]
]

pub length-set_insert :
    (c : ℕ) (cs : List ℕ)
    → (length cs ≤ length (set_insert c cs)) × (length (set_insert c cs) ≤ suc (length cs))
unfolding set_insert
length-set_insert c [] = (omega arith, omega arith)
length-set_insert c (d ∷ ds) = let ih = length-set_insert c ds in ground arith

set_insert_comm :
    (t low a b : ℕ) (cs : List ℕ)
    → Strict t low cs
    → set_insert a (set_insert b cs) ≡ set_insert b (set_insert a cs)
unfolding set_insert
set_insert_comm t low a b [] s = ground arith
set_insert_comm t low a b (d ∷ ds) s = let ih = set_insert_comm t (suc d) a b ds s.2 in ground arith

sort-Strict : (t low : ℕ) (cs : List ℕ) → Strict t low cs → sort (map pos cs) ≡ map pos cs
unfolding sort insert
sort-Strict t low [] s = refl
sort-Strict t low (c ∷ []) s = refl
sort-Strict t low (c ∷ d ∷ ds) s =
    let ih = sort-Strict t (suc c) (d ∷ ds) s.2 in rw ih (ground arith)

valid_from-Strict :
    (t d : ℕ) (cs : List ℕ) → Strict t (suc d) cs → valid_from t (some (pos d)) (map pos cs) ≡ true
unfolding valid_from
valid_from-Strict t d [] s = refl
valid_from-Strict t d (c ∷ cs) s = let ih = valid_from-Strict t c cs s.2 in ground arith

valid-Strict : (t : ℕ) (cs : List ℕ) → Strict t 0 cs → valid_from t none (map pos cs) ≡ true
unfolding valid_from
valid-Strict t [] s = refl
valid-Strict t (c ∷ cs) s = let ih = valid_from-Strict t c cs s.2 in ground arith

length-map : (cs : List ℕ) → length (map pos cs) ≡ length cs
length-map [] = refl
length-map (c ∷ cs) = ap suc (length-map cs)

module _ (random : Random) where
  open random use {Rng, integer, integer_range}

  stops :
      (t r : ℕ) (chosen : List ℕ) {done : List ℕ}
      → Strict t 0 chosen
      → length chosen ≤ r
      → ltb (length chosen) r ≡ false
      → chosen ≡ done
      → Strict t 0 done × (length done ≡ r)
  stops t r chosen s short ge e = subst (λ cs. Strict t 0 cs × (length cs ≡ r)) e (s, ground arith)

  pick_loop-Strict :
      (fuel t r : ℕ) (chosen : List ℕ) (rng : Rng) {done : List ℕ} {rng' : Rng}
      → 0 < t
      → Strict t 0 chosen
      → length chosen ≤ r
      → pick_loop random fuel t r chosen rng ≡ ok (done, rng')
      → Strict t 0 done × (length done ≡ r)
  unfolding pick_loop
  pick_loop-Strict zero t r chosen rng some_t s short h =
      elim (Bool-cases (ltb (length chosen) r)) [
        | inl lt ↦ absurd (cc (rw lt at h))
        | inr ge ↦ stops t r chosen s short ge (cc (rw ge at h))
      ]
  pick_loop-Strict (suc fuel) t r chosen rng some_t s short h =
      elim (Bool-cases (ltb (length chosen) r)) [
        | inl lt ↦
            let drawn = integer 0 (t - 1) rng in
            let below = integer_range 0 (t - 1) rng (omega arith) in
            let longer = length-set_insert drawn.0 chosen in
            pick_loop-Strict fuel t r (set_insert drawn.0 chosen) drawn.1 some_t
              (set_insert-Strict t 0 drawn.0 chosen (omega arith) (omega arith) s) (ground arith)
              (rw lt at h)
        | inr ge ↦ stops t r chosen s short ge (cc (rw ge at h))
      ]

  -- Where `pickR` returns, of at least one instance, the indices that it picked pass the check of cut
  -- and choose unchanged: they are `r` in number and strictly ascend below `t`.
  pub pick_r-check_indices :
      (fuel t r : ℕ) (rng : Rng) {chosen : List ℕ} {rng' : Rng}
      → 0 < t
      → pick_r random fuel t r rng ≡ ok (chosen, rng')
      → Strict t 0 chosen
        × (length chosen ≡ r)
        × (check_indices t r (map pos chosen) ≡ ok (map pos chosen))
  unfolding pick_r check_indices
  pick_r-check_indices fuel t r rng {chosen} some_t h =
      let (s, long) = pick_loop-Strict fuel t r [] rng some_t tt (omega arith) h in
      (
        s,
        long,
        ground (arith, length-map chosen, sort-Strict t 0 chosen s, valid-Strict t chosen s),
      )

  -- The first `n` draws.
  abbrev pub draws : ℕ → ℕ → Rng → List ℕ
  draws zero t rng = []
  draws (suc n) t rng = let drawn = integer 0 (t - 1) rng in drawn.0 ∷ draws n t drawn.1

  abbrev set_into : List ℕ → List ℕ → List ℕ
  set_into chosen [] = chosen
  set_into chosen (c ∷ cs) = set_insert c (set_into chosen cs)

  set_into-Strict :
      (t : ℕ) (chosen cs : List ℕ)
      → Strict t 0 chosen
      → All (λ c. c < t) cs
      → Strict t 0 (set_into chosen cs)
  set_into-Strict t chosen [] s below = s
  set_into-Strict t chosen (c ∷ cs) s below =
      set_insert-Strict t 0 c (set_into chosen cs) (omega arith) below.0
        (set_into-Strict t chosen cs s below.1)

  set_into-set_insert :
      (t a : ℕ) (chosen cs : List ℕ)
      → Strict t 0 chosen
      → All (λ c. c < t) cs
      → set_into (set_insert a chosen) cs ≡ set_insert a (set_into chosen cs)
  set_into-set_insert t a chosen [] s below = refl
  set_into-set_insert t a chosen (c ∷ cs) s below =
      ap (set_insert c) (set_into-set_insert t a chosen cs s below.1)
      ∙ set_insert_comm t 0 c a (set_into chosen cs) (set_into-Strict t chosen cs s below.1)

  set_into-nil : (cs : List ℕ) → set_into [] cs ≡ set_of cs
  unfolding set_of
  set_into-nil [] = refl
  set_into-nil (c ∷ cs) = ap (set_insert c) (set_into-nil cs)

  draws-below : (n t : ℕ) (rng : Rng) → 0 < t → All (λ c. c < t) (draws n t rng)
  draws-below zero t rng some_t = tt
  draws-below (suc n) t rng some_t =
      let below = integer_range 0 (t - 1) rng (omega arith) in
      (omega arith, draws-below n t (integer 0 (t - 1) rng).1 some_t)

  pick_loop-returns :
      (fuel t r : ℕ) (chosen : List ℕ) (rng : Rng)
      → 0 < t
      → Strict t 0 chosen
      → r ≤ length (set_into chosen (draws fuel t rng))
      → (done : List ℕ) × (rng' : Rng) × (pick_loop random fuel t r chosen rng ≡ ok (done, rng'))
  unfolding pick_loop
  pick_loop-returns zero t r chosen rng some_t s enough = (chosen, rng, ground arith)
  pick_loop-returns (suc fuel) t r chosen rng some_t s enough =
      let drawn = integer 0 (t - 1) rng in
      let below = integer_range 0 (t - 1) rng (omega arith) in
      let same =
        set_into-set_insert t drawn.0 chosen (draws fuel t drawn.1) s
          (draws-below fuel t drawn.1 some_t) in
      elim (Bool-cases (ltb (length chosen) r)) [
        | inl lt ↦ rw lt (
            pick_loop-returns fuel t r (set_insert drawn.0 chosen) drawn.1 some_t
              (set_insert-Strict t 0 drawn.0 chosen (omega arith) (omega arith) s)
              (subst (λ cs. r ≤ length cs) (sym same) enough))
        | inr ge ↦ rw ge (chosen, rng, refl)
      ]

  -- The loop of `pickR` ends once the draws have shown `r` different instances: it returns where the
  -- set of the first `fuel` draws has at least `r` items.
  pub pick_r-returns :
      (fuel t r : ℕ) (rng : Rng)
      → 0 < t
      → r ≤ length (set_of (draws fuel t rng))
      → (chosen : List ℕ) × (rng' : Rng) × (pick_r random fuel t r rng ≡ ok (chosen, rng'))
  unfolding pick_r
  pick_r-returns fuel t r rng some_t enough =
      pick_loop-returns fuel t r [] rng some_t tt
        (subst (λ cs. r ≤ length cs) (sym (set_into-nil (draws fuel t rng))) enough)
