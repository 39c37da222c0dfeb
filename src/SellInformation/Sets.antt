-- ===== src/SellInformation/Sets.antt =====
-- `std::set` as its items in order: what is in the set of a list, and that a list as long as its set
-- has no item twice.
use zkfactorization.Prelude.{
  ℕ, suc, ◌≤◌, ◌<◌, ◌≡◌, ◌≢◌, ◌↔◌, refl, sym, ap, ◌∙◌, List, [], ◌∷◌, ltb, ◌==◌, Bool-cases, inl,
  inr, length, occurrences, arith,
}
use zkfactorization.SellInformation.Draws.{set_insert, set_of}
use zkfactorization.SellInformation.Picked.{length-set_insert}

-- In strictly ascending order, from `low` on.
abbrev Above : ℕ → List ℕ → Type 0
Above low [] = Unit
Above low (c ∷ cs) = (low ≤ c) × Above (suc c) cs

set_insert-Above : (low c : ℕ) (cs : List ℕ) → low ≤ c → Above low cs → Above low (set_insert c cs)
unfolding set_insert
set_insert-Above low c [] h s = (h, tt)
set_insert-Above low c (d ∷ ds) h s = elim (Bool-cases (c == d)) [
  | inl e ↦ rw e s
  | inr ne ↦ elim (Bool-cases (ltb c d)) [
    | inl lt ↦ rw ne (rw lt (h, (ground arith, s.1)))
    | inr ge ↦ rw ne (rw ge (s.0, set_insert-Above (suc d) c ds (ground arith) s.1))
  ]
]

set_of-Above : (xs : List ℕ) → Above 0 (set_of xs)
unfolding set_of
set_of-Above [] = tt
set_of-Above (x ∷ xs) = set_insert-Above 0 x (set_of xs) (omega arith) (set_of-Above xs)

not_below : (low i : ℕ) (cs : List ℕ) → Above low cs → i < low → occurrences i cs ≡ 0
not_below low i [] s h = refl
not_below low i (c ∷ cs) s h =
    let ih = not_below (suc c) i cs s.1 (omega (arith, s.0)) in ground arith

occurrences-set_insert :
    (i c : ℕ) (cs : List ℕ) → i ≢ c → occurrences i (set_insert c cs) ≡ occurrences i cs
unfolding set_insert
occurrences-set_insert i c [] ne = ground arith
occurrences-set_insert i c (d ∷ ds) ne = let ih = occurrences-set_insert i c ds ne in ground arith

inserted : (c : ℕ) (cs : List ℕ) → occurrences c (set_insert c cs) ≢ 0
unfolding set_insert
inserted c [] = ground arith
inserted c (d ∷ ds) = let ih = inserted c ds in ground arith

-- An insertion that makes the set longer was of a new item.
inserted_new :
    (low c : ℕ) (cs : List ℕ)
    → Above low cs
    → length (set_insert c cs) ≡ suc (length cs)
    → occurrences c cs ≡ 0
unfolding set_insert
inserted_new low c [] s h = refl
inserted_new low c (d ∷ ds) s h = elim (Bool-cases (c == d)) [
  | inl e ↦ absurd (ground arith)
  | inr ne ↦ elim (Bool-cases (ltb c d)) [
    | inl lt ↦ let ih = not_below (suc d) c ds s.1 (ground arith) in ground arith
    | inr ge ↦ let ih = inserted_new (suc d) c ds s.1 (ground arith) in ground arith
  ]
]

pub occurrences-set_of :
    (i : ℕ) (xs : List ℕ) → (occurrences i (set_of xs) ≡ 0) ↔ (occurrences i xs ≡ 0)
unfolding set_of
occurrences-set_of i [] = ((λ h. h), λ h. h)
occurrences-set_of i (x ∷ xs) = elim (Bool-cases (i == x)) [
  | inl e ↦
      let same : x ≡ i = ground arith in
      let there = inserted x (set_of xs) in
      (
        (λ h. absurd (there (ap (λ t. occurrences t (set_insert x (set_of xs))) same ∙ h))),
        λ h. absurd (ground arith),
      )
  | inr ne ↦
      let other : i ≢ x = λ e. ground arith in
      let step = occurrences-set_insert i x (set_of xs) other in
      let ih = occurrences-set_of i xs in
      ((λ h. let k = ih.0 (sym step ∙ h) in ground arith), λ h. step ∙ ih.1 (ground arith))
]

length-set_of : (xs : List ℕ) → length (set_of xs) ≤ length xs
unfolding set_of
length-set_of [] = omega arith
length-set_of (x ∷ xs) = omega (arith, length-set_of xs, (length-set_insert x (set_of xs)).1)

pub set_of-distinct :
    (xs : List ℕ) → length (set_of xs) ≡ length xs → (i : ℕ) → occurrences i xs ≤ 1
unfolding set_of
set_of-distinct [] h i = omega arith
set_of-distinct (x ∷ xs) h i =
    let short = length-set_of xs in
    let bounds = length-set_insert x (set_of xs) in
    let ih = set_of-distinct xs (omega arith) i in
    let fresh =
      (occurrences-set_of x xs).0 (inserted_new 0 x (set_of xs) (set_of-Above xs) (omega arith)) in
    elim (Bool-cases (i == x)) [
      | inl e ↦
          let same : x ≡ i = ground arith in
          let fresh_i : occurrences i xs ≡ 0 = sym (ap (λ t. occurrences t xs) same) ∙ fresh in
          ground arith
      | inr ne ↦ ground arith
    ]
