-- ===== src/SellInformation/Halves.antt =====
-- The subset that `Buyer::pickSubset` picks: half of the L indices, which pass the check of `exec`.
use zkfactorization.Prelude.{
  ℕ, zero, suc, ◌+◌, ◌/◌, ◌≤◌, ◌<◌, ◌≡◌, ◌≢◌, ◌⊎◌, refl, sym, ap, ◌∙◌, List, [], ◌∷◌, true, false,
  if◌then◌else◌, leb, ◌==◌, Bool-cases, inl, inr, All, length, take, occurrences, arith,
}
use zkfactorization.Prelude.Result.{ok}
use zkfactorization.CryptoPp.{Random}
use zkfactorization.SellInformation.Draws.{set_insert, set_of, iota, pick_subset}
use zkfactorization.SellInformation.Exchange.{all_below, check_subset}
use zkfactorization.SellInformation.Sets.{occurrences-set_of}

-- Lists that hold the same numbers, as often, are of one length.
remove : ℕ → List ℕ → List ℕ
remove a [] = []
remove a (x ∷ xs) = let rest = remove a xs in if a == x then xs else x ∷ rest

length-remove :
    (a : ℕ) (xs : List ℕ) → occurrences a xs ≢ 0 → length xs ≡ suc (length (remove a xs))
unfolding remove
length-remove a [] h = absurd (h refl)
length-remove a (x ∷ xs) h = elim (Bool-cases (a == x)) [
  | inl e ↦ ground arith
  | inr ne ↦ let ih = length-remove a xs (ground arith) in ground arith
]

occurrences-remove :
    (a b : ℕ) (xs : List ℕ)
    → occurrences a xs ≢ 0
    → occurrences b xs ≡ occurrences b (a ∷ remove a xs)
unfolding remove
occurrences-remove a b [] h = absurd (h refl)
occurrences-remove a b (x ∷ xs) h = elim (Bool-cases (a == x)) [
  | inl e ↦ ground arith
  | inr ne ↦ let ih = occurrences-remove a b xs (ground arith) in ground arith
]

pub length-occurrences :
    (xs ys : List ℕ) → ((a : ℕ) → occurrences a xs ≡ occurrences a ys) → length xs ≡ length ys
length-occurrences [] [] h = refl
length-occurrences [] (y ∷ ys) h = let e = h y in absurd (ground arith)
length-occurrences (x ∷ xs) ys h =
    let here : occurrences x ys ≢ 0 = λ none_of. let e = h x in ground arith in
    ap suc (
      length-occurrences xs (remove x ys)
        (λ a. let e = h a in let f = occurrences-remove x a ys here in omega arith))
    ∙ sym (length-remove x ys here)

-- The numbers of `iota`.
length-iota : (left i : ℕ) → length (iota left i) ≡ left
unfolding iota
length-iota zero i = refl
length-iota (suc left) i = ap suc (length-iota left (i + 1))

iota_once : (left i a : ℕ) → occurrences a (iota left i) ≤ 1
unfolding iota
iota_once zero i a = omega arith
iota_once (suc left) i a = elim (Bool-cases (a == i)) [
  | inl e ↦ let h = iota_before left (i + 1) a (ground arith) in ground arith
  | inr ne ↦ let ih = iota_once left (i + 1) a in ground arith
]
  where
    iota_before : (left i a : ℕ) → a < i → occurrences a (iota left i) ≡ 0
    iota_before zero i a h = refl
    iota_before (suc left) i a h = let ih = iota_before left (i + 1) a (omega arith) in ground arith

iota_inside : (left i a : ℕ) → occurrences a (iota left i) ≢ 0 → a < i + left
unfolding iota
iota_inside zero i a h = absurd (h refl)
iota_inside (suc left) i a h = elim (Bool-cases (a == i)) [
  | inl e ↦ ground arith
  | inr ne ↦ let ih = iota_inside left (i + 1) a (ground arith) in omega arith
]

occurrences-take : (k a : ℕ) (xs : List ℕ) → occurrences a (take k xs) ≤ occurrences a xs
occurrences-take zero a xs = omega arith
occurrences-take (suc k) a [] = omega arith
occurrences-take (suc k) a (x ∷ xs) = let ih = occurrences-take k a xs in ground arith

length-take : (k : ℕ) (xs : List ℕ) → k ≤ length xs → length (take k xs) ≡ k
length-take zero xs h = refl
length-take (suc k) [] h = absurd (omega arith)
length-take (suc k) (x ∷ xs) h = ap suc (length-take k xs (omega arith))

-- A property of all numbers that stand in a list.
All-occurrences : (P : ℕ → Type 0) (xs : List ℕ) → ((a : ℕ) → occurrences a xs ≢ 0 → P a) → All P xs
All-occurrences P [] h = tt
All-occurrences P (x ∷ xs) h =
    (h x (ground arith), All-occurrences P xs (λ a some_of. h a (ground arith)))

-- The set of a list without repetition is as long as the list.
length-set_insert_new :
    (c : ℕ) (cs : List ℕ) → occurrences c cs ≡ 0 → length (set_insert c cs) ≡ suc (length cs)
unfolding set_insert
length-set_insert_new c [] h = refl
length-set_insert_new c (d ∷ ds) h =
    let ih = length-set_insert_new c ds (ground arith) in ground arith

length-set_of_distinct :
    (xs : List ℕ) → ((a : ℕ) → occurrences a xs ≤ 1) → length (set_of xs) ≡ length xs
unfolding set_of
length-set_of_distinct [] once = refl
length-set_of_distinct (x ∷ xs) once =
    let alone : occurrences x xs ≡ 0 = let h = once x in ground arith in
    length-set_insert_new x (set_of xs) ((occurrences-set_of x xs).1 alone)
    ∙ ap suc (length-set_of_distinct xs (λ a. let h = once a in ground arith))

all_below-All : (l : ℕ) (xs : List ℕ) → All (λ i. i < l) xs → all_below l xs ≡ true
unfolding all_below
all_below-All l [] h = refl
all_below-All l (x ∷ xs) (lt, h) =
    let no : leb l x ≡ false = ground arith in rw (no, all_below) (all_below-All l xs h)

-- A list that holds all numbers below `n` has `n` items.
crowded : (n : ℕ) (xs : List ℕ) → ((i : ℕ) → i < n → occurrences i xs ≢ 0) → n ≤ length xs
crowded zero xs all = omega arith
crowded (suc n) xs all =
    let here = all n (omega arith) in
    let ih = crowded n (remove n xs) (λ i lt.
      let e = occurrences-remove n i xs here in let h = all i (omega arith) in ground arith) in
    omega (arith, length-remove n xs here, ih)

missing_or_all :
    (n : ℕ) (xs : List ℕ)
    → ((i : ℕ) × (i < n) × (occurrences i xs ≡ 0)) ⊎ ((i : ℕ) → i < n → occurrences i xs ≢ 0)
missing_or_all zero xs = inr (λ i lt. absurd (omega arith))
missing_or_all (suc n) xs = elim (Bool-cases (occurrences n xs == 0)) [
  | inl e ↦ inl (n, omega arith, ground arith)
  | inr some_of ↦ elim (missing_or_all n xs) [
    | inl (i, lt, e) ↦ inl (i, omega arith, e)
    | inr all ↦ inr (λ i lt. elim (Bool-cases (i == n)) [
      | inl same ↦ let e : i ≡ n = ground arith in λ h. ground (arith, ap (λ t. occurrences t xs) e)
      | inr other ↦ all i (ground arith)
    ])
  ]
]

module _ (random : Random) (l : ℕ) (rng : random.Rng) where
  open random use {shuffle, shuffle_occurrences}

  abbrev pub picked : List ℕ
  unfolding pick_subset
  picked = (pick_subset random l rng).0

  picked_occurrences : (a : ℕ) → occurrences a picked ≤ occurrences a (iota l 0)
  unfolding pick_subset
  picked_occurrences a =
      let h = occurrences-take (l / 2) a (shuffle (iota l 0) rng).0 in
      let e = shuffle_occurrences (iota l 0) rng a in omega arith

  pub length-picked : length picked ≡ l / 2
  unfolding pick_subset
  length-picked =
      let e =
        length-occurrences (shuffle (iota l 0) rng).0 (iota l 0)
          (shuffle_occurrences (iota l 0) rng) in
      length-take (l / 2) (shuffle (iota l 0) rng).0 (omega (arith, length-iota l 0, e))

  pub picked-below : All (λ i. i < l) picked
  picked-below =
      All-occurrences (λ i. i < l) picked
        (λ a some_of.
          let h = picked_occurrences a in
          let inside = iota_inside l 0 a (λ none_of. some_of (omega arith)) in omega arith)

  picked-distinct : (a : ℕ) → occurrences a picked ≤ 1
  picked-distinct a = let h = picked_occurrences a in let k = iota_once l 0 a in omega arith

  pub check_subset-picked : check_subset l picked ≡ ok (set_of picked)
  unfolding check_subset
  check_subset-picked =
      let size : length (set_of picked) ≡ l / 2 =
        length-set_of_distinct picked picked-distinct ∙ length-picked in
      let below : all_below l (set_of picked) ≡ true = all_below-All l (set_of picked) (
        All-occurrences (λ i. i < l) (set_of picked)
          (λ a some_of.
            let h = picked_occurrences a in
            let inside =
              iota_inside l 0 a
                (λ none_of. some_of ((occurrences-set_of a picked).1 (omega arith))) in
            omega arith)) in
      ground (arith, size, below)

  -- Half of the indices leave one out.
  pub unasked : 0 < l → (i : ℕ) × (i < l) × (occurrences i picked ≡ 0)
  unasked some_l = elim (missing_or_all l picked) [
    | inl found ↦ found
    | inr all ↦ let h = crowded l picked all in absurd (omega (arith, length-picked))
  ]

  -- The indices that `pickSubset` picks pass the check of `exec`: they are L / 2 in number, all below
  -- L, and the set of them, which the check returns, is as large.
  pub pick_subset-check_subset :
      (length (pick_subset random l rng).0 ≡ l / 2)
      × All (λ i. i < l) (pick_subset random l rng).0
      × (check_subset l (pick_subset random l rng).0 ≡ ok (set_of (pick_subset random l rng).0))
      × (length (set_of (pick_subset random l rng).0) ≡ l / 2)
  unfolding pick_subset
  pick_subset-check_subset = (
    length-picked,
    picked-below,
    check_subset-picked,
    length-set_of_distinct picked picked-distinct ∙ length-picked,
  )
