-- ===== src/SellInformation/Subset.antt =====
-- What the seller learns of the subset that the buyer shows.
use zkfactorization.Prelude.{ℕ, ◌*◌, ◌/◌, ◌%◌, ◌≤◌, ◌≡◌, ap, ◌∙◌, List, [], ◌∷◌, arith}
use zkfactorization.Prelude.Int.{ℤ}
use zkfactorization.Prelude.Result.{ok, bind-eq-ok}
use zkfactorization.SellInformation.{read, accept_value, accept_subset}

-- Each value is a root of the square that its index names, and at most half of n.
abbrev pub AllRoots : ℕ → List ℕ → List ℕ → List ℕ → Type 0
AllRoots n y [] values = Unit
AllRoots n y (ind ∷ indices) [] = ⊥
AllRoots n y (ind ∷ indices) (val ∷ values) =
    (read y ind ≡ ok (val * val % n)) × (val ≤ n / 2) × AllRoots n y indices values

accept_value-root :
    (n square : ℕ) (root1 root2 : ℤ) (val : ℕ) {which : ℕ}
    → accept_value n square root1 root2 val ≡ ok which
    → (square ≡ val * val % n) × (val ≤ n / 2)
unfolding accept_value
accept_value-root n square root1 root2 val h = (ground arith, ground arith)

-- Where the seller accepts a subset, every value is at most half of n, and its square modulo n is
-- the one that the buyer sent for the index.
pub accept_subset-AllRoots :
    (n : ℕ) (y : List ℕ) (r1 r2 : List ℤ) (indices values : List ℕ) {which : List ℕ}
    → accept_subset n y r1 r2 indices values ≡ ok which
    → AllRoots n y indices values
unfolding accept_subset
accept_subset-AllRoots n y r1 r2 [] values h = tt
accept_subset-AllRoots n y r1 r2 (ind ∷ indices) [] h = absurd (cc h)
accept_subset-AllRoots n y r1 r2 (ind ∷ indices) (val ∷ values) h =
    let (square, e₁, h₁) = bind-eq-ok (read y ind) _ h in
    let (root1, e₂, h₂) = bind-eq-ok (read r1 ind) _ h₁ in
    let (root2, e₃, h₃) = bind-eq-ok (read r2 ind) _ h₂ in
    let (first, e₄, h₄) = bind-eq-ok (accept_value n square root1 root2 val) _ h₃ in
    let (rest, e₅, h₅) = bind-eq-ok (accept_subset n y r1 r2 indices values) _ h₄ in
    let (same, small) = accept_value-root n square root1 root2 val e₄ in
    (e₁ ∙ ap ok same, small, accept_subset-AllRoots n y r1 r2 indices values e₅)
