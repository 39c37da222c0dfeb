-- ===== src/SquareRoot/Roots.antt =====
-- Of a square modulo n, all four candidates are roots, and they come out in order.
use native.Mathlib.Nat
use zkfactorization.Prelude.{
  ℕ, ◌+◌, ◌-◌, ◌*◌, ◌%◌, ◌≤◌, ◌<◌, ◌≡◌, ◌⊎◌, inl, inr, refl, sym, ap, ◌∙◌, List, [], ◌∷◌, arith,
  Bool-cases, All, length, ◌==◌,
}
use zkfactorization.Prelude.Int.{ℤ, pos, minus_one, eqb_ℤ}
use zkfactorization.Prelude.Sorting.{sort, IsSorted, sort-IsSorted, sort-All, length-sort}
use zkfactorization.Prelude.Modular.{mod_product, mul_cong}
use zkfactorization.Prelude.Result.{ok}
use zkfactorization.CryptoPp.{ModArith, NumberTheory}
use zkfactorization.SquareRoot.{
  SquareRoot, new_square_root, signed, root_of, square_root, all_square_roots,
}

-- A number below `n`, or `n` itself as a root of 0.
abbrev pub IsReduced : ℕ → ℕ → ℕ → Type 0
IsReduced n a r = (r < n) ⊎ (r ≡ n) × (a ≡ 0)

-- A root of `a` modulo `n` that is not negative.
abbrev pub IsRoot : ℕ → ℕ → ℤ → Type 0
IsRoot n a c = (r : ℕ) × (c ≡ pos r) × (r * r % n ≡ a) × IsReduced n a r

root-IsReduced : (n a r : ℕ) → r ≤ n → r * r % n ≡ a → IsReduced n a r
root-IsReduced n a r le square = elim (Bool-cases (r == n)) [
  | inl same ↦
      let e : r ≡ n = ground arith in
      inr (e, sym square ∙ ap (λ (t : ℕ). t * t % n) e ∙ Nat.mul-mod_right n n)
  | inr other ↦ inl (ground arith)
]

abbrev pub IsSign : ℤ → Type 0
IsSign sign = (sign ≡ pos 1) ⊎ (sign ≡ minus_one)

-- The square of p - x is the square of x modulo p.
negated_square : (p x : ℕ) → x ≤ p → (p - x) * (p - x) % p ≡ x * x % p
negated_square p x le = cross (p - x) (omega arith)
  where
    cross : (d : ℕ) → p ≡ x + d → d * d % p ≡ x * x % p
    cross d e =
        let both : d * d + p * x ≡ x * x + p * d =
          omega (arith, ap (λ (t : ℕ). t * x) e, ap (λ (t : ℕ). t * d) e) in
        sym (Nat.add-mul-mod_self_left (d * d) p x)
        ∙ ap (λ (t : ℕ). t % p) both
        ∙ Nat.add-mul-mod_self_left (x * x) p d

module _ (arithmetic : ModArith) (theory : NumberTheory) where
  open theory use {modular_square_root, crt, root_lt, crt_left, crt_right, crt_le}

  -- `ModularSquareRoot` finds a root of every square modulo `p`, as it does for a prime.
  abbrev pub FindsRoots : ℕ → Type 0
  FindsRoots p =
      (a b : ℕ) → b * b % p ≡ a % p → modular_square_root a p * modular_square_root a p % p ≡ a % p

  signed_square :
      (sign : ℤ) (p a : ℕ)
      → 0 < p
      → let x = signed arithmetic theory sign p (modular_square_root a p) in
        x * x % p ≡ modular_square_root a p * modular_square_root a p % p
  unfolding signed
  signed_square sign p a h = elim (Bool-cases (eqb_ℤ sign minus_one)) [
    | inl e ↦ rw e (negated_square p (modular_square_root a p) (omega (arith, root_lt a p h)))
    | inr e ↦ rw e
  ]

  module _ (p q a b v : ℕ) (p_pos : 0 < p) (q_big : 1 < q) (inverse : p * v % q ≡ 1)
      (finds_p : FindsRoots p) (finds_q : FindsRoots q) (a_lt : a < p * q)
      (square : b * b % (p * q) ≡ a) where
    abbrev key : SquareRoot
    unfolding new_square_root
    key = new_square_root arithmetic theory p q

    inverse_u : p * arithmetic.inverse_mod p q % q ≡ 1 % q
    inverse_u = arithmetic.inverse_eq p v q q_big inverse ∙ sym (Nat.mod-eq_of_lt q_big)

    square_mod_p : b * b % p ≡ a % p
    square_mod_p =
        sym (Nat.mod-mod_of_dvd p (b * b) (Nat.dvd-mul_right p q)) ∙ ap (λ (t : ℕ). t % p) square

    square_mod_q : b * b % q ≡ a % q
    square_mod_q =
        sym (Nat.mod-mod_of_dvd q (b * b) (Nat.dvd-mul_left q p)) ∙ ap (λ (t : ℕ). t % q) square

    pub root_of-square :
        (sign_x sign_y : ℤ)
        → let root =
            root_of arithmetic theory (new_square_root arithmetic theory p q) a sign_x sign_y in
          root * root % (p * q) ≡ a
    unfolding root_of new_square_root key
    root_of-square sign_x sign_y =
        let xp = signed arithmetic theory sign_x p (modular_square_root a p) in
        let xq = signed arithmetic theory sign_y q (modular_square_root a q) in
        let root = root_of arithmetic theory key a sign_x sign_y in
        let left = crt_left xp p xq q (arithmetic.inverse_mod p q) p_pos (omega arith) inverse_u in
        let right =
          crt_right xp p xq q (arithmetic.inverse_mod p q) p_pos (omega arith) inverse_u in
        mod_product (root * root) a p q (arithmetic.inverse_mod p q) inverse_u
          (mul_cong root xp root xp p left left
            ∙ signed_square sign_x p a p_pos
            ∙ finds_p a b square_mod_p)
          (mul_cong root xq root xq q right right
            ∙ signed_square sign_y q a (omega arith)
            ∙ finds_q a b square_mod_q)
        ∙ Nat.mod-eq_of_lt a_lt

    signed-le : (sign : ℤ) → signed arithmetic theory sign p (modular_square_root a p) ≤ p
    unfolding signed
    signed-le sign =
        let below = root_lt a p p_pos in
        elim (Bool-cases (eqb_ℤ sign minus_one)) [
          | inl e ↦ rw e (omega arith)
          | inr e ↦ rw e (omega arith)
        ]

    root_of-le : (sign_x sign_y : ℤ) → root_of arithmetic theory key a sign_x sign_y ≤ p * q
    unfolding root_of key new_square_root
    root_of-le sign_x sign_y =
        let xp = signed arithmetic theory sign_x p (modular_square_root a p) in
        let xq = signed arithmetic theory sign_y q (modular_square_root a q) in
        let small = signed-le sign_x in
        let bound = crt_le xp p xq q (arithmetic.inverse_mod p q) p_pos (omega arith) in omega arith

    -- For p above 0 with an inverse modulo q above 1, where roots are found modulo both, and a
    -- square below p * q, every choice of two signs gives a root, below p * q or, of 0, p * q itself,
    -- never -1.
    square_root-root :
        (sign_x sign_y : ℤ)
        → IsSign sign_x
        → IsSign sign_y
        → (root : ℕ) × (square_root arithmetic theory
              (new_square_root arithmetic theory p q)
              a
              sign_x
              sign_y
            ≡ ok (pos root))
          × (root * root % (p * q) ≡ a)
          × IsReduced (p * q) a root
    unfolding square_root new_square_root
    square_root-root sign_x sign_y hx hy =
        let root = root_of arithmetic theory key a sign_x sign_y in
        (
          root,
          ground (arith, root_of-square sign_x sign_y),
          root_of-square sign_x sign_y,
          root-IsReduced (p * q) a root (root_of-le sign_x sign_y) (root_of-square sign_x sign_y),
        )

    -- For p above 0 with an inverse modulo q above 1, where roots are found modulo both, and a
    -- square below p * q, the four results are roots, from the smallest to the largest, each below
    -- p * q, or p * q itself as a root of 0.
    pub all_square_roots-roots :
        (roots : List ℤ) × (all_square_roots arithmetic theory
            (new_square_root arithmetic theory p q)
            a
          ≡ ok roots)
        × (length roots ≡ 4)
        × IsSorted roots
        × All (IsRoot (p * q) a) roots
    unfolding all_square_roots
    all_square_roots-roots =
        let (r₁, e₁, s₁, l₁) = square_root-root minus_one minus_one (inr refl) (inr refl) in
        let (r₂, e₂, s₂, l₂) = square_root-root (pos 1) minus_one (inl refl) (inr refl) in
        let (r₃, e₃, s₃, l₃) = square_root-root minus_one (pos 1) (inr refl) (inl refl) in
        let (r₄, e₄, s₄, l₄) = square_root-root (pos 1) (pos 1) (inl refl) (inl refl) in
        let four = pos r₁ ∷ pos r₂ ∷ pos r₃ ∷ pos r₄ ∷ [] in
        (
          sort four,
          rw e₁ (rw e₂ (rw e₃ (rw e₄))),
          length-sort four,
          sort-IsSorted four,
          sort-All (IsRoot (p * q) a) four (
            (r₁, refl, s₁, l₁),
            ((r₂, refl, s₂, l₂), ((r₃, refl, s₃, l₃), ((r₄, refl, s₄, l₄), tt))),
          ),
        )
