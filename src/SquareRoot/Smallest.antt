-- ===== src/SquareRoot/Smallest.antt =====
-- The two smallest roots of a square are of different absolute value.
use native.Mathlib.Nat
use zkfactorization.Prelude.{
  ℕ, ◌+◌, ◌-◌, ◌*◌, ◌%◌, ◌<◌, ◌≡◌, ◌≢◌, inl, inr, Bool-cases, refl, sym, ap, ap₂, subst, ◌∙◌, List,
  [], ◌∷◌, All, arith,
}
use zkfactorization.Prelude.Int.{ℤ, pos, negsuc, minus_one, eqb_ℤ}
use zkfactorization.Prelude.Sorting.{sort}
use zkfactorization.Prelude.Result.{ok, ok-injective}
use zkfactorization.CryptoPp.{ModArith, NumberTheory}
use zkfactorization.SquareRoot.Roots.{
  IsRoot, IsSign, FindsRoots, root_of-square, all_square_roots-roots,
}
use zkfactorization.SquareRoot.{
  SquareRoot, new_square_root, signed, root_of, square_root, all_square_roots,
}
use zkfactorization.SquareRoot.Opposite.{TwoRoots, SmallTwo, sort-SmallTwo, opposite, differ}

module _ (arithmetic : ModArith) (theory : NumberTheory) where
  open theory use {modular_square_root, crt, root_lt, crt_left, crt_right, crt_le}

  -- What is asked of the key, and of the root that `ModularSquareRoot` finds modulo each prime.
  pub record Parts (p q a : ℕ) : Type 0 where
    pub p_big : 1 < p
    pub q_big : 1 < q
    pub v : ℕ
    pub inverse : p * v % q ≡ 1
    pub p_odd : p % 2 ≡ 1
    pub q_odd : q % 2 ≡ 1
    pub at_p : modular_square_root a p ≢ 0
    pub at_q : modular_square_root a q ≢ 0

  module _ (p q a : ℕ) (parts : Parts p q a) where
    abbrev key : SquareRoot
    unfolding new_square_root
    key = new_square_root arithmetic theory p q

    abbrev half : ℤ → ℕ → ℕ
    unfolding signed
    half sign m = signed arithmetic theory sign m (modular_square_root a m)

    inverse_u : p * arithmetic.inverse_mod p q % q ≡ 1 % q
    inverse_u =
        arithmetic.inverse_eq p parts.v q parts.q_big parts.inverse
        ∙ sym (Nat.mod-eq_of_lt parts.q_big)

    half-lt : (sign : ℤ) (m : ℕ) → 0 < m → modular_square_root a m ≢ 0 → half sign m < m
    unfolding half signed
    half-lt sign m some ne =
        let below = root_lt a m some in
        elim (Bool-cases (eqb_ℤ sign minus_one)) [ inl e ↦ rw e (omega arith) | inr e ↦ rw e below ]

    root_of-residues :
        (sign_x sign_y : ℤ)
        → let root = root_of arithmetic theory key a sign_x sign_y in
          (root % p ≡ half sign_x p % p) × (root % q ≡ half sign_y q % q) × (root < p * q)
    unfolding root_of key new_square_root half
    root_of-residues sign_x sign_y =
        let u = arithmetic.inverse_mod p q in
        let big_p = parts.p_big in
        let big_q = parts.q_big in
        (
          crt_left (half sign_x p) p (half sign_y q) q u (omega arith) (omega arith) inverse_u,
          crt_right (half sign_x p) p (half sign_y q) q u (omega arith) (omega arith) inverse_u,
          let bound = crt_le (half sign_x p) p (half sign_y q) q u (omega arith) (omega arith) in
              let small = half-lt sign_x p (omega arith) parts.at_p in omega arith,
        )

    halves :
        (m : ℕ)
        → 1 < m
        → m % 2 ≡ 1
        → modular_square_root a m ≢ 0
        → (half minus_one m % m + half (pos 1) m % m ≡ m)
          × (half minus_one m % m ≢ half (pos 1) m % m)
    unfolding half signed
    halves m big odd some_root =
        let x = modular_square_root a m in
        let x_lt = root_lt a m (omega arith) in
        let low : x % m ≡ x = Nat.mod-eq_of_lt x_lt in
        let some_x : 0 < x = ground arith in
        let high : (m - x) % m ≡ m - x = Nat.mod-eq_of_lt (omega arith) in
        (omega arith, λ e. omega arith)

  -- The code returns the candidates, in order.
  first_two :
      (n a : ℕ) (roots : List ℤ)
      → SmallTwo n roots
      → All (IsRoot n a) roots
      → (a₁ : ℕ) × (a₂ : ℕ) × (rest : List ℤ) × (roots ≡ pos a₁ ∷ pos a₂ ∷ rest)
        × TwoRoots n a a₁ a₂
  first_two n a (pos a₁ ∷ pos a₂ ∷ rest) (ne, small, half₁, half₂)
        ((b₁, e₁, s₁, _), ((b₂, e₂, s₂, _), _)) =
      let same₁ : a₁ ≡ b₁ = cc in
      let same₂ : a₂ ≡ b₂ = cc in
      (
        a₁,
        a₂,
        rest,
        refl,
        record {
          apart = record {
            same_square =
                ap (λ (t : ℕ). t * t % n) same₁
                ∙ s₁
                ∙ sym s₂
                ∙ sym (ap (λ (t : ℕ). t * t % n) same₂);
            differ = ne;
            small = small;
          };
          is_root = ap (λ (t : ℕ). t * t % n) same₁ ∙ s₁;
          half₁ = half₁;
          half₂ = half₂;
        },
      )
  first_two n a [] two all = absurd two
  first_two n a (pos a₁ ∷ []) two all = absurd two
  first_two n a (pos a₁ ∷ negsuc a₂ ∷ rest) two all = absurd two
  first_two n a (negsuc a₁ ∷ rest) two all = absurd two

  module _ (p q a b v : ℕ) (p_big : 1 < p) (q_big : 1 < q) (inverse : p * v % q ≡ 1)
      (finds_p : FindsRoots arithmetic theory p) (finds_q : FindsRoots arithmetic theory q)
      (a_lt : a < p * q) (square : b * b % (p * q) ≡ a) (p_odd : p % 2 ≡ 1) (q_odd : q % 2 ≡ 1)
      (unit_p : a % p ≢ 0) (unit_q : a % q ≢ 0) where
    some_root :
        (m : ℕ)
        → FindsRoots arithmetic theory m
        → b * b % m ≡ a % m
        → a % m ≢ 0
        → modular_square_root a m ≢ 0
    some_root m finds e unit zero_root =
        unit (sym (finds a b e) ∙ ap (λ (t : ℕ). t * t % m) zero_root ∙ Nat.zero-mod m)

    parts : Parts p q a
    parts = record {
      p_big = p_big;
      q_big = q_big;
      v = v;
      inverse = inverse;
      p_odd = p_odd;
      q_odd = q_odd;
      at_p =
          some_root p finds_p
            (sym (Nat.mod-mod_of_dvd p (b * b) (Nat.dvd-mul_right p q))
              ∙ ap (λ (t : ℕ). t % p) square)
            unit_p;
      at_q =
          some_root q finds_q
            (sym (Nat.mod-mod_of_dvd q (b * b) (Nat.dvd-mul_left q p))
              ∙ ap (λ (t : ℕ). t % q) square)
            unit_q;
    }

    found : (sign_x sign_y : ℤ) → ℕ
    found sign_x sign_y =
        root_of arithmetic theory (new_square_root arithmetic theory p q) a sign_x sign_y

    square_root-found :
        (sign_x sign_y : ℤ)
        → IsSign sign_x
        → IsSign sign_y
        → square_root arithmetic theory (new_square_root arithmetic theory p q) a sign_x sign_y
          ≡ ok (pos (found sign_x sign_y))
    unfolding square_root new_square_root found
    square_root-found sign_x sign_y hx hy =
        let p_pos : 0 < p = omega arith in
        ground (
          arith,
          root_of-square arithmetic theory p q a b v p_pos q_big inverse finds_p finds_q a_lt square
              sign_x sign_y,
        )

    candidates-SmallTwo : SmallTwo (p * q) (
        sort (
          pos (found minus_one minus_one)
          ∷ pos (found (pos 1) minus_one)
          ∷ pos (found minus_one (pos 1))
          ∷ pos (found (pos 1) (pos 1))
          ∷ []))
    unfolding found key half
    candidates-SmallTwo =
        let u = arithmetic.inverse_mod p q in
        let (w_p, w_q, w_lt) = root_of-residues p q a parts minus_one minus_one in
        let (x_p, x_q, x_lt) = root_of-residues p q a parts (pos 1) minus_one in
        let (y_p, y_q, y_lt) = root_of-residues p q a parts minus_one (pos 1) in
        let (z_p, z_q, z_lt) = root_of-residues p q a parts (pos 1) (pos 1) in
        let (sum_p, ne_p) = halves p q a parts p p_big p_odd parts.at_p in
        let (sum_q, ne_q) = halves p q a parts q q_big q_odd parts.at_q in
        let w = found minus_one minus_one in
        let x = found (pos 1) minus_one in
        let y = found minus_one (pos 1) in
        let z = found (pos 1) (pos 1) in
        let p_pos : 0 < p = omega arith in
        let q_pos : 0 < q = omega arith in
        let inverse_w = inverse_u p q a parts in
        sort-SmallTwo (p * q) w x y z
          (opposite p q u w z inverse_w p_pos q_pos (ap₂ ◌+◌ w_p z_p ∙ sum_p)
            (ap₂ ◌+◌ w_q z_q ∙ sum_q) w_lt z_lt)
          (opposite p q u x y inverse_w p_pos q_pos
            (ap₂ ◌+◌ x_p y_p
              ∙ Nat.add_comm (half p q a parts (pos 1) p % p) (half p q a parts minus_one p % p)
              ∙ sum_p)
            (ap₂ ◌+◌ x_q y_q ∙ sum_q) x_lt y_lt)
          (differ p w x (λ e. ne_p (sym w_p ∙ e ∙ x_p)))
          (differ q w y (λ e. ne_q (sym w_q ∙ e ∙ y_q)))
          (differ p w z (λ e. ne_p (sym w_p ∙ e ∙ z_p)))
          (differ p x y (λ e. ne_p (sym y_p ∙ sym e ∙ x_p)))

    -- Let p and q be odd and above 1, p have an inverse modulo q, let roots be found modulo both, and let
    -- a be a square below p * q that neither divides. Then the four roots come out with the two smallest
    -- first, which are roots of the square that differ, each less than half of p * q.
    pub all_square_roots-TwoRoots :
        (a₁ : ℕ) × (a₂ : ℕ) × (rest : List ℤ) × (all_square_roots arithmetic theory
            (new_square_root arithmetic theory p q)
            a
          ≡ ok (pos a₁ ∷ pos a₂ ∷ rest))
        × TwoRoots (p * q) a a₁ a₂
    unfolding all_square_roots
    all_square_roots-TwoRoots =
        let p_pos : 0 < p = omega arith in
        let (roots, e, long, sorted, all) =
          all_square_roots-roots arithmetic theory p q a b v p_pos q_big inverse finds_p finds_q
            a_lt square in
        let four =
          pos (found minus_one minus_one)
          ∷ pos (found (pos 1) minus_one)
          ∷ pos (found minus_one (pos 1))
          ∷ pos (found (pos 1) (pos 1))
          ∷ [] in
        let computes : all_square_roots arithmetic theory (new_square_root arithmetic theory p q) a
            ≡ ok (sort four) =
          rw (square_root-found minus_one minus_one (inr refl) (inr refl)) (
            rw (square_root-found (pos 1) minus_one (inl refl) (inr refl)) (
              rw (square_root-found minus_one (pos 1) (inr refl) (inl refl))
                (rw (square_root-found (pos 1) (pos 1) (inl refl) (inl refl)) refl))) in
        let same : sort four ≡ roots = ok-injective (sym computes ∙ e) in
        let (a₁, a₂, rest, eq, apart) =
          first_two (p * q) a roots (subst (SmallTwo (p * q)) same candidates-SmallTwo) all in
        (a₁, a₂, rest, e ∙ ap ok eq, apart)
