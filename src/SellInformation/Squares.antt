-- ===== src/SellInformation/Squares.antt =====
-- What `Buyer::genSquares` draws: behind each index stand a root and its square.
use zkfactorization.Prelude.{ℕ, zero, suc, ◌*◌, ◌/◌, ◌%◌, ◌≤◌, ◌≡◌, refl, ap, length, arith}
use zkfactorization.Prelude.Result.{ok, ok-injective}
use zkfactorization.CryptoPp.{Random}
use zkfactorization.SellInformation.{read, gen_squares}

module _ (random : Random) (n : ℕ) where
  open random use {Rng, integer, integer_range}

  pub length-gen_squares_roots :
      (left : ℕ) (rng : Rng) → length (gen_squares random n left rng).0.0 ≡ left
  unfolding gen_squares
  length-gen_squares_roots zero rng = refl
  length-gen_squares_roots (suc left) rng =
      ap suc (length-gen_squares_roots left (integer 0 (n / 2) rng).1)

  pub length-gen_squares :
      (left : ℕ) (rng : Rng) → length (gen_squares random n left rng).0.1 ≡ left
  unfolding gen_squares
  length-gen_squares zero rng = refl
  length-gen_squares (suc left) rng = ap suc (length-gen_squares left (integer 0 (n / 2) rng).1)

  -- Behind each index stand a root of at most half of n and its square.
  pub read-gen_squares :
      (left : ℕ) (rng : Rng) (i : ℕ) {x : ℕ}
      → let rows = (gen_squares random n left rng).0 in
        read rows.0 i ≡ ok x → (read rows.1 i ≡ ok (x * x % n)) × (x ≤ n / 2)
  unfolding gen_squares read
  read-gen_squares zero rng i h = absurd (cc h)
  read-gen_squares (suc left) rng zero {x} h =
      let drawn = integer 0 (n / 2) rng in
      let small = integer_range 0 (n / 2) rng (omega arith) in
      let same : drawn.0 ≡ x = ok-injective h in (ap (λ (t : ℕ). ok (t * t % n)) same, omega arith)
  read-gen_squares (suc left) rng (suc i) h = read-gen_squares left (integer 0 (n / 2) rng).1 i h
