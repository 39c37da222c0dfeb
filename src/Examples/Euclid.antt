-- ===== src/Examples/Euclid.antt =====
-- Euclid's algorithm, and two small primes.
use native.Mathlib.Nat
use Prim.Native.Nat.{◌∣◌}
use zkfactorization.Prelude.{ℕ, zero, suc, ◌%◌, ◌<◌, ◌≡◌, refl, Bool, true, not, ◌||◌, ◌==◌, arith}
use zkfactorization.Prelude.Int.{ℤ, pos, pos_part}
use zkfactorization.Prelude.Prime.{IsPrime, IsGcd}
use zkfactorization.Prelude.Tables.{passes_to, passes_at}

abbrev pub euclid : ℕ → ℕ → ℕ → ℕ
euclid zero a b = a
euclid (suc fuel) a zero = a
euclid (suc fuel) a (suc b) = euclid fuel (suc b) (a % suc b)

euclid-divides : (fuel a b : ℕ) → b < fuel → (euclid fuel a b ∣ a) × (euclid fuel a b ∣ b)
euclid-divides zero a b h = absurd (omega arith)
euclid-divides (suc fuel) a zero h = (Nat.dvd_refl a, Nat.dvd-zero a)
euclid-divides (suc fuel) a (suc b) h =
    let small = Nat.mod-lt a {m = suc b} (omega arith) in
    let (left, right) = euclid-divides fuel (suc b) (a % suc b) (omega arith) in
    ((Nat.dvd-mod_iff (euclid fuel (suc b) (a % suc b)) left).0 right, left)

euclid-greatest : (fuel a b d : ℕ) → b < fuel → d ∣ a → d ∣ b → d ∣ euclid fuel a b
euclid-greatest zero a b d h left right = absurd (omega arith)
euclid-greatest (suc fuel) a zero d h left right = left
euclid-greatest (suc fuel) a (suc b) d h left right =
    let small = Nat.mod-lt a {m = suc b} (omega arith) in
    euclid-greatest fuel (suc b) (a % suc b) d (omega arith) right
      ((Nat.dvd-mod_iff d right).1 left)

abbrev pub gcd : ℤ → ℤ → ℕ
gcd a b = euclid (suc (pos_part b)) (pos_part a) (pos_part b)

pub gcd-IsGcd : IsGcd (λ a b. gcd (pos a) (pos b))
gcd-IsGcd = record {
  left = λ a b. (euclid-divides (suc b) a b (omega arith)).0;
  right = λ a b. (euclid-divides (suc b) a b (omega arith)).1;
  greatest = λ a b d left right. euclid-greatest (suc b) a b d (omega arith) left right;
}

-- A number that no other one divides, by trying them all.
abbrev fits : ℕ → ℕ → Bool
fits p d = (d == 1 || d == p) || not (p % d == 0)

fits-IsPrime : (p : ℕ) → 1 < p → passes_to (fits p) (suc p) ≡ true → IsPrime p
fits-IsPrime p big table = (
  big,
  λ d h.
      let small = Nat.le_of_dvd {m = d} {n = p} (omega arith) h in
      let entry = passes_at (fits p) {k = d} (omega arith) table in
      let divides = Nat.mod-eq-zero_of_dvd d h in ground arith,
)

pub seven-IsPrime : IsPrime 7
unfolding passes_to
seven-IsPrime = fits-IsPrime 7 (omega arith) refl

pub eleven-IsPrime : IsPrime 11
unfolding passes_to
eleven-IsPrime = fits-IsPrime 11 (omega arith) refl
