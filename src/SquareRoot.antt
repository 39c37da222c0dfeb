-- ===== src/SquareRoot.antt =====
-- common/square_root.{h,cpp}: the four square roots modulo the product of two primes.
pub mod Roots
pub mod Opposite
pub mod Smallest
use zkfactorization.Prelude.{ℕ, ◌-◌, ◌*◌, ◌%◌, Bool, not, ◌&&◌, ◌==◌, if◌then◌else◌, List, [], ◌∷◌}
use zkfactorization.Prelude.Int.{ℤ, pos, minus_one, eqb_ℤ, leb_ℤ}
use zkfactorization.Prelude.Sorting.{sort}
use zkfactorization.Prelude.Result.{Result, ok, throw, standard, bind}
use zkfactorization.CryptoPp.{ModArith, NumberTheory}

pub record SquareRoot : Type 0 where
  pub p : ℕ
  pub q : ℕ
  pub n : ℕ
  pub u : ℕ

module _ (arithmetic : ModArith) (theory : NumberTheory) where
  open arithmetic use {inverse_mod}
  open theory use {modular_square_root, crt}

  -- `SquareRoot::SquareRoot`
  unfoldable pub new_square_root : ℕ → ℕ → SquareRoot
  new_square_root p q = record { p = p; q = q; n = p * q; u = inverse_mod p q }

  -- `if (sign == -1) x = p - x;`
  unfoldable pub signed : ℤ → ℕ → ℕ → ℕ
  signed sign p x = if eqb_ℤ sign minus_one then p - x else x

  -- The candidate that `square_root` builds.
  unfoldable pub root_of : SquareRoot → ℕ → ℤ → ℤ → ℕ
  unfolding signed
  root_of k a sign_x sign_y =
      let xp = signed sign_x k.p (modular_square_root a k.p) in
      let xq = signed sign_y k.q (modular_square_root a k.q) in crt xp k.p xq k.q k.u

  unfoldable pub square_root : SquareRoot → ℕ → ℤ → ℤ → Result ℤ
  unfolding root_of
  square_root k a sign_x sign_y =
      if not (eqb_ℤ sign_y minus_one) && not (eqb_ℤ sign_y (pos 1))
      then throw standard
      else if not (eqb_ℤ sign_x minus_one) && not (eqb_ℤ sign_x (pos 1))
      then throw standard
      else let root = root_of k a sign_x sign_y in
        if not (root * root % k.n == a) then ok minus_one else ok (pos root)

  unfoldable pub all_square_roots : SquareRoot → ℕ → Result (List ℤ)
  unfolding square_root sort
  all_square_roots k a = bind (square_root k a minus_one minus_one) λ r1.
      bind (square_root k a (pos 1) minus_one) λ r2.
        bind (square_root k a minus_one (pos 1))
          λ r3. bind (square_root k a (pos 1) (pos 1)) λ r4. ok (sort (r1 ∷ r2 ∷ r3 ∷ r4 ∷ []))
