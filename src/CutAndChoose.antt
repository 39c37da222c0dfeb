-- ===== src/CutAndChoose.antt =====
-- cut_and_choose/cut_and_choose.h and the interface of protocol.h: a protocol is executed `t`
-- times, and all executions are opened but the `r` that the verifier chose.
pub mod Indices
pub mod Rounds
pub mod Reached
pub mod Opening
pub mod Ending
pub mod Honest
use zkfactorization.Prelude.{
  ℕ, zero, suc, ◌+◌, List, [], ◌∷◌, Bool, true, false, not, ◌&&◌, ◌||◌, ◌==◌, Option, none, some,
  if◌then◌else◌, length, get_elem?, get_or, set,
}
use zkfactorization.Prelude.Int.{ℤ, pos, negsuc, ltb_ℤ, leb_ℤ, eqb_ℤ}
use zkfactorization.Prelude.Sorting.{sort}
use zkfactorization.Prelude.Result.{Run, Result, ok, throw, undefined, protocol, bind}

-- `Protocol<A, B>` with what the template uses of its parties: `verified` is B's
-- `getOpenVerified`, and `cheat` is A's method of that name. (`reveal` is the method `open`.)
pub record Protocol (R A B : Type 0) : Type 0 where
  pub init : A → B → Run R (A × B)
  pub exec : A → B → Run R (A × B)
  pub reveal : A → B → Run R (A × B)
  pub verified : B → Bool
  pub cheat : A → Result A

-- The loop that checks the sorted indices; `previous` is `chosen_i[ix-1]`.
unfoldable pub valid_from : ℕ → Option ℤ → List ℤ → Bool
valid_from t previous [] = true
valid_from t none (c ∷ cs) = not (ltb_ℤ c (pos 0) || leb_ℤ (pos t) c) && valid_from t (some c) cs
valid_from t (some d) (c ∷ cs) =
    not (ltb_ℤ c (pos 0) || leb_ℤ (pos t) c) && not (eqb_ℤ c d) && valid_from t (some c) cs

-- `Verifier::getI`
unfoldable pub get_i : List ℤ → Result (List ℤ)
get_i [] = throw (protocol "i is not set")
get_i (c ∷ cs) = ok (c ∷ cs)

-- The sorted indices, once they have passed the checks.
unfoldable pub check_indices : ℕ → ℕ → List ℤ → Result (List ℤ)
unfolding sort valid_from
check_indices t r chosen =
    if not (length chosen == r)
    then throw (protocol "Wrong set of indices")
    else let sorted = sort chosen in
      if valid_from t none sorted then ok sorted else throw (protocol "Wrong set of indices")

module _ {R A B : Type 0} (proto : Protocol R A B) (past : ℕ → ℤ) where
  -- The loop of executions, over the instances of the prover and of the verifier.
  unfoldable pub run_all : ℕ → List A → List B → Run R (List A × List B)
  run_all zero ps vs rng = ok ((ps, vs), rng)
  run_all (suc left) [] vs rng = undefined
  run_all (suc left) (a ∷ ps) [] rng = undefined
  run_all (suc left) (a ∷ ps) (b ∷ vs) rng = bind (proto.init a b rng) λ i.
      bind (proto.exec i.0.0 i.0.1 i.1)
        λ e. bind (run_all left ps vs e.1) λ rest. ok ((e.0.0 ∷ rest.0.0, e.0.1 ∷ rest.0.1), rest.1)

  -- `p->v[cheat].cheat()` unless `cheat` is -1.
  unfoldable pub cheat_at : ℤ → List A → Result (List A)
  cheat_at (pos i) ps = elim (get_elem? ps i) [
    | none ↦ undefined
    | some a ↦ bind (proto.cheat a) λ a'. ok (set ps i a')
  ]
  cheat_at (negsuc zero) ps = ok ps
  cheat_at (negsuc (suc n)) ps = undefined

  -- `chosen_i[ix]`: once `ix` has passed the last index, the read is out of range, and `past` is
  -- what stands there.
  unfoldable pub chosen_at : List ℤ → ℕ → ℤ
  chosen_at chosen ix = get_or chosen ix (past ix)

  -- The loop of openings from instance `i` on, `left` of them; `none` is its early return.
  unfoldable pub open_loop :
      List ℤ → ℕ → ℕ → ℕ → List A → List B → Run R (List A × List B × Option ℕ)
  unfolding chosen_at
  open_loop chosen zero i ix ps vs rng = ok ((ps, vs, some ix), rng)
  open_loop chosen (suc left) i ix [] vs rng = undefined
  open_loop chosen (suc left) i ix (a ∷ ps) [] rng = undefined
  open_loop chosen (suc left) i ix (a ∷ ps) (b ∷ vs) rng =
      elim (eqb_ℤ (pos i) (chosen_at chosen ix)) [
        | true ↦
            bind (open_loop chosen left (i + 1) (ix + 1) ps vs rng)
              λ rest. ok ((a ∷ rest.0.0, b ∷ rest.0.1, rest.0.2), rest.1)
        | false ↦ bind (proto.reveal a b rng) λ o. elim (proto.verified o.0.1) [
          | false ↦ ok ((o.0.0 ∷ ps, o.0.1 ∷ vs, none), o.1)
          | true ↦
              bind (open_loop chosen left (i + 1) ix ps vs o.1)
                λ rest. ok ((o.0.0 ∷ rest.0.0, o.0.1 ∷ rest.0.1, rest.0.2), rest.1)
        ]
      ]

  -- What follows the loop, on its last `ix`; the flag is the verifier's `res`.
  unfoldable pub finish : ℕ → List A × List B × Option ℕ → Result (List A × List B × Bool)
  finish r (ps, vs, none) = ok (ps, vs, false)
  finish r (ps, vs, some ix) =
      if not (ix == r) then throw (protocol "Assert failed") else ok (ps, vs, true)

  unfoldable pub cut_and_choose :
      ℕ → ℕ → List A → List B → List ℤ → ℤ → Run R (List A × List B × Bool)
  unfolding check_indices get_i finish
  cut_and_choose t r ps vs i cheat rng = bind (run_all t ps vs rng) λ ran.
      bind (cheat_at cheat ran.0.0) λ cheated. bind (get_i i) λ given.
        bind (check_indices t r given) λ chosen.
          bind (open_loop chosen t 0 0 cheated ran.0.1 ran.1)
            λ opened. bind (finish r opened.0) λ done. ok (done, opened.1)
