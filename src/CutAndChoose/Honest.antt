-- ===== src/CutAndChoose/Honest.antt =====
-- A prover that follows the protocol: the verifier accepts it, unless what stands behind the last
-- index in memory is read as one more index.
use zkfactorization.Prelude.{
  ℕ, zero, suc, ◌+◌, ◌<◌, ◌≡◌, ◌≢◌, refl, sym, ap, subst, ◌∙◌, List, [], ◌∷◌, true, false, Option,
  some, length, arith, inl, inr, Bool-cases,
}
use zkfactorization.Prelude.Int.{ℤ, pos, eqb_ℤ, minus_one}
use zkfactorization.Prelude.Result.{Result, ok, throw, protocol, bind, bind-eq-ok, ok-injective}
use zkfactorization.CutAndChoose.{
  Protocol, chosen_at, open_loop, run_all, cheat_at, get_i, check_indices, finish, cut_and_choose,
}
use zkfactorization.CutAndChoose.Rounds.{contains}
use zkfactorization.CutAndChoose.Reached.{Reached}
use zkfactorization.CutAndChoose.Indices.{check_indices-Ascending}
use zkfactorization.CutAndChoose.Ending.{last_exact, last_over}

-- `Fits` is what two parties have to agree on before they execute the protocol.
module _ {R A B : Type 0} (proto : Protocol R A B) (past : ℕ → ℤ) (Fits : A → B → Type 0) where
  -- Opening succeeds and verifies, whatever is drawn.
  abbrev pub Opens : A → B → Type 0
  Opens a b =
      (rng : R) → (o : (A × B) × R) × (proto.reveal a b rng ≡ ok o) × (proto.verified o.0.1 ≡ true)

  -- Parties that fit and have executed the protocol can open.
  abbrev pub IsHonest : Type 0
  IsHonest =
      (a : A) (b : B) (rng : R) (i e : (A × B) × R)
      → Fits a b
      → proto.init a b rng ≡ ok i
      → proto.exec i.0.0 i.0.1 i.1 ≡ ok e
      → Opens e.0.0 e.0.1

  -- The first `left` instances are there and can open.
  abbrev pub AllOpen : ℕ → List A → List B → Type 0
  AllOpen zero ps vs = Unit
  AllOpen (suc left) (a ∷ ps) (b ∷ vs) = Opens a b × AllOpen left ps vs
  AllOpen (suc left) _ _ = ⊥

  -- The first `left` instances fit.
  abbrev pub AllFit : ℕ → List A → List B → Type 0
  AllFit zero ps vs = Unit
  AllFit (suc left) (a ∷ ps) (b ∷ vs) = Fits a b × AllFit left ps vs
  AllFit (suc left) _ _ = ⊥

  abbrev pub Ends : Result ((List A × List B × Option ℕ) × R) → Type 0
  Ends result =
      (ps' : List A) × (vs' : List B) × (last : ℕ) × (rng' : R) × (result
        ≡ ok ((ps', vs', some last), rng'))

  -- An honest prover takes the loop to its end.
  loop-Ends :
      (chosen : List ℤ) (left i ix : ℕ) (ps : List A) (vs : List B) (rng : R)
      → AllOpen left ps vs
      → Ends (open_loop proto past chosen left i ix ps vs rng)
  unfolding open_loop
  loop-Ends chosen zero i ix ps vs rng h = (ps, vs, ix, rng, refl)
  loop-Ends chosen (suc left) i ix [] vs rng h = elim h [ ]
  loop-Ends chosen (suc left) i ix (a ∷ ps) [] rng h = elim h [ ]
  loop-Ends chosen (suc left) i ix (a ∷ ps) (b ∷ vs) rng h =
      elim (Bool-cases (eqb_ℤ (pos i) (chosen_at proto past chosen ix))) [
        | inl e ↦
            let (ps', vs', last, rng', r) = loop-Ends chosen left (i + 1) (ix + 1) ps vs rng h.1 in
            (a ∷ ps', b ∷ vs', last, rng', rw (e, open_loop) (rw r))
        | inr e ↦
            let (o, opens, verifies) = h.0 rng in
            let (ps', vs', last, rng', r) = loop-Ends chosen left (i + 1) ix ps vs o.1 h.1 in
            (
              o.0.0 ∷ ps',
              o.0.1 ∷ vs',
              last,
              rng',
              rw (e, open_loop) (rw (opens) (rw verifies (rw r))),
            )
      ]

  -- After the executions of honest parties, all instances can open.
  run_all-AllOpen :
      IsHonest
      → (left : ℕ) (ps : List A) (vs : List B) (rng : R) {ran : (List A × List B) × R}
      → AllFit left ps vs
      → run_all proto past left ps vs rng ≡ ok ran
      → AllOpen left ran.0.0 ran.0.1
  unfolding run_all
  run_all-AllOpen honest zero ps vs rng fit h = tt
  run_all-AllOpen honest (suc left) [] vs rng fit h = absurd (cc h)
  run_all-AllOpen honest (suc left) (a ∷ ps) [] rng fit h = absurd (cc h)
  run_all-AllOpen honest (suc left) (a ∷ ps) (b ∷ vs) rng fit h =
      let (i, e₁, h₁) = bind-eq-ok (proto.init a b rng) _ h in
      let (e, e₂, h₂) = bind-eq-ok (proto.exec i.0.0 i.0.1 i.1) _ h₁ in
      let (rest, e₃, h₃) = bind-eq-ok (run_all proto past left ps vs e.1) _ h₂ in
      subst (λ r. AllOpen (suc left) r.0.0 r.0.1) (ok-injective h₃)
        (honest a b rng i e fit.0 e₁ e₂, run_all-AllOpen honest left ps vs e.1 fit.1 e₃)

  -- The indices are in order, and the executions return.
  pub record IsReady (t r : ℕ) (ps : List A) (vs : List B) (given : List ℤ) (rng : R) : Type 0 where
    pub chosen : List ℤ
    pub fit : AllFit t ps vs
    pub ran : (List A × List B) × R
    pub runs : run_all proto past t ps vs rng ≡ ok ran
    pub given_some : given ≢ []
    pub checks : check_indices t r given ≡ ok chosen

  get_i-some : (given : List ℤ) → given ≢ [] → get_i given ≡ ok given
  unfolding get_i
  get_i-some [] h = absurd (h refl)
  get_i-some (c ∷ cs) h = refl

  module _ (t r : ℕ) (ps : List A) (vs : List B) (given : List ℤ) (rng : R)
      (ready : IsReady t r ps vs given rng) (honest : IsHonest) where
    start : Reached proto past t ready.chosen 0 0 ready.chosen
    start = record {
      suffix = refl;
      ahead = (check_indices-Ascending t r given ready.checks).0;
      same = λ x p. refl;
    }

    ends : Ends (open_loop proto past ready.chosen t 0 0 ready.ran.0.0 ready.ran.0.1 ready.ran.1)
    ends =
        loop-Ends ready.chosen t 0 0 ready.ran.0.0 ready.ran.0.1 ready.ran.1
          (run_all-AllOpen honest t ps vs rng ready.fit ready.runs)

    run_eq :
        cut_and_choose proto past t r ps vs given minus_one rng
        ≡ bind (finish proto past r (ends.0, ends.1, some ends.2)) (λ done. ok (done, ends.3))
    unfolding cut_and_choose cheat_at
    run_eq = rw ready.runs (rw (get_i-some given ready.given_some) (rw ready.checks (rw ends.4)))

    long : length ready.chosen ≡ r
    long = (check_indices-Ascending t r given ready.checks).1

    -- Where the executions return, the indices are given and pass the check, every pair of parties
    -- fits, parties that fit and have executed the protocol open and verify, nobody cheats, and the value that stands
    -- in memory behind the last index is no instance, the call returns with `res` true.
    pub honest_accepted :
        ((x : ℕ) → x < t → eqb_ℤ (pos x) (past r) ≡ false)
        → (ps' : List A) × (vs' : List B) × (rng' : R) × (cut_and_choose proto past t r ps vs given
              minus_one rng
            ≡ ok ((ps', vs', true), rng'))
    unfolding finish
    honest_accepted clear = (ends.0, ends.1, ends.3, run_eq ∙ rw all_used (ground arith))
      where
        all_used : ends.2 ≡ r
        all_used =
            last_exact proto past t ready.chosen
              (subst (λ (k : ℕ). (x : ℕ) → x < t → eqb_ℤ (pos x) (past k) ≡ false) (sym long) clear)
              t 0 0 ready.chosen ready.ran.0.0 ready.ran.0.1 ready.ran.1 ends.0 ends.1 ends.2 ends.3
              start (omega arith) (omega arith) ends.4
            ∙ long

    -- The loop reads behind the last index: where the executions return, the indices are given and
    -- pass the check, every pair of parties fits, parties that fit and have executed the protocol open and
    -- verify, and nobody cheats, the call still throws at its final assertion, if the value that stands behind
    -- the last index is an instance above all chosen ones.
    pub honest_refused :
        (j : ℕ)
        → past r ≡ pos j
        → j < t
        → ((x : ℕ) → contains ready.chosen x ≡ true → x < j)
        → cut_and_choose proto past t r ps vs given minus_one rng ≡ throw (protocol "Assert failed")
    unfolding finish
    honest_refused j e below all = run_eq ∙ ground (arith, over)
      where
        over : r < ends.2
        over = rw long at (
            last_over proto past t ready.chosen j (ap past long ∙ e) below all t 0 0 ready.chosen
              ready.ran.0.0 ready.ran.0.1 ready.ran.1 ends.0 ends.1 ends.2 ends.3 start
              (omega arith) (omega arith) (omega arith) ends.4)
