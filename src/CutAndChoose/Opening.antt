-- ===== src/CutAndChoose/Opening.antt =====
-- What the loop of openings shows: where the verifier accepts, every instance that was not chosen
-- was opened and verified, and no chosen instance was touched.
use zkfactorization.Prelude.{
  ℕ, zero, suc, ◌+◌, ◌≡◌, ◌⊎◌, refl, sym, ap, ap₂, ◌∙◌, List, [], ◌∷◌, true, false, Option, none,
  some, length, arith, inl, inr,
}
use zkfactorization.Prelude.Int.{ℤ}
use zkfactorization.Prelude.Result.{ok, bind-eq-ok, ok-injective}
use zkfactorization.CutAndChoose.{
  Protocol, open_loop, run_all, cheat_at, get_i, check_indices, finish, cut_and_choose,
}
use zkfactorization.CutAndChoose.Rounds.{
  contains, round_cases, ix_mono, loop_end, no_prover, no_verifier,
}
use zkfactorization.CutAndChoose.Reached.{Reached, Reached-pass, Reached-keep}
use zkfactorization.CutAndChoose.Indices.{Ascending, check_indices-Ascending}

module _ {R A B : Type 0} (proto : Protocol R A B) (past : ℕ → ℤ) where
  -- What became of one instance.
  abbrev pub Fate : List ℤ → ℕ → A → B → A → B → Type 0
  Fate chosen i a b a' b' =
      (contains chosen i ≡ true) × (a' ≡ a) × (b' ≡ b)
      ⊎ (contains chosen i ≡ false)
        × ((rng rng' : R) × (proto.reveal a b rng ≡ ok ((a', b'), rng'))
            × (proto.verified b' ≡ true))

  -- What became of `left` instances from instance `i` on.
  abbrev pub Fates : List ℤ → ℕ → ℕ → List A → List B → List A → List B → Type 0
  Fates chosen zero i ps vs ps' vs' = (ps' ≡ ps) × (vs' ≡ vs)
  Fates chosen (suc left) i (a ∷ ps) (b ∷ vs) (a' ∷ ps') (b' ∷ vs') =
      Fate chosen i a b a' b' × Fates chosen left (i + 1) ps vs ps' vs'
  Fates chosen (suc left) i _ _ _ _ = ⊥

  -- The loop, where it reaches the end with every index used.
  loop-Fates :
      (t : ℕ) (chosen : List ℤ) (left i ix : ℕ) (rest : List ℤ) (ps : List A) (vs : List B)
      (rng : R) (ps' : List A) (vs' : List B) (rng' : R)
      → Reached proto past t chosen i ix rest
      → open_loop proto past chosen left i ix ps vs rng
        ≡ ok ((ps', vs', some (length chosen)), rng')
      → Fates chosen left i ps vs ps' vs'
  loop-Fates t chosen zero i ix rest ps vs rng ps' vs' rng' v h =
      let p = ok-injective (sym (loop_end proto past chosen i ix ps vs rng) ∙ h) in
      (sym (ap (λ x. x.0.0) p), sym (ap (λ x. x.0.1) p))
  loop-Fates t chosen (suc left) i ix rest [] vs rng ps' vs' rng' v h =
      absurd (no_prover proto past chosen left i ix vs rng h)
  loop-Fates t chosen (suc left) i ix rest (a ∷ ps) [] rng ps' vs' rng' v h =
      absurd (no_verifier proto past chosen left i ix a ps rng h)
  loop-Fates t chosen (suc left) i ix rest (a ∷ ps) (b ∷ vs) rng ps' vs' rng' v h =
      elim (round_cases proto past chosen left i ix a b ps vs rng ps' vs' (length chosen) rng' h) [
        | inl k ↦
            let on =
              ix_mono proto past chosen left (i + 1) (ix + 1) ps vs rng k.ps_rest k.vs_rest
                (length chosen) rng' k.rest in
            let (present, (cs, w)) =
              Reached-keep proto past t chosen i ix rest v k.same (omega arith) in
            rw (k.ps_eq, k.vs_eq)
              (
                inl (present, refl, refl),
                loop-Fates t chosen left (i + 1) (ix + 1) cs ps vs rng k.ps_rest k.vs_rest rng' w
                    k.rest,
              )
        | inr o ↦
            let (absent, w) = Reached-pass proto past t chosen i ix rest v o.other in
            rw (o.ps_eq, o.vs_eq)
              (
                inr (absent, (rng, o.rng₁, o.opens, o.verifies)),
                loop-Fates t chosen left (i + 1) ix rest ps vs o.rng₁ o.ps_rest o.vs_rest rng' w
                    o.rest,
              )
      ]

  finish-true :
      (r : ℕ) (o : List A × List B × Option ℕ) (ps' : List A) (vs' : List B)
      → finish proto past r o ≡ ok (ps', vs', true)
      → o ≡ (ps', vs', some r)
  unfolding finish
  finish-true r (ps, vs, none) ps' vs' h = absurd (cc h)
  finish-true r (ps, vs, some ix) ps' vs' h = ground arith

  get_i-ok : (given chosen : List ℤ) → get_i given ≡ ok chosen → given ≡ chosen
  unfolding get_i
  get_i-ok [] chosen h = absurd (cc h)
  get_i-ok (c ∷ cs) chosen h = ok-injective h

  -- Where the call returns with `res` true, the indices that it used have passed the check, are `r`
  -- in number and strictly ascend below `t`; every instance that is not among them is as an opening
  -- left it that ran on the instance after the executions and the cheating, and that opening
  -- verified; every instance among them is as the executions and the cheating left it.
  pub cut_and_choose-Fates :
      (t r : ℕ) (ps : List A) (vs : List B) (given : List ℤ) (cheat : ℤ) (rng : R) {ps' : List A}
      {vs' : List B} {rng' : R}
      → cut_and_choose proto past t r ps vs given cheat rng ≡ ok ((ps', vs', true), rng')
      → (chosen : List ℤ) × (ran : (List A × List B) × R) × (cheated : List A) × (check_indices t r
            given
          ≡ ok chosen)
        × (run_all proto past t ps vs rng ≡ ok ran)
        × (cheat_at proto past cheat ran.0.0 ≡ ok cheated)
        × Ascending t 0 chosen
        × (length chosen ≡ r)
        × Fates chosen t 0 cheated ran.0.1 ps' vs'
  unfolding cut_and_choose
  cut_and_choose-Fates t r ps vs given cheat rng {ps'} {vs'} {rng'} h =
      let (ran, e₁, h₁) = bind-eq-ok (run_all proto past t ps vs rng) _ h in
      let (cheated, e₂, h₂) = bind-eq-ok (cheat_at proto past cheat ran.0.0) _ h₁ in
      let (taken, e₃, h₃) = bind-eq-ok (get_i given) _ h₂ in
      let (chosen, e₄, h₄) = bind-eq-ok (check_indices t r taken) _ h₃ in
      let (opened, e₅, h₅) =
        bind-eq-ok (open_loop proto past chosen t 0 0 cheated ran.0.1 ran.1) _ h₄ in
      let (done, e₆, h₆) = bind-eq-ok (finish proto past r opened.0) _ h₅ in
      let ended = ok-injective h₆ in
      let checked : check_indices t r given ≡ ok chosen =
        ap (check_indices t r) (get_i-ok given taken e₃) ∙ e₄ in
      let (ascends, long, _) = check_indices-Ascending t r given checked in
      let last : opened.0 ≡ (ps', vs', some (length chosen)) =
        finish-true r opened.0 ps' vs' (e₆ ∙ ap ok (ap (λ x. x.0) ended))
        ∙ ap (λ (k : ℕ). (ps', vs', some k)) (sym long) in
      let looped = e₅ ∙ ap₂ (λ o s. ok (o, s)) last (ap (λ x. x.1) ended) in
      let start : Reached proto past t chosen 0 0 chosen = record {
        suffix = refl;
        ahead = ascends;
        same = λ x p. refl;
      } in
      (
        chosen,
        ran,
        cheated,
        checked,
        e₁,
        e₂,
        ascends,
        long,
        loop-Fates t chosen t 0 0 chosen cheated ran.0.1 ran.1 ps' vs' rng' start looped,
      )
