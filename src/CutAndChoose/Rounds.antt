-- ===== src/CutAndChoose/Rounds.antt =====
-- One round of the loop of openings, taken apart by what it did with its instance.
use zkfactorization.Prelude.{
  ℕ, zero, suc, ◌+◌, ◌≤◌, ◌<◌, ◌≡◌, ◌≢◌, ◌⊎◌, refl, sym, ap, ap₂, ◌∙◌, List, [], ◌∷◌, Bool, true,
  false, ◌||◌, Option, none, some, length, get_or, drop, arith, inl, inr, Bool-cases,
}
use zkfactorization.Prelude.Int.{ℤ, pos, negsuc, eqb_ℤ}
use zkfactorization.Prelude.Result.{Result, ok, bind, bind-eq-ok, ok-injective}
use zkfactorization.CutAndChoose.{Protocol, chosen_at, open_loop}
use zkfactorization.CutAndChoose.Indices.{Ascending}

abbrev pub contains : List ℤ → ℕ → Bool
contains [] i = false
contains (c ∷ cs) i = eqb_ℤ (pos i) c || contains cs i

pub not_before : (t low i : ℕ) (cs : List ℤ) → Ascending t low cs → i < low → contains cs i ≡ false
not_before t low i [] a h = refl
not_before t low i (pos n ∷ cs) a h = ground (arith, not_before t (suc n) i cs a.2)
not_before t low i (negsuc n ∷ cs) a h = elim a [ ]

pub drop-suc :
    (ix : ℕ) (cs : List ℤ) {c : ℤ} {rest : List ℤ} → drop ix cs ≡ c ∷ rest → drop (suc ix) cs ≡ rest
drop-suc zero [] h = cc
drop-suc zero (d ∷ cs) h = cc
drop-suc (suc ix) [] h = cc
drop-suc (suc ix) (d ∷ cs) h = drop-suc ix cs h

pub get_or-drop :
    (ix : ℕ) (cs : List ℤ) (d c : ℤ) {rest : List ℤ} → drop ix cs ≡ c ∷ rest → get_or cs ix d ≡ c
get_or-drop zero [] d c h = cc
get_or-drop zero (e ∷ cs) d c h = cc
get_or-drop (suc ix) [] d c h = cc
get_or-drop (suc ix) (e ∷ cs) d c h = get_or-drop ix cs d c h

pub get_or-drop_nil : (ix : ℕ) (cs : List ℤ) (d : ℤ) → drop ix cs ≡ [] → get_or cs ix d ≡ d
get_or-drop_nil zero [] d h = refl
get_or-drop_nil zero (e ∷ cs) d h = cc
get_or-drop_nil (suc ix) [] d h = refl
get_or-drop_nil (suc ix) (e ∷ cs) d h = get_or-drop_nil ix cs d h

pub drop_nil-length : (ix : ℕ) (cs : List ℤ) → drop ix cs ≡ [] → length cs ≤ ix
drop_nil-length zero [] h = omega arith
drop_nil-length zero (e ∷ cs) h = absurd (cc h)
drop_nil-length (suc ix) [] h = omega arith
drop_nil-length (suc ix) (e ∷ cs) h = omega (arith, drop_nil-length ix cs h)

module _ {R A B : Type 0} (proto : Protocol R A B) (past : ℕ → ℤ) where
  module _ (chosen : List ℤ) (left i ix : ℕ) (a : A) (b : B) (ps : List A) (vs : List B) (rng : R)
      (ps' : List A) (vs' : List B) (last : ℕ) (rng' : R) where
    -- The round left its instance alone.
    pub record Kept : Type 0 where
      pub same : eqb_ℤ (pos i) (chosen_at proto past chosen ix) ≡ true
      pub ps_rest : List A
      pub vs_rest : List B
      pub rest :
          open_loop proto past chosen left (i + 1) (ix + 1) ps vs rng
          ≡ ok ((ps_rest, vs_rest, some last), rng')
      pub ps_eq : ps' ≡ a ∷ ps_rest
      pub vs_eq : vs' ≡ b ∷ vs_rest

    -- The round opened its instance, and it was verified.
    pub record Opened : Type 0 where
      pub other : eqb_ℤ (pos i) (chosen_at proto past chosen ix) ≡ false
      pub a' : A
      pub b' : B
      pub rng₁ : R
      pub opens : proto.reveal a b rng ≡ ok ((a', b'), rng₁)
      pub verifies : proto.verified b' ≡ true
      pub ps_rest : List A
      pub vs_rest : List B
      pub rest :
          open_loop proto past chosen left (i + 1) ix ps vs rng₁
          ≡ ok ((ps_rest, vs_rest, some last), rng')
      pub ps_eq : ps' ≡ a' ∷ ps_rest
      pub vs_eq : vs' ≡ b' ∷ vs_rest

    -- The result of an opening, as the loop goes on with it.
    abbrev then_go : (A × B) × R → Result ((List A × List B × Option ℕ) × R)
    then_go o = elim (proto.verified o.0.1) [
      | false ↦ ok ((o.0.0 ∷ ps, o.0.1 ∷ vs, none), o.1)
      | true ↦
          bind (open_loop proto past chosen left (i + 1) ix ps vs o.1)
            λ rest. ok ((o.0.0 ∷ rest.0.0, o.0.1 ∷ rest.0.1, rest.0.2), rest.1)
    ]

    after :
        eqb_ℤ (pos i) (chosen_at proto past chosen ix) ≡ false
        → (o : (A × B) × R) → proto.reveal a b rng ≡ ok o
        → then_go o ≡ ok ((ps', vs', some last), rng')
        → Opened
    after e o f h = elim (Bool-cases (proto.verified o.0.1)) [
      | inl v ↦
          let (rest, e₁, e₂) =
            bind-eq-ok (open_loop proto past chosen left (i + 1) ix ps vs o.1) _
              (rw (v, then_go) at h) in
          let p = ok-injective e₂ in
          record {
            other = e;
            a' = o.0.0;
            b' = o.0.1;
            rng₁ = o.1;
            opens = f;
            verifies = v;
            ps_rest = rest.0.0;
            vs_rest = rest.0.1;
            rest =
                e₁
                ∙ ap₂ (λ l s. ok ((rest.0.0, rest.0.1, l), s)) (ap (λ x. x.0.2) p)
                    (ap (λ x. x.1) p);
            ps_eq = sym (ap (λ x. x.0.0) p);
            vs_eq = sym (ap (λ x. x.0.1) p);
          }
      | inr v ↦
          let stopped : ok ((o.0.0 ∷ ps, o.0.1 ∷ vs, none), o.1)
              ≡ ok ((ps', vs', some last), rng') =
            rw (v, then_go) at h in
          absurd (cc stopped)
    ]

    pub round_cases :
        open_loop proto past chosen (suc left) i ix (a ∷ ps) (b ∷ vs) rng
          ≡ ok ((ps', vs', some last), rng')
        → Kept ⊎ Opened
    unfolding open_loop
    round_cases h = elim (Bool-cases (eqb_ℤ (pos i) (chosen_at proto past chosen ix))) [
      | inl e ↦
          let (rest, e₁, e₂) =
            bind-eq-ok (open_loop proto past chosen left (i + 1) (ix + 1) ps vs rng) _
              (rw (e, open_loop) at h) in
          let p = ok-injective e₂ in
          inl (record {
            same = e;
            ps_rest = rest.0.0;
            vs_rest = rest.0.1;
            rest =
                e₁
                ∙ ap₂ (λ o s. ok ((rest.0.0, rest.0.1, o), s)) (ap (λ x. x.0.2) p)
                    (ap (λ x. x.1) p);
            ps_eq = sym (ap (λ x. x.0.0) p);
            vs_eq = sym (ap (λ x. x.0.1) p);
          })
      | inr e ↦
          let (o, f₁, f₂) = bind-eq-ok (proto.reveal a b rng) _ (rw (e, open_loop) at h) in
          inr (after e o f₁ f₂)
    ]

  pub loop_end :
      (chosen : List ℤ) (i ix : ℕ) (ps : List A) (vs : List B) (rng : R)
      → open_loop proto past chosen zero i ix ps vs rng ≡ ok ((ps, vs, some ix), rng)
  unfolding open_loop
  loop_end chosen i ix ps vs rng = refl

  pub no_prover :
      (chosen : List ℤ) (left i ix : ℕ) (vs : List B) (rng : R)
      {o : (List A × List B × Option ℕ) × R}
      → open_loop proto past chosen (suc left) i ix [] vs rng ≢ ok o
  unfolding open_loop
  no_prover chosen left i ix vs rng h = cc

  pub no_verifier :
      (chosen : List ℤ) (left i ix : ℕ) (a : A) (ps : List A) (rng : R)
      {o : (List A × List B × Option ℕ) × R}
      → open_loop proto past chosen (suc left) i ix (a ∷ ps) [] rng ≢ ok o
  unfolding open_loop
  no_verifier chosen left i ix a ps rng h = cc

  -- The loop never turns back on its index.
  pub ix_mono :
      (chosen : List ℤ) (left i ix : ℕ) (ps : List A) (vs : List B) (rng : R) (ps' : List A)
      (vs' : List B) (last : ℕ) (rng' : R)
      → open_loop proto past chosen left i ix ps vs rng ≡ ok ((ps', vs', some last), rng')
      → ix ≤ last
  ix_mono chosen zero i ix ps vs rng ps' vs' last rng' h =
      let done = ok-injective (sym (loop_end chosen i ix ps vs rng) ∙ h) in
      let e : some ix ≡ some last = ap (λ x. x.0.2) done in let f : ix ≡ last = cc in omega arith
  ix_mono chosen (suc left) i ix [] vs rng ps' vs' last rng' h =
      absurd (no_prover chosen left i ix vs rng h)
  ix_mono chosen (suc left) i ix (a ∷ ps) [] rng ps' vs' last rng' h =
      absurd (no_verifier chosen left i ix a ps rng h)
  ix_mono chosen (suc left) i ix (a ∷ ps) (b ∷ vs) rng ps' vs' last rng' h =
      elim (round_cases chosen left i ix a b ps vs rng ps' vs' last rng' h) [
        | inl k ↦ omega (
          arith,
          ix_mono chosen left (i + 1) (ix + 1) ps vs rng k.ps_rest k.vs_rest last rng' k.rest,
        )
        | inr o ↦ ix_mono chosen left (i + 1) ix ps vs o.rng₁ o.ps_rest o.vs_rest last rng' o.rest
      ]
