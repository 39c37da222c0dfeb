-- ===== src/CutAndChoose/Ending.antt =====
-- Where the loop of openings ends: with every index used, or past them where the value behind the
-- last one is taken for an index.
use zkfactorization.Prelude.{
  ℕ, zero, suc, ◌+◌, ◌-◌, ◌≤◌, ◌<◌, ◌≡◌, ◌≢◌, refl, sym, ap, ◌∙◌, List, [], ◌∷◌, true, false, some,
  length, drop, arith, inl, inr,
}
use native.Mathlib.Decide.{dec_lt}
use zkfactorization.Prelude.Int.{ℤ, pos, negsuc, eqb_ℤ}
use zkfactorization.Prelude.Result.{ok, ok-injective}
use zkfactorization.CutAndChoose.{Protocol, chosen_at, open_loop}
use zkfactorization.CutAndChoose.Rounds.{
  contains, get_or-drop_nil, round_cases, ix_mono, loop_end, no_prover, no_verifier,
}
use zkfactorization.CutAndChoose.Reached.{Reached, Reached-pass, Reached-keep}

length-drop : (n : ℕ) (xs : List ℤ) → length (drop n xs) ≡ length xs - n
length-drop zero xs = omega arith
length-drop (suc n) [] = omega arith
length-drop (suc n) (x ∷ xs) = omega (arith, length-drop n xs)

module _ {R A B : Type 0} (proto : Protocol R A B) (past : ℕ → ℤ) where
  at_end :
      (t : ℕ) (chosen : List ℤ) (i ix : ℕ) (rest : List ℤ)
      → Reached proto past t chosen i ix rest
      → ix ≡ length chosen
      → (rest ≡ []) × (chosen_at proto past chosen ix ≡ past (length chosen))
  unfolding chosen_at
  at_end t chosen i ix [] v e = (refl, get_or-drop_nil ix chosen (past ix) v.suffix ∙ ap past e)
  at_end t chosen i ix (c ∷ cs) v e =
      absurd (omega (arith, length-drop ix chosen, ap (length {A = ℤ}) v.suffix))

  -- Before instance `t` every index that is left lies ahead, so none is left at the end.
  none_left :
      (t : ℕ) (chosen : List ℤ) (i ix : ℕ) (rest : List ℤ)
      → Reached proto past t chosen i ix rest
      → t ≤ i
      → ix ≤ length chosen
      → ix ≡ length chosen
  none_left t chosen i ix [] v h le =
      omega (arith, length-drop ix chosen, ap (length {A = ℤ}) v.suffix)
  none_left t chosen i ix (pos n ∷ cs) v h le = let a = v.ahead in absurd (omega arith)
  none_left t chosen i ix (negsuc n ∷ cs) v h le = elim v.ahead [ ]

  -- Where no instance stands behind the last index, the loop ends with every index used once.
  pub last_exact :
      (t : ℕ) (chosen : List ℤ)
      → ((x : ℕ) → x < t → eqb_ℤ (pos x) (past (length chosen)) ≡ false)
      → (left i ix : ℕ) (rest : List ℤ) (ps : List A) (vs : List B) (rng : R) (ps' : List A)
        (vs' : List B) (last : ℕ) (rng' : R)
      → Reached proto past t chosen i ix rest
      → ix ≤ length chosen
      → i + left ≡ t
      → open_loop proto past chosen left i ix ps vs rng ≡ ok ((ps', vs', some last), rng')
      → last ≡ length chosen
  last_exact t chosen clear zero i ix rest ps vs rng ps' vs' last rng' v le e h =
      let p : some ix ≡ some last =
        ap (λ x. x.0.2) (ok-injective (sym (loop_end proto past chosen i ix ps vs rng) ∙ h)) in
      let same : ix ≡ last = cc in omega (arith, none_left t chosen i ix rest v (omega arith) le)
  last_exact t chosen clear (suc left) i ix rest [] vs rng ps' vs' last rng' v le e h =
      absurd (no_prover proto past chosen left i ix vs rng h)
  last_exact t chosen clear (suc left) i ix rest (a ∷ ps) [] rng ps' vs' last rng' v le e h =
      absurd (no_verifier proto past chosen left i ix a ps rng h)
  last_exact t chosen clear (suc left) i ix rest (a ∷ ps) (b ∷ vs) rng ps' vs' last rng' v le e h =
      elim (round_cases proto past chosen left i ix a b ps vs rng ps' vs' last rng' h) [
        | inl k ↦ elim (dec_lt ix (length chosen)) [
          | yes inside ↦
              let (_, (cs, w)) = Reached-keep proto past t chosen i ix rest v k.same inside in
              last_exact t chosen clear left (i + 1) (ix + 1) cs ps vs rng k.ps_rest k.vs_rest last
                rng' w (omega arith) (omega arith) k.rest
          | no outside ↦
              let (_, stray) = at_end t chosen i ix rest v (omega arith) in
              let hit = sym k.same ∙ ap (λ c. eqb_ℤ (pos i) c) stray ∙ clear i (omega arith) in cc
        ]
        | inr o ↦
            let (_, w) = Reached-pass proto past t chosen i ix rest v o.other in
            last_exact t chosen clear left (i + 1) ix rest ps vs o.rng₁ o.ps_rest o.vs_rest last
              rng' w le (omega arith) o.rest
      ]

  -- Where a later instance stands behind the last index, the loop takes it for one more index.
  pub last_over :
      (t : ℕ) (chosen : List ℤ) (j : ℕ)
      → past (length chosen) ≡ pos j
      → j < t
      → ((x : ℕ) → contains chosen x ≡ true → x < j)
      → (left i ix : ℕ) (rest : List ℤ) (ps : List A) (vs : List B) (rng : R) (ps' : List A)
        (vs' : List B) (last : ℕ) (rng' : R)
      → Reached proto past t chosen i ix rest
      → ix ≤ length chosen
      → i + left ≡ t
      → i ≤ j
      → open_loop proto past chosen left i ix ps vs rng ≡ ok ((ps', vs', some last), rng')
      → length chosen < last
  last_over t chosen j e below all zero i ix rest ps vs rng ps' vs' last rng' v le r q h =
      absurd (omega arith)
  last_over t chosen j e below all (suc left) i ix rest [] vs rng ps' vs' last rng' v le r q h =
      absurd (no_prover proto past chosen left i ix vs rng h)
  last_over t chosen j e below all (suc left) i ix rest (a ∷ ps) [] rng ps' vs' last rng' v le r q
        h =
      absurd (no_verifier proto past chosen left i ix a ps rng h)
  last_over t chosen j e below all (suc left) i ix rest (a ∷ ps) (b ∷ vs) rng ps' vs' last rng' v le
        r q h =
      elim (round_cases proto past chosen left i ix a b ps vs rng ps' vs' last rng' h) [
        | inl k ↦ elim (dec_lt ix (length chosen)) [
          | yes inside ↦
              let (present, (cs, w)) = Reached-keep proto past t chosen i ix rest v k.same inside in
              let before = all i present in
              last_over t chosen j e below all left (i + 1) (ix + 1) cs ps vs rng k.ps_rest
                k.vs_rest last rng' w (omega arith) (omega arith) (omega arith) k.rest
          | no outside ↦
              let on =
                ix_mono proto past chosen left (i + 1) (ix + 1) ps vs rng k.ps_rest k.vs_rest last
                  rng' k.rest in
              omega arith
        ]
        | inr o ↦
            let (absent, w) = Reached-pass proto past t chosen i ix rest v o.other in
            let apart = past_other rest v absent o.other in
            last_over t chosen j e below all left (i + 1) ix rest ps vs o.rng₁ o.ps_rest o.vs_rest
              last rng' w le (omega arith) (omega arith) o.rest
      ]
    where
      past_other :
          (rest : List ℤ)
          → Reached proto past t chosen i ix rest
          → contains chosen i ≡ false
          → eqb_ℤ (pos i) (chosen_at proto past chosen ix) ≡ false
          → i ≢ j
      past_other [] v absent other same =
          let done : ix ≡ length chosen =
            omega (arith, length-drop ix chosen, ap (length {A = ℤ}) v.suffix) in
          let (_, stray) = at_end t chosen i ix [] v done in
          let miss : eqb_ℤ (pos i) (pos j) ≡ false =
            ap (λ c. eqb_ℤ (pos i) c) (sym (stray ∙ e)) ∙ other in
          ground arith
      past_other (pos n ∷ cs) v absent other same =
          let ahead = v.ahead in
          let present : contains chosen n ≡ true = v.same n ahead.0 ∙ ground arith in
          let before = all n present in omega arith
      past_other (negsuc n ∷ cs) v absent other same = elim v.ahead [ ]
