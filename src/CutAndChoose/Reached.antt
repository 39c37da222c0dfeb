-- ===== src/CutAndChoose/Reached.antt =====
-- The indices that are still ahead of the loop of openings when it reaches an instance.
use zkfactorization.Prelude.{
  ℕ, suc, ◌+◌, ◌≤◌, ◌<◌, ◌≡◌, refl, sym, ap, subst, ◌∙◌, List, [], ◌∷◌, true, false, length, get_or,
  drop, arith,
}
use zkfactorization.Prelude.Int.{ℤ, pos, negsuc, eqb_ℤ}
use native.Mathlib.Numerals.{add-one}
use zkfactorization.CutAndChoose.{Protocol, chosen_at}
use zkfactorization.CutAndChoose.Indices.{Ascending}
use zkfactorization.CutAndChoose.Rounds.{
  contains, drop-suc, not_before, get_or-drop, get_or-drop_nil, drop_nil-length,
}

module _ {R A B : Type 0} (proto : Protocol R A B) (past : ℕ → ℤ) where
  -- What the loop knows when it reaches instance `i` with index `ix`: the indices that are left.
  pub record Reached (t : ℕ) (chosen : List ℤ) (i ix : ℕ) (rest : List ℤ) : Type 0 where
    pub suffix : drop ix chosen ≡ rest
    pub ahead : Ascending t i rest
    pub same : (x : ℕ) → i ≤ x → contains chosen x ≡ contains rest x

  ahead_pass :
      (t i : ℕ) (rest : List ℤ) (d : ℤ)
      → Ascending t i rest
      → eqb_ℤ (pos i) (get_or rest 0 d) ≡ false
      → (contains rest i ≡ false) × Ascending t (i + 1) rest
  ahead_pass t i [] d a h = (refl, tt)
  ahead_pass t i (pos n ∷ cs) d a h =
      let below : i < n = ground arith in
      (ground (arith, not_before t (suc n) i cs a.2), (omega arith, a.1, a.2))
  ahead_pass t i (negsuc n ∷ cs) d a h = elim a [ ]

  get_or-drop_head :
      (ix : ℕ) (cs rest : List ℤ) (d : ℤ) → drop ix cs ≡ rest → get_or cs ix d ≡ get_or rest 0 d
  get_or-drop_head ix cs [] d h = get_or-drop_nil ix cs d h
  get_or-drop_head ix cs (c ∷ rest) d h = get_or-drop ix cs d c h

  module _ (t : ℕ) (chosen : List ℤ) (i ix : ℕ) where
    pub Reached-pass :
        (rest : List ℤ)
        → Reached t chosen i ix rest
        → eqb_ℤ (pos i) (chosen_at proto past chosen ix) ≡ false
        → (contains chosen i ≡ false) × Reached t chosen (i + 1) ix rest
    unfolding chosen_at
    Reached-pass rest v h =
        let e = ap (λ c. eqb_ℤ (pos i) c) (get_or-drop_head ix chosen rest (past ix) v.suffix) in
        let (absent, ahead) = ahead_pass t i rest (past ix) v.ahead (sym e ∙ h) in
        (
          v.same i (omega arith) ∙ absent,
          record { suffix = v.suffix; ahead = ahead; same = λ x p. v.same x (omega arith) },
        )

    pub Reached-keep :
        (rest : List ℤ)
        → Reached t chosen i ix rest
        → eqb_ℤ (pos i) (chosen_at proto past chosen ix) ≡ true
        → ix < length chosen
        → (contains chosen i ≡ true) × ((cs : List ℤ) × Reached t chosen (i + 1) (ix + 1) cs)
    unfolding chosen_at
    Reached-keep [] v h inside = absurd (omega (arith, drop_nil-length ix chosen v.suffix))
    Reached-keep (negsuc n ∷ cs) v h inside = elim v.ahead [ ]
    Reached-keep (pos n ∷ cs) v h inside = (
      v.same i (omega arith) ∙ present,
      (
        cs,
        record {
          suffix = ap (λ (k : ℕ). drop k chosen) (add-one ix) ∙ drop-suc ix chosen v.suffix;
          ahead = subst (λ (k : ℕ). Ascending t k cs) next v.ahead.2;
          same = λ x p. v.same x (omega arith) ∙ skip x p;
        },
      ),
    )
      where
        at_n : n ≡ i
        at_n =
            let e = ap (λ c. eqb_ℤ (pos i) c) (get_or-drop ix chosen (past ix) (pos n) v.suffix) in
            let f = sym e ∙ h in ground arith

        next : suc n ≡ i + 1
        next = omega (arith, at_n)

        present : contains (pos n ∷ cs) i ≡ true
        present = ground (arith, at_n)

        skip : (x : ℕ) → i + 1 ≤ x → contains (pos n ∷ cs) x ≡ contains cs x
        skip x p = ground (arith, at_n)
