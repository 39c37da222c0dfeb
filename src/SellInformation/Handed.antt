-- ===== src/SellInformation/Handed.antt =====
-- What `SellInformationProtocol::exec` takes over from the first cut and choose: the instances that
-- the buyer picked, as their execution left them.
use zkfactorization.Prelude.{
  ℕ, zero, suc, ◌+◌, ◌<◌, ◌≡◌, refl, sym, ap, subst, ◌∙◌, List, [], ◌∷◌, true, false, inl, inr, map,
  arith,
}
use zkfactorization.Prelude.Int.{ℤ, pos}
use zkfactorization.Prelude.Result.{ok, bind-eq-ok, ok-injective}
use zkfactorization.CutAndChoose.{Protocol}
use zkfactorization.CutAndChoose.Rounds.{contains}
use zkfactorization.CutAndChoose.Opening.{Fates}
use zkfactorization.SellInformation.{read}
use zkfactorization.SellInformation.Picked.{Strict}
use zkfactorization.SellInformation.Protocol.{read_all}

module _ {R A B : Type 0} (proto : Protocol R A B) (past : ℕ → ℤ) where
  -- A chosen instance is the one that was executed.
  pub Fates-chosen :
      (chosen : List ℤ) (left i : ℕ) (ps : List A) (vs : List B) (ps' : List A) (vs' : List B)
      → Fates proto past chosen left i ps vs ps' vs'
      → (d n : ℕ) {a : A} {b : B} → d < left
      → n ≡ i + d
      → contains chosen n ≡ true
      → read ps' d ≡ ok a
      → read vs' d ≡ ok b
      → (read ps d ≡ ok a) × (read vs d ≡ ok b)
  unfolding read
  Fates-chosen chosen zero i ps vs ps' vs' fates d n lt e present at_a at_b = absurd (omega arith)
  Fates-chosen chosen (suc left) i (a ∷ ps) (b ∷ vs) (a' ∷ ps') (b' ∷ vs')
        ((inl (_, same_a, same_b)), rest) zero n lt e present at_a at_b =
      (ap ok (sym same_a) ∙ at_a, ap ok (sym same_b) ∙ at_b)
  Fates-chosen chosen (suc left) i (a ∷ ps) (b ∷ vs) (a' ∷ ps') (b' ∷ vs') ((inr (absent, _)), rest)
        zero n lt e present at_a at_b =
      let same : n ≡ i = omega arith in
      let no_such : contains chosen n ≡ false = ap (contains chosen) same ∙ absent in absurd (cc)
  Fates-chosen chosen (suc left) i (a ∷ ps) (b ∷ vs) (a' ∷ ps') (b' ∷ vs') (here, rest) (suc d) n lt
        e present at_a at_b =
      Fates-chosen chosen left (i + 1) ps vs ps' vs' rest d n (omega arith) (omega arith) present
        at_a at_b
  Fates-chosen chosen (suc left) i _ _ _ _ fates d n lt e present at_a at_b = absurd fates

pub contains-read :
    (row : List ℕ) (j : ℕ) {ix : ℕ} → read row j ≡ ok ix → contains (map pos row) ix ≡ true
unfolding read
contains-read [] j h = absurd (cc h)
contains-read (c ∷ row) zero {ix} h = let same : c ≡ ix = ok-injective h in ground arith
contains-read (c ∷ row) (suc j) h = let ih = contains-read row j h in ground arith

pub Strict-read :
    (t low : ℕ) (row : List ℕ) (j : ℕ) {ix : ℕ} → Strict t low row → read row j ≡ ok ix → ix < t
unfolding read
Strict-read t low [] j s h = absurd (cc h)
Strict-read t low (c ∷ row) zero {ix} s h =
    let same : c ≡ ix = ok-injective h in subst (λ n. n < t) same s.1
Strict-read t low (c ∷ row) (suc j) s h = Strict-read t (suc c) row j s.2 h

pub read_all-reads :
    {A : Type 0} (v : List A) (used : List ℕ) (j : ℕ) {ix : ℕ} {out : List A}
    → read_all v used ≡ ok out
    → read used j ≡ ok ix
    → (a : A) × (read v ix ≡ ok a) × (read out j ≡ ok a)
unfolding read_all read
read_all-reads v [] j h at = absurd (cc at)
read_all-reads v (x ∷ used) zero {ix} h at =
    let (a, e, h₁) = bind-eq-ok (read v x) _ h in
    let (rest, e₁, h₂) = bind-eq-ok (read_all v used) _ h₁ in
    (
      a,
      subst (λ n. read v n ≡ ok a) (ok-injective at) e,
      subst (λ row. read row 0 ≡ ok a) (ok-injective h₂) refl,
    )
read_all-reads v (x ∷ used) (suc j) {ix} h at =
    let (a, e, h₁) = bind-eq-ok (read v x) _ h in
    let (rest, e₁, h₂) = bind-eq-ok (read_all v used) _ h₁ in
    let (b, e₂, found) = read_all-reads v used j e₁ at in
    (b, e₂, subst (λ row. read row (suc j) ≡ ok b) (ok-injective h₂) found)
