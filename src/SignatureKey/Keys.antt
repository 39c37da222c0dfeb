-- ===== src/SignatureKey/Keys.antt =====
-- What the check of the keys shows: each message is the beginning of the key that the signature gives.
use zkfactorization.Prelude.{
  ℕ, ◌≡◌, ◌↔◌, refl, sym, ap, ap₂, ◌∙◌, List, [], ◌∷◌, ◌++◌, Bool, true, false, Bool-cases, inl,
  inr, ◌==◌, ==_iff, ==_refl, arith,
}
use zkfactorization.Prelude.Result.{ok, throw, protocol, bind-eq-ok}
use zkfactorization.ShaCommitment
use zkfactorization.SignatureKey.{equal_range, verify_all}

abbrev pub IsPrefix : List ℕ → List ℕ → Type 0
IsPrefix xs ys = (rest : List ℕ) × (xs ++ rest ≡ ys)

-- Each commitment shows the beginning of its key.
abbrev pub AllPrefix : List ShaCommitment.Receiver → List (List ℕ) → Type 0
AllPrefix [] keys = Unit
AllPrefix (c ∷ commits) [] = ⊥
AllPrefix (c ∷ commits) (key ∷ keys) = IsPrefix c.m key × AllPrefix commits keys

equal_range-IsPrefix : (xs ys : List ℕ) → equal_range xs ys ≡ ok true → IsPrefix xs ys
unfolding equal_range
equal_range-IsPrefix [] ys h = (ys, refl)
equal_range-IsPrefix (x ∷ xs) [] h = cc
equal_range-IsPrefix (x ∷ xs) (y ∷ ys) h = elim (Bool-cases (x == y)) [
  | inl e ↦
      let inner : equal_range xs ys ≡ ok true = ground arith in
      let (rest, same) = equal_range-IsPrefix xs ys inner in (rest, ap₂ ◌∷◌ ((==_iff x y).0 e) same)
  | inr e ↦ ground arith
]

equal_range-append : (xs rest : List ℕ) → equal_range xs (xs ++ rest) ≡ ok true
unfolding equal_range
equal_range-append [] rest = refl
equal_range-append (x ∷ xs) rest = rw (==_refl x) (equal_range-append xs rest)

-- The check of one key, then of the others.
verify_all-split :
    (c : ShaCommitment.Receiver) (key : List ℕ) (commits : List ShaCommitment.Receiver)
    (keys : List (List ℕ))
    → verify_all (c ∷ commits) (key ∷ keys) ≡ ok tt
    → (equal_range c.m key ≡ ok true) × (verify_all commits keys ≡ ok tt)
unfolding verify_all
verify_all-split c key commits keys h = decide (bind-eq-ok (equal_range c.m key) _ h)
  where
    decide :
        (same : Bool) × (equal_range c.m key ≡ ok same)
          × (elim same [ false ↦ throw (protocol "Invalid key") | true ↦ verify_all commits keys ]
              ≡ ok tt)
        → (equal_range c.m key ≡ ok true) × (verify_all commits keys ≡ ok tt)
    decide (true, e, rest) = (e, rest)
    decide (false, e, rest) = absurd (cc rest)

-- The check of the keys returns exactly when there is a key for each commitment and each message
-- shown is the beginning of its key; a message that is too short, even an empty one, passes.
pub verify_all_iff :
    (commits : List ShaCommitment.Receiver) (keys : List (List ℕ))
    → (verify_all commits keys ≡ ok tt) ↔ AllPrefix commits keys
unfolding verify_all
verify_all_iff [] keys = (λ h. tt, λ h. refl)
verify_all_iff (c ∷ commits) [] = (λ h. cc, λ h. elim h [ ])
verify_all_iff (c ∷ commits) (key ∷ keys) =
    let others = verify_all_iff commits keys in
    (
      λ h.
          let (same, rest) = verify_all-split c key commits keys h in
          (equal_range-IsPrefix c.m key same, others.0 rest),
      λ h. rw (ap (equal_range c.m) (sym h.0.1) ∙ equal_range-append c.m h.0.0) (others.1 h.1),
    )
