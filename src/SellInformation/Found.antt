-- ===== src/SellInformation/Found.antt =====
-- What the factorization computes its result from.
use zkfactorization.Prelude.{
  ℕ, ◌+◌, ◌*◌, ◌≡◌, ◌≢◌, ◌⊎◌, sym, ap, ◌∙◌, List, [], ◌∷◌, ◌||◌, ◌==◌, Bool-cases, inl, inr, length,
  Option, none, some, arith,
}
use zkfactorization.Prelude.Int.{ℤ, pos}
use zkfactorization.Prelude.Result.{ok, bind-eq-ok, ok-injective}
use zkfactorization.CryptoPp.{Codec, Ecb}
use zkfactorization.Aes
use zkfactorization.SellInformation.Factorise.{difference, try_roots, try_row, factorise}

module _ (codec : Codec) (ecb : Ecb) (gcd : ℤ → ℤ → ℕ) (n : ℕ) where
  -- The two results are the greatest common divisors of n and of n + a - b and a + b, for the numbers a
  -- and b that the key decrypts from two ciphertexts.
  pub record FoundAt (key m1 m2 : List ℕ) (pq : ℕ × ℕ) : Type 0 where
    pub shown1 : length m1 ≢ 0
    pub shown2 : length m2 ≢ 0
    pub bytes1 : List ℕ
    pub bytes2 : List ℕ
    pub plain1 : Aes.dec ecb key m1 ≡ ok bytes1
    pub plain2 : Aes.dec ecb key m2 ≡ ok bytes2
    pub p : pq.0 ≡ gcd (difference (n + codec.decode bytes1) (codec.decode bytes2)) (pos n)
    pub q : pq.1 ≡ gcd (pos (codec.decode bytes1 + codec.decode bytes2)) (pos n)
    pub product : pq.0 * pq.1 ≡ n

  -- The same at some index of an instance.
  abbrev pub FoundRow : List (List ℕ) → List (List ℕ) → List (List ℕ) → ℕ × ℕ → Type 0
  FoundRow (key ∷ keys) (m1 ∷ d1) (m2 ∷ d2) pq = FoundAt key m1 m2 pq ⊎ FoundRow keys d1 d2 pq
  FoundRow _ _ _ pq = ⊥

  -- The same in some instance.
  abbrev pub FoundIn :
      List (List (List ℕ)) → List (List (List ℕ)) → List (List (List ℕ)) → ℕ × ℕ → Type 0
  FoundIn (keys ∷ rest) (row1 ∷ d1) (row2 ∷ d2) pq =
      FoundRow keys row1 row2 pq ⊎ FoundIn rest d1 d2 pq
  FoundIn _ _ _ pq = ⊥

  try_roots-FoundAt :
      (key m1 m2 : List ℕ) {pq : ℕ × ℕ}
      → try_roots codec ecb gcd n key m1 m2 ≡ ok (some pq)
      → FoundAt key m1 m2 pq
  unfolding try_roots
  try_roots-FoundAt key m1 m2 {pq} h = elim (Bool-cases (length m1 == 0 || length m2 == 0)) [
    | inl e ↦ absurd (cc (rw e at h))
    | inr e ↦
        let (bytes1, e₁, h₁) = bind-eq-ok (Aes.dec ecb key m1) _ (rw e at h) in
        let (bytes2, e₂, h₂) = bind-eq-ok (Aes.dec ecb key m2) _ h₁ in
        let a = codec.decode bytes1 in
        let b = codec.decode bytes2 in
        let p = gcd (difference (n + a) b) (pos n) in
        let q = gcd (pos (a + b)) (pos n) in
        elim (Bool-cases (p * q == n)) [
          | inr other ↦ absurd (cc (rw other at h₂))
          | inl whole ↦
              let same : (p, q) ≡ pq = cc (rw whole at h₂) in
              record {
                shown1 = ground arith;
                shown2 = ground arith;
                bytes1 = bytes1;
                bytes2 = bytes2;
                plain1 = e₁;
                plain2 = e₂;
                p = sym (ap (λ (x : ℕ × ℕ). x.0) same);
                q = sym (ap (λ (x : ℕ × ℕ). x.1) same);
                product = sym (ap (λ (x : ℕ × ℕ). x.0 * x.1) same) ∙ ground arith;
              }
        ]
  ]

  try_row-FoundRow :
      (keys d1 d2 : List (List ℕ)) {pq : ℕ × ℕ}
      → try_row codec ecb gcd n keys d1 d2 ≡ ok (some pq)
      → FoundRow keys d1 d2 pq
  unfolding try_row
  try_row-FoundRow [] d1 d2 h = absurd (cc h)
  try_row-FoundRow (key ∷ keys) [] d2 h = absurd (cc h)
  try_row-FoundRow (key ∷ keys) (m1 ∷ d1) [] h = absurd (cc h)
  try_row-FoundRow (key ∷ keys) (m1 ∷ d1) (m2 ∷ d2) {pq} h =
      let (found, e, rest) = bind-eq-ok (try_roots codec ecb gcd n key m1 m2) _ h in
      decide found e rest (try_row-FoundRow keys d1 d2)
    where
      decide :
          (found : Option (ℕ × ℕ))
          → try_roots codec ecb gcd n key m1 m2 ≡ ok found
          → elim found [ some x ↦ ok (some x) | none ↦ try_row codec ecb gcd n keys d1 d2 ]
            ≡ ok (some pq)
          → (try_row codec ecb gcd n keys d1 d2 ≡ ok (some pq) → FoundRow keys d1 d2 pq)
          → FoundAt key m1 m2 pq ⊎ FoundRow keys d1 d2 pq
      decide none e rest later = inr (later rest)
      decide (some x) e rest later = inl (try_roots-FoundAt key m1 m2 (e ∙ rest))

  -- Where the factorization returns, its results come from one place.
  pub factorise-FoundIn :
      (keys d1 d2 : List (List (List ℕ))) {pq : ℕ × ℕ}
      → factorise codec ecb gcd n keys d1 d2 ≡ ok pq
      → FoundIn keys d1 d2 pq
  unfolding factorise
  factorise-FoundIn [] d1 d2 h = absurd (cc h)
  factorise-FoundIn (keys ∷ rest) [] d2 h = absurd (cc h)
  factorise-FoundIn (keys ∷ rest) (row1 ∷ d1) [] h = absurd (cc h)
  factorise-FoundIn (keys ∷ rest) (row1 ∷ d1) (row2 ∷ d2) {pq} h =
      let (found, e, last) = bind-eq-ok (try_row codec ecb gcd n keys row1 row2) _ h in
      decide found e last (factorise-FoundIn rest d1 d2)
    where
      decide :
          (found : Option (ℕ × ℕ))
          → try_row codec ecb gcd n keys row1 row2 ≡ ok found
          → elim found [ some x ↦ ok x | none ↦ factorise codec ecb gcd n rest d1 d2 ] ≡ ok pq
          → (factorise codec ecb gcd n rest d1 d2 ≡ ok pq → FoundIn rest d1 d2 pq)
          → FoundRow keys row1 row2 pq ⊎ FoundIn rest d1 d2 pq
      decide none e last later = inr (later last)
      decide (some x) e last later =
          inl (try_row-FoundRow keys row1 row2 (e ∙ ap (λ y. ok (some y)) (ok-injective last)))
