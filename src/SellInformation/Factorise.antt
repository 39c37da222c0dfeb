-- ===== src/SellInformation/Factorise.antt =====
-- `Buyer::factorise`: the factors of n from two roots of one square. `gcd` is the function GCD of
-- Crypto++; a decoded number is never negative. The keys are those that `genKeys` derives from the
-- signatures, given as an argument.
use zkfactorization.Prelude.{
  ℕ, ◌+◌, ◌-◌, ◌*◌, ◌≡◌, ap, ◌∙◌, List, [], ◌∷◌, ◌||◌, ◌==◌, leb, if◌then◌else◌, Bool-cases, inl,
  inr, length, Option, none, some, arith,
}
use zkfactorization.Prelude.Int.{ℤ, pos, negsuc}
use zkfactorization.Prelude.Result.{
  Result, ok, throw, undefined, protocol, bind, bind-eq-ok, ok-injective,
}
use zkfactorization.CryptoPp.{Codec, Ecb}
use zkfactorization.Aes

abbrev pub difference : ℕ → ℕ → ℤ
difference a b = if leb b a then pos (a - b) else negsuc (b - a - 1)

module _ (codec : Codec) (ecb : Ecb) (gcd : ℤ → ℤ → ℕ) (n : ℕ) where
  -- One round of the inner loop; `none` goes on with the next one.
  unfoldable pub try_roots : List ℕ → List ℕ → List ℕ → Result (Option (ℕ × ℕ))
  try_roots key m1 m2 =
      if length m1 == 0 || length m2 == 0
      then ok none
      else bind (Aes.dec ecb key m1) λ r1_bytes. bind (Aes.dec ecb key m2) λ r2_bytes.
        let r1 = codec.decode r1_bytes in
        let r2 = codec.decode r2_bytes in
        let p = gcd (difference (n + r1) r2) (pos n) in
        let q = gcd (pos (r1 + r2)) (pos n) in if p * q == n then ok (some (p, q)) else ok none

  -- The inner loop, on the keys and the rows `d1[j]` and `d2[j]`.
  unfoldable pub try_row : List (List ℕ) → List (List ℕ) → List (List ℕ) → Result (Option (ℕ × ℕ))
  unfolding try_roots
  try_row [] d1 d2 = ok none
  try_row (key ∷ keys) [] d2 = undefined
  try_row (key ∷ keys) (m1 ∷ d1) [] = undefined
  try_row (key ∷ keys) (m1 ∷ d1) (m2 ∷ d2) =
      bind (try_roots key m1 m2)
        λ found. elim found [ some pq ↦ ok (some pq) | none ↦ try_row keys d1 d2 ]

  unfoldable pub factorise :
      List (List (List ℕ)) → List (List (List ℕ)) → List (List (List ℕ)) → Result (ℕ × ℕ)
  unfolding try_row
  factorise [] d1 d2 = throw (protocol "Factorization failed!")
  factorise (keys ∷ rest) [] d2 = undefined
  factorise (keys ∷ rest) (row1 ∷ d1) [] = undefined
  factorise (keys ∷ rest) (row1 ∷ d1) (row2 ∷ d2) =
      bind (try_row keys row1 row2)
        λ found. elim found [ some pq ↦ ok pq | none ↦ factorise rest d1 d2 ]

  try_roots-product :
      (key m1 m2 : List ℕ) {p q : ℕ} → try_roots key m1 m2 ≡ ok (some (p, q)) → p * q ≡ n
  unfolding try_roots
  try_roots-product key m1 m2 {p} {q} h = elim (Bool-cases (length m1 == 0 || length m2 == 0)) [
    | inl e ↦ absurd (cc (rw e at h))
    | inr e ↦
        let (r1_bytes, e₁, h₁) = bind-eq-ok (Aes.dec ecb key m1) _ (rw e at h) in
        let (r2_bytes, e₂, h₂) = bind-eq-ok (Aes.dec ecb key m2) _ h₁ in ground arith
  ]

  try_row-product :
      (keys d1 d2 : List (List ℕ)) {p q : ℕ} → try_row keys d1 d2 ≡ ok (some (p, q)) → p * q ≡ n
  unfolding try_row
  try_row-product [] d1 d2 h = absurd (cc h)
  try_row-product (key ∷ keys) [] d2 h = absurd (cc h)
  try_row-product (key ∷ keys) (m1 ∷ d1) [] h = absurd (cc h)
  try_row-product (key ∷ keys) (m1 ∷ d1) (m2 ∷ d2) {p} {q} h =
      let (found, e, rest) = bind-eq-ok (try_roots key m1 m2) _ h in
      decide found e rest (try_row-product keys d1 d2)
    where
      decide :
          (found : Option (ℕ × ℕ))
          → try_roots key m1 m2 ≡ ok found
          → elim found [ some pq ↦ ok (some pq) | none ↦ try_row keys d1 d2 ] ≡ ok (some (p, q))
          → (try_row keys d1 d2 ≡ ok (some (p, q)) → p * q ≡ n)
          → p * q ≡ n
      decide none e rest later = later rest
      decide (some pq) e rest later = try_roots-product key m1 m2 (e ∙ rest)

  -- What the buyer takes for the factors, where the factorization returns, has the product n.
  pub factorise-product :
      (keys d1 d2 : List (List (List ℕ))) {p q : ℕ} → factorise keys d1 d2 ≡ ok (p, q) → p * q ≡ n
  unfolding factorise
  factorise-product [] d1 d2 h = absurd (cc h)
  factorise-product (keys ∷ rest) [] d2 h = absurd (cc h)
  factorise-product (keys ∷ rest) (row1 ∷ d1) [] h = absurd (cc h)
  factorise-product (keys ∷ rest) (row1 ∷ d1) (row2 ∷ d2) {p} {q} h =
      let (found, e, last) = bind-eq-ok (try_row keys row1 row2) _ h in
      decide found e last (factorise-product rest d1 d2)
    where
      decide :
          (found : Option (ℕ × ℕ))
          → try_row keys row1 row2 ≡ ok found
          → elim found [ some pq ↦ ok pq | none ↦ factorise rest d1 d2 ] ≡ ok (p, q)
          → (factorise rest d1 d2 ≡ ok (p, q) → p * q ≡ n)
          → p * q ≡ n
      decide none e last later = later last
      decide (some pq) e last later =
          try_row-product keys row1 row2 (e ∙ ap (λ x. ok (some x)) (ok-injective last))
