-- ===== src/SellInformation/Works.antt =====
-- The seller's side of the second cut and choose, taken to its end: the roots that `Seller::findRoots`
-- finds, encrypted by `Seller::encryptRoots`, give the factors to `Buyer::factorise`.
use zkfactorization.Prelude.{
  ℕ, zero, suc, ◌*◌, ◌%◌, ◌<◌, ◌≡◌, ◌≢◌, ◌⊎◌, inl, inr, refl, sym, ap, subst, ◌∙◌, List, [], ◌∷◌,
  All, some, ◌==◌, Bool-cases, get_elem?, length, arith,
}
use zkfactorization.Prelude.Int.{ℤ, pos, negsuc}
use zkfactorization.Prelude.Prime.{IsPrime, IsGcd}
use zkfactorization.Prelude.Result.{ok, bind-eq-ok, ok-injective}
use zkfactorization.Libraries.{Libraries}
use zkfactorization.CryptoPp.{Codec, Ecb}
use zkfactorization.Common.{to_bytes}
use zkfactorization.Aes
use zkfactorization.Aes.{aes_length}
use zkfactorization.ShaCommitment
use zkfactorization.SquareRoot.{new_square_root}
use zkfactorization.SquareRoot.Roots.{FindsRoots}
use zkfactorization.SquareRoot.Opposite.{Apart}
use zkfactorization.SquareRoot.Smallest.{all_square_roots-TwoRoots}
use zkfactorization.SignatureKey.Commits.{sent}
use zkfactorization.SellInformation.{read, encrypt_roots}
use zkfactorization.SellInformation.Factorise.{factorise}
use zkfactorization.SellInformation.Operations.{find_roots_row}
use zkfactorization.SellInformation.Split.{
  IsSplit, Skipped, Shown, Honest, AllSkipped, try_row-cases,
}

-- Two rows of roots, index by index.
abbrev RootsApart : ℕ → List ℤ → List ℤ → Type 0
RootsApart n [] [] = Unit
RootsApart n (pos a ∷ roots1) (pos b ∷ roots2) = Apart n a b × RootsApart n roots1 roots2
RootsApart n _ _ = ⊥

Apart-symm : (n a b : ℕ) → Apart n a b → Apart n b a
Apart-symm n a b apart = record {
  same_square = sym apart.same_square;
  differ = λ e. apart.differ (sym e);
  small = let h = apart.small in omega arith;
}

-- What the buyer holds of a row of ciphertexts: an item of it, or nothing.
abbrev pub Part : List (List ℕ) → List (List ℕ) → Type 0
Part [] [] = Unit
Part (c ∷ cs) (m ∷ ms) = ((m ≡ c) ⊎ (m ≡ [])) × Part cs ms
Part _ _ = ⊥

enc-long :
    (ecb : Ecb) (key m : List ℕ) {c : List ℕ} → Aes.enc ecb key m ≡ ok c → length key ≡ aes_length
unfolding Aes.enc
enc-long ecb key m h = ground arith

encrypt_roots-cons :
    (codec : Codec) (ecb : Ecb) (c : ShaCommitment.Sender) (commits : List ShaCommitment.Sender)
    (root : ℤ) (roots : List ℤ) {row : List (List ℕ)}
    → encrypt_roots codec ecb (c ∷ commits) (root ∷ roots) ≡ ok row
    → (first : List ℕ) × (rest : List (List ℕ)) × (row ≡ first ∷ rest)
      × (Aes.enc ecb c.m (to_bytes codec root) ≡ ok first)
      × (encrypt_roots codec ecb commits roots ≡ ok rest)
unfolding encrypt_roots to_bytes
encrypt_roots-cons codec ecb c commits root roots h =
    let (first, e, h₁) = bind-eq-ok (Aes.enc ecb c.m (to_bytes codec root)) _ h in
    let (rest, e₁, h₂) = bind-eq-ok (encrypt_roots codec ecb commits roots) _ h₁ in
    (first, rest, sym (ok-injective h₂), e, e₁)

-- A square that has no factor in common with the modulus p * q.
abbrev pub IsUnitSquare : ℕ → ℕ → ℕ → Type 0
IsUnitSquare p q a = (b : ℕ) × (a < p * q) × (b * b % (p * q) ≡ a) × (a % p ≢ 0) × (a % q ≢ 0)

module _ (libraries : Libraries) (r l p q v : ℕ) (p_big : 1 < p) (q_big : 1 < q)
    (inverse : p * v % q ≡ 1) (finds_p : FindsRoots libraries.arithmetic libraries.theory p)
    (finds_q : FindsRoots libraries.arithmetic libraries.theory q) (p_odd : p % 2 ≡ 1)
    (q_odd : q % 2 ≡ 1) where
  open libraries use {random, codec, arithmetic, theory, ecb, gcd}
  open random use {Rng, generate_bit}

  find_roots_row-RootsApart :
      (squares : List ℕ) (rng : Rng) {done : (List ℤ × List ℤ) × Rng}
      → All (IsUnitSquare p q) squares
      → find_roots_row libraries r l (new_square_root arithmetic theory p q) squares rng ≡ ok done
      → RootsApart (p * q) done.0.0 done.0.1
  unfolding find_roots_row read
  find_roots_row-RootsApart [] rng all h =
      subst (λ (x : (List ℤ × List ℤ) × Rng). RootsApart (p * q) x.0.0 x.0.1) (ok-injective h) tt
  find_roots_row-RootsApart (square ∷ squares) rng ((b, lt, is_square, unit_p, unit_q), all) h =
      let (a₁, a₂, others, e, two) =
        all_square_roots-TwoRoots arithmetic theory p q square b v p_big q_big inverse finds_p
          finds_q lt is_square p_odd q_odd unit_p unit_q in
      let drawn = generate_bit rng in
      let (rest, e₁, h₁) =
        bind-eq-ok
          (find_roots_row libraries r l (new_square_root arithmetic theory p q) squares drawn.1) _
          (rw (e, find_roots_row) at h) in
      let ih = find_roots_row-RootsApart squares drawn.1 all e₁ in
      subst (λ (x : (List ℤ × List ℤ) × Rng). RootsApart (p * q) x.0.0 x.0.1) (ok-injective h₁)
        (elim (Bool-cases (drawn.0 == 1)) [
          | inl one ↦ rw one (Apart-symm (p * q) a₁ a₂ two.apart, ih)
          | inr other ↦ rw other (two.apart, ih)
        ])

  module _ (law : IsGcd (λ a b. gcd (pos a) (pos b))) (prime_p : IsPrime p) (prime_q : IsPrime q)
      (ne : p ≢ q) where
    head-Shown :
        (key x y first1 first2 : List ℕ) (a b : ℕ)
        → Apart (p * q) a b
        → Aes.enc ecb key (to_bytes codec (pos a)) ≡ ok first1
        → Aes.enc ecb key (to_bytes codec (pos b)) ≡ ok first2
        → (x ≡ first1) ⊎ (x ≡ [])
        → (y ≡ first2) ⊎ (y ≡ [])
        → Skipped codec ecb gcd p q law prime_p prime_q ne x y
          ⊎ Shown codec ecb gcd p q law prime_p prime_q ne key x y
    head-Shown key x y first1 first2 a b apart e₁ e₂ (inr none_of) held =
        inl (inl (ap length none_of))
    head-Shown key x y first1 first2 a b apart e₁ e₂ (inl same) (inr none_of) =
        inl (inr (ap length none_of))
    head-Shown key x y first1 first2 a b apart e₁ e₂ (inl same1) (inl same2) =
        elim (Bool-cases (length x == 0)) [
          | inl empty ↦ inl (inl (ground arith))
          | inr some_x ↦ elim (Bool-cases (length y == 0)) [
            | inl empty ↦ inl (inr (ground arith))
            | inr some_y ↦ inr (record {
              a = a;
              b = b;
              long = enc-long ecb key (to_bytes codec (pos a)) e₁;
              apart = apart;
              first = (e₁ ∙ ap ok (sym same1), λ e. ground arith);
              second = (e₂ ∙ ap ok (sym same2), λ e. ground arith);
            })
          ]
        ]

    encrypt_roots-Honest :
        (commits : List ShaCommitment.Sender) (roots1 roots2 : List ℤ)
        (row1 row2 m1 m2 : List (List ℕ))
        → RootsApart (p * q) roots1 roots2
        → encrypt_roots codec ecb commits roots1 ≡ ok row1
        → encrypt_roots codec ecb commits roots2 ≡ ok row2
        → Part row1 m1
        → Part row2 m2
        → Honest codec ecb gcd p q law prime_p prime_q ne (sent commits) m1 m2
    unfolding encrypt_roots
    encrypt_roots-Honest [] roots1 roots2 row1 row2 m1 m2 apart h₁ h₂ part1 part2 = tt
    encrypt_roots-Honest (c ∷ commits) [] roots2 row1 row2 m1 m2 apart h₁ h₂ part1 part2 =
        absurd (cc h₁)
    encrypt_roots-Honest (c ∷ commits) (negsuc a ∷ roots1) roots2 row1 row2 m1 m2 apart h₁ h₂ part1
          part2 =
        absurd apart
    encrypt_roots-Honest (c ∷ commits) (pos a ∷ roots1) [] row1 row2 m1 m2 apart h₁ h₂ part1 part2 =
        absurd apart
    encrypt_roots-Honest (c ∷ commits) (pos a ∷ roots1) (negsuc b ∷ roots2) row1 row2 m1 m2 apart h₁
          h₂ part1 part2 =
        absurd apart
    encrypt_roots-Honest (c ∷ commits) (pos a ∷ roots1) (pos b ∷ roots2) row1 row2 [] m2 apart h₁ h₂
          part1 part2 =
        let (first1, rest1, eq1, e₁, more1) =
          encrypt_roots-cons codec ecb c commits (pos a) roots1 h₁ in
        absurd (subst (λ row. Part row []) eq1 part1)
    encrypt_roots-Honest (c ∷ commits) (pos a ∷ roots1) (pos b ∷ roots2) row1 row2 (x ∷ m1) [] apart
          h₁ h₂ part1 part2 =
        let (first2, rest2, eq2, e₂, more2) =
          encrypt_roots-cons codec ecb c commits (pos b) roots2 h₂ in
        absurd (subst (λ row. Part row []) eq2 part2)
    encrypt_roots-Honest (c ∷ commits) (pos a ∷ roots1) (pos b ∷ roots2) row1 row2 (x ∷ m1) (y ∷ m2)
          (here, apart) h₁ h₂ part1 part2 =
        let (first1, rest1, eq1, e₁, more1) =
          encrypt_roots-cons codec ecb c commits (pos a) roots1 h₁ in
        let (first2, rest2, eq2, e₂, more2) =
          encrypt_roots-cons codec ecb c commits (pos b) roots2 h₂ in
        let held1 = subst (λ row. Part row (x ∷ m1)) eq1 part1 in
        let held2 = subst (λ row. Part row (y ∷ m2)) eq2 part2 in
        (
          head-Shown c.m x y first1 first2 a b here e₁ e₂ held1.0 held2.0,
          encrypt_roots-Honest commits roots1 roots2 rest1 rest2 m1 m2 apart more1 more2 held1.1
              held2.1,
        )

    all-Skipped :
        (keys m1 m2 : List (List ℕ)) (i : ℕ) {x y : List ℕ}
        → AllSkipped codec ecb gcd p q law prime_p prime_q ne keys m1 m2
        → i < length keys
        → get_elem? m1 i ≡ some x
        → get_elem? m2 i ≡ some y
        → Skipped codec ecb gcd p q law prime_p prime_q ne x y
    all-Skipped [] m1 m2 i all lt h₁ h₂ = absurd (omega arith)
    all-Skipped (key ∷ keys) [] m2 i all lt h₁ h₂ = absurd (cc h₁)
    all-Skipped (key ∷ keys) (m ∷ m1) [] i all lt h₁ h₂ = absurd (cc h₂)
    all-Skipped (key ∷ keys) (m ∷ m1) (n ∷ m2) zero {x} {y} all lt h₁ h₂ =
        let same1 : m ≡ x = cc in
        let same2 : n ≡ y = cc in
        elim all.0 [
          | inl e ↦ inl (ap length (sym same1) ∙ e)
          | inr e ↦ inr (ap length (sym same2) ∙ e)
        ]
    all-Skipped (key ∷ keys) (m ∷ m1) (n ∷ m2) (suc i) all lt h₁ h₂ =
        all-Skipped keys m1 m2 i all.1 (omega arith) h₁ h₂

    -- Let p and q be different odd primes, p have an inverse modulo q, roots be found modulo both, and
    -- the squares of the first instance have no factor in common with p * q. Let the seller find their
    -- roots and encrypt both rows under the keys that it committed to, and let the buyer hold of each
    -- ciphertext either itself or nothing, at one index both, and derive the same keys from the
    -- signature. Then the factorization returns p and q, in one order or the other.
    pub find_roots_row-factorise :
        (squares : List ℕ) (rng : Rng) (commits : List ShaCommitment.Sender)
        (row1 row2 m1 m2 : List (List ℕ)) (i : ℕ) {found : (List ℤ × List ℤ) × Rng} {x y : List ℕ}
        (rest others1 others2 : List (List (List ℕ)))
        → All (IsUnitSquare p q) squares
        → find_roots_row libraries r l (new_square_root arithmetic theory p q) squares rng
          ≡ ok found
        → encrypt_roots codec ecb commits found.0.0 ≡ ok row1
        → encrypt_roots codec ecb commits found.0.1 ≡ ok row2
        → Part row1 m1
        → Part row2 m2
        → i < length (sent commits)
        → (get_elem? m1 i ≡ some x) × (length x ≢ 0)
        → (get_elem? m2 i ≡ some y) × (length y ≢ 0)
        → (pq : ℕ × ℕ) × (factorise codec ecb gcd
              (p * q)
              (sent commits ∷ rest)
              (m1 ∷ others1)
              (m2 ∷ others2)
            ≡ ok pq)
          × IsSplit codec ecb gcd p q law prime_p prime_q ne pq
    unfolding factorise
    find_roots_row-factorise squares rng commits row1 row2 m1 m2 i {found} rest others1 others2 all
          finds h₁ h₂ part1 part2 lt at1 at2 =
        let apart = find_roots_row-RootsApart squares rng all finds in
        let honest =
          encrypt_roots-Honest commits found.0.0 found.0.1 row1 row2 m1 m2 apart h₁ h₂ part1
            part2 in
        elim (try_row-cases codec ecb gcd p q law prime_p prime_q ne (sent commits) m1 m2 honest) [
          | inl (pq, e, split) ↦ (pq, rw e refl, split)
          | inr (e, skipped) ↦ elim (all-Skipped (sent commits) m1 m2 i skipped lt at1.0 at2.0) [
            | inl none_of ↦ absurd (at1.1 none_of)
            | inr none_of ↦ absurd (at2.1 none_of)
          ]
        ]
