-- ===== src/SellInformation/Split.antt =====
-- `Buyer::factorise` on what an honest seller encrypted: two roots of one square under each key.
use native.Mathlib.Nat
use Prim.Native.Nat.{◌∣◌}
use zkfactorization.Prelude.{
  ℕ, zero, suc, ◌+◌, ◌-◌, ◌*◌, ◌/◌, ◌%◌, ◌<◌, ◌≡◌, ◌≢◌, ◌⊎◌, refl, sym, ap, ap₂, subst, ◌∙◌, List,
  [], ◌∷◌, ◌||◌, ◌==◌, ==_iff, length, inl, inr, true, false, none, some, arith,
}
use zkfactorization.Prelude.Int.{ℤ, pos}
use zkfactorization.Prelude.Prime.{IsPrime, IsGcd, gcd-split}
use zkfactorization.Prelude.Result.{ok, ok-injective, throw, protocol}
use zkfactorization.CryptoPp.{Codec, Ecb}
use zkfactorization.Common.{to_bytes}
use zkfactorization.Aes
use zkfactorization.Aes.{aes_length, decrypted}
use zkfactorization.SquareRoot.Opposite.{Apart}
use zkfactorization.SellInformation.Factorise.{difference, try_roots, try_row, factorise}

-- The product of `n + a - b` and `a + b`.
factors-divisible : (n a b : ℕ) → Apart n a b → n ∣ (n + a - b) * (a + b)
factors-divisible n a b apart =
    let u = a * a / n in
    let v = b * b / n in
    let w = n + a - b in
    let low = apart.small in
    let at_a : n * u + a * a % n ≡ a * a = Nat.div-add-mod (a * a) n in
    let at_b : n * v + b * b % n ≡ b * b = Nat.div-add-mod (b * b) n in
    let equal_squares = apart.same_square in
    let shifted : w + b ≡ n + a = omega arith in
    let whole : w * (a + b) + n * v ≡ n * (a + b + u) =
      omega (arith, ap (λ (t : ℕ). t * (a + b)) shifted) in
    let product : w * (a + b) ≡ n * (a + b + u - v) = omega (arith, Nat.mul-sub n (a + b + u) v) in
    subst (λ t. n ∣ t) (sym product) (Nat.dvd-mul_right n (a + b + u - v))

module _ (codec : Codec) (ecb : Ecb) (gcd : ℤ → ℤ → ℕ) (p q : ℕ)
    (law : IsGcd (λ a b. gcd (pos a) (pos b))) (prime_p : IsPrime p) (prime_q : IsPrime q)
    (ne : p ≢ q) where
  -- The two factors, in one order or the other.
  abbrev pub IsSplit : ℕ × ℕ → Type 0
  IsSplit found = (found ≡ (p, q)) ⊎ (found ≡ (q, p))

  pub misses : (a : ℕ) → 0 < a → a ≢ p * q → a < p * q + p * q → ¬ (p * q ∣ a)
  misses a some_a other small h =
      let n = p * q in
      let c = a / n in
      let a_eq : n * c ≡ a = Nat.mul-div_cancel' n h in by_quotient n a c a_eq some_a other small
    where
      by_quotient : (n a c : ℕ) → n * c ≡ a → 0 < a → a ≢ n → a < n + n → ⊥
      by_quotient n a zero e some_a other small = omega arith
      by_quotient n a (suc zero) e some_a other small = other (omega arith)
      by_quotient n a (suc (suc c)) e some_a other small =
          omega (arith, Nat.mul_comm n (suc (suc c)))

  pub gcds-IsSplit :
      (a b : ℕ)
      → Apart (p * q) a b
      → IsSplit (gcd (pos (p * q + a - b)) (pos (p * q)), gcd (pos (a + b)) (pos (p * q)))
  gcds-IsSplit a b apart =
      let low = apart.small in
      let differ = apart.differ in
      elim (gcd-split law p q (p * q + a - b) (a + b) prime_p prime_q ne
        (factors-divisible (p * q) a b apart)
        (misses (p * q + a - b) (omega arith) (λ e. differ (omega arith)) (omega arith))
        (misses (a + b) (positive a b differ) (λ e. omega arith) (omega arith))) [
          | inl h ↦ inl (ap₂ (λ (x y : ℕ). (x, y)) h.0 h.1)
          | inr h ↦ inr (ap₂ (λ (x y : ℕ). (x, y)) h.0 h.1)
        ]
    where
      positive : (a b : ℕ) → a ≢ b → 0 < a + b
      positive zero zero differ = absurd (differ refl)
      positive zero (suc b) differ = omega arith
      positive (suc a) b differ = omega arith

  split-product : (found : ℕ × ℕ) → IsSplit found → found.0 * found.1 ≡ p * q
  split-product found (inl e) = ap (λ (x : ℕ × ℕ). x.0 * x.1) e
  split-product found (inr e) = ap (λ (x : ℕ × ℕ). x.0 * x.1) e ∙ Nat.mul_comm q p

  -- The encryption of a root under a key.
  abbrev pub Seals : List ℕ → ℕ → List ℕ → Type 0
  Seals key root m = (Aes.enc ecb key (to_bytes codec (pos root)) ≡ ok m) × (length m ≢ 0)

  dec-Seals :
      (key m : List ℕ) (root : ℕ)
      → length key ≡ aes_length
      → Seals key root m
      → Aes.dec ecb key m ≡ ok (codec.encode (pos root) (codec.min_encoded_size (pos root)))
  unfolding Aes.enc Aes.dec decrypted to_bytes
  dec-Seals key m root long seals =
      let plain = codec.encode (pos root) (codec.min_encoded_size (pos root)) in
      let sealed : Aes.enc ecb key plain ≡ ok (ecb.encrypt key plain) = ground arith in
      let same : ecb.encrypt key plain ≡ m = ok-injective (sym sealed ∙ seals.0) in
      ground (arith, ecb.decrypt-encrypt key plain long, same)

  -- An entry that the buyer skips, and one that shows the roots of one square.
  abbrev pub Skipped : List ℕ → List ℕ → Type 0
  Skipped m1 m2 = (length m1 ≡ 0) ⊎ (length m2 ≡ 0)

  pub record Shown (key m1 m2 : List ℕ) : Type 0 where
    pub a : ℕ
    pub b : ℕ
    pub long : length key ≡ aes_length
    pub apart : Apart (p * q) a b
    pub first : Seals key a m1
    pub second : Seals key b m2

  try_roots-Skipped :
      (key m1 m2 : List ℕ) → Skipped m1 m2 → try_roots codec ecb gcd (p * q) key m1 m2 ≡ ok none
  unfolding try_roots
  try_roots-Skipped key m1 m2 (inl e) = ground arith
  try_roots-Skipped key m1 m2 (inr e) = ground arith

  try_roots-Shown :
      (key m1 m2 : List ℕ)
      → Shown key m1 m2
      → (found : ℕ × ℕ) × (try_roots codec ecb gcd (p * q) key m1 m2 ≡ ok (some found))
        × IsSplit found
  unfolding try_roots
  try_roots-Shown key m1 m2 shown =
      let a = shown.a in
      let b = shown.b in
      let low = shown.apart.small in
      let found : ℕ × ℕ =
        (gcd (pos (p * q + a - b)) (pos (p * q)), gcd (pos (a + b)) (pos (p * q))) in
      let split : IsSplit found = gcds-IsSplit a b shown.apart in
      let whole : (found.0 * found.1 == p * q) ≡ true =
        (==_iff (found.0 * found.1) (p * q)).1 (split-product found split) in
      let signed : difference (p * q + a) b ≡ pos (p * q + a - b) = ground arith in
      let some1 = shown.first.1 in
      let some2 = shown.second.1 in
      let filled : (length m1 == 0 || length m2 == 0) ≡ false = ground arith in
      (
        found,
        rw filled (
            rw (dec-Seals key m1 a shown.long shown.first) (
              rw (dec-Seals key m2 b shown.long shown.second) (
                rw (codec.decode-encode a)
                  (rw (codec.decode-encode b) (rw signed (rw whole refl)))))),
        split,
      )

  -- The rows of one instance, and whether the buyer has both roots at no index of it.
  abbrev pub Honest : List (List ℕ) → List (List ℕ) → List (List ℕ) → Type 0
  Honest [] d1 d2 = Unit
  Honest (key ∷ keys) (m1 ∷ d1) (m2 ∷ d2) = (Skipped m1 m2 ⊎ Shown key m1 m2) × Honest keys d1 d2
  Honest (key ∷ keys) _ _ = ⊥

  abbrev pub AllSkipped : List (List ℕ) → List (List ℕ) → List (List ℕ) → Type 0
  AllSkipped (key ∷ keys) (m1 ∷ d1) (m2 ∷ d2) = Skipped m1 m2 × AllSkipped keys d1 d2
  AllSkipped _ _ _ = Unit

  pub try_row-cases :
      (keys d1 d2 : List (List ℕ))
      → Honest keys d1 d2
      → ((found : ℕ × ℕ) × (try_row codec ecb gcd (p * q) keys d1 d2 ≡ ok (some found))
          × IsSplit found)
        ⊎ (try_row codec ecb gcd (p * q) keys d1 d2 ≡ ok none) × AllSkipped keys d1 d2
  unfolding try_row
  try_row-cases [] d1 d2 h = inr (refl, tt)
  try_row-cases (key ∷ keys) [] d2 h = absurd h
  try_row-cases (key ∷ keys) (m1 ∷ d1) [] h = absurd h
  try_row-cases (key ∷ keys) (m1 ∷ d1) (m2 ∷ d2) (inr shown, rest) =
      let (found, e, split) = try_roots-Shown key m1 m2 shown in inl (found, rw e refl, split)
  try_row-cases (key ∷ keys) (m1 ∷ d1) (m2 ∷ d2) (inl skipped, rest) =
      elim (try_row-cases keys d1 d2 rest) [
        | inl (found, e, split) ↦ inl (found, rw (try_roots-Skipped key m1 m2 skipped) e, split)
        | inr (e, all) ↦ inr (rw (try_roots-Skipped key m1 m2 skipped) e, (skipped, all))
      ]

  -- The same of all instances.
  abbrev pub AllHonest : List (List (List ℕ)) → List (List (List ℕ)) → List (List (List ℕ)) → Type 0
  AllHonest [] d1 d2 = Unit
  AllHonest (keys ∷ rest) (row1 ∷ d1) (row2 ∷ d2) = Honest keys row1 row2 × AllHonest rest d1 d2
  AllHonest (keys ∷ rest) _ _ = ⊥

  abbrev pub NothingShown :
      List (List (List ℕ)) → List (List (List ℕ)) → List (List (List ℕ)) → Type 0
  NothingShown (keys ∷ rest) (row1 ∷ d1) (row2 ∷ d2) =
      AllSkipped keys row1 row2 × NothingShown rest d1 d2
  NothingShown _ _ _ = Unit

  -- Let n be the product of different primes p and q, let there be a row of ciphertexts for each instance
  -- and a pair for each key of it, and let each pair have an empty ciphertext or be the encryptions, under
  -- that key of 32 bytes, of two roots of one square modulo n that differ and whose sum is below n. Then
  -- the factorization returns p and q, in one order or the other; or it throws, and there was an empty
  -- ciphertext in each pair.
  pub factorise_cases :
      (keys d1 d2 : List (List (List ℕ)))
      → AllHonest keys d1 d2
      → ((found : ℕ × ℕ) × (factorise codec ecb gcd (p * q) keys d1 d2 ≡ ok found) × IsSplit found)
        ⊎ (factorise codec ecb gcd (p * q) keys d1 d2 ≡ throw (protocol "Factorization failed!"))
          × NothingShown keys d1 d2
  unfolding factorise
  factorise_cases [] d1 d2 h = inr (refl, tt)
  factorise_cases (keys ∷ rest) [] d2 h = absurd h
  factorise_cases (keys ∷ rest) (row1 ∷ d1) [] h = absurd h
  factorise_cases (keys ∷ rest) (row1 ∷ d1) (row2 ∷ d2) (row, others) =
      elim (try_row-cases keys row1 row2 row) [
        | inl (found, e, split) ↦ inl (found, rw e refl, split)
        | inr (e, skipped) ↦ elim (factorise_cases rest d1 d2 others) [
          | inl (found, f, split) ↦ inl (found, rw e f, split)
          | inr (f, all) ↦ inr (rw e f, (skipped, all))
        ]
      ]
