-- ===== src/Examples/Numbers.antt =====
-- A search below a bound, a list cut or padded to a size, and numbers as bytes, the most
-- significant one first.
use zkfactorization.Prelude.{
  ℕ, zero, suc, ◌+◌, ◌*◌, ◌/◌, ◌%◌, ◌≤◌, ◌<◌, ◌≡◌, refl, ap, ◌∙◌, arith, List, [], ◌∷◌, ◌++◌, Bool,
  true, false, Bool-cases, inl, inr, if◌then◌else◌, length, length-append, ◌==◌,
}
use zkfactorization.CryptoPp.{IsBytes}

abbrev pub find : (ℕ → Bool) → ℕ → ℕ
find p zero = 0
find p (suc k) = let rest = find p k in if p k then k else rest

pub find_lt : (p : ℕ → Bool) (k : ℕ) → find p (suc k) ≤ k
find_lt p zero = elim (Bool-cases (p 0)) [ inl e ↦ rw e (omega arith) | inr e ↦ rw e (omega arith) ]
find_lt p (suc k) = elim (Bool-cases (p (suc k))) [
  | inl e ↦ rw e (omega arith)
  | inr e ↦ rw e (omega (arith, find_lt p k))
]

pub find_sound : (p : ℕ → Bool) (k b : ℕ) → b < k → p b ≡ true → p (find p k) ≡ true
find_sound p zero b h e = absurd (omega arith)
find_sound p (suc k) b h e = elim (Bool-cases (p k)) [
  | inl here ↦ rw here here
  | inr other ↦ elim (Bool-cases (k == b)) [
    | inl same ↦ let eq : k ≡ b = ground arith in absurd (clash (ap p eq ∙ e) other)
    | inr ne ↦ rw other (find_sound p k b (ground arith) e)
  ]
]
  where
    clash : {t : Bool} → t ≡ true → t ≡ false → ⊥
    clash a c = cc

abbrev pub pad : ℕ → List ℕ → List ℕ
pad zero xs = []
pad (suc n) [] = 0 ∷ pad n []
pad (suc n) (x ∷ xs) = x ∷ pad n xs

pub length-pad : (n : ℕ) (xs : List ℕ) → length (pad n xs) ≡ n
length-pad zero xs = refl
length-pad (suc n) [] = ap suc (length-pad n [])
length-pad (suc n) (x ∷ xs) = ap suc (length-pad n xs)

abbrev pub bytes_of : ℕ → ℕ → List ℕ
bytes_of zero n = []
bytes_of (suc k) n = bytes_of k (n / 256) ++ (n % 256 ∷ [])

pub length-bytes_of : (k n : ℕ) → length (bytes_of k n) ≡ k
length-bytes_of zero n = refl
length-bytes_of (suc k) n =
    omega (arith, length-append (bytes_of k (n / 256)) (n % 256 ∷ []), length-bytes_of k (n / 256))

append-IsBytes : (xs : List ℕ) (b : ℕ) → IsBytes xs → b < 256 → IsBytes (xs ++ (b ∷ []))
append-IsBytes [] b h lt = (lt, tt)
append-IsBytes (x ∷ xs) b h lt = (h.0, append-IsBytes xs b h.1 lt)

pub bytes_of-IsBytes : (k n : ℕ) → IsBytes (bytes_of k n)
bytes_of-IsBytes zero n = tt
bytes_of-IsBytes (suc k) n =
    append-IsBytes (bytes_of k (n / 256)) (n % 256) (bytes_of-IsBytes k (n / 256)) (omega arith)

abbrev pub number_from : ℕ → List ℕ → ℕ
number_from acc [] = acc
number_from acc (b ∷ bs) = number_from (acc * 256 + b) bs

number_from-append :
    (acc : ℕ) (xs : List ℕ) (b : ℕ)
    → number_from acc (xs ++ (b ∷ [])) ≡ number_from acc xs * 256 + b
number_from-append acc [] b = refl
number_from-append acc (x ∷ xs) b = number_from-append (acc * 256 + x) xs b

abbrev pub size_of : ℕ → ℕ → ℕ
size_of zero n = 0
size_of (suc fuel) n = let rest = size_of fuel (n / 256) in if n == 0 then 0 else suc rest

-- A number is read back from as many bytes as its size.
pub number_from-bytes_of : (fuel n : ℕ) → n ≤ fuel → number_from 0 (bytes_of (size_of fuel n) n) ≡ n
number_from-bytes_of zero n h = omega arith
number_from-bytes_of (suc fuel) n h = elim (Bool-cases (n == 0)) [
  | inl e ↦ rw e (ground arith)
  | inr e ↦
      let smaller : n / 256 ≤ fuel = ground arith in
      rw e (
        number_from-append 0 (bytes_of (size_of fuel (n / 256)) (n / 256)) (n % 256)
        ∙ omega (arith, number_from-bytes_of fuel (n / 256) smaller))
]
