-- ===== src/Examples/Toy.antt =====
-- Small instances of the library's interfaces, whose laws are proved: draws that follow a counter
-- where the range is small and take its lower end where it is large, a digest that cuts or pads,
-- arithmetic by definition or by search, and the integers modulo 7 as a curve.
use native.Mathlib.Nat
use zkfactorization.Prelude.{
  ℕ, zero, suc, ◌+◌, ◌-◌, ◌*◌, ◌/◌, ◌%◌, ◌^◌, ◌≤◌, ◌<◌, ◌≡◌, refl, sym, ap, ◌∙◌, arith, List, [],
  ◌∷◌, Option, none, some, ltb, ◌==◌, ==_iff, if◌then◌else◌, replicate, length,
}
use zkfactorization.Prelude.Int.{ℤ, pos, negsuc}
use zkfactorization.Prelude.Modular.{mul_cong, add_cong}
use zkfactorization.CryptoPp.{IsBytes, Random, Sha256, Codec, Ofb, ModArith, Ecb, NumberTheory}
use zkfactorization.Examples.Numbers.{
  find, find_lt, find_sound, pad, length-pad, bytes_of, length-bytes_of, bytes_of-IsBytes,
  number_from, size_of, number_from-bytes_of,
}

abbrev pub drawn : ℕ → ℕ → ℕ → ℕ
drawn lo hi s = if ltb hi 1000 then lo + s % (suc hi - lo) else lo

pub drawn_range : (lo hi s : ℕ) → lo ≤ hi → (lo ≤ drawn lo hi s) × (drawn lo hi s ≤ hi)
drawn_range lo hi s h =
    let below = Nat.mod-lt s {m = suc hi - lo} (omega arith) in (ground arith, ground arith)

abbrev pub random : Random
random = record {
  Rng = ℕ;
  generate_block = λ n s. (replicate n (s % 256), s + 1);
  integer = λ lo hi s. (drawn lo hi s, s + 1);
  generate_bit = λ s. (s % 2, s + 1);
  shuffle = λ xs s. (xs, s + 1);
  safe_prime = λ size s. (if s == 0 then 7 else 11, s + 1);
  prime = λ lo hi s. (lo, s + 1);
  length-generate_block = λ n s. length-replicate n (s % 256);
  integer_range = drawn_range;
  shuffle_occurrences = λ xs s a. refl;
  prime_range = λ lo hi s h. (omega arith, h);
}
  where
    length-replicate : (n b : ℕ) → length (replicate n b) ≡ n
    length-replicate zero b = refl
    length-replicate (suc n) b = ap suc (length-replicate n b)

abbrev pub sha : Sha256
sha = record { digest = pad 32; length-digest = length-pad 32 }

abbrev pub encode_int : ℤ → ℕ → List ℕ
encode_int (pos x) n = bytes_of n x
encode_int (negsuc x) n = bytes_of n 255

abbrev pub size_int : ℤ → ℕ
size_int (pos x) = size_of x x
size_int (negsuc x) = 1

pub length-encode_int : (x : ℤ) (n : ℕ) → length (encode_int x n) ≡ n
length-encode_int (pos x) n = length-bytes_of n x
length-encode_int (negsuc x) n = length-bytes_of n 255

pub encode_int-IsBytes : (x : ℤ) (n : ℕ) → IsBytes (encode_int x n)
encode_int-IsBytes (pos x) n = bytes_of-IsBytes n x
encode_int-IsBytes (negsuc x) n = bytes_of-IsBytes n 255

abbrev pub codec : Codec
codec = record {
  encode = encode_int;
  min_encoded_size = size_int;
  decode = number_from 0;
  length-encode = length-encode_int;
  encode-IsBytes = encode_int-IsBytes;
  decode-encode = λ n. number_from-bytes_of n n (omega arith);
}

abbrev pub ofb : Ofb
ofb = record {
  keystream = λ seed n. pad n seed;
  get_byte = λ u i. u / 256 ^ i % 256;
  length-keystream = λ seed n. length-pad n seed;
}

abbrev pub inverse : ℕ → ℕ → ℕ
inverse a c = find (λ b. a * b % c == 1) c

pub inverse_lem : (a b c : ℕ) → 1 < c → a * b % c ≡ 1 → a * inverse a c % c ≡ 1
inverse_lem a b c h e = (==_iff (a * inverse a c % c) 1).0 (
    find_sound (λ b. a * b % c == 1) c (b % c) (Nat.mod-lt b (omega arith))
      ((==_iff (a * (b % c) % c) 1).1 (mul_cong a a (b % c) b c refl (Nat.mod-mod b c) ∙ e)))

abbrev pub arithmetic : ModArith
arithmetic = record {
  a_times_b_mod_c = λ a b c. a * b % c;
  a_exp_b_mod_c = λ a b c. a ^ b % c;
  inverse_mod = inverse;
  square_mod = λ a c. a * a % c;
  times_eq = λ a b c h. refl;
  exp_eq = λ a b c h. refl;
  inverse_eq = inverse_lem;
  square_eq = λ a c h. refl;
}

-- A byte of padding in front.
abbrev unpadded : List ℕ → Option (List ℕ)
unpadded [] = none
unpadded (b ∷ m) = some m

abbrev pub ecb : Ecb
ecb = record {
  encrypt = λ key m. 1 ∷ m;
  decrypt = λ key m. unpadded m;
  decrypt-encrypt = λ key m h. refl;
  encrypt-some = λ key m h. omega arith;
}

abbrev pub root : ℕ → ℕ → ℕ
root a p = find (λ x. x * x % p == a % p) p

pub root_lt : (a p : ℕ) → 0 < p → root a p < p
root_lt a zero h = absurd (omega arith)
root_lt a (suc p) h = omega (arith, find_lt (λ x. x * x % suc p == a % suc p) p)

-- It finds a root of each square.
pub root_lem : (p a b : ℕ) → 0 < p → b * b % p ≡ a % p → root a p * root a p % p ≡ a % p
root_lem p a b h e = (==_iff (root a p * root a p % p) (a % p)).0 (
    find_sound (λ x. x * x % p == a % p) p (b % p) (Nat.mod-lt b h)
      ((==_iff (b % p * (b % p) % p) (a % p)).1
        (mul_cong (b % p) b (b % p) b p (Nat.mod-mod b p) (Nat.mod-mod b p) ∙ e)))

-- Garner's formula, as in nbtheory.cpp of Crypto++
abbrev pub garner : ℕ → ℕ → ℕ → ℕ → ℕ → ℕ
garner x p y q u = p * (u * (y + (q - x % q)) % q) + x

pub garner_left : (x p y q u : ℕ) → garner x p y q u % p ≡ x % p
garner_left x p y q u =
    ap (λ (t : ℕ). t % p) (Nat.add_comm (p * (u * (y + (q - x % q)) % q)) x)
    ∙ Nat.add-mul-mod_self_left x p (u * (y + (q - x % q)) % q)

pub garner_right : (x p y q u : ℕ) → 0 < q → p * u % q ≡ 1 % q → garner x p y q u % q ≡ y % q
garner_right x p y q u h e =
    let d = q - x % q in
    let below = Nat.mod-lt x h in
    let cancel : y + d + x % q ≡ y + q = omega arith in
    add_cong (p * (u * (y + d) % q)) (y + d) x (x % q) q
      (mul_cong p p (u * (y + d) % q) (u * (y + d)) q refl (Nat.mod-mod (u * (y + d)) q)
        ∙ ap (λ (t : ℕ). t % q) (sym (Nat.mul_assoc p u (y + d)))
        ∙ mul_cong (p * u) 1 (y + d) (y + d) q e refl
        ∙ ap (λ (t : ℕ). t % q) (Nat.one-mul (y + d)))
      (sym (Nat.mod-mod x q))
    ∙ ap (λ (t : ℕ). t % q) cancel
    ∙ Nat.add-mod_right y q

pub garner_le : (x p y q u : ℕ) → 0 < q → garner x p y q u + p ≤ p * q + x
garner_le x p y q u hq =
    let t = u * (y + (q - x % q)) % q in
    let high : suc t ≤ q = Nat.mod-lt (u * (y + (q - x % q))) hq in
    let scaled : p * suc t ≤ p * q = Nat.mul-le-mul_left p high in omega arith

abbrev pub theory : NumberTheory
theory = record {
  modular_square_root = root;
  crt = garner;
  root_lt = root_lt;
  crt_left = λ x p y q u hp hq e. garner_left x p y q u;
  crt_right = λ x p y q u hp hq e. garner_right x p y q u hq e;
  crt_le = λ x p y q u hp hq. garner_le x p y q u hq;
}
