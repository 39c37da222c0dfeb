-- ===== src/TimedCommitment/Power.antt =====
-- The powers that the commitment computes: `exp`, the timed key and the loop of squarings.
use native.Mathlib.Nat
use zkfactorization.Prelude.{
  ℕ, zero, suc, ◌*◌, ◌/◌, ◌%◌, ◌^◌, ◌<◌, ◌≡◌, sym, ap, ◌∙◌, ◌==◌, some, arith, inl, inr, Bool-cases,
  ==_iff, if◌then◌else◌,
}
use zkfactorization.Prelude.Modular.{pow-mul, mod-pow-mod, pow_period}
use zkfactorization.CryptoPp.{Random, Ofb, ModArith}
use zkfactorization.TimedCommitment.{exp, exp_loop, squarings}

pow-zero : (x n : ℕ) → n ≡ 0 → x ^ n ≡ 1
pow-zero x n e = ap (λ (t : ℕ). x ^ t) e ∙ Nat.pow-zero x

pow-two : (x : ℕ) → x ^ 2 ≡ x * x
pow-two x =
    Nat.pow-suc x 1
    ∙ ap (λ (t : ℕ). t * x)
        (Nat.pow-suc x 0 ∙ ap (λ (t : ℕ). t * x) (Nat.pow-zero x) ∙ Nat.one-mul x)

square_pow : (x n : ℕ) → (x * x) ^ n ≡ x ^ (2 * n)
square_pow x n = sym (pow-mul x 2 n ∙ ap (λ (t : ℕ). t ^ n) (pow-two x))

-- One round of the loop leaves the value that it stands for.
round_value :
    (x n res : ℕ) → (if n % 2 == 1 then res * x else res) * (x * x) ^ (n / 2) ≡ res * x ^ n
round_value x n res = rw (square_pow x (n / 2)) (elim (Bool-cases (n % 2 == 1)) [
  | inl odd ↦
      let e : n ≡ suc (2 * (n / 2)) = ground arith in
      let p : x ^ n ≡ x ^ (2 * (n / 2)) * x =
        ap (λ (t : ℕ). x ^ t) e ∙ Nat.pow-suc x (2 * (n / 2)) in
      rw odd (sym (ap (λ (t : ℕ). res * t) p ∙ regroup (x ^ (2 * (n / 2)))))
  | inr even ↦
      let e : n ≡ 2 * (n / 2) = ground arith in rw even (sym (ap (λ (t : ℕ). res * x ^ t) e))
])
  where
    regroup : (y : ℕ) → res * (y * x) ≡ res * x * y
    regroup y = omega arith

exp_loop_lem : (f x n res : ℕ) → n < 2 ^ f → exp_loop (suc f) x n res ≡ some (res * x ^ n)
unfolding exp_loop
exp_loop_lem zero x n res h = let e : n ≡ 0 = omega arith in ground (arith, pow-zero x n e)
exp_loop_lem (suc f) x n res h = elim (Bool-cases (n == 0)) [
  | inl stop ↦ ground (arith, pow-zero x n ((==_iff n 0).0 stop))
  | inr more ↦
      let half : n / 2 < 2 ^ f = omega (arith, Nat.pow-suc 2 f) in
      rw more (
        exp_loop_lem f (x * x) (n / 2) (if n % 2 == 1 then res * x else res) half
        ∙ ap some (round_value x n res))
]

-- For every exponent below 2 ^ 32 `exp` ends within its fuel and raises to the power.
pub exp_lem : (x n : ℕ) → n < 2 ^ 32 → exp x n ≡ some (x ^ n)
unfolding exp
exp_lem x n h = exp_loop_lem 32 x n 1 h ∙ ap some (Nat.one-mul (x ^ n))

module _ (random : Random) (ofb : Ofb) (arithmetic : ModArith) where
  open arithmetic use {a_exp_b_mod_c, exp_eq, square_mod, square_eq}

  -- For n and phi above 0, where phi is a period of h modulo n, the timed key is the power of h
  -- that 2 ^ k squarings reach.
  pub timed_key_lem :
      (n phi h k : ℕ)
      → 0 < n
      → 0 < phi
      → h ^ phi % n ≡ 1 % n
      → a_exp_b_mod_c h (a_exp_b_mod_c 2 (2 ^ k) phi) n ≡ h ^ 2 ^ 2 ^ k % n
  timed_key_lem n phi h k hn hphi period =
      exp_eq h (a_exp_b_mod_c 2 (2 ^ k) phi) n hn
      ∙ ap (λ (t : ℕ). h ^ t % n) (exp_eq 2 (2 ^ k) phi hphi)
      ∙ pow_period h (2 ^ 2 ^ k) phi n period

  -- `times` squarings raise to the power `2 ^ times`.
  pub squarings_lem :
      (times n u : ℕ)
      → 0 < n
      → squarings random ofb arithmetic (suc times) n u ≡ u ^ 2 ^ suc times % n
  unfolding squarings
  squarings_lem zero n u hn = square_eq u n hn ∙ ap (λ (t : ℕ). t % n) (sym (pow-two u))
  squarings_lem (suc times) n u hn =
      squarings_lem times n (square_mod u n) hn
      ∙ ap (λ (t : ℕ). t ^ 2 ^ suc times % n) (square_eq u n hn)
      ∙ mod-pow-mod (u * u) (2 ^ suc times) n
      ∙ ap (λ (t : ℕ). t % n) (square_pow u (2 ^ suc times))
      ∙ ap (λ (t : ℕ). u ^ t % n) (sym (Nat.pow-suc 2 (suc times) ∙ Nat.mul_comm (2 ^ suc times) 2))
