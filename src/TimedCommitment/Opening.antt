-- ===== src/TimedCommitment/Opening.antt =====
-- What a receiver reads from a timed commitment: by the factor that the commiter reveals, and by
-- force.
use mathlib.Core.Bool.{xor}
use Prim.Native.Nat.{bit_and}
use native.Mathlib.Nat
use zkfactorization.Prelude.{
  ℕ, zero, suc, inl, inr, Bool-cases, ◌+◌, ◌-◌, ◌*◌, ◌/◌, ◌%◌, ◌^◌, ◌≤◌, ◌<◌, ◌≡◌, ◌≢◌, ◌⊎◌, refl,
  sym, ap, ap₂, subst, ◌∙◌, ◌==◌, arith, Bool, true, false, not, List, [], ◌∷◌, length,
}
use zkfactorization.Prelude.Result.{
  ok, throw, timed_protocol, divide_by_zero, bind-eq-ok, ok-injective,
}
use zkfactorization.CryptoPp.{Random, Ofb, ModArith}
use zkfactorization.TimedCommitment.{
  bits, Commitment, Commiter, Receiver, is_binary, xor_bits, gen_prime, new_commiter,
  create_timed_key, seed_from, prng_xor, decode, open_with, squarings, force_open, commit,
  open_commitment,
}
use zkfactorization.TimedCommitment.Power.{timed_key_lem, squarings_lem}

xor_twice : (b c : Bool) → xor (xor b c) c ≡ b
unfolding xor
xor_twice true true = refl
xor_twice true false = refl
xor_twice false true = refl
xor_twice false false = refl

length-xor_bits :
    (m : List Bool) (t : List ℕ) → length m ≤ length t → length (xor_bits m t) ≡ length m
unfolding xor_bits
length-xor_bits [] t h = refl
length-xor_bits (b ∷ m) [] h = absurd (omega arith)
length-xor_bits (b ∷ m) (x ∷ t) h = ap suc (length-xor_bits m t (omega arith))

xor_bits_twice : (m : List Bool) (t : List ℕ) → length m ≤ length t → xor_bits (xor_bits m t) t ≡ m
unfolding xor_bits
xor_bits_twice [] t h = refl
xor_bits_twice (b ∷ m) [] h = absurd (omega arith)
xor_bits_twice (b ∷ m) (x ∷ t) h =
    ap₂ ◌∷◌ (xor_twice b (not (bit_and x 1 == 0))) (xor_bits_twice m t (omega arith))

is_binary-true : (m : List Bool) → is_binary m ≡ true
unfolding is_binary
is_binary-true [] = refl
is_binary-true (true ∷ m) = is_binary-true m
is_binary-true (false ∷ m) = is_binary-true m

-- The modulus and its totient are those of the two primes.
pub record IsKeyed (c : Commiter) : Type 0 where
  pub p_pos : 1 < c.p
  pub q_pos : 1 < c.q
  pub n_eq : c.n ≡ c.p * c.q
  pub phi_eq : c.phi ≡ (c.p - 1) * (c.q - 1)

module _ (random : Random) (ofb : Ofb) (arithmetic : ModArith) where
  open random use {Rng, integer}
  open ofb use {keystream, length-keystream}

  -- Masking twice with one key gives the message back.
  pub prng_xor_twice :
      (u : ℕ) (m : List Bool)
      → prng_xor random ofb arithmetic u (prng_xor random ofb arithmetic u m) ≡ m
  unfolding prng_xor
  prng_xor_twice u m =
      let seed = seed_from random ofb arithmetic 48 0 u in
      let t = keystream seed (length m) in
      let fits : length m ≤ length t = omega (arith, length-keystream seed (length m)) in
      ap (λ (n : ℕ). xor_bits (xor_bits m t) (keystream seed n)) (length-xor_bits m t fits)
      ∙ xor_bits_twice m t fits

  gen_prime-ok :
      (size p : ℕ) (rng : Rng) {rng' : Rng}
      → gen_prime random ofb arithmetic size rng ≡ ok (p, rng')
      → p % 4 ≡ 3
  unfolding gen_prime
  gen_prime-ok size p rng h = ground arith

  -- A new commiter, where its constructor returns, has the product of two numbers above 1 for a
  -- modulus, both leaving 3 modulo 4, and the totient that belongs to them.
  pub new_commiter-IsKeyed :
      (blank : Commitment) (rng : Rng) {c : Commiter} {rng' : Rng}
      → new_commiter random ofb arithmetic blank rng ≡ ok (c, rng')
      → IsKeyed c × (c.p % 4 ≡ 3) × (c.q % 4 ≡ 3)
  unfolding new_commiter
  new_commiter-IsKeyed blank rng h =
      let (first, e, rest) = bind-eq-ok (gen_prime random ofb arithmetic bits rng) _ h in
      let (second, f, last) = bind-eq-ok (gen_prime random ofb arithmetic bits first.1) _ rest in
      let p_mod = gen_prime-ok bits first.0 rng e in
      let q_mod = gen_prime-ok bits second.0 first.1 f in
      let p_pos : 1 < first.0 = omega arith in
      let q_pos : 1 < second.0 = omega arith in
      subst (λ x. IsKeyed x.0 × (x.0.p % 4 ≡ 3) × (x.0.q % 4 ≡ 3)) (ok-injective last)
        (record { p_pos = p_pos; q_pos = q_pos; n_eq = refl; phi_eq = refl }, p_mod, q_mod)

  abbrev pub key_of : ℕ → ℕ → ℕ → ℕ → ℕ
  key_of n phi h k = arithmetic.a_exp_b_mod_c h (arithmetic.a_exp_b_mod_c 2 (2 ^ k) phi) n

  create_timed_key-ok :
      (n phi h k : ℕ)
      → n ≢ 0
      → phi ≢ 0
      → create_timed_key random ofb arithmetic n phi h k ≡ ok (key_of n phi h k)
  unfolding create_timed_key
  create_timed_key-ok n phi h k hn hphi = ground arith

  IsKeyed-n : (c : Commiter) → IsKeyed c → c.n ≢ 0
  IsKeyed-n c keyed zero_n =
      let some_n : 0 < c.p * c.q =
        Nat.mul-pos (omega (arith, keyed.p_pos)) (omega (arith, keyed.q_pos)) in
      omega (arith, keyed.n_eq)

  IsKeyed-phi : (c : Commiter) → IsKeyed c → c.phi ≢ 0
  IsKeyed-phi c keyed zero_phi =
      let some_phi : 0 < (c.p - 1) * (c.q - 1) =
        Nat.mul-pos (omega (arith, keyed.p_pos)) (omega (arith, keyed.q_pos)) in
      omega (arith, keyed.phi_eq)

  -- The commiter after it has committed, with the number that it drew.
  abbrev committed : Commiter → ℕ → List Bool → ℕ → Commiter
  committed c k m h = record c {
    commitment = record {
      k = k;
      n = c.n;
      h = h;
      s = prng_xor random ofb arithmetic (key_of c.n c.phi h k) m;
      l = length m;
    };
  }

  commit_eq :
      (c : Commiter) (r : Receiver) (k : ℕ) (m : List Bool) (rng : Rng)
      → IsKeyed c
      → let drawn = integer 2 (c.n - 1) rng in
        let c' = committed c k m drawn.0 in
        commit random ofb arithmetic c r k m rng
        ≡ ok ((c', record { commitment = c'.commitment }), drawn.1)
  unfolding commit
  commit_eq c r k m rng keyed =
      let h = (integer 2 (c.n - 1) rng).0 in
      rw is_binary-true
        (rw (create_timed_key-ok c.n c.phi h k (IsKeyed-n c keyed) (IsKeyed-phi c keyed)) refl)

  decode_committed :
      (n k h l u : ℕ) (m : List Bool)
      → let s = prng_xor random ofb arithmetic u m in
        decode random ofb arithmetic
          (record { commitment = record { k = k; n = n; h = h; s = s; l = l } })
          u
        ≡ m
  unfolding decode
  decode_committed n k h l u m = prng_xor_twice u m

  -- The totient that a divisor gives is 0 only for 1, for the modulus itself and for the modulus 0.
  no_totient :
      (n p : ℕ) → p ≢ 0 → n % p ≡ 0 → (p - 1) * (n / p - 1) ≡ 0 → (p ≡ 1) ⊎ (n ≡ p) ⊎ (n ≡ 0)
  no_totient n p ne exact none =
      let whole : p * (n / p) + n % p ≡ n = Nat.div-add-mod n p in
      by_quotient (n / p) (omega arith) none
    where
      by_quotient : (c : ℕ) → p * c ≡ n → (p - 1) * (c - 1) ≡ 0 → (p ≡ 1) ⊎ (n ≡ p) ⊎ (n ≡ 0)
      by_quotient zero e none = inr (inr (omega arith))
      by_quotient (suc zero) e none = inr (inl (omega arith))
      by_quotient (suc (suc c)) e none = elim (Bool-cases (p == 1)) [
        | inl one ↦ inl (ground arith)
        | inr more ↦
            let some : 0 < (p - 1) * (suc (suc c) - 1) = Nat.mul-pos (ground arith) (omega arith) in
            absurd (omega arith)
      ]

  -- Where that totient is not 0, the divisor is a proper factor.
  proper : (n p : ℕ) → p ≢ 0 → n ≢ 0 → n % p ≡ 0 → (p - 1) * (n / p - 1) ≢ 0 → (1 < p) × (p < n)
  proper n p ne ne_n exact totient =
      let whole : p * (n / p) + n % p ≡ n = Nat.div-add-mod n p in
      by_quotient (n / p) (omega arith) totient
    where
      by_quotient : (c : ℕ) → p * c ≡ n → (p - 1) * (c - 1) ≢ 0 → (1 < p) × (p < n)
      by_quotient zero e totient = absurd (ne_n (omega arith))
      by_quotient (suc zero) e totient = absurd (totient (Nat.mul-zero (p - 1)))
      by_quotient (suc (suc c)) e totient = elim (Bool-cases (p == 1)) [
        | inl one ↦
            let same : p ≡ 1 = ground arith in
            absurd (
              totient
                (ap (λ (t : ℕ). (t - 1) * (suc (suc c) - 1)) same ∙ Nat.zero-mul (suc (suc c) - 1)))
        | inr more ↦
            let some : 1 < p = ground arith in
            let twice : p * 2 ≤ p * suc (suc c) = Nat.mul-le-mul_left p (omega arith) in
            (some, omega arith)
      ]

  -- All outcomes of an opening with p. A proper factor of the modulus unmasks with the key of that
  -- factorization; 1 and the modulus itself, which give the totient 0, fault in the power, as does the
  -- modulus 0; a number that does not divide the modulus is refused, and 0 faults in the division.
  pub open_with_cases :
      (r : Receiver) (p : ℕ)
      → let n = r.commitment.n in
        (p ≡ 0) × (open_with random ofb arithmetic r p ≡ throw divide_by_zero)
        ⊎ (p ≢ 0)
          × (n % p ≢ 0)
          × (open_with random ofb arithmetic r p ≡ throw (timed_protocol "p does not divide n"))
        ⊎ (p ≢ 0)
          × (n % p ≡ 0)
          × ((p ≡ 1) ⊎ (n ≡ p) ⊎ (n ≡ 0))
          × (open_with random ofb arithmetic r p ≡ throw divide_by_zero)
        ⊎ (1 < p)
          × (p < n)
          × (n % p ≡ 0)
          × (open_with random ofb arithmetic r p
              ≡ ok (
                  decode random ofb arithmetic r
                    (key_of n ((p - 1) * (n / p - 1)) r.commitment.h r.commitment.k)))
  unfolding open_with create_timed_key
  open_with_cases r p =
      let n = r.commitment.n in
      let phi = (p - 1) * (n / p - 1) in
      elim (Bool-cases (p == 0)) [
        | inl none ↦ inl (ground arith, ground arith)
        | inr some ↦ elim (Bool-cases (n % p == 0)) [
          | inr other ↦ inr (inl (ground arith, ground arith, ground arith))
          | inl divides ↦
              let ne : p ≢ 0 = ground arith in
              let exact : n % p ≡ 0 = ground arith in
              elim (Bool-cases (n == 0)) [
                | inl none ↦ inr (inr (inl (ne, exact, inr (inr (ground arith)), ground arith)))
                | inr some_n ↦ elim (Bool-cases (phi == 0)) [
                  | inl none ↦
                      let zero_phi : phi ≡ 0 = ground arith in
                      inr (inr (inl (ne, exact, no_totient n p ne exact zero_phi, ground arith)))
                  | inr some_phi ↦
                      let (big, less) = proper n p ne (ground arith) exact (ground arith) in
                      inr (inr (inr (big, less, exact, ground arith)))
                ]
              ]
        ]
      ]

  open_with-factor :
      (r : Receiver) (p e : ℕ)
      → p ≢ 0
      → r.commitment.n ≢ 0
      → e ≢ 0
      → r.commitment.n % p ≡ 0
      → (p - 1) * (r.commitment.n / p - 1) ≡ e
      → open_with random ofb arithmetic r p
        ≡ ok
            (decode random ofb arithmetic r (key_of r.commitment.n e r.commitment.h r.commitment.k))
  unfolding open_with create_timed_key
  open_with-factor r p e ne ne_n ne_e exact h = rw (← h) (ground arith)

  -- The squarings of the loop reach the timed key.
  squarings-key :
      (n phi h k : ℕ)
      → 0 < n
      → 0 < phi
      → h ^ phi % n ≡ 1 % n
      → squarings random ofb arithmetic (2 ^ k) n h ≡ key_of n phi h k
  squarings-key n phi h k hn hphi period =
      let e : 2 ^ k ≡ suc (2 ^ k - 1) = omega (arith, Nat.one-le-pow k 2 (omega arith)) in
      ap (λ (t : ℕ). squarings random ofb arithmetic t n h) e
      ∙ squarings_lem random ofb arithmetic (2 ^ k - 1) n h hn
      ∙ ap (λ (t : ℕ). h ^ 2 ^ t % n) (sym e)
      ∙ sym (timed_key_lem random ofb arithmetic n phi h k hn hphi period)

  -- A commiter with the modulus and the totient of two numbers above 1 commits to every message,
  -- and its opening shows that message.
  pub open_commitment-commit :
      (c : Commiter) (r : Receiver) (k : ℕ) (m : List Bool) (rng : Rng)
      → IsKeyed c
      → (c' : Commiter) × (r' : Receiver) × (rng' : Rng) × (commit random ofb arithmetic c r k m rng
          ≡ ok ((c', r'), rng'))
        × (open_commitment random ofb arithmetic c' r' ≡ ok m)
  unfolding open_commitment
  open_commitment-commit c r k m rng keyed =
      let h = (integer 2 (c.n - 1) rng).0 in
      let c' = committed c k m h in
      let exact : c.n % c.p ≡ 0 = ap (λ (t : ℕ). t % c.p) keyed.n_eq ∙ Nat.mul-mod_right c.p c.q in
      let other : c.n / c.p ≡ c.q =
        ap (λ (t : ℕ). t / c.p) keyed.n_eq
        ∙ Nat.mul-div_cancel_left c.q (omega (arith, keyed.p_pos)) in
      let phi : (c.p - 1) * (c.n / c.p - 1) ≡ c.phi =
        ap (λ (t : ℕ). (c.p - 1) * (t - 1)) other ∙ sym keyed.phi_eq in
      (
        c',
        record { commitment = c'.commitment },
        (integer 2 (c.n - 1) rng).1,
        commit_eq c r k m rng keyed,
        open_with-factor (record { commitment = c'.commitment }) c.p c.phi
              (omega (arith, keyed.p_pos)) (IsKeyed-n c keyed) (IsKeyed-phi c keyed) exact phi
            ∙ ap ok (decode_committed c.n k h (length m) (key_of c.n c.phi h k) m),
      )

  -- A commiter with the modulus and the totient of two numbers above 1 commits to every message,
  -- and the receiver that then opens by force, by squarings alone, reads that message, where the
  -- number drawn has the totient for a period.
  pub force_open-commit :
      (c : Commiter) (r : Receiver) (k : ℕ) (m : List Bool) (rng : Rng)
      → IsKeyed c
      → (integer 2 (c.n - 1) rng).0 ^ c.phi % c.n ≡ 1 % c.n
      → (c' : Commiter) × (r' : Receiver) × (rng' : Rng) × (commit random ofb arithmetic c r k m rng
          ≡ ok ((c', r'), rng'))
        × (force_open random ofb arithmetic r' ≡ ok m)
  unfolding force_open
  force_open-commit c r k m rng keyed period =
      let h = (integer 2 (c.n - 1) rng).0 in
      let c' = committed c k m h in
      (
        c',
        record { commitment = c'.commitment },
        (integer 2 (c.n - 1) rng).1,
        commit_eq c r k m rng keyed,
        rw some_n (
            ap
              (λ (u : ℕ).
                ok (decode random ofb arithmetic (record { commitment = c'.commitment }) u))
              (squarings-key c.n c.phi h k n_pos phi_pos period)
            ∙ ap ok (decode_committed c.n k h (length m) (key_of c.n c.phi h k) m)),
      )
    where
      n_pos : 0 < c.n
      n_pos = rw keyed.n_eq (Nat.mul-pos (omega (arith, keyed.p_pos)) (omega (arith, keyed.q_pos)))

      some_n : (c.n == 0) ≡ false
      some_n = let pos_n = n_pos in ground arith

      phi_pos : 0 < c.phi
      phi_pos =
          rw keyed.phi_eq (Nat.mul-pos (omega (arith, keyed.p_pos)) (omega (arith, keyed.q_pos)))
