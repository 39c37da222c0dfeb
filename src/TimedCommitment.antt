-- ===== src/TimedCommitment.antt =====
-- timed_commitment/timed_commitment.{h,cpp}: a message masked by a key that takes 2 ^ K squarings
-- to find, or one short power for who knows the factors of the modulus. The numbers of a
-- commitment are not negative.
pub mod Power
pub mod Opening
use Prim.Native.Nat.{bit_and}
use mathlib.Core.Bool.{xor}
use zkfactorization.Prelude.{
  ℕ, zero, suc, ◌+◌, ◌-◌, ◌*◌, ◌/◌, ◌%◌, ◌^◌, List, [], ◌∷◌, Bool, true, not, ◌&&◌, ◌||◌, ◌==◌,
  if◌then◌else◌, length, Option, none, some,
}
use zkfactorization.Prelude.Result.{
  Run, Result, ok, throw, divide_by_zero, timed_protocol, sanity, bind,
}
use zkfactorization.CryptoPp.{Random, Ofb, ModArith}

-- the length in bits of the primes p and q
abbrev pub bits : ℕ
bits = 512

pub record Commitment : Type 0 where
  pub k : ℕ
  pub n : ℕ
  pub h : ℕ
  pub s : List Bool
  pub l : ℕ

-- A commitment that nothing has been written to.
abbrev pub blank_commitment : Commitment
blank_commitment = record { k = 0; n = 0; h = 0; s = []; l = 0 }

pub record Commiter : Type 0 where
  pub p : ℕ
  pub q : ℕ
  pub n : ℕ
  pub phi : ℕ
  pub commitment : Commitment

pub record Receiver : Type 0 where
  pub commitment : Commitment

-- The loop of `exp`; `none` means that the fuel ran out.
unfoldable pub exp_loop : ℕ → ℕ → ℕ → ℕ → Option ℕ
exp_loop zero x n res = none
exp_loop (suc fuel) x n res =
    let rest = exp_loop fuel (x * x) (n / 2) (if n % 2 == 1 then res * x else res) in
    if n == 0 then some res else rest

-- `exp`, on an `unsigned` of 32 bits.
unfoldable pub exp : ℕ → ℕ → Option ℕ
unfolding exp_loop
exp x n = exp_loop 33 x n 1

-- The sanity check on the message: each bit is 0 or 1.
unfoldable pub is_binary : List Bool → Bool
is_binary [] = true
is_binary (b ∷ m) = (not b || b) && is_binary m

-- `S[i] = m[i] ^ (t[i] & 1)` for each `i`; the block `t` is as long as the message.
unfoldable pub xor_bits : List Bool → List ℕ → List Bool
xor_bits [] t = []
xor_bits (b ∷ m) [] = []
xor_bits (b ∷ m) (x ∷ t) = xor b (not (bit_and x 1 == 0)) ∷ xor_bits m t

module _ (random : Random) (ofb : Ofb) (arithmetic : ModArith) where
  open random use {Rng, safe_prime, integer}
  open ofb use {keystream, get_byte}
  open arithmetic use {a_exp_b_mod_c, square_mod}

  unfoldable pub gen_prime : ℕ → Run Rng ℕ
  gen_prime size rng =
      let (res, rng') = safe_prime size rng in
      if not (res % 4 == 3) then throw (sanity "gen prime") else ok (res, rng')

  -- `Commiter::Commiter`; `blank` stands for the commitment that is not yet set.
  unfoldable pub new_commiter : Commitment → Run Rng Commiter
  unfolding gen_prime
  new_commiter blank rng = bind (gen_prime bits rng) λ first.
      bind (gen_prime bits first.1) λ second.
        let p = first.0 in
        let q = second.0 in
        ok (
          record { p = p; q = q; n = p * q; phi = (p - 1) * (q - 1); commitment = blank },
          second.1,
        )

  -- Both powers are taken modulo a number that must not be 0.
  unfoldable pub create_timed_key : ℕ → ℕ → ℕ → ℕ → Result ℕ
  create_timed_key n phi h k =
      if phi == 0 || n == 0
      then throw divide_by_zero
      else ok (a_exp_b_mod_c h (a_exp_b_mod_c 2 (2 ^ k) phi) n)

  -- The seed: bytes `i` and on of `u`, `left` of them.
  unfoldable pub seed_from : ℕ → ℕ → ℕ → List ℕ
  seed_from zero i u = []
  seed_from (suc left) i u = get_byte u i ∷ seed_from left (i + 1) u

  unfoldable pub prng_xor : ℕ → List Bool → List Bool
  unfolding seed_from xor_bits
  prng_xor u m = xor_bits m (keystream (seed_from 48 0 u) (length m))

  -- `Commiter::commit`
  unfoldable pub commit_message : Commiter → ℕ → List Bool → Run Rng Commiter
  unfolding create_timed_key prng_xor is_binary
  commit_message c k m rng =
      if not (is_binary m)
      then throw (sanity "not binary m")
      else let (h, rng') = integer 2 (c.n - 1) rng in
        bind (create_timed_key c.n c.phi h k) λ u. ok (
          record c {
            commitment = record { k = k; n = c.n; h = h; s = prng_xor u m; l = length m };
          },
          rng',
        )

  unfoldable pub accept_commitment : Receiver → Commitment → Receiver
  accept_commitment r commitment = record r { commitment = commitment }

  -- `Receiver::decode`
  unfoldable pub decode : Receiver → ℕ → List Bool
  unfolding prng_xor
  decode r u = prng_xor u r.commitment.s

  -- `Receiver::open`
  unfoldable pub open_with : Receiver → ℕ → Result (List Bool)
  unfolding create_timed_key decode
  open_with r p =
      if p == 0
      then throw divide_by_zero
      else let n = r.commitment.n in
        let q = n / p in
        if not (n % p == 0)
        then throw (timed_protocol "p does not divide n")
        else bind (create_timed_key n ((p - 1) * (q - 1)) r.commitment.h r.commitment.k)
            λ u. ok (decode r u)

  -- The loop of `force_open`, on the number of rounds left.
  unfoldable pub squarings : ℕ → ℕ → ℕ → ℕ
  squarings zero n u = u
  squarings (suc times) n u = squarings times n (square_mod u n)

  -- There is a round at least, and each divides by the modulus.
  unfoldable pub force_open : Receiver → Result (List Bool)
  unfolding squarings decode
  force_open r =
      if r.commitment.n == 0
      then throw divide_by_zero
      else ok (decode r (squarings (2 ^ r.commitment.k) r.commitment.n r.commitment.h))

  unfoldable pub commit : Commiter → Receiver → ℕ → List Bool → Run Rng (Commiter × Receiver)
  unfolding commit_message accept_commitment
  commit c r k m rng =
      bind (commit_message c k m rng)
        λ done. ok ((done.0, accept_commitment r done.0.commitment), done.1)

  unfoldable pub open_commitment : Commiter → Receiver → Result (List Bool)
  unfolding open_with
  open_commitment c r = open_with r c.p
