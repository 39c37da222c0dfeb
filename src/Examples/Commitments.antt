-- ===== src/Examples/Commitments.antt =====
-- The commitments, on messages of a few bytes or bits and a modulus of 77.
use zkfactorization.Prelude.{
  ℕ, ◌*◌, ◌%◌, ◌^◌, ◌-◌, ◌/◌, ◌<◌, ◌≡◌, ◌≢◌, ◌⊎◌, refl, arith, [], ◌∷◌, ◌++◌, false, some,
}
use zkfactorization.Prelude.Int.{pos}
use zkfactorization.Prelude.Result.{ok, throw, protocol, timed_protocol, divide_by_zero}
use zkfactorization.RegularCommitment.{sha256, eq, regular_commit, regular_verify, equal_bytes}
use zkfactorization.ShaCommitment.{Sender, Receiver, compute_sha, cheat, cheat_from, exec, reveal}
use zkfactorization.ShaCommitment.Opening.{
  Collision, accepted, reveal-exec, reveal_binding, cheat_refused,
}
use zkfactorization.TimedCommitment
use zkfactorization.TimedCommitment.{Commiter}
use zkfactorization.TimedCommitment.Power.{exp_lem}
use zkfactorization.TimedCommitment.Opening.{
  IsKeyed, key_of, new_commiter-IsKeyed, open_with_cases, open_commitment-commit, force_open-commit,
}
use zkfactorization.Examples.Toy.{random, sha, codec, ofb, arithmetic}
use zkfactorization.Examples.Data.{sender, receiver, commiter, timed_receiver, blank, bits}

abbrev three_hundred : ℕ
three_hundred = 300

refuses_other : regular_verify codec sha (regular_commit codec sha (pos 300)) (pos 301) ≡ false
unfolding regular_verify regular_commit sha256 eq equal_bytes
refuses_other = refl

-- The two parties after a commitment, and the sender that has changed its message.
abbrev committed : Sender
committed = record sender {
  seed = (random.generate_block 32 3).0;
  commitment = sha.digest (sender.m ++ (random.generate_block 32 3).0);
}

abbrev informed : Receiver
informed = record receiver { commitment = committed.commitment }

abbrev changed : Sender
changed = record committed { m = 0 ∷ 2 ∷ [] }

executes : exec sha random sender receiver 3 ≡ ok ((committed, informed), 4)
unfolding exec compute_sha
executes = refl

opens : reveal sha random committed informed ≡ ok (accepted sha random committed informed)
unfolding reveal compute_sha
opens = refl

changes : cheat committed ≡ ok changed
unfolding cheat cheat_from
changes = refl

reveal-exec_example :
    (s' : Sender) × (r' : Receiver) × (rng' : ℕ) × (exec sha random sender receiver 3
      ≡ ok ((s', r'), rng'))
    × (s'.m ≡ sender.m)
    × (reveal sha random s' r' ≡ ok (accepted sha random s' r'))
reveal-exec_example = reveal-exec sha random sender receiver 3

reveal_binding_example :
    (committed.m ≡ committed.m) × (committed.seed ≡ committed.seed) ⊎ Collision sha
reveal_binding_example =
    reveal_binding sha random committed committed informed informed refl refl opens opens

cheat_refused_example :
    (reveal sha random changed informed ≡ throw (protocol "sha commitment open failed"))
    ⊎ Collision sha
cheat_refused_example = cheat_refused sha random sender receiver 3 executes changes

exp_lem_example : TimedCommitment.exp 3 13 ≡ some (3 ^ 13)
exp_lem_example = exp_lem 3 13 (omega arith)

commiter-IsKeyed : IsKeyed commiter
commiter-IsKeyed = record { p_pos = omega arith; q_pos = omega arith; n_eq = refl; phi_eq = refl }

builds : TimedCommitment.new_commiter random ofb arithmetic blank 0 ≡ ok (commiter, 2)
unfolding TimedCommitment.new_commiter TimedCommitment.gen_prime
builds = refl

new_commiter-IsKeyed_example : IsKeyed commiter × (7 % 4 ≡ 3) × (11 % 4 ≡ 3)
new_commiter-IsKeyed_example = new_commiter-IsKeyed random ofb arithmetic blank 0 builds

open_commitment-commit_example :
    (c' : Commiter) × (r' : TimedCommitment.Receiver) × (rng' : ℕ) × (TimedCommitment.commit random
        ofb arithmetic commiter timed_receiver 3 bits 0
      ≡ ok ((c', r'), rng'))
    × (TimedCommitment.open_commitment random ofb arithmetic c' r' ≡ ok bits)
open_commitment-commit_example =
    open_commitment-commit random ofb arithmetic commiter timed_receiver 3 bits 0 commiter-IsKeyed

force_open-commit_example :
    (c' : Commiter) × (r' : TimedCommitment.Receiver) × (rng' : ℕ) × (TimedCommitment.commit random
        ofb arithmetic commiter timed_receiver 3 bits 0
      ≡ ok ((c', r'), rng'))
    × (TimedCommitment.force_open random ofb arithmetic r' ≡ ok bits)
force_open-commit_example =
    force_open-commit random ofb arithmetic commiter timed_receiver 3 bits 0 commiter-IsKeyed refl

abbrev holding : TimedCommitment.Receiver
holding = record { commitment = record { k = 3; n = 77; h = 2; s = bits; l = 4 } }

abbrev six : ℕ
six = 6

open_with_cases_example :
    (six ≡ 0) × (TimedCommitment.open_with random ofb arithmetic holding six ≡ throw divide_by_zero)
    ⊎ (six ≢ 0)
      × (holding.commitment.n % six ≢ 0)
      × (TimedCommitment.open_with random ofb arithmetic holding six
          ≡ throw (timed_protocol "p does not divide n"))
    ⊎ (six ≢ 0)
      × (holding.commitment.n % six ≡ 0)
      × ((six ≡ 1) ⊎ (holding.commitment.n ≡ six) ⊎ (holding.commitment.n ≡ 0))
      × (TimedCommitment.open_with random ofb arithmetic holding six ≡ throw divide_by_zero)
    ⊎ (1 < six)
      × (six < 77)
      × (holding.commitment.n % six ≡ 0)
      × (TimedCommitment.open_with random ofb arithmetic holding six
          ≡ ok (
              TimedCommitment.decode random ofb arithmetic holding
                (key_of random ofb arithmetic 77 ((six - 1) * (77 / six - 1)) 2 3)))
open_with_cases_example = open_with_cases random ofb arithmetic holding six
