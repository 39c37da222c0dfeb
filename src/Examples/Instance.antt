-- ===== src/Examples/Instance.antt =====
-- The opening of one instance with two keys. The signature that the seller committed to is not the
-- one that is checked.
use zkfactorization.Prelude.{ℕ, ◌≡◌, ◌↔◌, refl, List, [], ◌∷◌, ◌++◌, true, false}
use zkfactorization.Prelude.Result.{ok}
use zkfactorization.Common.{concatenate, to_bytes}
use zkfactorization.ShaCommitment
use zkfactorization.TimedCommitment
use zkfactorization.SharedSignature.Parties
use zkfactorization.SharedSignature.Verify.{verify, hash_m_to_int, number_of, recovered}
use zkfactorization.SignatureKey.{
  SingleSeller, SingleBuyer, gen_keys, gen_keys_from, equal_range, verify_all, verify_keys,
  open_all, reveal,
}
use zkfactorization.SignatureKey.Keys.{AllPrefix, verify_all_iff}
use zkfactorization.SignatureKey.Opening.{Opened, AllOpened, reveal-shows}
use zkfactorization.Examples.Toy.{random, sha, codec, ofb, arithmetic}
use zkfactorization.Examples.Group.{curve}
use zkfactorization.Examples.Data.{commiter, bits, seller, buyer, message}

abbrev pub committing : List ℕ → ShaCommitment.Sender
committing m = record { m = m; seed = 5 ∷ []; commitment = sha.digest (m ++ (5 ∷ [])) }

abbrev pub waiting : List ℕ → ShaCommitment.Receiver
waiting m = record {
  open_verified = false;
  m = [];
  seed = [];
  commitment = sha.digest (m ++ (5 ∷ []));
}

abbrev pub informed : List ℕ → ShaCommitment.Receiver
informed m = record {
  open_verified = true;
  m = m;
  seed = 5 ∷ [];
  commitment = sha.digest (m ++ (5 ∷ []));
}

abbrev first_key : List ℕ
first_key = sha.digest (9 ∷ [])

abbrev second_key : List ℕ
second_key = sha.digest (9 ∷ 1 ∷ [])

abbrev single_seller : SingleSeller ℕ
single_seller = record {
  t2_hash = message;
  keys = first_key ∷ second_key ∷ [];
  shared_signature_s = record seller { r = 3; s = 3; q = 6 };
  timed_commitment_commiter = commiter;
  keys_commits = committing first_key ∷ committing second_key ∷ [];
  signature_commit = committing (9 ∷ []);
}

abbrev single_buyer : SingleBuyer ℕ
single_buyer = record {
  t2_hash = message;
  open_verified = false;
  shared_signature_b = record buyer { q = 6 };
  timed_commitment_receiver = record {
    commitment = record { k = 3; n = 77; h = 2; s = bits; l = 4 };
  };
  keys_commits = waiting first_key ∷ waiting second_key ∷ [];
  signature_commit = waiting (9 ∷ []);
}

abbrev after : SingleBuyer ℕ
after = record single_buyer {
  open_verified = true;
  shared_signature_b = record buyer { q = 6; open_verified = true };
  keys_commits = informed first_key ∷ informed second_key ∷ [];
  signature_commit = informed (9 ∷ []);
}

opens : reveal random codec sha ofb arithmetic curve 2 3 single_seller single_buyer ≡ ok after
unfolding reveal Parties.reveal verify hash_m_to_int number_of recovered
    TimedCommitment.open_commitment TimedCommitment.open_with TimedCommitment.decode
    TimedCommitment.prng_xor TimedCommitment.seed_from TimedCommitment.xor_bits
    TimedCommitment.create_timed_key open_all ShaCommitment.reveal ShaCommitment.compute_sha
    verify_keys verify_all equal_range gen_keys gen_keys_from concatenate to_bytes
opens = refl

reveal-shows_example :
    (verify codec arithmetic curve 6 message 3 3 ≡ ok true)
    × AllOpened random codec sha ofb arithmetic curve 2 3 single_seller.keys_commits
        single_buyer.keys_commits after.keys_commits
    × Opened random codec sha ofb arithmetic curve 2 3 single_seller.signature_commit
        single_buyer.signature_commit after.signature_commit
    × AllPrefix after.keys_commits (gen_keys random codec sha ofb arithmetic curve 2 3 (9 ∷ []))
reveal-shows_example =
    reveal-shows random codec sha ofb arithmetic curve 2 3 single_seller single_buyer opens

verify_all_iff_example :
    (verify_all (informed [] ∷ informed second_key ∷ []) (first_key ∷ second_key ∷ []) ≡ ok tt)
    ↔ AllPrefix (informed [] ∷ informed second_key ∷ []) (first_key ∷ second_key ∷ [])
verify_all_iff_example =
    verify_all_iff (informed [] ∷ informed second_key ∷ []) (first_key ∷ second_key ∷ [])
