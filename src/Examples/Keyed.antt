-- ===== src/Examples/Keyed.antt =====
-- Two instances with two keys each, of which the first one stays closed.
use zkfactorization.Prelude.{ℕ, ◌≡◌, refl, List, [], ◌∷◌, true, arith}
use zkfactorization.Prelude.Int.{ℤ, pos, minus_one}
use zkfactorization.Prelude.Sorting.{sort}
use zkfactorization.Prelude.Result.{ok}
use zkfactorization.Common.{concatenate, to_bytes}
use zkfactorization.BitUtils.{integer_to_bits, to_bits, bits_from}
use zkfactorization.Paillier
use zkfactorization.ShaCommitment
use zkfactorization.ShaCommitment.{blank_sender, blank_receiver}
use zkfactorization.TimedCommitment
use zkfactorization.CutAndChoose.{cut_and_choose, check_indices, run_all, valid_from}
use zkfactorization.CutAndChoose.Honest.{IsReady}
use zkfactorization.SharedSignature.Parties
use zkfactorization.SharedSignature.Verify
use zkfactorization.SignatureKey.{
  SingleSeller, SingleBuyer, init, exec, new_single_seller, new_single_buyer, gen_keys,
  gen_keys_from, gen_keys_and_setup_commits, assign_keys, commit_all,
}
use zkfactorization.SignatureKey.Honest.{Matched, signature_key_protocol, signature_keys_accepted}
use zkfactorization.Examples.Toy.{random, sha, codec, ofb, arithmetic}
use zkfactorization.Examples.Group.{curve}
use zkfactorization.Examples.Data.{commiter, seller, buyer, message}

abbrev single_seller : SingleSeller ℕ
unfolding new_single_seller
single_seller = new_single_seller 2 (record seller { q = 6 }) message commiter

abbrev single_buyer : SingleBuyer ℕ
unfolding new_single_buyer
single_buyer = new_single_buyer 2 (record buyer { q = 6 }) message

matched : Matched random codec sha ofb arithmetic curve 2 3 single_seller single_buyer
unfolding single_seller single_buyer
matched = record {
  same_q = refl;
  keyed = record { p_pos = omega arith; q_pos = omega arith; n_eq = refl; phi_eq = refl };
  senders = refl;
  receivers = refl;
}

abbrev outside : ℕ → ℤ
outside i = minus_one

ready :
    IsReady
      (signature_key_protocol random codec sha ofb arithmetic curve 2 3)
      outside
      (Matched random codec sha ofb arithmetic curve 2 3)
      2
      1
      (single_seller ∷ single_seller ∷ [])
      (single_buyer ∷ single_buyer ∷ [])
      (pos 0 ∷ [])
      0
unfolding single_seller single_buyer run_all init exec check_indices sort valid_from Parties.exec
    Parties.start_sig Parties.cont_sig Parties.finish_sig Parties.half_signature Parties.low_s
    Parties.get_data Parties.set_data_seller Parties.set_data_buyer Parties.get_signature
    Paillier.enc Paillier.dec Paillier.get_n2 Paillier.l_function Verify.verify Verify.hash_m_to_int
    Verify.number_of Verify.recovered Verify.encode_signature integer_to_bits to_bits bits_from
    concatenate to_bytes gen_keys gen_keys_from gen_keys_and_setup_commits assign_keys commit_all
    ShaCommitment.init ShaCommitment.exec ShaCommitment.compute_sha TimedCommitment.commit
    TimedCommitment.commit_message TimedCommitment.accept_commitment
    TimedCommitment.create_timed_key TimedCommitment.prng_xor TimedCommitment.is_binary
    TimedCommitment.seed_from TimedCommitment.xor_bits Paillier.client_key
ready = record {
  chosen = pos 0 ∷ [];
  fit = (matched, (matched, tt));
  ran = _;
  runs = refl;
  given_some = λ h. cc;
  checks = refl;
}

signature_keys_accepted_example :
    (ps' : List (SingleSeller ℕ)) × (vs' : List (SingleBuyer ℕ)) × (rng' : ℕ) × (cut_and_choose
        (signature_key_protocol random codec sha ofb arithmetic curve 2 3)
        outside
        2
        1
        (single_seller ∷ single_seller ∷ [])
        (single_buyer ∷ single_buyer ∷ [])
        (pos 0 ∷ [])
        minus_one
        0
      ≡ ok ((ps', vs', true), rng'))
signature_keys_accepted_example =
    signature_keys_accepted random codec sha ofb arithmetic curve 2 3 outside 2 1
      (single_seller ∷ single_seller ∷ []) (single_buyer ∷ single_buyer ∷ []) (pos 0 ∷ []) 0 ready
      (λ x h. ground arith)
