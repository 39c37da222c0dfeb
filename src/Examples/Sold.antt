-- ===== src/Examples/Sold.antt =====
-- A sale with two instances, up to the end of the first cut and choose.
use zkfactorization.Prelude.{
  ℕ, ◌+◌, ◌≤◌, ◌<◌, All, length, ◌≡◌, refl, [], ◌∷◌, ◌&&◌, false, ◌==◌, leb, if◌then◌else◌, ◌%◌,
  arith,
}
use zkfactorization.Prelude.Int.{ℤ, minus_one}
use zkfactorization.Prelude.Sorting.{sort}
use zkfactorization.Prelude.Result.{Result, ok, throw, protocol, bind}
use zkfactorization.Libraries.{Libraries}
use zkfactorization.Common.{concatenate, to_bytes, integer2string}
use zkfactorization.CryptoPp.{Random, Curve}
use zkfactorization.BitUtils.{integer_to_bits, to_bits, bits_from}
use zkfactorization.Paillier
use zkfactorization.ShaCommitment
use zkfactorization.TimedCommitment
use zkfactorization.CutAndChoose
use zkfactorization.SharedSignature.Parties
use zkfactorization.SharedSignature.Verify
use zkfactorization.SignatureKey
use zkfactorization.SellInformation.{read}
use zkfactorization.SellInformation.Draws
use zkfactorization.SellInformation.Operations
use zkfactorization.SellInformation.Protocol.{read_all}
use zkfactorization.SellInformation.Exec
use zkfactorization.SellInformation
use zkfactorization.SellInformation.Protocol
use zkfactorization.SellInformation.Exchange
use zkfactorization.SellInformation.Factorise
use zkfactorization.SquareRoot
use zkfactorization.Main.{Progress, caught, waits, catch_protocol, main}
use zkfactorization.Aes
use zkfactorization.SellInformation.Agreed.{Agreed}
use zkfactorization.SellInformation.SharedLock.{OpensWith, new_singles-OpensWith}
use zkfactorization.SellInformation.State.{Seller, new_seller, Buyer, new_buyer}
use zkfactorization.Examples.Toy
use zkfactorization.Examples.Toy.{root_lem, sha, codec, ofb, arithmetic, theory, ecb}
use zkfactorization.Examples.Group
use zkfactorization.Examples.Euclid.{gcd, gcd-IsGcd, seven-IsPrime, eleven-IsPrime}
use zkfactorization.SellInformation.Split.{IsSplit}
use zkfactorization.SellInformation.Prepared.{AreFactors}
use zkfactorization.SellInformation.Sale.{DrawsUnits}
use zkfactorization.SellInformation.Whole.{agree-factorise_buyer}
use zkfactorization.Examples.Waits.{bitcoin}

-- The primes 131 and 137 of eight bits, in turn.
abbrev prime : ℕ → ℕ → ℕ → ℕ
prime lo hi s = if leb lo 131 && leb 137 hi then if s % 2 == 0 then 131 else 137 else lo

prime_range : (lo hi s : ℕ) → lo ≤ hi → (lo ≤ prime lo hi s) × (prime lo hi s ≤ hi)
prime_range lo hi s h = (ground arith, ground arith)

abbrev random : Random
random = record Toy.random { prime = λ lo hi s. (prime lo hi s, s + 1); prime_range = prime_range }

-- Keys of eight bits for a group of order 7.
abbrev curve : Curve
curve = record Group.curve { bit_count = 2 }

abbrev libraries : Libraries
libraries = record {
  random = random;
  codec = codec;
  sha = sha;
  ofb = ofb;
  arithmetic = arithmetic;
  theory = theory;
  ecb = ecb;
  curve = curve;
  bitcoin = bitcoin;
  gcd = gcd;
}

abbrev outside : ℕ → ℤ
outside i = minus_one

made : (done : _) × (Exec.new_singles libraries outside 5 2 1 2 3 [] 1 ≡ ok done)
unfolding Exec.new_singles Parties.new_seller Parties.new_buyer Paillier.new_key Paillier.get_n
    Paillier.get_g Paillier.client_key TimedCommitment.new_commiter TimedCommitment.gen_prime
    SignatureKey.new_single_seller SignatureKey.new_single_buyer
made = (_, refl)

new_singles-OpensWith_example :
    (p : ℕ) × (1 < p)
    × All (OpensWith libraries outside 5 2 1 2 3 p) made.0.0.0
    × (length made.0.0.0 ≡ 2)
new_singles-OpensWith_example = new_singles-OpensWith libraries outside 5 2 1 2 3 [] 1 made.1

abbrev buyer : Buyer ℕ
unfolding new_buyer
buyer = new_buyer arithmetic theory bitcoin ℕ 1 2 77 10

unfoldable agreed :
    (done : _) × (Exec.agree libraries outside 5 2 1 2 3 (1 ∷ []) buyer (1, 0) ≡ ok done)
unfolding buyer Exec.agree Exec.challenge Exec.new_singles Exec.exchange_keys Exec.show_hash
    Operations.first_r Operations.coordinates Operations.buyer_keys Operations.create_t1_and_t2
    integer2string read_all read Draws.pick_r Draws.pick_loop Draws.set_insert Parties.new_seller
    Parties.new_buyer Paillier.new_key Paillier.get_n Paillier.get_g Paillier.client_key
    Paillier.enc Paillier.dec Paillier.get_n2 Paillier.l_function TimedCommitment.new_commiter
    TimedCommitment.gen_prime SignatureKey.new_single_seller SignatureKey.new_single_buyer
    CutAndChoose.cut_and_choose CutAndChoose.run_all CutAndChoose.cheat_at CutAndChoose.get_i
    CutAndChoose.check_indices CutAndChoose.open_loop CutAndChoose.chosen_at CutAndChoose.finish
    sort CutAndChoose.valid_from SignatureKey.init SignatureKey.exec Parties.exec Parties.init
    Parties.start_init_seller Parties.start_init_buyer Parties.finish_init_seller
    Parties.finish_init_buyer Parties.start_sig Parties.cont_sig Parties.finish_sig
    Parties.half_signature Parties.low_s Parties.get_data Parties.set_data_seller
    Parties.set_data_buyer Parties.get_signature Parties.reveal Verify.verify Verify.hash_m_to_int
    Verify.number_of Verify.recovered Verify.encode_signature integer_to_bits to_bits bits_from
    concatenate to_bytes SignatureKey.gen_keys SignatureKey.gen_keys_from
    SignatureKey.gen_keys_and_setup_commits SignatureKey.assign_keys SignatureKey.commit_all
    SignatureKey.open_all SignatureKey.verify_keys SignatureKey.verify_all SignatureKey.equal_range
    SignatureKey.reveal ShaCommitment.init ShaCommitment.exec ShaCommitment.compute_sha
    ShaCommitment.reveal TimedCommitment.commit TimedCommitment.commit_message
    TimedCommitment.accept_commitment TimedCommitment.create_timed_key TimedCommitment.prng_xor
    TimedCommitment.is_binary TimedCommitment.seed_from TimedCommitment.xor_bits
    TimedCommitment.open_commitment TimedCommitment.open_with TimedCommitment.decode
agreed = (_, refl)

-- A sale of 7 * 11 as a whole, and what the buyer finds by the seller's signature.
abbrev bought : Seller ℕ × Buyer ℕ → Result (ℕ × ℕ)
unfolding Operations.factorise_buyer read
bought (s, b) = bind (read s.single_sellers 0) λ single.
    bind
      (Operations.factorise_buyer libraries 1 2 (record b {
        signatures =
            Parties.get_signature random codec arithmetic curve single.shared_signature_s ∷ [];
      }))
      λ b'. ok (b'.p, b'.q)

abbrev after : Progress ℕ (ℕ × ℕ) → Result (ℕ × ℕ)
unfolding bought
after (caught text) = throw (protocol text)
after (waits s b state) = bought (s, b)

abbrev run : Result (ℕ × ℕ)
unfolding after main
run = bind (main libraries outside 5 2 1 2 3 7 11 10 false (1, 0)) after

sells : run ≡ ok (7, 11)
unfolding buyer bought after run main catch_protocol new_buyer Protocol.init Exec.agree
    Exec.challenge Exec.new_singles Exec.exchange_keys Exec.show_hash Operations.first_r
    Operations.coordinates Operations.buyer_keys Operations.create_t1_and_t2 integer2string read_all
    read Draws.pick_r Draws.pick_loop Draws.set_insert Parties.new_seller Parties.new_buyer
    Paillier.new_key Paillier.get_n Paillier.get_g Paillier.client_key Paillier.enc Paillier.dec
    Paillier.get_n2 Paillier.l_function TimedCommitment.new_commiter TimedCommitment.gen_prime
    SignatureKey.new_single_seller SignatureKey.new_single_buyer CutAndChoose.cut_and_choose
    CutAndChoose.run_all CutAndChoose.cheat_at CutAndChoose.get_i CutAndChoose.check_indices
    CutAndChoose.open_loop CutAndChoose.chosen_at CutAndChoose.finish sort CutAndChoose.valid_from
    SignatureKey.init SignatureKey.exec Parties.exec Parties.init Parties.start_init_seller
    Parties.start_init_buyer Parties.finish_init_seller Parties.finish_init_buyer Parties.start_sig
    Parties.cont_sig Parties.finish_sig Parties.half_signature Parties.low_s Parties.get_data
    Parties.set_data_seller Parties.set_data_buyer Parties.get_signature Parties.reveal
    Verify.verify Verify.hash_m_to_int Verify.number_of Verify.recovered Verify.encode_signature
    integer_to_bits to_bits bits_from concatenate to_bytes SignatureKey.gen_keys
    SignatureKey.gen_keys_from SignatureKey.gen_keys_and_setup_commits SignatureKey.assign_keys
    SignatureKey.commit_all SignatureKey.open_all SignatureKey.verify_keys SignatureKey.verify_all
    SignatureKey.equal_range SignatureKey.reveal ShaCommitment.init ShaCommitment.exec
    ShaCommitment.compute_sha ShaCommitment.reveal TimedCommitment.commit
    TimedCommitment.commit_message TimedCommitment.accept_commitment
    TimedCommitment.create_timed_key TimedCommitment.prng_xor TimedCommitment.is_binary
    TimedCommitment.seed_from TimedCommitment.xor_bits TimedCommitment.open_commitment
    TimedCommitment.open_with TimedCommitment.decode Exec.exec_before_wait Exec.keep
    Exec.exchange_all Protocol.exchange Protocol.commit_at Protocol.open_at_instance
    Operations.gen_squares_at SellInformation.gen_squares Operations.accept_squares
    Operations.find_roots Operations.find_roots_row SquareRoot.all_square_roots
    SquareRoot.square_root SquareRoot.root_of SquareRoot.signed SquareRoot.new_square_root
    Operations.encrypt_roots_at SellInformation.encrypt_roots Aes.enc Aes.dec Aes.decrypted
    Operations.setup_commit_at SellInformation.setup_commit Exchange.commit_rows Draws.pick_subset
    Draws.iota Operations.get_subset_values_at SellInformation.get_subset_values
    Exchange.check_subset Exchange.all_below Draws.set_of Operations.accept_subset_at
    SellInformation.accept_subset SellInformation.accept_value Exchange.open_subset
    Exchange.open_index Exchange.open_root Exchange.open_at Exchange.open_others
    SellInformation.verify_root Operations.make_payment Operations.accept_t1
    Operations.accept_payment Operations.verify_t2_signature Operations.numbers
    Operations.seller_keys new_seller Operations.factorise_buyer Factorise.factorise
    Factorise.try_row Factorise.try_roots Operations.keys_of Operations.opened_messages
sells = refl

-- The same sale, step by step.
unfoldable met : (done : _) × (new_seller arithmetic theory bitcoin ℕ 1 2 7 11 10 false 0 ≡ ok done)
unfolding new_seller SquareRoot.new_square_root
met = (_, refl)

unfoldable kept :
    (done : _) × (Exec.keep libraries outside 5 2 1 2 3 met.0.0 agreed.0.0.1 agreed.0.0.0
        agreed.0.1.1
      ≡ ok done)
unfolding met agreed Exec.keep Operations.verify_t2_signature Operations.numbers
    Operations.seller_keys Operations.first_r Operations.coordinates read_all read
kept = (_, refl)

first : (single : _) × (read kept.0.0.0.single_sellers 0 ≡ ok single)
unfolding kept met agreed read
first = (_, refl)

abbrev factors : AreFactors libraries 7 11
factors = record {
  prime_p = seven-IsPrime;
  prime_q = eleven-IsPrime;
  differ = λ e. omega arith;
  p_odd = refl;
  q_odd = refl;
  v = 8;
  inverse = refl;
  finds_p = λ a b. root_lem 7 a b (omega arith);
  finds_q = λ a b. root_lem 11 a b (omega arith);
  law = gcd-IsGcd;
}

-- The squares drawn are 53 and 37, of 30 and 31.
draws :
    DrawsUnits libraries outside 5 2 1 2 3 7 11 factors
      (omega arith)
      1
      0
      kept.0.0.0
      kept.0.0.1
      agreed.0.1.0
unfolding SellInformation.gen_squares kept agreed buyer new_buyer
draws = (
  (
    (30, omega arith, refl, (λ e. omega arith), λ e. omega arith),
    ((31, omega arith, refl, (λ e. omega arith), λ e. omega arith), tt),
  ),
  λ done e. tt,
)

agree-factorise_buyer_example :
    (done : (Seller ℕ × Buyer ℕ) × ℕ) × (pq : ℕ × ℕ) × (Exec.exchange_all libraries outside 5 2 1 2
        3 1 0 kept.0.0.0 kept.0.0.1 agreed.0.1.0
      ≡ ok done)
    × (Operations.factorise_buyer libraries 1 2 (record done.0.1 {
      signatures =
          Parties.get_signature random codec arithmetic curve first.0.shared_signature_s ∷ [];
    })
        ≡ ok (record done.0.1 {
          signatures =
              Parties.get_signature random codec arithmetic curve first.0.shared_signature_s ∷ [];
          p = pq.0;
          q = pq.1;
        }))
    × IsSplit codec ecb gcd 7 11 gcd-IsGcd seven-IsPrime eleven-IsPrime factors.differ pq
unfolding met buyer
agree-factorise_buyer_example =
    agree-factorise_buyer libraries outside 5 2 1 2 3 7 11 factors (omega arith) 10 false 0 met.0 1
      0 agreed.0 kept.0 first.0 [] (omega arith) met.1 agreed.1 kept.1 draws first.1 refl
