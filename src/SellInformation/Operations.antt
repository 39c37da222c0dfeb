-- ===== src/SellInformation/Operations.antt =====
-- The operations of Seller and Buyer, on whole states. `World` is the world of the bitcoin client.
-- `Seller::T2_hash`, which nothing reads or writes, is left out.
use zkfactorization.Prelude.{
  ℕ, zero, suc, ◌*◌, ◌%◌, List, [], ◌∷◌, Bool, not, ◌==◌, if◌then◌else◌, length, set, map,
}
use zkfactorization.Prelude.Int.{ℤ, pos}
use zkfactorization.Prelude.Result.{
  Run, Result, ok, throw, undefined, protocol, bind, ◌>>=◌, ◌>>◌, from_result, require, pure,
}
use zkfactorization.Libraries.{Libraries}
use zkfactorization.Bitcoin.{IntegerPair, seller_port, buyer_port}
use zkfactorization.Common.{integer2string}
use zkfactorization.BitUtils.{bits_to_integer}
use zkfactorization.ShaCommitment
use zkfactorization.TimedCommitment
use zkfactorization.SquareRoot.{SquareRoot, all_square_roots}
use zkfactorization.SharedSignature.Verify.{encode_signature}
use zkfactorization.SignatureKey.{gen_keys_from}
use zkfactorization.SellInformation.{
  read, gen_squares, encrypt_roots, setup_commit, accept_subset, get_subset_values,
}
use zkfactorization.SellInformation.Factorise
use zkfactorization.SellInformation.State.{Seller, Buyer}

-- The first `r` items, as a loop up to R reads them.
unfoldable pub first_r {ℓ} : {A : Type ℓ} → ℕ → List A → Result (List A)
first_r zero row = ok []
first_r (suc r) [] = undefined
first_r (suc r) (a ∷ row) = bind (first_r r row) λ rest. ok (a ∷ rest)

-- The messages of the commitments, as `factorise` reads them.
unfoldable pub opened_messages : List ShaCommitment.Receiver → List (List ℕ)
opened_messages [] = []
opened_messages (d ∷ ds) = d.m ∷ opened_messages ds

module _ (libraries : Libraries) (r l : ℕ) where
  open libraries use {random, codec, sha, ofb, arithmetic, theory, ecb, curve, bitcoin, gcd}
  open random use {Rng, generate_bit}
  open bitcoin use {World}
  open curve use {Point, x, y, order}

  -- The coordinates of public keys, as the client takes them.
  unfoldable pub coordinates : (Point → ℕ) → List Point → List (List ℕ)
  unfolding integer2string
  coordinates along [] = []
  coordinates along (q ∷ qs) = integer2string codec (pos (along q)) ∷ coordinates along qs

  unfoldable pub seller_keys : Seller Point → Result (List Point)
  unfolding first_r
  seller_keys s =
      bind (first_r r s.single_sellers)
        λ singles. ok (map (λ single. single.shared_signature_s.q) singles)

  unfoldable pub buyer_keys : Buyer Point → Result (List Point)
  unfolding first_r
  buyer_keys b =
      bind (first_r r b.single_buyers)
        λ singles. ok (map (λ single. single.shared_signature_b.q) singles)

  -- The loop of `Seller::findRoots`: the two smallest roots of each square, in an order drawn by lot.
  unfoldable pub find_roots_row : SquareRoot → List ℕ → Run Rng (List ℤ × List ℤ)
  unfolding read
  find_roots_row k [] rng = ok (([], []), rng)
  find_roots_row k (square ∷ squares) rng =
      bind (all_square_roots arithmetic theory k square) λ roots. bind (read roots 0) λ first.
        bind (read roots 1) λ second.
          let (bit, rng₁) = generate_bit rng in
          bind (find_roots_row k squares rng₁) λ rest. ok (
            (
              (if bit == 1 then second else first) ∷ rest.0.0,
              (if bit == 1 then first else second) ∷ rest.0.1,
            ),
            rest.1,
          )

  unfoldable pub find_roots : ℕ → Seller Point → Run Rng (Seller Point)
  unfolding find_roots_row
  find_roots j s rng = bind (read s.y j) λ squares.
      bind (find_roots_row s.square_root squares rng)
        λ found. ok (record s { r1 = set s.r1 j found.0.0; r2 = set s.r2 j found.0.1 }, found.1)

  -- `Seller::acceptSquares`
  unfoldable pub accept_squares : ℕ → List ℕ → Seller Point → Seller Point
  accept_squares j squares s = record s { y = set s.y j squares }

  unfoldable pub encrypt_roots_at : ℕ → Seller Point → Result (Seller Point)
  encrypt_roots_at j s = bind (read s.single_sellers j) λ single. bind (read s.r1 j) λ roots1.
      bind (read s.r2 j) λ roots2. bind (encrypt_roots codec ecb single.keys_commits roots1) λ row1.
        bind (encrypt_roots codec ecb single.keys_commits roots2)
          λ row2. ok (record s { c1 = set s.c1 j row1; c2 = set s.c2 j row2 })

  unfoldable pub setup_commit_at : ℕ → Seller Point → Result (Seller Point)
  setup_commit_at j s = bind (read s.c1 j) λ row1. bind (read s.c2 j) λ row2.
      bind (read s.d1 j) λ senders1. bind (read s.d2 j) λ senders2. ok (record s {
        d1 = set s.d1 j (setup_commit row1 senders1);
        d2 = set s.d2 j (setup_commit row2 senders2);
      })

  unfoldable pub accept_subset_at : ℕ → List ℕ → List ℕ → Seller Point → Result (List ℕ)
  accept_subset_at j indices values s = bind (read s.y j) λ squares.
      bind (read s.r1 j) λ roots1.
        bind (read s.r2 j) λ roots2. accept_subset s.n squares roots1 roots2 indices values

  unfoldable pub accept_t1 : List ℕ → Seller Point → Run World (Seller Point)
  unfolding seller_keys coordinates
  accept_t1 transaction s = do
    keys ← from_result (seller_keys s)
    verified ←
        bitcoin.verify_transaction seller_port transaction s.t1_output_script (coordinates x keys)
          (coordinates y keys) s.price
    require verified (protocol "verify T1 failed!")
    waited ← bitcoin.wait_for_transaction seller_port transaction 6
    require waited (protocol "wait for t1 failed!")
    pure (record s { t1 = transaction })

  -- The numbers of the signatures.
  unfoldable pub numbers : (ℕ × ℕ → ℕ) → List (ℕ × ℕ) → List (List ℕ)
  unfolding integer2string
  numbers part [] = []
  numbers part (rs ∷ rest) = integer2string codec (pos (part rs)) ∷ numbers part rest

  unfoldable pub verify_t2_signature : Seller Point → Run World (Seller Point)
  unfolding seller_keys coordinates numbers first_r
  verify_t2_signature s = do
    keys ← from_result (seller_keys s)
    singles ← from_result (first_r r s.single_sellers)
    let signed = map (λ single. (single.shared_signature_s.r, single.shared_signature_s.s)) singles
    transaction ←
        bitcoin.get_signed_transaction seller_port s.t2 (coordinates x keys) (coordinates y keys)
          (numbers (λ rs. rs.0) signed) (numbers (λ rs. rs.1) signed) s.t1_output_script
          s.original_t1_output_script
    require (not (length transaction == 0)) (protocol "verify T2 signature in bitcoinj failed")
    pure (record s { t2 = transaction })

  unfoldable pub accept_payment : Seller Point → Run World (Unit {0})
  accept_payment s world =
      if s.cheat
      then ok (tt, world)
      else bind (bitcoin.broadcast_transaction seller_port s.t2 world)
          λ sent. if not sent.0 then throw (protocol "accept payment failed!") else ok (tt, sent.1)

  unfoldable pub create_t1_and_t2 : Buyer Point → Run World (Buyer Point)
  unfolding buyer_keys coordinates
  create_t1_and_t2 b = do
    keys ← from_result (buyer_keys b)
    out ← bitcoin.create_send buyer_port (coordinates x keys) (coordinates y keys) b.price
    require (not (length out.tx == 0)) (protocol "T1 is empty")
    t2 ←
        bitcoin.create_send_transaction_to_address buyer_port out.tx (coordinates x keys)
          (coordinates y keys) b.seller_address
    hash ←
        bitcoin.hash_for_signature buyer_port t2 (coordinates x keys) (coordinates y keys)
          out.original_script
    pure (record b {
      t1 = out.tx;
      original_t1_output_script = out.original_script;
      t1_output_script = out.script;
      t2 = t2;
      t2_hash = hash;
    })

  -- `Buyer::genSquares`
  unfoldable pub gen_squares_at : ℕ → Buyer Point → Rng → Buyer Point × Rng
  gen_squares_at j b rng =
      let (rows, rng') = gen_squares random b.n l rng in
      (record b { x = set b.x j rows.0; y = set b.y j rows.1 }, rng')

  unfoldable pub get_subset_values_at : ℕ → Buyer Point → Result (List ℕ)
  get_subset_values_at j b =
      bind (read b.x j) λ roots. bind (read b.indices j) λ indices. get_subset_values roots indices

  unfoldable pub make_payment : Buyer Point → Run World (Unit {0})
  make_payment b = do
    sent ← bitcoin.broadcast_transaction buyer_port b.t1
    require sent (protocol "make payment failed")
    pure tt

  -- The keys that the signatures give, and the factorization by them.
  unfoldable pub keys_of : List (List ℕ) → List (List (List ℕ))
  keys_of [] = []
  keys_of (signature ∷ signatures) = gen_keys_from codec sha signature 0 l ∷ keys_of signatures

  unfoldable pub factorise_buyer : Buyer Point → Result (Buyer Point)
  unfolding keys_of first_r opened_messages
  factorise_buyer b = bind (first_r r b.signatures) λ signatures.
      bind
        (Factorise.factorise codec ecb gcd b.n (keys_of signatures) (map opened_messages b.d1)
          (map opened_messages b.d2))
        λ found. ok (record b { p = found.0; q = found.1 })

  -- One round of `Buyer::solve_time_lock`, on instance `j`: whether the money came back.
  unfoldable pub redeem : ℕ → Buyer Point → Run World Bool
  unfolding integer2string
  redeem j b = do
    single ← from_result (read b.single_buyers j)
    ds_bits ←
        from_result
          (TimedCommitment.force_open random ofb arithmetic single.timed_commitment_receiver)
    ds ← from_result (bits_to_integer codec ds_bits)
    let d = ds * single.shared_signature_b.db % order
    bitcoin.redeem_transaction buyer_port b.t1 b.original_t1_output_script
        (integer2string codec (pos d)) (integer2string codec (pos (x single.shared_signature_b.q)))
        (integer2string codec (pos (y single.shared_signature_b.q))) r

  -- The loop over the first R signatures in `Buyer::get_signature`.
  unfoldable pub signatures_of : List IntegerPair → List (List ℕ)
  signatures_of [] = []
  signatures_of (rs ∷ rest) =
      encode_signature codec (codec.decode rs.r) (codec.decode rs.s) ∷ signatures_of rest

  -- The two calls of `Buyer::get_signature` before the factorization.
  unfoldable pub await_payment : Buyer Point → Run World (Unit {0})
  await_payment b = do
    seen ← bitcoin.wait_for_transaction_by_output buyer_port b.seller_address 6
    require seen (protocol "wait for transaction by output failed")
    pure tt

  unfoldable pub fetch_signatures : Buyer Point → Run World (Buyer Point)
  unfolding first_r signatures_of
  fetch_signatures b = do
    pairs ← bitcoin.get_signatures buyer_port b.seller_address r
    used ← from_result (first_r r pairs)
    pure (record b { signatures = signatures_of used })
