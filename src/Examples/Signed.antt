-- ===== src/Examples/Signed.antt =====
-- Paillier under small keys, and the two-party signature in a group of order 7.
use zkfactorization.Prelude.{ℕ, ◌+◌, ◌*◌, ◌%◌, ◌^◌, ◌<◌, ◌≡◌, ◌≢◌, ◌⊎◌, refl, arith, true, false}
use zkfactorization.Prelude.Int.{pos, ◌≤ℤ◌, ◌<ℤ◌}
use zkfactorization.Prelude.Result.{ok, throw, paillier}
use zkfactorization.Paillier.{enc, dec}
use zkfactorization.Paillier.Ciphertext.{IsPrivate, Encrypts}
use zkfactorization.Paillier.Homomorphic.{dec-enc, enc_cases}
use zkfactorization.SharedSignature.Parties.{
  Seller, Buyer, init, exec, reveal, low_s, half_signature,
}
use zkfactorization.SharedSignature.Verify.{hash_m_to_int, number_of, verify}
use zkfactorization.SharedSignature.KeyExchange.{IsKeyed, init-IsKeyed}
use zkfactorization.SharedSignature.HalfSignature.{Vanishing, half_signature-Encrypts}
use zkfactorization.SharedSignature.Signing.{verify-low_s}
use zkfactorization.SharedSignature.Exec.{exec-signs}
use zkfactorization.Examples.Toy.{random, codec, arithmetic}
use zkfactorization.Examples.Group.{curve, group}
use zkfactorization.Examples.Data.{small_key, wide_key, message, seller, buyer}

abbrev small_key-IsPrivate : IsPrivate small_key
small_key-IsPrivate = record {
  p = 5;
  q = 7;
  p_eq = refl;
  q_eq = refl;
  p_big = omega arith;
  q_big = omega arith;
  n_eq = refl;
  n2_eq = refl;
  g_eq = refl;
  y_eq = refl;
  u_inv = refl;
}

abbrev wide_key-IsPrivate : IsPrivate wide_key
wide_key-IsPrivate = record {
  p = 71;
  q = 73;
  p_eq = refl;
  q_eq = refl;
  p_big = omega arith;
  q_big = omega arith;
  n_eq = refl;
  n2_eq = refl;
  g_eq = refl;
  y_eq = refl;
  u_inv = refl;
}

dec-enc_example :
    (c : ℕ) × (rng' : ℕ) × (enc random arithmetic small_key (pos 12) 2 ≡ ok (c, rng'))
    × (dec random arithmetic small_key c ≡ ok 12)
dec-enc_example = dec-enc random arithmetic small_key-IsPrivate 12 2 (omega arith) refl

enc_cases_example :
    (small_key.n ≡ 0)
      × (enc random arithmetic small_key (pos 40) 2 ≡ throw (paillier "not initialized"))
    ⊎ (small_key.n ≢ 0)
      × ((pos 35 ≤ℤ pos 40) ⊎ (pos 40 <ℤ pos 0))
      × (enc random arithmetic small_key (pos 40) 2 ≡ throw (paillier "m >= n || m < 0 "))
    ⊎ (small_key.n ≢ 0)
      × (pos 0 ≤ℤ pos 40)
      × (pos 40 <ℤ pos 35)
      × (enc random arithmetic small_key (pos 40) 2 ≡ ok (36 ^ 40 * 3 ^ 35 % 1225, 3))
enc_cases_example = enc_cases random arithmetic small_key (pos 40) 2 (omega arith)

init-IsKeyed_example :
    (s' : Seller ℕ) × (b' : Buyer ℕ) × (rng' : ℕ) × (init random codec arithmetic curve seller buyer
        0
      ≡ ok ((s', b'), rng'))
    × IsKeyed random codec arithmetic group s' b'
    × (s'.paillier ≡ seller.paillier)
    × (b'.paillier ≡ buyer.paillier)
init-IsKeyed_example = init-IsKeyed random codec arithmetic group seller buyer 0

vanishing : Vanishing random codec arithmetic curve wide_key-IsPrivate
vanishing rng = refl

secret : Encrypts wide_key 3 (5184 ^ 3 % 26863489)
secret = record { blind = 1; vanishes = refl; value = refl }

half_signature-Encrypts_example :
    let inv = arithmetic.inverse_mod 3 7 in
    (c : ℕ) × (u : ℕ) × (rng' : ℕ) × (half_signature random codec arithmetic curve buyer 3 2 5
        (5184 ^ 3 % 26863489)
        4
      ≡ ok (c, rng'))
    × (u < 7 * 7)
    × Encrypts wide_key (inv * 5 % 7 + 3 * (inv * 2 % 7 * 2 % 7) + u * 7) c
half_signature-Encrypts_example =
    half_signature-Encrypts random codec arithmetic curve wide_key-IsPrivate (omega arith)
      (omega arith) vanishing buyer 3 2 5 3 (5184 ^ 3 % 26863489) 4 refl secret

reads : hash_m_to_int codec message 1 ≡ ok 5
unfolding hash_m_to_int number_of
reads = refl

-- The message 5, the secret key 6, the nonce 3, and 3 for r and for s: 3 * 3 and 5 + 3 * 6 agree
-- modulo 7.
verify-low_s_example :
    verify codec arithmetic curve 6 message 3 (low_s random codec arithmetic curve 3) ≡ ok true
verify-low_s_example =
    verify-low_s random codec arithmetic group 6 5 3 3 3 5 message refl reads (λ h. omega arith)
      (omega arith) (omega arith) (omega arith) (omega arith) refl refl

refuses_zero : verify codec arithmetic curve 6 message 3 0 ≡ ok false
unfolding verify hash_m_to_int number_of
refuses_zero = refl

-- The parties after a key exchange.
abbrev keyed_seller : Seller ℕ
keyed_seller = record seller { q = 6 }

abbrev keyed_buyer : Buyer ℕ
keyed_buyer = record buyer { q = 6 }

parties-IsKeyed : IsKeyed random codec arithmetic group keyed_seller keyed_buyer
parties-IsKeyed = record {
  ds_pos = omega arith;
  ds_lt = omega arith;
  db_pos = omega arith;
  db_lt = omega arith;
  seller_q = refl;
  buyer_q = refl;
}

exec-signs_example :
    (s' : Seller ℕ) × (b' : Buyer ℕ) × (rng' : ℕ) × (exec random codec arithmetic curve keyed_seller
        keyed_buyer 0
      ≡ ok ((s', b'), rng'))
    × (reveal random codec arithmetic curve s' b' ≡ ok (record b' { open_verified = true }))
exec-signs_example =
    exec-signs random codec arithmetic group wide_key-IsPrivate (omega arith) vanishing keyed_seller
      keyed_buyer 5 0 parties-IsKeyed refl refl refl reads (omega arith) (omega arith)
      (λ h. omega arith)
