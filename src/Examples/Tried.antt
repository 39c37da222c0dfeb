-- ===== src/Examples/Tried.antt =====
-- The trial of ECDSA in a group of order 7: the secret key 2 and the nonce 3 sign the number 5.
use zkfactorization.Prelude.{ℕ, ◌%◌, ◌≡◌, ◌⊎◌, refl, List, [], ◌∷◌, Bool, true, ltb, arith}
use zkfactorization.Prelude.Result.{ok}
use zkfactorization.SharedSignature.Verify.{m_to_int, number_of, encode_signature}
use zkfactorization.SharedSignature.Trial.{
  Verdict, identity_key, incorrect_r, incorrect_s, checked, sign, check, trial, trial_cases,
}
use zkfactorization.Examples.Toy.{random, codec, sha, arithmetic}
use zkfactorization.Examples.Group.{curve, group}

abbrev message : List ℕ
message = 5 ∷ []

abbrev verified : ℕ → List ℕ → List ℕ → Bool
verified q m signature = true

-- The trial says that its signature is right.
signs : trial random codec sha arithmetic curve verified message 1 ≡ ok (checked true true, 3)
unfolding trial sign check m_to_int number_of
signs = refl

-- With the order 7 drawn as the secret key, there is no key.
no_key : trial random codec sha arithmetic curve verified message 6 ≡ ok (identity_key, 8)
unfolding trial sign check m_to_int number_of
no_key = refl

reads : m_to_int codec sha message 1 ≡ ok 5
unfolding m_to_int number_of
reads = refl

trial_cases_example :
    let da : ℕ = 2 in
    let point : ℕ = 3 in
    let rs = sign random codec sha arithmetic curve verified 2 5 3 in
    (said : Verdict) × (trial random codec sha arithmetic curve verified message 1 ≡ ok (said, 3))
    × (((da ≡ 7) × (said ≡ identity_key))
        ⊎ ((point % 7 ≡ 0) × (said ≡ incorrect_r))
        ⊎ ((rs.1 ≡ 0) × (said ≡ incorrect_s))
        ⊎ (said ≡ checked (ltb point 7) (verified da message (encode_signature codec rs.0 rs.1))))
trial_cases_example =
    trial_cases random codec sha arithmetic curve verified group message 5 1 reads
      (λ e. omega arith)
