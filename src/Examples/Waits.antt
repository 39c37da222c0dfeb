-- ===== src/Examples/Waits.antt =====
-- A wait that ends by the signature: one instance with one key, whose roots are 2 and 9 modulo 77.
use zkfactorization.Prelude.{ℕ, ◌+◌, ◌<◌, ◌≡◌, refl, inl, [], ◌∷◌, true, false, replicate}
use zkfactorization.Prelude.Result.{Run, ok}
use zkfactorization.Bitcoin.{BitcoinUtils}
use zkfactorization.Libraries.{Libraries}
use zkfactorization.Common.{concatenate, to_bytes}
use zkfactorization.Aes
use zkfactorization.SharedSignature.Verify.{encode_signature}
use zkfactorization.SignatureKey.{gen_keys_from}
use zkfactorization.SellInformation.Factorise
use zkfactorization.SellInformation.Operations.{
  first_r, opened_messages, keys_of, signatures_of, await_payment, fetch_signatures,
  factorise_buyer,
}
use zkfactorization.SellInformation.Race
use zkfactorization.SellInformation.State.{Buyer, new_buyer}
use zkfactorization.SellInformation.Waited.{Asked, Found, wait_outcomes}
use zkfactorization.Examples.Toy.{random, sha, codec, ofb, arithmetic, theory, ecb}
use zkfactorization.Examples.Group.{curve}
use zkfactorization.Examples.Euclid.{gcd}
use zkfactorization.Examples.Instance.{informed}

abbrev pub said : {A : Type 0} → A → Run ℕ A
said a world = ok (a, world + 1)

-- A client that agrees to everything and counts its calls.
abbrev pub bitcoin : BitcoinUtils
bitcoin = record {
  World = ℕ;
  fresh_address = λ port. said (1 ∷ []);
  create_send =
      λ port xs ys value. said (record { tx = 1 ∷ []; original_script = []; script = [] });
  create_send_transaction_to_address = λ port tx xs ys address. said (2 ∷ []);
  hash_for_signature = λ port tx xs ys script. said (5 ∷ replicate 31 0);
  get_signed_transaction = λ port tx xs ys rs ss script original. said (3 ∷ []);
  broadcast_transaction = λ port tx. said true;
  verify_transaction = λ port tx script xs ys value. said true;
  wait_for_transaction = λ port tx depth. said true;
  wait_for_transaction_by_output = λ port address depth. said true;
  get_signatures = λ port address count. said (record { r = 4 ∷ []; s = 5 ∷ [] } ∷ []);
  redeem_transaction = λ port tx script key x y count. said false;
}

abbrev pub libraries : Libraries
libraries = record {
  random = random;
  codec = codec;
  sha = sha;
  ofb = ofb;
  arithmetic = arithmetic;
  theory = theory;
  ecb = ecb;
  curve = curve;
  bitcoin = bitcoin;
  gcd = gcd;
}

abbrev buyer : Buyer ℕ
unfolding new_buyer
buyer = record (new_buyer arithmetic theory bitcoin ℕ 1 1 77 10) {
  seller_address = 1 ∷ [];
  d1 = (informed (1 ∷ 2 ∷ []) ∷ []) ∷ [];
  d2 = (informed (1 ∷ 9 ∷ []) ∷ []) ∷ [];
}

waits : await_payment libraries 1 1 buyer 0 ≡ ok (tt, 1)
unfolding await_payment
waits = refl

abbrev fetched : Buyer ℕ
fetched = record buyer { signatures = encode_signature codec 4 5 ∷ [] }

fetches : fetch_signatures libraries 1 1 buyer 1 ≡ ok (fetched, 2)
unfolding fetch_signatures first_r signatures_of
fetches = refl

abbrev factored : Buyer ℕ
factored = record fetched { p = 7; q = 11 }

factorises : factorise_buyer libraries 1 1 fetched ≡ ok factored
unfolding factorise_buyer first_r keys_of opened_messages gen_keys_from concatenate to_bytes
    Factorise.factorise Factorise.try_row Factorise.try_roots Aes.dec Aes.decrypted encode_signature
    buyer
factorises = refl

abbrev at : Buyer ℕ → ℕ → Race.SignatureThread → Race.MainThread → Race.Race libraries 1 1
at b w signature main = record {
  buyer = b;
  world = w;
  signature = signature;
  lock = Race.trying 0;
  main = main;
}

ends :
    Race.Steps libraries 1 1
      (Race.start_wait libraries 1 1 buyer 0)
      (at factored 2 Race.signature_finished Race.by_signature)
unfolding Race.start_wait
ends =
    Race.go
      (Race.go
        (Race.go
          (Race.go
            (Race.go
              (Race.go (Race.stay (at buyer 0 Race.awaiting Race.waiting))
                (Race.sees_payment (at buyer 0 Race.awaiting Race.waiting) tt refl waits))
              (Race.fetches (at buyer 1 Race.fetching Race.waiting) tt refl fetches))
            (Race.factorises (at fetched 2 Race.factorising Race.waiting) tt refl factorises))
          (Race.sets_signature_finished (at factored 2 Race.factorised Race.waiting) tt refl))
        (Race.passes (at factored 2 Race.signature_finished Race.waiting) refl (inl refl)))
      (Race.joins_signature (at factored 2 Race.signature_finished Race.passed) refl refl)

abbrev last : Race.Race libraries 1 1
last = at factored 2 Race.signature_finished Race.by_signature

wait_outcomes_example :
    (last.main ≡ Race.by_signature
      → Found libraries 1 1 buyer last.buyer.signatures last.buyer.p last.buyer.q)
    × (last.main ≡ Race.by_time_lock → (j : ℕ) × (j < 1) × Asked libraries 1 1 buyer true j)
    × (last.lock ≡ Race.sleeping → (j : ℕ) → j < 1 → Asked libraries 1 1 buyer false j)
    × (last.buyer
        ≡ record buyer { signatures = last.buyer.signatures; p = last.buyer.p; q = last.buyer.q })
wait_outcomes_example = wait_outcomes libraries 1 1 buyer 0 ends
