-- ===== src/Examples/Data.antt =====
-- The parties of the examples.
use zkfactorization.Prelude.{ℕ, List, [], ◌∷◌, Bool, true, false, replicate}
use zkfactorization.Prelude.Int.{pos}
use zkfactorization.Paillier.{Paillier, client_key}
use zkfactorization.SharedSignature.Parties.{Seller, Buyer}
use zkfactorization.ShaCommitment
use zkfactorization.TimedCommitment

abbrev pub sender : ShaCommitment.Sender
sender = record { m = 1 ∷ 2 ∷ []; seed = []; commitment = [] }

abbrev pub receiver : ShaCommitment.Receiver
receiver = record { open_verified = false; m = []; seed = []; commitment = [] }

abbrev pub blank : TimedCommitment.Commitment
blank = record { k = 0; n = 1; h = 0; s = []; l = 0 }

-- p = 7 and q = 11
abbrev pub commiter : TimedCommitment.Commiter
commiter = record { p = 7; q = 11; n = 77; phi = 60; commitment = blank }

abbrev pub timed_receiver : TimedCommitment.Receiver
timed_receiver = record { commitment = blank }

abbrev pub bits : List Bool
bits = true ∷ false ∷ true ∷ true ∷ []

-- p = 5 and q = 7
abbrev pub small_key : Paillier
small_key = record { p = pos 5; q = pos 7; n = 35; n2 = 1225; y = 24; g = 36; u = 19; phi = 24 }

-- p = 71 and q = 73, wide enough for a group of order 7
abbrev pub wide_key : Paillier
wide_key = record {
  p = pos 71;
  q = pos 73;
  n = 5183;
  n2 = 26863489;
  y = 5040;
  g = 5184;
  u = 3407;
  phi = 5040;
}

abbrev pub message : List ℕ
message = 5 ∷ replicate 31 0

abbrev pub seller : Seller ℕ
seller = record {
  message = message;
  ds = 3;
  ks = 0;
  qs = 0;
  qb = 0;
  q = 0;
  ks_point = 0;
  paillier = wide_key;
  cs = 0;
  r = 0;
  s = 0;
}

abbrev pub buyer : Buyer ℕ
buyer = record {
  db = 2;
  kb = 3;
  qs = 0;
  qb = 0;
  q = 0;
  paillier = client_key 5183 5184;
  k_point = 0;
  r = 0;
  cb = 0;
  message = message;
  open_verified = false;
}
