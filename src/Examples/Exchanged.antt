-- ===== src/Examples/Exchanged.antt =====
-- An instance of two indices, of which the buyer asks for the second one.
use zkfactorization.Prelude.{ℕ, ◌≡◌, ◌⊎◌, refl, List, [], ◌∷◌, occurrences, replicate, arith}
use zkfactorization.Prelude.Result.{ok, bind}
use zkfactorization.Aes
use zkfactorization.ShaCommitment
use zkfactorization.SellInformation.{read, verify_root}
use zkfactorization.SellInformation.Draws.{set_insert, set_of}
use zkfactorization.SellInformation.Exchange.{
  Held, all_below, check_subset, open_at, open_root, open_index, open_subset, open_others,
}
use zkfactorization.SellInformation.Answered.{Answered}
use zkfactorization.SellInformation.Shown.{Withheld, openings-Answered_or_Withheld}
use zkfactorization.Examples.Toy.{random, sha, codec, ecb}
use zkfactorization.Examples.Instance.{committing, waiting, informed}

abbrev key : List ℕ
key = replicate 32 7

abbrev before : Held
before = record {
  keys = waiting key ∷ waiting key ∷ [];
  first = waiting (1 ∷ 2 ∷ []) ∷ waiting (1 ∷ 3 ∷ []) ∷ [];
  second = waiting (1 ∷ 9 ∷ []) ∷ waiting (1 ∷ 8 ∷ []) ∷ [];
}

abbrev after : Held
after = record {
  keys = waiting key ∷ informed key ∷ [];
  first = informed (1 ∷ 2 ∷ []) ∷ waiting (1 ∷ 3 ∷ []) ∷ [];
  second = informed (1 ∷ 9 ∷ []) ∷ informed (1 ∷ 8 ∷ []) ∷ [];
}

abbrev keys : List ShaCommitment.Sender
keys = committing key ∷ committing key ∷ []

abbrev d1 : List ShaCommitment.Sender
d1 = committing (1 ∷ 2 ∷ []) ∷ committing (1 ∷ 3 ∷ []) ∷ []

abbrev d2 : List ShaCommitment.Sender
d2 = committing (1 ∷ 9 ∷ []) ∷ committing (1 ∷ 8 ∷ []) ∷ []

abbrev x : List ℕ
x = 5 ∷ 8 ∷ []

checks : check_subset 2 (1 ∷ []) ≡ ok (1 ∷ [])
unfolding check_subset set_of set_insert all_below
checks = refl

opens :
    bind
      (open_subset random codec sha ecb keys d1 d2 x (1 ∷ []) (2 ∷ []) before)
      (open_others random codec sha ecb 2 0 (1 ∷ []) d1 d2)
    ≡ ok after
unfolding open_subset open_index open_root open_at open_others read verify_root Aes.dec
    Aes.decrypted ShaCommitment.reveal ShaCommitment.compute_sha
opens = refl

openings-Answered_or_Withheld_example :
    ((occurrences 0 (1 ∷ []) ≡ 1) × Answered random codec sha ecb keys d1 d2 x before after 0)
    ⊎ (occurrences 0 (1 ∷ []) ≡ 0) × Withheld random codec sha ecb keys d1 d2 before after 0
openings-Answered_or_Withheld_example =
    openings-Answered_or_Withheld random codec sha ecb keys d1 d2 x 2 (1 ∷ []) (2 ∷ []) before refl
      checks opens 0 (omega arith)
