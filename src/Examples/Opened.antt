-- ===== src/Examples/Opened.antt =====
-- Three commitments of bytes under a cut and choose that keeps one of them closed.
use zkfactorization.Prelude.{ℕ, ◌≡◌, ◌<◌, refl, sym, subst, ◌∙◌, arith, List, [], ◌∷◌, true, length}
use zkfactorization.Prelude.Int.{ℤ, pos, minus_one}
use zkfactorization.Prelude.Sorting.{count, sort}
use zkfactorization.Prelude.Result.{Run, ok, throw, protocol, bind, ok-injective}
use zkfactorization.ShaCommitment.{Sender, Receiver, init, exec, reveal, cheat, compute_sha}
use zkfactorization.ShaCommitment.Opening.{accepted, reveal-exec}
use zkfactorization.CutAndChoose.{
  Protocol, cut_and_choose, check_indices, run_all, cheat_at, valid_from,
}
use zkfactorization.CutAndChoose.Indices.{Ascending, check_indices-Ascending}
use zkfactorization.CutAndChoose.Opening.{Fates, cut_and_choose-Fates}
use zkfactorization.CutAndChoose.Honest.{IsHonest, IsReady, honest_accepted, honest_refused}
use zkfactorization.CutAndChoose.Rounds.{contains}
use zkfactorization.Examples.Toy.{random, sha}
use zkfactorization.Examples.Data.{sender, receiver}

abbrev opened : Sender → Receiver → Run ℕ (Sender × Receiver)
opened s r rng = bind (reveal sha random s r) λ r'. ok ((s, r'), rng)

abbrev commitments : Protocol ℕ Sender Receiver
commitments = record {
  init = init sha random;
  exec = exec sha random;
  reveal = opened;
  verified = λ r. r.open_verified;
  cheat = cheat;
}

abbrev outside : ℕ → ℤ
outside i = minus_one

abbrev stray : ℕ → ℤ
stray i = pos 2

abbrev Any : Sender → Receiver → Type 0
Any s r = Unit

abbrev senders : List Sender
senders = sender ∷ sender ∷ sender ∷ []

abbrev receivers : List Receiver
receivers = receiver ∷ receiver ∷ receiver ∷ []

commitments-IsHonest : (past : ℕ → ℤ) → IsHonest commitments past Any
unfolding init
commitments-IsHonest past a b rng i e fit hi he =
    let (s', r', rng', runs, _, opens) = reveal-exec sha random i.0.0 i.0.1 i.1 in
    subst
      (λ x.
        (g : ℕ)
        → (o : (Sender × Receiver) × ℕ) × (opened x.0.0 x.0.1 g ≡ ok o)
          × (o.0.1.open_verified ≡ true))
      (ok-injective (sym runs ∙ he)) (λ g. (((s', accepted sha random s' r'), g), rw opens, refl))

ready : (past : ℕ → ℤ) → IsReady commitments past Any 3 1 senders receivers (pos 1 ∷ []) 7
unfolding run_all init exec compute_sha check_indices sort valid_from
ready past = record {
  chosen = pos 1 ∷ [];
  fit = (tt, (tt, (tt, tt)));
  ran = _;
  runs = refl;
  given_some = λ h. cc;
  checks = refl;
}

honest_accepted_example :
    (ps' : List Sender) × (vs' : List Receiver) × (rng' : ℕ) × (cut_and_choose commitments outside 3
        1 senders receivers
        (pos 1 ∷ [])
        minus_one
        7
      ≡ ok ((ps', vs', true), rng'))
honest_accepted_example =
    honest_accepted commitments outside Any 3 1 senders receivers (pos 1 ∷ []) 7 (ready outside)
      (commitments-IsHonest outside) (λ x h. ground arith)

only_one : (x : ℕ) → contains (ready stray).chosen x ≡ true → x < 2
unfolding ready
only_one x h = ground arith

honest_refused_example :
    cut_and_choose commitments stray 3 1 senders receivers (pos 1 ∷ []) minus_one 7
    ≡ throw (protocol "Assert failed")
honest_refused_example =
    honest_refused commitments stray Any 3 1 senders receivers (pos 1 ∷ []) 7 (ready stray)
      (commitments-IsHonest stray) 2 refl (omega arith) only_one

accepts :
    cut_and_choose commitments outside 3 1 senders receivers (pos 1 ∷ []) minus_one 7
    ≡ ok ((honest_accepted_example.0, honest_accepted_example.1, true), honest_accepted_example.2)
accepts = honest_accepted_example.3

cut_and_choose-Fates_example :
    (chosen : List ℤ) × (ran : (List Sender × List Receiver) × ℕ) × (cheated : List Sender)
    × (check_indices 3 1 (pos 1 ∷ []) ≡ ok chosen)
    × (run_all commitments outside 3 senders receivers 7 ≡ ok ran)
    × (cheat_at commitments outside minus_one ran.0.0 ≡ ok cheated)
    × Ascending 3 0 chosen
    × (length chosen ≡ 1)
    × Fates commitments outside chosen 3 0 cheated ran.0.1 honest_accepted_example.0
        honest_accepted_example.1
cut_and_choose-Fates_example =
    cut_and_choose-Fates commitments outside 3 1 senders receivers (pos 1 ∷ []) minus_one 7 accepts

sorts : check_indices 5 2 (pos 4 ∷ pos 0 ∷ []) ≡ ok (pos 0 ∷ pos 4 ∷ [])
unfolding check_indices sort valid_from
sorts = refl

repeated : check_indices 5 2 (pos 4 ∷ pos 4 ∷ []) ≡ throw (protocol "Wrong set of indices")
unfolding check_indices sort valid_from
repeated = refl

check_indices-Ascending_example :
    Ascending 5 0 (pos 0 ∷ pos 4 ∷ [])
    × (length (pos 0 ∷ pos 4 ∷ []) ≡ 2)
    × ((a : ℤ) → count a (pos 0 ∷ pos 4 ∷ []) ≡ count a (pos 4 ∷ pos 0 ∷ []))
check_indices-Ascending_example = check_indices-Ascending 5 2 (pos 4 ∷ pos 0 ∷ []) sorts
