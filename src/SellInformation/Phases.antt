-- ===== src/SellInformation/Phases.antt =====
-- What is known of the buyer's wait by where its threads stand.
use zkfactorization.Prelude.{ℕ, suc, ◌<◌, ◌≡◌, ◌≢◌, subst, inl, inr, ◌==◌, Bool-cases, arith}
use zkfactorization.SellInformation.Race.{
  SignatureThread, awaiting, fetching, factorising, factorised, signature_finished, TimeLockThread,
  trying, sleeping, redeemed, time_lock_finished, MainThread, waiting, passed, by_signature,
  by_time_lock, terminated,
}

-- What has been established where each thread stands: `Fetched` and `Found` by the one, `Back j` and
-- `Spent j` by the rounds of the other.
abbrev pub Factored : Type 0 → Type 0 → SignatureThread → Type 0
Factored Fetched Found awaiting = Unit
Factored Fetched Found fetching = Unit
Factored Fetched Found factorising = Fetched
Factored Fetched Found factorised = Found
Factored Fetched Found signature_finished = Found

abbrev pub Refunded : ℕ → (ℕ → Type 0) → (ℕ → Type 0) → TimeLockThread → Type 0
Refunded r Back Spent (trying j) = (i : ℕ) → i < j → Spent i
Refunded r Back Spent sleeping = (i : ℕ) → i < r → Spent i
Refunded r Back Spent redeemed = (j : ℕ) × (j < r) × Back j
Refunded r Back Spent time_lock_finished = (j : ℕ) × (j < r) × Back j

abbrev pub Left : SignatureThread → TimeLockThread → MainThread → Type 0
Left signature lock waiting = Unit
Left signature lock passed = Unit
Left signature lock by_signature = signature ≡ signature_finished
Left signature lock by_time_lock = lock ≡ time_lock_finished
Left signature lock (terminated e) = Unit

pub next_signature-Left :
    (now next : SignatureThread) (lock : TimeLockThread) (main : MainThread)
    → now ≢ signature_finished
    → Left now lock main
    → Left next lock main
next_signature-Left now next lock waiting ne left = tt
next_signature-Left now next lock passed ne left = tt
next_signature-Left now next lock by_signature ne left = absurd (ne left)
next_signature-Left now next lock by_time_lock ne left = left
next_signature-Left now next lock (terminated e) ne left = tt

pub next_lock-Left :
    (signature : SignatureThread) (now next : TimeLockThread) (main : MainThread)
    → now ≢ time_lock_finished
    → Left signature now main
    → Left signature next main
next_lock-Left signature now next waiting ne left = tt
next_lock-Left signature now next passed ne left = tt
next_lock-Left signature now next by_signature ne left = left
next_lock-Left signature now next by_time_lock ne left = absurd (ne left)
next_lock-Left signature now next (terminated e) ne left = tt

pub one_more : (P : ℕ → Type 0) (j : ℕ) → ((i : ℕ) → i < j → P i) → P j → (i : ℕ) → i < suc j → P i
one_more P j below here i h = elim (Bool-cases (i == j)) [
  | inl same ↦ let e : j ≡ i = ground arith in subst P e here
  | inr ne ↦ below i (ground arith)
]
