-- ===== src/SignatureKey/Commits.antt =====
-- The loops over the commitments to the keys: what was committed to is opened, and passes the check.
use zkfactorization.Prelude.{
  ℕ, zero, suc, ◌+◌, ◌≡◌, refl, sym, ap, ap₂, subst, ◌∙◌, List, [], ◌∷◌, ◌++◌, length, arith,
}
use zkfactorization.Prelude.Result.{ok, bind-eq-ok, ok-injective}
use zkfactorization.CryptoPp.{Random, Sha256, Codec, Ofb, ModArith, Curve}
use zkfactorization.ShaCommitment
use zkfactorization.ShaCommitment.Opening.{accepted, reveal-exec}
use zkfactorization.SignatureKey.{gen_keys_from, assign_keys, commit_all, open_all}
use zkfactorization.SignatureKey.Keys.{AllPrefix}

abbrev pub sent : List ShaCommitment.Sender → List (List ℕ)
sent [] = []
sent (s ∷ senders) = s.m ∷ sent senders

abbrev pub received : List ShaCommitment.Receiver → List (List ℕ)
received [] = []
received (r ∷ receivers) = r.m ∷ received receivers

append-nil : (xs : List ℕ) → xs ++ [] ≡ xs
append-nil [] = refl
append-nil (x ∷ xs) = ap (λ (t : List ℕ). x ∷ t) (append-nil xs)

-- Messages that are the keys pass the check of the keys.
pub received-AllPrefix :
    (receivers : List ShaCommitment.Receiver) (keys : List (List ℕ))
    → received receivers ≡ keys
    → AllPrefix receivers keys
received-AllPrefix [] keys h = tt
received-AllPrefix (r ∷ receivers) [] h = absurd (cc h)
received-AllPrefix (r ∷ receivers) (key ∷ keys) h =
    let head : r.m ≡ key = cc in
    let tail : received receivers ≡ keys = cc in
    (([], append-nil r.m ∙ head), received-AllPrefix receivers keys tail)

pub sent-assign_keys :
    (keys : List (List ℕ)) (senders : List ShaCommitment.Sender)
    → length keys ≡ length senders
    → (sent (assign_keys keys senders) ≡ keys)
      × (length (assign_keys keys senders) ≡ length senders)
unfolding assign_keys
sent-assign_keys [] [] h = (refl, refl)
sent-assign_keys [] (s ∷ senders) h = absurd (omega arith)
sent-assign_keys (key ∷ keys) [] h = absurd (omega arith)
sent-assign_keys (key ∷ keys) (s ∷ senders) h =
    let (same, long) = sent-assign_keys keys senders (omega arith) in
    (ap (λ (t : List (List ℕ)). key ∷ t) same, ap suc long)

pub length-gen_keys_from :
    (codec : Codec) (sha : Sha256) (signature : List ℕ) (i left : ℕ)
    → length (gen_keys_from codec sha signature i left) ≡ left
unfolding gen_keys_from
length-gen_keys_from codec sha signature i zero = refl
length-gen_keys_from codec sha signature i (suc left) =
    ap suc (length-gen_keys_from codec sha signature (i + 1) left)

module _ (random : Random) (codec : Codec) (sha : Sha256) (ofb : Ofb) (arithmetic : ModArith)
    (curve : Curve) (l k : ℕ) where
  open random use {Rng}

  -- A single commitment, made and then opened.
  pub exec-reveal :
      (s : ShaCommitment.Sender) (r : ShaCommitment.Receiver) (rng : Rng)
      {e : (ShaCommitment.Sender × ShaCommitment.Receiver) × Rng}
      → ShaCommitment.exec sha random s r rng ≡ ok e
      → (e.0.0.m ≡ s.m)
        × (ShaCommitment.reveal sha random e.0.0 e.0.1 ≡ ok (accepted sha random e.0.0 e.0.1))
  exec-reveal s r rng h =
      let (s', r', rng', runs, same, opens) = reveal-exec sha random s r rng in
      subst
        (λ (x : (ShaCommitment.Sender × ShaCommitment.Receiver) × Rng).
          (x.0.0.m ≡ s.m)
          × (ShaCommitment.reveal sha random x.0.0 x.0.1 ≡ ok (accepted sha random x.0.0 x.0.1)))
        (ok-injective (sym runs ∙ h)) (same, opens)

  -- All commitments of the loop open, to the messages that the senders had before.
  pub commit_all-opens :
      (senders : List ShaCommitment.Sender) (receivers : List ShaCommitment.Receiver) (rng : Rng)
      {done : (List ShaCommitment.Sender × List ShaCommitment.Receiver) × Rng}
      → length senders ≡ length receivers
      → commit_all random codec sha ofb arithmetic curve l k senders receivers rng ≡ ok done
      → (opened : List ShaCommitment.Receiver) × (open_all random codec sha ofb arithmetic curve l k
            done.0.0 done.0.1
          ≡ ok opened)
        × (received opened ≡ sent senders)
  unfolding commit_all open_all ShaCommitment.init
  commit_all-opens [] [] rng long h =
      subst
        (λ (d : (List ShaCommitment.Sender × List ShaCommitment.Receiver) × Rng).
          (opened : List ShaCommitment.Receiver) × (open_all random codec sha ofb arithmetic curve l
              k d.0.0 d.0.1
            ≡ ok opened)
          × (received opened ≡ []))
        (ok-injective h) ([], refl, refl)
  commit_all-opens [] (r ∷ receivers) rng long h = absurd (omega arith)
  commit_all-opens (s ∷ senders) [] rng long h = absurd (omega arith)
  commit_all-opens (s ∷ senders) (r ∷ receivers) rng long h =
      let (e, e₁, h₁) = bind-eq-ok (ShaCommitment.exec sha random s r rng) _ h in
      let (rest, e₂, h₂) =
        bind-eq-ok (commit_all random codec sha ofb arithmetic curve l k senders receivers e.1) _
          h₁ in
      let (same, opens) = exec-reveal s r rng e₁ in
      let (opened, all, messages) = commit_all-opens senders receivers e.1 (omega arith) e₂ in
      subst
        (λ (d : (List ShaCommitment.Sender × List ShaCommitment.Receiver) × Rng).
          (opened : List ShaCommitment.Receiver) × (open_all random codec sha ofb arithmetic curve l
              k d.0.0 d.0.1
            ≡ ok opened)
          × (received opened ≡ s.m ∷ sent senders))
        (ok-injective h₂)
        (accepted sha random e.0.0 e.0.1 ∷ opened, rw opens (rw all refl), ap₂ ◌∷◌ same messages)
