-- ===== src/SellInformation/Openings.antt =====
-- The openings of the second cut and choose never fail on commitments that were made to what is shown.
use zkfactorization.Prelude.{
  ℕ, zero, suc, ◌+◌, ◌≤◌, ◌<◌, ◌≡◌, ◌⊎◌, inl, inr, refl, sym, ap, subst, ◌∙◌, List, [], ◌∷◌, length,
  ◌==◌, ==_iff, Bool-cases, occurrences, set, arith,
}
use zkfactorization.Prelude.Result.{ok, ok-injective}
use zkfactorization.CryptoPp.{Random, Sha256, Codec, Ecb}
use zkfactorization.ShaCommitment
use zkfactorization.ShaCommitment.Opening.{accepted, reveal_eq}
use zkfactorization.Prelude.{equal_refl}
use zkfactorization.SellInformation.{read, verify_root}
use zkfactorization.SellInformation.Exchange.{
  Held, open_at, open_root, open_index, open_subset, open_others,
}
use zkfactorization.SellInformation.Reads.{read-lt, read-set, read-set_other, length-set}

module _ (random : Random) (codec : Codec) (sha : Sha256) (ecb : Ecb) where
  -- The receiver at an index holds the commitment of the sender.
  pub record Opens (senders : List ShaCommitment.Sender) (receivers : List ShaCommitment.Receiver)
      (i : ℕ) : Type 0 where
    pub s : ShaCommitment.Sender
    pub r : ShaCommitment.Receiver
    pub sender : read senders i ≡ ok s
    pub receiver : read receivers i ≡ ok r
    pub commits : r.commitment ≡ ShaCommitment.compute_sha sha random s.m s.seed

  abbrev pub AllOpen : ℕ → List ShaCommitment.Sender → List ShaCommitment.Receiver → Type 0
  AllOpen l senders receivers =
      (length receivers ≡ l) × ((i : ℕ) → i < l → Opens senders receivers i)

  reveal-Opens :
      (s : ShaCommitment.Sender) (r : ShaCommitment.Receiver)
      → r.commitment ≡ ShaCommitment.compute_sha sha random s.m s.seed
      → ShaCommitment.reveal sha random s r ≡ ok (accepted sha random s r)
  reveal-Opens s r same =
      reveal_eq sha random s r
      ∙ rw same (rw (equal_refl (ShaCommitment.compute_sha sha random s.m s.seed)) refl)

  -- An opening shows the sender's message, and leaves all other commitments to be opened.
  pub open_at-AllOpen :
      (l ind : ℕ) (senders : List ShaCommitment.Sender) (receivers : List ShaCommitment.Receiver)
      {s : ShaCommitment.Sender}
      → AllOpen l senders receivers
      → ind < l
      → read senders ind ≡ ok s
      → (o : ShaCommitment.Receiver × List ShaCommitment.Receiver) × (open_at random codec sha ecb
            ind senders receivers
          ≡ ok o)
        × (o.0.m ≡ s.m)
        × AllOpen l senders o.1
  unfolding open_at
  open_at-AllOpen l ind senders receivers {s} all lt stored =
      let here = all.1 ind lt in
      let same : here.s ≡ s = ok-injective (sym here.sender ∙ stored) in
      let r' = accepted sha random here.s here.r in
      let inside = read-lt receivers ind here.receiver in
      (
        (r', set receivers ind r'),
        rw (here.sender, here.receiver, reveal-Opens here.s here.r here.commits) refl,
        ap (λ x. x.m) same,
        (
          length-set receivers ind r' ∙ all.0,
          λ i i_lt. elim (Bool-cases (i == ind)) [
            | inl is ↦
                let at : ind ≡ i = sym ((==_iff i ind).0 is) in
                subst (Opens senders (set receivers ind r')) at (record {
                  s = here.s;
                  r = r';
                  sender = here.sender;
                  receiver = read-set receivers ind r' inside;
                  commits = here.commits;
                })
            | inr other ↦
                let there = all.1 i i_lt in
                record {
                  s = there.s;
                  r = there.r;
                  sender = there.sender;
                  receiver = read-set_other receivers i ind r' (λ e. ground arith) ∙ there.receiver;
                  commits = there.commits;
                }
          ],
        ),
      )

  module _ (l : ℕ) (keys d1 d2 : List ShaCommitment.Sender) where
    -- All three rows of commitments can be opened.
    abbrev pub Openable : Held → Type 0
    Openable held = AllOpen l keys held.keys × AllOpen l d1 held.first × AllOpen l d2 held.second

    -- The seller's answer for an index is the row whose ciphertext holds the buyer's root.
    pub record Answer (x : List ℕ) (ind which : ℕ) : Type 0 where
      pub inside : ind < l
      pub mine : ℕ
      pub key : ShaCommitment.Sender
      pub root : ShaCommitment.Sender
      pub stored : read x ind ≡ ok mine
      pub key_at : read keys ind ≡ ok key
      pub root_at : (which ≡ 1) × (read d1 ind ≡ ok root) ⊎ (which ≡ 2) × (read d2 ind ≡ ok root)
      pub verifies : verify_root codec ecb mine key.m root.m ≡ ok tt

    -- An answer for each index.
    abbrev pub Answers : List ℕ → List ℕ → List ℕ → Type 0
    Answers x [] [] = Unit
    Answers x (ind ∷ indices) (w ∷ which) = Answer x ind w × Answers x indices which
    Answers x _ _ = ⊥

    open_root-Openable :
        (which ind : ℕ) (held : Held) (root : ShaCommitment.Sender)
        → Openable held
        → ind < l
        → (which ≡ 1) × (read d1 ind ≡ ok root) ⊎ (which ≡ 2) × (read d2 ind ≡ ok root)
        → (o : List ℕ × Held) × (open_root random codec sha ecb which ind d1 d2 held ≡ ok o)
          × (o.0 ≡ root.m)
          × Openable o.1
    unfolding open_root
    open_root-Openable which ind held root (key, first, second) lt (inl (one, at)) =
        let (o, e, m, all) = open_at-AllOpen l ind d1 held.first first lt at in
        ((o.0.m, record held { first = o.1 }), rw (one, e) refl, m, (key, all, second))
    open_root-Openable which ind held root (key, first, second) lt (inr (two, at)) =
        let (o, e, m, all) = open_at-AllOpen l ind d2 held.second second lt at in
        ((o.0.m, record held { second = o.1 }), rw (two, e) refl, m, (key, first, all))

    open_index-Openable :
        (x : List ℕ) (ind which : ℕ) (held : Held)
        → Openable held
        → Answer x ind which
        → (held' : Held) × (open_index random codec sha ecb keys d1 d2 x ind which held ≡ ok held')
          × Openable held'
    unfolding open_index
    open_index-Openable x ind which held (key, first, second) a =
        let (k, e₁, km, all) = open_at-AllOpen l ind keys held.keys key a.inside a.key_at in
        let (o, e₂, m, rest) =
          open_root-Openable which ind (record held { keys = k.1 }) a.root (all, first, second)
            a.inside a.root_at in
        let checks : verify_root codec ecb a.mine k.0.m o.0 ≡ ok tt = rw (km, m) a.verifies in
        (o.1, rw (e₁, e₂, a.stored, checks) refl, rest)

    -- The loop over the subset returns.
    pub open_subset-Openable :
        (x indices which : List ℕ) (held : Held)
        → Openable held
        → Answers x indices which
        → (held' : Held) × (open_subset random codec sha ecb keys d1 d2 x indices which held
            ≡ ok held')
          × Openable held'
    unfolding open_subset
    open_subset-Openable x [] [] held all answers = (held, refl, all)
    open_subset-Openable x [] (w ∷ which) held all answers = absurd answers
    open_subset-Openable x (ind ∷ indices) [] held all answers = absurd answers
    open_subset-Openable x (ind ∷ indices) (w ∷ which) held all (here, answers) =
        let (mid, e, all₁) = open_index-Openable x ind w held all here in
        let (held', e₁, all₂) = open_subset-Openable x indices which mid all₁ answers in
        (held', rw e e₁, all₂)

    -- So does the loop over the others.
    pub open_others-Openable :
        (left ind : ℕ) (chosen : List ℕ) (held : Held)
        → ind + left ≤ l
        → Openable held
        → (held' : Held) × (open_others random codec sha ecb left ind chosen d1 d2 held ≡ ok held')
          × Openable held'
    unfolding open_others
    open_others-Openable zero ind chosen held le all = (held, refl, all)
    open_others-Openable (suc left) ind chosen held le (key, first, second) =
        elim (Bool-cases (occurrences ind chosen == 0)) [
          | inr asked ↦
              let (held', e, all) =
                open_others-Openable left (ind + 1) chosen held (omega arith)
                  (key, first, second) in
              (held', rw (asked, open_others) e, all)
          | inl free ↦
              let inside : ind < l = omega arith in
              let (o₁, e₁, m₁, all₁) =
                open_at-AllOpen l ind d1 held.first first inside (first.1 ind inside).sender in
              let (o₂, e₂, m₂, all₂) =
                open_at-AllOpen l ind d2 held.second second inside (second.1 ind inside).sender in
              let mid : Held = record held { first = o₁.1; second = o₂.1 } in
              let (held', e, all) =
                open_others-Openable left (ind + 1) chosen mid (omega arith) (key, all₁, all₂) in
              (held', rw (free, open_others) (rw (e₁, e₂) e), all)
        ]
