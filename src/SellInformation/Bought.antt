-- ===== src/SellInformation/Bought.antt =====
-- What a round of the second cut and choose is worth to the buyer: the factors of n, as soon as it has
-- the keys.
use zkfactorization.Prelude.{
  ℕ, suc, ◌*◌, ◌<◌, ◌≡◌, ◌≢◌, inl, inr, refl, sym, ap, ◌∙◌, List, [], ◌∷◌, All, length, arith,
}
use zkfactorization.Prelude.Int.{pos}
use zkfactorization.Prelude.Result.{ok, bind, ok-injective}
use zkfactorization.Libraries.{Libraries}
use zkfactorization.Common.{to_bytes}
use zkfactorization.Aes
use zkfactorization.Aes.{aes_length}
use zkfactorization.ShaCommitment
use zkfactorization.SignatureKey.Commits.{sent}
use zkfactorization.SellInformation.{gen_squares}
use zkfactorization.SellInformation.Draws.{set_of}
use zkfactorization.SellInformation.Exchange.{Held, open_subset, open_others}
use zkfactorization.SellInformation.Operations.{opened_messages}
use zkfactorization.SellInformation.Factorise.{factorise}
use zkfactorization.SellInformation.Split.{IsSplit}
use zkfactorization.SellInformation.Works.{IsUnitSquare, find_roots_row-factorise}
use zkfactorization.SellInformation.Shown.{openings-Answered_or_Withheld}
use zkfactorization.SellInformation.Halves.{picked, length-picked, check_subset-picked, unasked}
use zkfactorization.SellInformation.Prepared.{AreFactors}
use zkfactorization.SellInformation.Ready.{Preparation}
use zkfactorization.SellInformation.Gains.{
  Kept, Part-Kept, Opened-Kept, Same-Kept, Opened-message, read-opened_messages,
}

length-sent : (senders : List ShaCommitment.Sender) → length (sent senders) ≡ length senders
length-sent [] = refl
length-sent (s ∷ senders) = ap suc (length-sent senders)

module _ (libraries : Libraries) (r l p q : ℕ) (factors : AreFactors libraries p q) where
  open libraries use {random, codec, sha, ecb, gcd}
  open random use {Rng}

  -- With these keys and what was opened, whatever else the buyer holds, the factorization returns p
  -- and q, in one order or the other.
  abbrev pub Sold :
      List (List ℕ) → List ShaCommitment.Receiver → List ShaCommitment.Receiver → Type 0
  Sold keys shown1 shown2 =
      (rest others1 others2 : List (List (List ℕ)))
      → (pq : ℕ × ℕ) × (factorise codec ecb gcd (p * q) (keys ∷ rest)
            (opened_messages shown1 ∷ others1) (opened_messages shown2 ∷ others2)
          ≡ ok pq)
        × IsSplit codec ecb gcd p q factors.law factors.prime_p factors.prime_q factors.differ pq

  encrypted_some :
      (key m : List ℕ) {c : List ℕ}
      → length key ≡ aes_length
      → Aes.enc ecb key m ≡ ok c
      → length c ≢ 0
  unfolding Aes.enc
  encrypted_some key m long h = let some_of = ecb.encrypt-some key m long in ground arith

  module _ (n : ℕ) (n_eq : n ≡ p * q) (rng : Rng)
      (units : All (IsUnitSquare p q) (gen_squares random n l rng).0.1)
      (commits : List ShaCommitment.Sender) (key_count : length commits ≡ l)
      (keys_long : All (λ c. length c.m ≡ aes_length) commits)
      {senders1 senders2 : List ShaCommitment.Sender}
      {receivers1 receivers2 : List ShaCommitment.Receiver}
      (prepared : Preparation libraries r l p q factors n n_eq rng units commits key_count keys_long
        senders1 senders2 receivers1 receivers2)
      (some_l : 0 < l) where
    pub openings-Sold :
        (rng' : Rng) (which : List ℕ) (keys : List ShaCommitment.Receiver) {after : Held}
        → let shown = prepared.committed.0 in
          bind
              (open_subset random codec sha ecb commits shown.senders1 shown.senders2
                (gen_squares random n l rng).0.0
                (picked random l rng')
                which
                (record { keys = keys; first = shown.receivers1; second = shown.receivers2 }))
              (open_others random codec sha ecb l 0
                (set_of (picked random l rng'))
                shown.senders1
                shown.senders2)
            ≡ ok after
          → length after.first ≡ l
          → length after.second ≡ l
          → Sold (sent commits) after.first after.second
    openings-Sold rng' which keys {after} h long1 long2 rest others1 others2 =
        let shown = prepared.committed.0 in
        let roots = (gen_squares random n l rng).0.0 in
        let before : Held = record {
          keys = keys;
          first = shown.receivers1;
          second = shown.receivers2;
        } in
        let outcome =
          openings-Answered_or_Withheld random codec sha ecb commits shown.senders1 shown.senders2
            roots l (picked random l rng') which before (length-picked random l rng')
            (check_subset-picked random l rng') h in
        let kept : (i : ℕ)
            → i < l
            → Kept prepared.row1 after.first i × Kept prepared.row2 after.second i =
          λ i lt.
            let (held1, held2) = prepared.holds i lt in
            elim (outcome i lt) [
              | inr (free, w) ↦ (
                Opened-Kept random codec sha ecb held1 w.first_opened,
                Opened-Kept random codec sha ecb held2 w.second_opened,
              )
              | inl (asked, a) ↦ elim a.one_opened [
                | inl (opened, same) ↦ (
                  Opened-Kept random codec sha ecb held1 opened,
                  Same-Kept random codec sha ecb held2 same,
                )
                | inr (opened, same) ↦ (
                  Same-Kept random codec sha ecb held1 same,
                  Opened-Kept random codec sha ecb held2 opened,
                )
              ]
            ] in
        let part1 =
          Part-Kept prepared.row1 after.first (prepared.long1 ∙ sym long1)
            (λ i lt. (kept i (omega (arith, prepared.long1))).0) in
        let part2 =
          Part-Kept prepared.row2 after.second (prepared.long2 ∙ sym long2)
            (λ i lt. (kept i (omega (arith, prepared.long2))).1) in
        let (i, lt, free) = unasked random l rng' some_l in
        let (held1, held2) = prepared.holds i lt in
        let ready = prepared.ready i lt in
        elim (outcome i lt) [
          | inl (asked, a) ↦ absurd (omega (arith, asked, free))
          | inr (_, w) ↦
              let in_row1 = Opened-message random codec sha ecb held1 w.first_opened in
              let in_row2 = Opened-message random codec sha ecb held2 w.second_opened in
              let message1 : ready.s1.m ≡ w.first.m =
                ap (λ s. s.m) (ok-injective (sym ready.sender1 ∙ held1.sender))
                ∙ ok-injective (sym held1.message ∙ in_row1) in
              let message2 : ready.s2.m ≡ w.second.m =
                ap (λ s. s.m) (ok-injective (sym ready.sender2 ∙ held2.sender))
                ∙ ok-injective (sym held2.message ∙ in_row2) in
              let some1 =
                encrypted_some ready.key.m (to_bytes codec (pos ready.a)) ready.long
                  ready.sealed1 in
              let some2 =
                encrypted_some ready.key.m (to_bytes codec (pos ready.b)) ready.long
                  ready.sealed2 in
              let found = prepared.found in
              find_roots_row-factorise libraries r l p q factors.v factors.prime_p.0
                factors.prime_q.0 factors.inverse factors.finds_p factors.finds_q factors.p_odd
                factors.q_odd factors.law factors.prime_p factors.prime_q factors.differ
                (gen_squares random n l rng).0.1 (gen_squares random n l rng).1 commits
                prepared.row1 prepared.row2 (opened_messages after.first)
                (opened_messages after.second) i rest others1 others2 units prepared.finds
                prepared.encrypts1 prepared.encrypts2 part1 part2
                (omega (arith, length-sent commits))
                (
                  read-opened_messages after.first i w.first_opened.result,
                  λ e. some1 (ap length message1 ∙ e),
                )
                (
                  read-opened_messages after.second i w.second_opened.result,
                  λ e. some2 (ap length message2 ∙ e),
                )
        ]
