-- ===== src/SellInformation/Shown.antt =====
-- The second cut and choose as a whole, on one instance.
use zkfactorization.Prelude.{
  ℕ, zero, suc, ◌+◌, ◌/◌, ◌≤◌, ◌<◌, ◌≡◌, ◌≢◌, ◌⊎◌, ◌↔◌, refl, ap, subst, ◌∙◌, List, ◌==◌, ==_iff,
  Bool-cases, inl, inr, length, occurrences, arith,
}
use zkfactorization.Prelude.Result.{ok, bind, bind-eq-ok, ok-injective}
use zkfactorization.CryptoPp.{Random, Sha256, Codec, Ecb}
use zkfactorization.ShaCommitment
use zkfactorization.SellInformation.Draws.{set_of}
use zkfactorization.SellInformation.Exchange.{Held, check_subset, open_at, open_subset, open_others}
use zkfactorization.SellInformation.Revealed.{Same, Opened, open_at-Opened, later, earlier}
use zkfactorization.SellInformation.Answered.{
  Untouched, Answered, open_subset-Answered, Answered-Untouched,
}
use zkfactorization.SellInformation.Sets.{occurrences-set_of, set_of-distinct}

module _ (random : Random) (codec : Codec) (sha : Sha256) (ecb : Ecb)
    (keys d1 d2 : List ShaCommitment.Sender) where
  -- Both ciphertexts are opened, and the key stays closed.
  pub record Withheld (before after : Held) (i : ℕ) : Type 0 where
    pub first : ShaCommitment.Receiver
    pub second : ShaCommitment.Receiver
    pub first_opened : Opened random codec sha ecb d1 before.first after.first i first
    pub second_opened : Opened random codec sha ecb d2 before.second after.second i second
    pub no_key : Same before.keys after.keys i

  Untouched-Withheld :
      {before mid after : Held} {i : ℕ}
      → Untouched before mid i
      → Withheld mid after i
      → Withheld before after i
  Untouched-Withheld same w = record {
    first = w.first;
    second = w.second;
    first_opened = earlier random codec sha ecb same.1 w.first_opened;
    second_opened = earlier random codec sha ecb same.2 w.second_opened;
    no_key = w.no_key ∙ same.0;
  }

  Withheld-Untouched :
      {before mid after : Held} {i : ℕ}
      → Withheld before mid i
      → Untouched mid after i
      → Withheld before after i
  Withheld-Untouched w same = record {
    first = w.first;
    second = w.second;
    first_opened = later random codec sha ecb w.first_opened same.1;
    second_opened = later random codec sha ecb w.second_opened same.2;
    no_key = same.0 ∙ w.no_key;
  }

  Untouched-trans :
      (before mid after : Held) (i : ℕ)
      → Untouched before mid i
      → Untouched mid after i
      → Untouched before after i
  Untouched-trans before mid after i a b = (b.0 ∙ a.0, b.1 ∙ a.1, b.2 ∙ a.2)

  open_others-Withheld :
      (left ind : ℕ) (chosen : List ℕ) (held : Held) {held' : Held}
      → open_others random codec sha ecb left ind chosen d1 d2 held ≡ ok held'
      → ((i : ℕ) → ind ≤ i → i < ind + left → occurrences i chosen ≡ 0 → Withheld held held' i)
        × ((i : ℕ) → (i < ind) ⊎ (occurrences i chosen ≢ 0) → Untouched held held' i)
  unfolding open_others
  open_others-Withheld zero ind chosen held h = (
    λ i low high e. absurd (omega arith),
    λ i other. subst (λ after. Untouched held after i) (ok-injective h) (refl, refl, refl),
  )
  open_others-Withheld (suc left) ind chosen held {held'} h =
      elim (Bool-cases (occurrences ind chosen == 0)) [
        | inr asked ↦
            let (inside, outside) =
              open_others-Withheld left (ind + 1) chosen held (rw (asked, open_others) at h) in
            (
              λ i low high e.
                  inside i
                    (ahead ind i low (λ same. ground (arith, ap (λ t. occurrences t chosen) same)))
                    (omega arith) e,
              λ i other. outside i (elim other [ inl lt ↦ inl (omega arith) | inr ne ↦ inr ne ]),
            )
        | inl free ↦
            let (first, e₁, h₁) =
              bind-eq-ok (open_at random codec sha ecb ind d1 held.first) _
                (rw (free, open_others) at h) in
            let (second, e₂, h₂) =
              bind-eq-ok (open_at random codec sha ecb ind d2 held.second) _ h₁ in
            let (opened1, others1) = open_at-Opened random codec sha ecb ind d1 held.first e₁ in
            let (opened2, others2) = open_at-Opened random codec sha ecb ind d2 held.second e₂ in
            let mid : Held = record held { first = first.1; second = second.1 } in
            let (inside, outside) = open_others-Withheld left (ind + 1) chosen mid h₂ in
            let here : Withheld held mid ind = record {
              first = first.0;
              second = second.0;
              first_opened = opened1;
              second_opened = opened2;
              no_key = refl;
            } in
            let others : (i : ℕ) → i ≢ ind → Untouched held mid i =
              λ i ne. (refl, others1 i ne, others2 i ne) in
            (
              λ i low high e. elim (Bool-cases (i == ind)) [
                | inl is ↦
                    let same : ind ≡ i = ground arith in
                    Withheld-Untouched (subst (Withheld held mid) same here)
                      (outside i (inl (omega arith)))
                | inr ne ↦
                    Untouched-Withheld (others i (λ x. ground arith))
                      (inside i (ground arith) (omega arith) e)
              ],
              λ i other. elim other [
                | inl lt ↦
                    Untouched-trans held mid held' i (others i (λ x. omega arith))
                      (outside i (inl (omega arith)))
                | inr ne ↦
                    Untouched-trans held mid held' i
                      (others i (λ x. ne (
                        ap (λ t. occurrences t chosen) x
                        ∙ (==_iff (occurrences ind chosen) 0).0 free)))
                      (outside i (inr ne))
              ],
            )
      ]
    where
      ahead : (ind i : ℕ) → ind ≤ i → ind ≢ i → ind + 1 ≤ i
      ahead ind i low ne = omega arith

  module _ (x : List ℕ) where
    -- Let the openings of an instance return, where the buyer asked for half of the L indices and the
    -- check of the indices returned. At an index below L that the buyer asked for, the key is opened, one
    -- of the two ciphertexts is opened, which holds the buyer's own root under this key, and the other
    -- one stays as it was; at each other index both ciphertexts are opened, and the key stays as it was.
    pub openings-Answered_or_Withheld :
        (l : ℕ) (indices which : List ℕ) {chosen : List ℕ} (held : Held) {held' : Held}
        → length indices ≡ l / 2
        → check_subset l indices ≡ ok chosen
        → bind
            (open_subset random codec sha ecb keys d1 d2 x indices which held)
            (open_others random codec sha ecb l 0 chosen d1 d2)
          ≡ ok held'
        → (i : ℕ) → i < l
        → ((occurrences i indices ≡ 1) × Answered random codec sha ecb keys d1 d2 x held held' i)
          ⊎ (occurrences i indices ≡ 0) × Withheld held held' i
    unfolding check_subset
    openings-Answered_or_Withheld l indices which {chosen} held {held'} half checked h i lt =
        let same : set_of indices ≡ chosen = ground arith in
        let size : length (set_of indices) ≡ l / 2 = ground arith in
        let once = set_of-distinct indices (omega arith) i in
        let (mid, e₁, h₁) =
          bind-eq-ok (open_subset random codec sha ecb keys d1 d2 x indices which held) _ h in
        let (asked, free) =
          open_subset-Answered random codec sha ecb keys d1 d2 x indices which held e₁ in
        let (inside, outside) = open_others-Withheld l 0 chosen mid h₁ in
        let member : (occurrences i chosen ≡ 0) ↔ (occurrences i indices ≡ 0) =
          subst (λ cs. (occurrences i cs ≡ 0) ↔ (occurrences i indices ≡ 0)) same
            (occurrences-set_of i indices) in
        elim (Bool-cases (occurrences i indices == 0)) [
          | inl none_of ↦
              let none_left : occurrences i indices ≡ 0 = ground arith in
              inr (
                none_left,
                Untouched-Withheld (free i none_left)
                    (inside i (omega arith) (omega arith) (member.1 none_left)),
              )
          | inr some_of ↦
              let one : occurrences i indices ≡ 1 = ground arith in
              inl (
                one,
                Answered-Untouched random codec sha ecb keys d1 d2 x (asked i one)
                    (outside i (inr (λ e. absurd (clash (member.0 e) one)))),
              )
        ]
      where
        clash : {t : ℕ} → t ≡ 0 → t ≡ 1 → ⊥
        clash a b = omega arith
