-- ===== src/SellInformation/Answered.antt =====
-- What the second cut and choose shows to the buyer: at an index that it asked for, the key and one
-- ciphertext, which holds its own root; at each other index both ciphertexts and no key.
use zkfactorization.Prelude.{
  ℕ, ◌≡◌, ◌≢◌, ◌⊎◌, refl, sym, ap, subst, get_elem?, ◌∙◌, List, [], ◌∷◌, ◌==◌, Bool-cases, inl, inr,
  occurrences, arith,
}
use zkfactorization.Prelude.Result.{ok, bind-eq-ok, ok-injective}
use zkfactorization.CryptoPp.{Random, Sha256, Codec, Ecb}
use zkfactorization.Aes
use zkfactorization.ShaCommitment
use zkfactorization.SellInformation.{read, verify_root}
use zkfactorization.SellInformation.Exchange.{Held, open_at, open_root, open_index, open_subset}
use zkfactorization.SellInformation.Revealed.{Same, Opened, Finds, open_at-Opened, later, earlier}

-- Nothing of what the buyer holds has changed at an index.
abbrev pub Untouched : Held → Held → ℕ → Type 0
Untouched before after i =
    Same before.keys after.keys i
    × Same before.first after.first i
    × Same before.second after.second i

module _ (random : Random) (codec : Codec) (sha : Sha256) (ecb : Ecb)
    (keys d1 d2 : List ShaCommitment.Sender) (x : List ℕ) where
  pub record Answered (before after : Held) (i : ℕ) : Type 0 where
    pub key : ShaCommitment.Receiver
    pub root : ShaCommitment.Receiver
    pub key_opened : Opened random codec sha ecb keys before.keys after.keys i key
    pub one_opened :
        (Opened random codec sha ecb d1 before.first after.first i root
          × Same before.second after.second i)
        ⊎ (Opened random codec sha ecb d2 before.second after.second i root
            × Same before.first after.first i)
    pub finds : Finds random codec sha ecb x i key.m root.m

  verify_root-Finds :
      (i mine : ℕ) (key c : List ℕ)
      → read x i ≡ ok mine
      → verify_root codec ecb mine key c ≡ ok tt
      → Finds random codec sha ecb x i key c
  unfolding verify_root
  verify_root-Finds i mine key c stored h =
      let (encoded, e₁, h₁) = bind-eq-ok (Aes.dec ecb key c) _ h in
      record {
        mine = mine;
        encoded = encoded;
        stored = stored;
        decrypts = e₁;
        decodes = ground arith;
      }

  -- One ciphertext is opened, and what else the buyer holds stays.
  abbrev RootShown : ℕ → Held → List ℕ × Held → Type 0
  RootShown ind held o =
      (o.1.keys ≡ held.keys)
      × ((i : ℕ) → i ≢ ind → Same held.first o.1.first i × Same held.second o.1.second i)
      × (root : ShaCommitment.Receiver) × (root.m ≡ o.0)
      × ((Opened random codec sha ecb d1 held.first o.1.first ind root
            × Same held.second o.1.second ind)
          ⊎ (Opened random codec sha ecb d2 held.second o.1.second ind root
              × Same held.first o.1.first ind))

  open_root-RootShown :
      (which ind : ℕ) (held : Held) {o : List ℕ × Held}
      → open_root random codec sha ecb which ind d1 d2 held ≡ ok o
      → RootShown ind held o
  unfolding open_root
  open_root-RootShown which ind held {o} h = elim (Bool-cases (which == 1)) [
    | inl one ↦
        let (opened, e, h₁) =
          bind-eq-ok (open_at random codec sha ecb ind d1 held.first) _ (rw one at h) in
        let (done, others) = open_at-Opened random codec sha ecb ind d1 held.first e in
        subst (RootShown ind held) (ok-injective h₁)
          (refl, (λ i ne. (others i ne, refl)), opened.0, refl, inl (done, refl))
    | inr other ↦ elim (Bool-cases (which == 2)) [
      | inl two ↦
          let (opened, e, h₁) =
            bind-eq-ok (open_at random codec sha ecb ind d2 held.second) _ (rw (other, two) at h) in
          let (done, others) = open_at-Opened random codec sha ecb ind d2 held.second e in
          subst (RootShown ind held) (ok-injective h₁)
            (refl, (λ i ne. (refl, others i ne)), opened.0, refl, inr (done, refl))
      | inr none_of ↦ absurd (cc (rw (other, none_of) at h))
    ]
  ]

  open_index-Answered :
      (ind which : ℕ) (held : Held) {held' : Held}
      → open_index random codec sha ecb keys d1 d2 x ind which held ≡ ok held'
      → Answered held held' ind × ((i : ℕ) → i ≢ ind → Untouched held held' i)
  unfolding open_index
  open_index-Answered ind which held h =
      let (key, e₁, h₁) = bind-eq-ok (open_at random codec sha ecb ind keys held.keys) _ h in
      let (shown, e₂, h₂) =
        bind-eq-ok (open_root random codec sha ecb which ind d1 d2 (record held { keys = key.1 })) _
          h₁ in
      let (mine, e₃, h₃) = bind-eq-ok (read x ind) _ h₂ in
      let (done, e₄, h₄) = bind-eq-ok (verify_root codec ecb mine key.0.m shown.0) _ h₃ in
      let (opened, key_others) = open_at-Opened random codec sha ecb ind keys held.keys e₁ in
      let (keys_eq, others, root, message, one) =
        open_root-RootShown which ind (record held { keys = key.1 }) e₂ in
      let found = verify_root-Finds ind mine key.0.m shown.0 e₃ e₄ in
      let key_at : (i : ℕ) → Same key.1 shown.1.keys i = λ i. ap (λ row. get_elem? row i) keys_eq in
      subst (λ after. Answered held after ind × ((i : ℕ) → i ≢ ind → Untouched held after i))
        (ok-injective h₄)
        (
          record {
            key = key.0;
            root = root;
            key_opened = later random codec sha ecb opened (key_at ind);
            one_opened = one;
            finds = subst (Finds random codec sha ecb x ind key.0.m) (sym message) found;
          },
          λ i ne. (key_at i ∙ key_others i ne, (others i ne).0, (others i ne).1),
        )

  pub Untouched-Answered :
      {before mid after : Held} {i : ℕ}
      → Untouched before mid i
      → Answered mid after i
      → Answered before after i
  Untouched-Answered same a = record {
    key = a.key;
    root = a.root;
    key_opened = earlier random codec sha ecb same.0 a.key_opened;
    one_opened = elim a.one_opened [
      | inl (first, rest) ↦ inl (earlier random codec sha ecb same.1 first, rest ∙ same.2)
      | inr (second, rest) ↦ inr (earlier random codec sha ecb same.2 second, rest ∙ same.1)
    ];
    finds = a.finds;
  }

  pub Answered-Untouched :
      {before mid after : Held} {i : ℕ}
      → Answered before mid i
      → Untouched mid after i
      → Answered before after i
  Answered-Untouched a same = record {
    key = a.key;
    root = a.root;
    key_opened = later random codec sha ecb a.key_opened same.0;
    one_opened = elim a.one_opened [
      | inl (first, rest) ↦ inl (later random codec sha ecb first same.1, same.2 ∙ rest)
      | inr (second, rest) ↦ inr (later random codec sha ecb second same.2, same.1 ∙ rest)
    ];
    finds = a.finds;
  }

  -- The loop of openings answers each index once, where the indices are different, and touches no other.
  pub open_subset-Answered :
      (indices which : List ℕ) (held : Held) {held' : Held}
      → open_subset random codec sha ecb keys d1 d2 x indices which held ≡ ok held'
      → ((i : ℕ) → occurrences i indices ≡ 1 → Answered held held' i)
        × ((i : ℕ) → occurrences i indices ≡ 0 → Untouched held held' i)
  unfolding open_subset
  open_subset-Answered [] which held h = (
    λ i e. absurd (omega arith),
    λ i e. subst (λ after. Untouched held after i) (ok-injective h) (refl, refl, refl),
  )
  open_subset-Answered (ind ∷ indices) [] held h = absurd (cc h)
  open_subset-Answered (ind ∷ indices) (w ∷ which) held {held'} h =
      let (mid, e, h₁) = bind-eq-ok (open_index random codec sha ecb keys d1 d2 x ind w held) _ h in
      let (here, others) = open_index-Answered ind w held e in
      let (asked, rest) = open_subset-Answered indices which mid h₁ in
      let after : (i : ℕ) → i ≢ ind → Untouched mid held' i → Untouched held held' i = λ i ne same.
        (same.0 ∙ (others i ne).0, same.1 ∙ (others i ne).1, same.2 ∙ (others i ne).2) in
      (
        λ i once. elim (Bool-cases (i == ind)) [
          | inl e ↦
              let eq : ind ≡ i = ground arith in
              let none_left : occurrences i indices ≡ 0 = ground arith in
              Answered-Untouched (subst (Answered held mid) eq here) (rest i none_left)
          | inr ne ↦
              let left : occurrences i indices ≡ 1 = ground arith in
              Untouched-Answered (others i (λ e. ground arith)) (asked i left)
        ],
        λ i none_of.
            let none_left : occurrences i indices ≡ 0 = ground arith in
            after i (λ e. ground arith) (rest i none_left),
      )
