-- ===== src/SellInformation/Gains.antt =====
-- What the openings of the second cut and choose give to the buyer: the ciphertexts of both roots at
-- each index that it did not ask for.
use zkfactorization.Prelude.{
  ℕ, zero, suc, ◌<◌, ◌≡◌, ◌⊎◌, inl, inr, sym, ap, ◌∙◌, List, [], ◌∷◌, some, get_elem?, length,
  arith,
}
use zkfactorization.Prelude.Result.{ok, ok-injective}
use zkfactorization.CryptoPp.{Random, Sha256, Codec, Ecb}
use zkfactorization.ShaCommitment
use zkfactorization.ShaCommitment.Opening.{reveal_cases}
use zkfactorization.SellInformation.{read}
use zkfactorization.SellInformation.Operations.{opened_messages}
use zkfactorization.SellInformation.Revealed.{Same, Opened, read-get_elem?}
use zkfactorization.SellInformation.Sealed.{Holds}
use zkfactorization.SellInformation.Works.{Part}

some-injective : {A : Type 0} {a b : A} → some a ≡ some b → a ≡ b
some-injective h = cc

get_elem?-read :
    {A : Type 0} (row : List A) (i : ℕ) {a : A} → get_elem? row i ≡ some a → read row i ≡ ok a
unfolding read
get_elem?-read [] i h = cc
get_elem?-read (x ∷ row) zero h = ap ok (some-injective h)
get_elem?-read (x ∷ row) (suc i) h = get_elem?-read row i h

pub read-opened_messages :
    (row : List ShaCommitment.Receiver) (i : ℕ) {x : ShaCommitment.Receiver}
    → get_elem? row i ≡ some x
    → get_elem? (opened_messages row) i ≡ some x.m
unfolding opened_messages
read-opened_messages [] i h = cc
read-opened_messages (d ∷ row) zero h = ap (λ t. some t.m) (some-injective h)
read-opened_messages (d ∷ row) (suc i) h = read-opened_messages row i h

-- At an index the buyer has the ciphertext of the row, or nothing.
pub record Kept (row : List (List ℕ)) (after : List ShaCommitment.Receiver) (i : ℕ) : Type 0 where
  pub x : ShaCommitment.Receiver
  pub at : get_elem? after i ≡ some x
  pub part : (read row i ≡ ok x.m) ⊎ (x.m ≡ [])

pub Part-Kept :
    (row : List (List ℕ)) (after : List ShaCommitment.Receiver)
    → length row ≡ length after
    → ((i : ℕ) → i < length row → Kept row after i)
    → Part row (opened_messages after)
unfolding opened_messages read
Part-Kept [] [] same all = tt
Part-Kept [] (x ∷ after) same all = absurd (omega arith)
Part-Kept (c ∷ row) [] same all = absurd (omega arith)
Part-Kept (c ∷ row) (x ∷ after) same all =
    let here = all zero (omega arith) in
    let is : x ≡ here.x = some-injective here.at in
    (
      elim here.part [
        | inl e ↦ inl (ap (λ t. t.m) is ∙ sym (ok-injective e))
        | inr e ↦ inr (ap (λ t. t.m) is ∙ e)
      ],
      Part-Kept row after (omega arith) (λ i lt.
          let there = all (suc i) (omega arith) in
          record { x = there.x; at = there.at; part = there.part }),
    )

module _ (random : Random) (codec : Codec) (sha : Sha256) (ecb : Ecb) where
  reveal-message :
      (s : ShaCommitment.Sender) (rc : ShaCommitment.Receiver) {r' : ShaCommitment.Receiver}
      → ShaCommitment.reveal sha random s rc ≡ ok r'
      → r'.m ≡ s.m
  reveal-message s rc h = elim (reveal_cases sha random s rc) [
    | inl (same, e) ↦ ap (λ t. t.m) (ok-injective (sym h ∙ e))
    | inr (differ, e) ↦ absurd (cc (sym h ∙ e))
  ]

  module _ {senders : List ShaCommitment.Sender} {before after : List ShaCommitment.Receiver}
      {row : List (List ℕ)} {i : ℕ} (holds : Holds random codec sha ecb senders before row i) where
    -- An opened commitment gives the ciphertext of the row.
    pub Opened-message :
        {r' : ShaCommitment.Receiver}
        → Opened random codec sha ecb senders before after i r'
        → read row i ≡ ok r'.m
    Opened-message {r'} opened =
        let same : opened.s ≡ holds.s =
          some-injective (sym opened.sender ∙ read-get_elem? senders i holds.sender) in
        holds.message
        ∙ ap ok (sym (reveal-message opened.s opened.r opened.reveals ∙ ap (λ t. t.m) same))

    pub Opened-Kept :
        {r' : ShaCommitment.Receiver}
        → Opened random codec sha ecb senders before after i r'
        → Kept row after i
    Opened-Kept {r'} opened = record {
      x = r';
      at = opened.result;
      part = inl (Opened-message opened);
    }

    -- A commitment that was left alone gives nothing.
    pub Same-Kept : Same before after i → Kept row after i
    Same-Kept same = record {
      x = holds.rc;
      at = same ∙ read-get_elem? before i holds.receiver;
      part = inr holds.nothing;
    }
