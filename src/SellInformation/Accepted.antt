-- ===== src/SellInformation/Accepted.antt =====
-- The subset of an honest buyer: the seller accepts it, and its answers can be opened and checked.
use zkfactorization.Prelude.{
  ℕ, ◌*◌, ◌/◌, ◌%◌, ◌≤◌, ◌<◌, ◌≡◌, ◌⊎◌, inl, inr, refl, ap, ◌∙◌, List, [], ◌∷◌, All, length, ◌==◌,
  ==_iff, Bool-cases, arith,
}
use zkfactorization.Prelude.Int.{ℤ, pos}
use zkfactorization.Prelude.Result.{ok}
use zkfactorization.CryptoPp.{Random, Sha256, Codec, Ecb}
use zkfactorization.Common.{to_bytes}
use zkfactorization.Aes
use zkfactorization.Aes.{aes_length, decrypted}
use zkfactorization.ShaCommitment
use zkfactorization.SellInformation.{
  read, accept_value, accept_subset, get_subset_values, verify_root,
}
use zkfactorization.SellInformation.Openings.{Answer, Answers}

module _ (random : Random) (codec : Codec) (sha : Sha256) (ecb : Ecb) where
  verify_root-runs :
      (x : ℕ) (key m : List ℕ)
      → length key ≡ aes_length
      → Aes.enc ecb key (to_bytes codec (pos x)) ≡ ok m
      → verify_root codec ecb x key m ≡ ok tt
  unfolding verify_root Aes.enc Aes.dec decrypted to_bytes
  verify_root-runs x key m long h =
      let plain = codec.encode (pos x) (codec.min_encoded_size (pos x)) in
      let sealed : ecb.encrypt key plain ≡ m = ground arith in
      let opens = ecb.decrypt-encrypt key plain long in
      let decodes = codec.decode-encode x in ground (arith, sealed, opens, decodes)

  module _ (l n : ℕ) (keys d1 d2 : List ShaCommitment.Sender) (x y : List ℕ) (r1 r2 : List ℤ) where
    -- What the parties have at an index before the openings.
    pub record Ready (i : ℕ) : Type 0 where
      pub mine : ℕ
      pub a : ℕ
      pub b : ℕ
      pub key : ShaCommitment.Sender
      pub s1 : ShaCommitment.Sender
      pub s2 : ShaCommitment.Sender
      pub stored : read x i ≡ ok mine
      pub square : read y i ≡ ok (mine * mine % n)
      pub small : mine ≤ n / 2
      pub root1 : read r1 i ≡ ok (pos a)
      pub root2 : read r2 i ≡ ok (pos b)
      pub found : (mine ≡ a) ⊎ (mine ≡ b)
      pub key_at : read keys i ≡ ok key
      pub long : length key.m ≡ aes_length
      pub sender1 : read d1 i ≡ ok s1
      pub sender2 : read d2 i ≡ ok s2
      pub sealed1 : Aes.enc ecb key.m (to_bytes codec (pos a)) ≡ ok s1.m
      pub sealed2 : Aes.enc ecb key.m (to_bytes codec (pos b)) ≡ ok s2.m

    accept_value-second :
        (a b mine : ℕ)
        → mine ≤ n / 2
        → mine ≡ b
        → accept_value n (mine * mine % n) (pos a) (pos b) mine ≡ ok 2
    unfolding accept_value
    accept_value-second a b mine small same = ground arith

    accept_value-first :
        (a b mine : ℕ)
        → mine ≤ n / 2
        → (mine ≡ b → ⊥)
        → mine ≡ a
        → accept_value n (mine * mine % n) (pos a) (pos b) mine ≡ ok 1
    unfolding accept_value
    accept_value-first a b mine small other same = ground arith

    accept_value-Answer :
        (i : ℕ) (ready : Ready i)
        → i < l
        → (w : ℕ) × (accept_value n
              (ready.mine * ready.mine % n)
              (pos ready.a)
              (pos ready.b)
              ready.mine
            ≡ ok w)
          × Answer random codec sha ecb l keys d1 d2 x i w
    accept_value-Answer i ready lt = elim (Bool-cases (ready.mine == ready.b)) [
      | inl is ↦
          let same : ready.mine ≡ ready.b = (==_iff ready.mine ready.b).0 is in
          (
            2,
            accept_value-second ready.a ready.b ready.mine ready.small same,
            record {
              inside = lt;
              mine = ready.mine;
              key = ready.key;
              root = ready.s2;
              stored = ready.stored;
              key_at = ready.key_at;
              root_at = inr (refl, ready.sender2);
              verifies =
                  verify_root-runs ready.mine ready.key.m ready.s2.m ready.long (
                    ap (λ t. Aes.enc ecb ready.key.m (to_bytes codec (pos t))) same
                    ∙ ready.sealed2);
            },
          )
      | inr isnt ↦
          let other : ready.mine ≡ ready.b → ⊥ = λ e. ground arith in
          let same : ready.mine ≡ ready.a = elim ready.found [
            | inl e ↦ e
            | inr e ↦ absurd (other e)
          ] in
          (
            1,
            accept_value-first ready.a ready.b ready.mine ready.small other same,
            record {
              inside = lt;
              mine = ready.mine;
              key = ready.key;
              root = ready.s1;
              stored = ready.stored;
              key_at = ready.key_at;
              root_at = inl (refl, ready.sender1);
              verifies =
                  verify_root-runs ready.mine ready.key.m ready.s1.m ready.long (
                    ap (λ t. Aes.enc ecb ready.key.m (to_bytes codec (pos t))) same
                    ∙ ready.sealed1);
            },
          )
    ]

    -- The buyer's values for indices that are ready are accepted, with an answer for each.
    pub accept_subset-Answers :
        ((i : ℕ) → i < l → Ready i)
        → (indices : List ℕ) → All (λ i. i < l) indices
        → (values : List ℕ) × (which : List ℕ) × (get_subset_values x indices ≡ ok values)
          × (accept_subset n y r1 r2 indices values ≡ ok which)
          × Answers random codec sha ecb l keys d1 d2 x indices which
    unfolding get_subset_values accept_subset
    accept_subset-Answers all [] below = ([], [], refl, refl, tt)
    accept_subset-Answers all (i ∷ indices) (lt, below) =
        let ready = all i lt in
        let (w, e, answer) = accept_value-Answer i ready lt in
        let (values, which, e₁, e₂, answers) = accept_subset-Answers all indices below in
        (
          ready.mine ∷ values,
          w ∷ which,
          rw (ready.stored, e₁) refl,
          rw (ready.square, ready.root1, ready.root2, e) (rw e₂ refl),
          (answer, answers),
        )
