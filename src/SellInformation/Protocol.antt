-- ===== src/SellInformation/Protocol.antt =====
-- `SellInformationProtocol`: `init`, and `exec` up to the buyer's wait at its end, which is in
-- SellInformation/Race.antt. The pool of random numbers and the world of the bitcoin client stand
-- side by side in the state. `SellInformationProtocol::open` is empty.
use zkfactorization.Prelude.{ℕ, ◌*◌, List, [], ◌∷◌, not, ◌==◌, if◌then◌else◌, set}
use zkfactorization.Prelude.Int.{ℤ}
use zkfactorization.Prelude.Result.{
  Run, Result, ok, throw, protocol, bind, ◌>>=◌, from_result, pure,
}
use zkfactorization.Libraries.{Libraries}
use zkfactorization.SellInformation.{read}
use zkfactorization.SellInformation.Draws.{pick_subset}
use zkfactorization.SellInformation.Exchange.{check_subset, commit_rows, open_subset, open_others}
use zkfactorization.SellInformation.Operations.{
  accept_squares, find_roots, encrypt_roots_at, setup_commit_at, accept_subset_at, gen_squares_at,
  get_subset_values_at,
}
use zkfactorization.SellInformation.State.{Seller, Buyer}

-- `v[ix]` for each of the indices
unfoldable pub read_all {ℓ} : {A : Type ℓ} → List A → List ℕ → Result (List A)
unfolding read
read_all v [] = ok []
read_all v (ix ∷ indices) = bind (read v ix) λ a. bind (read_all v indices) λ rest. ok (a ∷ rest)

module _ (libraries : Libraries) (past : ℕ → ℤ) (fuel t r l k : ℕ) where
  open libraries use {random, codec, sha, ecb, curve, bitcoin}
  open random use {Rng}
  open bitcoin use {World}
  open curve use {Point}

  -- `SellInformationProtocol::init`
  unfoldable pub init : Seller Point → Buyer Point → Result (Unit {0})
  init s b =
      if not (s.p * s.q == b.n)
      then throw (protocol "Not matching n")
      else if not (s.price == b.price)
      then throw (protocol "Not matching price")
      else ok tt

  -- The loop of commitments, on the rows of instance `j`.
  unfoldable pub commit_at : ℕ → Seller Point → Buyer Point → Run Rng (Seller Point × Buyer Point)
  unfolding commit_rows
  commit_at j s b = do
    senders1 ← from_result (read s.d1 j)
    senders2 ← from_result (read s.d2 j)
    receivers1 ← from_result (read b.d1 j)
    receivers2 ← from_result (read b.d2 j)
    rows ← commit_rows random codec sha ecb senders1 senders2 receivers1 receivers2
    pure (
      record s { d1 = set s.d1 j rows.senders1; d2 = set s.d2 j rows.senders2 },
      record b { d1 = set b.d1 j rows.receivers1; d2 = set b.d2 j rows.receivers2 },
    )

  -- Both loops of openings, on instance `j`: the buyer after them.
  unfoldable pub open_at_instance :
      ℕ → List ℕ → List ℕ → List ℕ → Seller Point → Buyer Point → Result (Buyer Point)
  unfolding open_subset open_others
  open_at_instance j indices which chosen s b = bind (read s.single_sellers j) λ single_s.
      bind (read b.single_buyers j) λ single_b. bind (read s.d1 j) λ senders1.
        bind (read s.d2 j) λ senders2. bind (read b.d1 j) λ receivers1.
          bind (read b.d2 j) λ receivers2. bind (read b.x j) λ roots.
            bind
              (open_subset random codec sha ecb single_s.keys_commits senders1 senders2 roots
                indices which
                (record { keys = single_b.keys_commits; first = receivers1; second = receivers2 }))
              λ shown.
                bind (open_others random codec sha ecb l 0 chosen senders1 senders2 shown) λ held.
                  ok (record b {
                    single_buyers =
                        set b.single_buyers j (record single_b { keys_commits = held.keys });
                    d1 = set b.d1 j held.first;
                    d2 = set b.d2 j held.second;
                  })

  -- One round of the loop over the R instances: the second cut and choose.
  unfoldable pub exchange : ℕ → Seller Point → Buyer Point → Run Rng (Seller Point × Buyer Point)
  unfolding commit_at open_at_instance
  exchange j s₀ b₀ rng₀ =
      let (b₁, rng₁) = gen_squares_at libraries r l j b₀ rng₀ in
      bind (read b₁.y j) λ squares.
        let s₁ = accept_squares libraries r l j squares s₀ in
        bind (find_roots libraries r l j s₁ rng₁) λ found.
          bind (encrypt_roots_at libraries r l j found.0) λ encrypted.
            bind (setup_commit_at libraries r l j encrypted) λ ready.
              bind (commit_at j ready b₁ found.1) λ committed.
                let (indices, rng₂) = pick_subset random l committed.1 in
                let s₂ = committed.0.0 in
                let b₂ = record committed.0.1 { indices = set committed.0.1.indices j indices } in
                bind (get_subset_values_at libraries r l j b₂) λ values.
                  bind (check_subset l indices) λ chosen.
                    bind (accept_subset_at libraries r l j indices values s₂) λ which.
                      bind (open_at_instance j indices which chosen s₂ b₂) λ b₃. ok ((s₂, b₃), rng₂)
