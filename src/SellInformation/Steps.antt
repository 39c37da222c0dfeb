-- ===== src/SellInformation/Steps.antt =====
-- The operations of one round of the second cut and choose, on whole parties: each returns where what
-- it does to the rows of the instance returns.
use zkfactorization.Prelude.{ℕ, ◌≡◌, refl, List, set}
use zkfactorization.Prelude.Int.{ℤ}
use zkfactorization.Prelude.Result.{ok}
use zkfactorization.Libraries.{Libraries}
use zkfactorization.ShaCommitment
use zkfactorization.SignatureKey.{SingleSeller, SingleBuyer}
use zkfactorization.SellInformation.{
  read, encrypt_roots, setup_commit, accept_subset, get_subset_values,
}
use zkfactorization.SellInformation.Exchange.{Rows, Held, commit_rows, open_subset, open_others}
use zkfactorization.SellInformation.Operations.{
  find_roots_row, find_roots, encrypt_roots_at, setup_commit_at, accept_subset_at,
  get_subset_values_at,
}
use zkfactorization.SellInformation.Protocol.{commit_at, open_at_instance}
use zkfactorization.SellInformation.State.{Seller, Buyer}

module _ (libraries : Libraries) (past : ℕ → ℤ) (fuel t r l k j : ℕ) where
  open libraries use {random, codec, sha, ecb, curve}
  open random use {Rng}
  open curve use {Point}

  pub find_roots-runs :
      (s : Seller Point) (rng : Rng) (squares : List ℕ) {found : (List ℤ × List ℤ) × Rng}
      → read s.y j ≡ ok squares
      → find_roots_row libraries r l s.square_root squares rng ≡ ok found
      → find_roots libraries r l j s rng
        ≡ ok (record s { r1 = set s.r1 j found.0.0; r2 = set s.r2 j found.0.1 }, found.1)
  unfolding find_roots
  find_roots-runs s rng squares h e = rw h (rw e refl)

  pub encrypt_roots_at-runs :
      (s : Seller Point) (single : SingleSeller Point) {roots1 roots2 : List ℤ}
      {row1 row2 : List (List ℕ)}
      → read s.single_sellers j ≡ ok single
      → read s.r1 j ≡ ok roots1
      → read s.r2 j ≡ ok roots2
      → encrypt_roots codec ecb single.keys_commits roots1 ≡ ok row1
      → encrypt_roots codec ecb single.keys_commits roots2 ≡ ok row2
      → encrypt_roots_at libraries r l j s
        ≡ ok (record s { c1 = set s.c1 j row1; c2 = set s.c2 j row2 })
  unfolding encrypt_roots_at
  encrypt_roots_at-runs s single h₁ h₂ h₃ e₁ e₂ = rw (h₁, h₂, h₃) (rw (e₁, e₂) refl)

  pub setup_commit_at-runs :
      (s : Seller Point) {row1 row2 : List (List ℕ)} {senders1 senders2 : List ShaCommitment.Sender}
      → read s.c1 j ≡ ok row1
      → read s.c2 j ≡ ok row2
      → read s.d1 j ≡ ok senders1
      → read s.d2 j ≡ ok senders2
      → setup_commit_at libraries r l j s
        ≡ ok (record s {
          d1 = set s.d1 j (setup_commit row1 senders1);
          d2 = set s.d2 j (setup_commit row2 senders2);
        })
  unfolding setup_commit_at
  setup_commit_at-runs s h₁ h₂ h₃ h₄ = rw (h₁, h₂, h₃, h₄) refl

  pub commit_at-runs :
      (s : Seller Point) (b : Buyer Point) (rng : Rng)
      {senders1 senders2 : List ShaCommitment.Sender}
      {receivers1 receivers2 : List ShaCommitment.Receiver} {done : Rows × Rng}
      → read s.d1 j ≡ ok senders1
      → read s.d2 j ≡ ok senders2
      → read b.d1 j ≡ ok receivers1
      → read b.d2 j ≡ ok receivers2
      → commit_rows random codec sha ecb senders1 senders2 receivers1 receivers2 rng ≡ ok done
      → commit_at libraries past fuel t r l k j s b rng
        ≡ ok (
          (
            record s { d1 = set s.d1 j done.0.senders1; d2 = set s.d2 j done.0.senders2 },
            record b { d1 = set b.d1 j done.0.receivers1; d2 = set b.d2 j done.0.receivers2 },
          ),
          done.1,
        )
  unfolding commit_at
  commit_at-runs s b rng h₁ h₂ h₃ h₄ e = rw (h₁, h₂, h₃, h₄) (rw e refl)

  pub get_subset_values_at-runs :
      (b : Buyer Point) {roots indices values : List ℕ}
      → read b.x j ≡ ok roots
      → read b.indices j ≡ ok indices
      → get_subset_values roots indices ≡ ok values
      → get_subset_values_at libraries r l j b ≡ ok values
  unfolding get_subset_values_at
  get_subset_values_at-runs b h₁ h₂ e = rw (h₁, h₂) e

  pub accept_subset_at-runs :
      (s : Seller Point) (indices values : List ℕ) {squares which : List ℕ} {roots1 roots2 : List ℤ}
      → read s.y j ≡ ok squares
      → read s.r1 j ≡ ok roots1
      → read s.r2 j ≡ ok roots2
      → accept_subset s.n squares roots1 roots2 indices values ≡ ok which
      → accept_subset_at libraries r l j indices values s ≡ ok which
  unfolding accept_subset_at
  accept_subset_at-runs s indices values h₁ h₂ h₃ e = rw (h₁, h₂, h₃) e

  pub open_at_instance-runs :
      (indices which chosen : List ℕ) (s : Seller Point) (b : Buyer Point)
      (single_s : SingleSeller Point) (single_b : SingleBuyer Point)
      {senders1 senders2 : List ShaCommitment.Sender}
      {receivers1 receivers2 : List ShaCommitment.Receiver} {roots : List ℕ} {mid held : Held}
      → read s.single_sellers j ≡ ok single_s
      → read b.single_buyers j ≡ ok single_b
      → read s.d1 j ≡ ok senders1
      → read s.d2 j ≡ ok senders2
      → read b.d1 j ≡ ok receivers1
      → read b.d2 j ≡ ok receivers2
      → read b.x j ≡ ok roots
      → open_subset random codec sha ecb single_s.keys_commits senders1 senders2 roots indices which
          (record { keys = single_b.keys_commits; first = receivers1; second = receivers2 })
        ≡ ok mid
      → open_others random codec sha ecb l 0 chosen senders1 senders2 mid ≡ ok held
      → open_at_instance libraries past fuel t r l k j indices which chosen s b
        ≡ ok (record b {
          single_buyers = set b.single_buyers j (record single_b { keys_commits = held.keys });
          d1 = set b.d1 j held.first;
          d2 = set b.d2 j held.second;
        })
  unfolding open_at_instance
  open_at_instance-runs indices which chosen s b single_s single_b h₁ h₂ h₃ h₄ h₅ h₆ h₇ e e' =
      rw (h₁, h₂, h₃, h₄, h₅, h₆, h₇) (rw (e, e') refl)
