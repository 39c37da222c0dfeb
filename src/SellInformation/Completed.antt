-- ===== src/SellInformation/Completed.antt =====
-- The second cut and choose of an honest seller and an honest buyer: `exec` gets through it.
use zkfactorization.Prelude.{ℕ, ◌<◌, ◌≡◌, refl, sym, subst, ◌∙◌, List, All, set, arith}
use zkfactorization.Prelude.Int.{ℤ}
use zkfactorization.Prelude.Result.{ok}
use zkfactorization.Libraries.{Libraries}
use zkfactorization.ShaCommitment
use zkfactorization.SellInformation.{read, gen_squares, accept_subset, setup_commit}
use zkfactorization.SellInformation.Draws.{pick_subset, set_of}
use zkfactorization.SellInformation.Exchange.{Held}
use zkfactorization.SellInformation.Operations.{
  accept_squares, find_roots, find_roots_row, encrypt_roots_at, setup_commit_at, accept_subset_at,
  gen_squares_at, get_subset_values_at,
}
use zkfactorization.SellInformation.Protocol.{commit_at, open_at_instance, exchange}
use zkfactorization.SellInformation.State.{Seller, Buyer}
use zkfactorization.SellInformation.Works.{IsUnitSquare}
use zkfactorization.SellInformation.Reads.{
  read-set, length-set, read-set_other, read-set_twice, length-set_twice,
}
use zkfactorization.SellInformation.Halves.{picked, picked-below, check_subset-picked}
use zkfactorization.SellInformation.Openings.{open_subset-Openable, open_others-Openable}
use zkfactorization.SellInformation.Accepted.{accept_subset-Answers}
use zkfactorization.SellInformation.Prepared.{AreFactors}
use zkfactorization.SellInformation.Ready.{prepares}
use zkfactorization.SignatureKey.Commits.{sent}
use zkfactorization.SellInformation.Bought.{Sold, openings-Sold}
use zkfactorization.SellInformation.Steps.{
  find_roots-runs, encrypt_roots_at-runs, setup_commit_at-runs, commit_at-runs,
  get_subset_values_at-runs, accept_subset_at-runs, open_at_instance-runs,
}
use zkfactorization.SellInformation.Fits.{Fits, Frame}

module _ (libraries : Libraries) (past : ℕ → ℤ) (fuel t r l k : ℕ) where
  open libraries use {random, codec, sha, arithmetic, theory, ecb, curve}
  open random use {Rng}
  open curve use {Point}

  module _ (p q : ℕ) (factors : AreFactors libraries p q) where
    -- What a round leaves to the parties: all other instances as they were, and to the buyer what
    -- gives the factors together with the keys of this instance.
    pub record Round (j : ℕ) (keys : List (List ℕ)) (s : Seller Point) (b : Buyer Point)
        (s' : Seller Point) (b' : Buyer Point) : Type 0 where
      pub frame : Frame libraries past fuel t r l k j s b s' b'
      pub shown1 : List ShaCommitment.Receiver
      pub shown2 : List ShaCommitment.Receiver
      pub at1 : read b'.d1 j ≡ ok shown1
      pub at2 : read b'.d2 j ≡ ok shown2
      pub sold : Sold libraries r l p q factors keys shown1 shown2

    pub exchange-returns :
        (j : ℕ) (s : Seller Point) (b : Buyer Point) (rng : Rng)
        → (fits : Fits libraries past fuel t r l k p q j s b) → 0 < l
        → All (IsUnitSquare p q) (gen_squares random b.n l rng).0.1
        → (done : (Seller Point × Buyer Point) × Rng) × (exchange libraries past fuel t r l k j s b
              rng
            ≡ ok done)
          × Round j (sent fits.single_s.keys_commits) s b done.0.0 done.0.1
    unfolding exchange gen_squares_at accept_squares pick_subset
    exchange-returns j s b rng fits some_l units =
        let rows = gen_squares random b.n l rng in
        let ready =
          prepares libraries r l p q factors b.n fits.buyer_n rng units fits.single_s.keys_commits
            fits.key_count fits.keys_long fits.senders1 fits.senders2 fits.receivers1
            fits.receivers2 fits.senders1_at.1 fits.senders2_at.1 fits.receivers1_at.1
            fits.receivers2_at.1 fits.blank1 fits.blank2 in
        let (y_at, r1_at, r2_at, c1_at, c2_at, d1_at, d2_at) = fits.seller_rows in
        let (bx_at, by_at, bi_at, bd1_at, bd2_at) = fits.buyer_rows in
        let b₁ : Buyer Point = record b { x = set b.x j rows.0.0; y = set b.y j rows.0.1 } in
        let s₁ : Seller Point = record s { y = set s.y j rows.0.1 } in
        let s₂ : Seller Point = record s₁ {
          r1 = set s.r1 j ready.found.0.0;
          r2 = set s.r2 j ready.found.0.1;
        } in
        let s₃ : Seller Point = record s₂ {
          c1 = set s.c1 j ready.row1;
          c2 = set s.c2 j ready.row2;
        } in
        let s₄ : Seller Point = record s₃ {
          d1 = set s.d1 j (setup_commit ready.row1 fits.senders1);
          d2 = set s.d2 j (setup_commit ready.row2 fits.senders2);
        } in
        let shown = ready.committed.0 in
        let s₅ : Seller Point = record s₄ {
          d1 = set s₄.d1 j shown.senders1;
          d2 = set s₄.d2 j shown.senders2;
        } in
        let b₂ : Buyer Point = record b₁ {
          d1 = set b.d1 j shown.receivers1;
          d2 = set b.d2 j shown.receivers2;
        } in
        let indices = picked random l ready.committed.1 in
        let b₃ : Buyer Point = record b₂ { indices = set b.indices j indices } in
        let (values, which, gets, accepts, answers) =
          accept_subset-Answers random codec sha ecb l b.n fits.single_s.keys_commits shown.senders1
            shown.senders2 rows.0.0 rows.0.1 ready.found.0.0 ready.found.0.1 ready.ready indices
            (picked-below random l ready.committed.1) in
        let find : find_roots libraries r l j s₁ rows.1 ≡ ok (s₂, ready.found.1) =
          find_roots-runs libraries past fuel t r l k j s₁ rows.1 rows.0.1
            (read-set s.y j rows.0.1 y_at)
            (subst (λ key. find_roots_row libraries r l key rows.0.1 rows.1 ≡ ok ready.found)
              (sym fits.square_root) ready.finds) in
        let encrypt : encrypt_roots_at libraries r l j s₂ ≡ ok s₃ =
          encrypt_roots_at-runs libraries past fuel t r l k j s₂ fits.single_s fits.seller_at
            (read-set s.r1 j ready.found.0.0 r1_at) (read-set s.r2 j ready.found.0.1 r2_at)
            ready.encrypts1 ready.encrypts2 in
        let setup : setup_commit_at libraries r l j s₃ ≡ ok s₄ =
          setup_commit_at-runs libraries past fuel t r l k j s₃ (read-set s.c1 j ready.row1 c1_at)
            (read-set s.c2 j ready.row2 c2_at) fits.senders1_at.0 fits.senders2_at.0 in
        let commit : commit_at libraries past fuel t r l k j s₄ b₁ ready.found.1
            ≡ ok ((s₅, b₂), ready.committed.1) =
          commit_at-runs libraries past fuel t r l k j s₄ b₁ ready.found.1
            (read-set s.d1 j (setup_commit ready.row1 fits.senders1) d1_at)
            (read-set s.d2 j (setup_commit ready.row2 fits.senders2) d2_at) fits.receivers1_at.0
            fits.receivers2_at.0 ready.commits_rows in
        let get : get_subset_values_at libraries r l j b₃ ≡ ok values =
          get_subset_values_at-runs libraries past fuel t r l k j b₃ (read-set b.x j rows.0.0 bx_at)
            (read-set b.indices j indices bi_at) gets in
        let check = check_subset-picked random l ready.committed.1 in
        let accept : accept_subset_at libraries r l j indices values s₅ ≡ ok which =
          accept_subset_at-runs libraries past fuel t r l k j s₅ indices values
            (read-set s.y j rows.0.1 y_at) (read-set s.r1 j ready.found.0.0 r1_at)
            (read-set s.r2 j ready.found.0.1 r2_at)
            (subst
              (λ n.
                accept_subset n rows.0.1 ready.found.0.0 ready.found.0.1 indices values ≡ ok which)
              (fits.buyer_n ∙ sym fits.seller_n) accepts) in
        let held : Held = record {
          keys = fits.single_b.keys_commits;
          first = shown.receivers1;
          second = shown.receivers2;
        } in
        let keys = fits.single_s.keys_commits in
        let (mid, e₁, all) =
          open_subset-Openable random codec sha ecb l keys shown.senders1 shown.senders2 rows.0.0
            indices which held (fits.keys_open, ready.open1, ready.open2) answers in
        let (last, e₂, (_, last1, last2)) =
          open_others-Openable random codec sha ecb l keys shown.senders1 shown.senders2 l 0
            (set_of indices) mid (omega arith) all in
        let b₄ : Buyer Point = record b₃ {
          single_buyers = set b.single_buyers j (record fits.single_b { keys_commits = last.keys });
          d1 = set b₃.d1 j last.first;
          d2 = set b₃.d2 j last.second;
        } in
        let open_all : open_at_instance libraries past fuel t r l k j indices which (set_of indices)
              s₅ b₃
            ≡ ok b₄ =
          open_at_instance-runs libraries past fuel t r l k j indices which (set_of indices) s₅ b₃
            fits.single_s fits.single_b fits.seller_at fits.buyer_at
            (read-set s₄.d1 j shown.senders1
              (omega (arith, d1_at, length-set s.d1 j (setup_commit ready.row1 fits.senders1))))
            (read-set s₄.d2 j shown.senders2
              (omega (arith, d2_at, length-set s.d2 j (setup_commit ready.row2 fits.senders2))))
            (read-set b.d1 j shown.receivers1 bd1_at) (read-set b.d2 j shown.receivers2 bd2_at)
            (read-set b.x j rows.0.0 bx_at) e₁ e₂ in
        (
          ((s₅, b₄), (pick_subset random l ready.committed.1).1),
          rw (read-set b.y j rows.0.1 by_at) (
              rw find (
                rw encrypt
                  (rw setup (rw commit (rw get (rw check (rw (accept, open_all) refl))))))),
          record {
            frame = record {
              seller_n = refl;
              buyer_n = refl;
              square_root = refl;
              single_sellers = refl;
              single_buyers = λ i ne. read-set_other b.single_buyers i j _ ne;
              senders1 = λ i ne. read-set_twice s.d1 i j _ _ ne;
              senders2 = λ i ne. read-set_twice s.d2 i j _ _ ne;
              receivers1 = λ i ne. read-set_twice b.d1 i j _ _ ne;
              receivers2 = λ i ne. read-set_twice b.d2 i j _ _ ne;
              seller_rows = (
                length-set s.y j _,
                length-set s.r1 j _,
                length-set s.r2 j _,
                length-set s.c1 j _,
                length-set s.c2 j _,
                length-set_twice s.d1 j _ _,
                length-set_twice s.d2 j _ _,
              );
              buyer_rows = (
                length-set b.x j _,
                length-set b.y j _,
                length-set b.indices j _,
                length-set_twice b.d1 j _ _,
                length-set_twice b.d2 j _ _,
              );
            };
            shown1 = last.first;
            shown2 = last.second;
            at1 =
                read-set b₃.d1 j last.first
                  (omega (arith, bd1_at, length-set b.d1 j shown.receivers1));
            at2 =
                read-set b₃.d2 j last.second
                  (omega (arith, bd2_at, length-set b.d2 j shown.receivers2));
            sold =
                openings-Sold libraries r l p q factors b.n fits.buyer_n rng units keys
                  fits.key_count fits.keys_long ready some_l ready.committed.1 which
                  fits.single_b.keys_commits {after = last} (rw e₁ e₂) last1.0 last2.0;
          },
        )
