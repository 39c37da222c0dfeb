-- ===== src/SellInformation/Fits.antt =====
-- What an honest seller and an honest buyer need for a round of the second cut and choose, and what a
-- round leaves of the others.
use zkfactorization.Prelude.{ℕ, ◌*◌, ◌<◌, ◌≡◌, ◌≢◌, ap, ◌∙◌, List, [], All, length, arith}
use zkfactorization.Prelude.Int.{ℤ}
use zkfactorization.Prelude.Result.{ok}
use zkfactorization.Libraries.{Libraries}
use zkfactorization.Aes.{aes_length}
use zkfactorization.ShaCommitment
use zkfactorization.SquareRoot.{new_square_root}
use zkfactorization.SignatureKey.{SingleSeller, SingleBuyer}
use zkfactorization.SellInformation.{read}
use zkfactorization.SellInformation.State.{Seller, Buyer}
use zkfactorization.SellInformation.Openings.{AllOpen}

module _ (libraries : Libraries) (past : ℕ → ℤ) (fuel t r l k : ℕ) where
  open libraries use {random, codec, sha, arithmetic, theory, ecb, curve}
  open random use {Rng}
  open curve use {Point}

  -- Instance `j` of a seller that knows the factors p and q and of a buyer: both have a row for it
  -- everywhere, and the buyer holds the commitments to the seller's keys.
  pub record Fits (p q j : ℕ) (s : Seller Point) (b : Buyer Point) : Type 0 where
    pub single_s : SingleSeller Point
    pub single_b : SingleBuyer Point
    pub senders1 : List ShaCommitment.Sender
    pub senders2 : List ShaCommitment.Sender
    pub receivers1 : List ShaCommitment.Receiver
    pub receivers2 : List ShaCommitment.Receiver
    pub seller_n : s.n ≡ p * q
    pub buyer_n : b.n ≡ p * q
    pub square_root : s.square_root ≡ new_square_root arithmetic theory p q
    pub seller_at : read s.single_sellers j ≡ ok single_s
    pub buyer_at : read b.single_buyers j ≡ ok single_b
    pub key_count : length single_s.keys_commits ≡ l
    pub keys_long : All (λ c. length c.m ≡ aes_length) single_s.keys_commits
    pub keys_open : AllOpen random codec sha ecb l single_s.keys_commits single_b.keys_commits
    pub senders1_at : (read s.d1 j ≡ ok senders1) × (length senders1 ≡ l)
    pub senders2_at : (read s.d2 j ≡ ok senders2) × (length senders2 ≡ l)
    pub receivers1_at : (read b.d1 j ≡ ok receivers1) × (length receivers1 ≡ l)
    pub blank1 : All (λ rc. rc.m ≡ []) receivers1
    pub receivers2_at : (read b.d2 j ≡ ok receivers2) × (length receivers2 ≡ l)
    pub blank2 : All (λ rc. rc.m ≡ []) receivers2
    pub seller_rows :
        (j < length s.y)
        × (j < length s.r1)
        × (j < length s.r2)
        × (j < length s.c1)
        × (j < length s.c2)
        × (j < length s.d1)
        × (j < length s.d2)
    pub buyer_rows :
        (j < length b.x)
        × (j < length b.y)
        × (j < length b.indices)
        × (j < length b.d1)
        × (j < length b.d2)

  -- What a round leaves of the other instances.
  pub record Frame (j : ℕ) (s : Seller Point) (b : Buyer Point) (s' : Seller Point)
      (b' : Buyer Point) : Type 0 where
    pub seller_n : s'.n ≡ s.n
    pub buyer_n : b'.n ≡ b.n
    pub square_root : s'.square_root ≡ s.square_root
    pub single_sellers : s'.single_sellers ≡ s.single_sellers
    pub single_buyers : (i : ℕ) → i ≢ j → read b'.single_buyers i ≡ read b.single_buyers i
    pub senders1 : (i : ℕ) → i ≢ j → read s'.d1 i ≡ read s.d1 i
    pub senders2 : (i : ℕ) → i ≢ j → read s'.d2 i ≡ read s.d2 i
    pub receivers1 : (i : ℕ) → i ≢ j → read b'.d1 i ≡ read b.d1 i
    pub receivers2 : (i : ℕ) → i ≢ j → read b'.d2 i ≡ read b.d2 i
    pub seller_rows :
        (length s'.y ≡ length s.y)
        × (length s'.r1 ≡ length s.r1)
        × (length s'.r2 ≡ length s.r2)
        × (length s'.c1 ≡ length s.c1)
        × (length s'.c2 ≡ length s.c2)
        × (length s'.d1 ≡ length s.d1)
        × (length s'.d2 ≡ length s.d2)
    pub buyer_rows :
        (length b'.x ≡ length b.x)
        × (length b'.y ≡ length b.y)
        × (length b'.indices ≡ length b.indices)
        × (length b'.d1 ≡ length b.d1)
        × (length b'.d2 ≡ length b.d2)

  pub Frame-Fits :
      (p q j i : ℕ) (s : Seller Point) (b : Buyer Point) (s' : Seller Point) (b' : Buyer Point)
      → Frame j s b s' b'
      → i ≢ j
      → Fits p q i s b
      → Fits p q i s' b'
  Frame-Fits p q j i s b s' b' frame ne fits =
      let (y, r1, r2, c1, c2, d1, d2) = frame.seller_rows in
      let (bx, by, bi, bd1, bd2) = frame.buyer_rows in
      let (y₀, r1₀, r2₀, c1₀, c2₀, d1₀, d2₀) = fits.seller_rows in
      let (bx₀, by₀, bi₀, bd1₀, bd2₀) = fits.buyer_rows in
      record {
        single_s = fits.single_s;
        single_b = fits.single_b;
        senders1 = fits.senders1;
        senders2 = fits.senders2;
        receivers1 = fits.receivers1;
        receivers2 = fits.receivers2;
        seller_n = frame.seller_n ∙ fits.seller_n;
        buyer_n = frame.buyer_n ∙ fits.buyer_n;
        square_root = frame.square_root ∙ fits.square_root;
        seller_at = ap (λ row. read row i) frame.single_sellers ∙ fits.seller_at;
        buyer_at = frame.single_buyers i ne ∙ fits.buyer_at;
        key_count = fits.key_count;
        keys_long = fits.keys_long;
        keys_open = fits.keys_open;
        senders1_at = (frame.senders1 i ne ∙ fits.senders1_at.0, fits.senders1_at.1);
        senders2_at = (frame.senders2 i ne ∙ fits.senders2_at.0, fits.senders2_at.1);
        receivers1_at = (frame.receivers1 i ne ∙ fits.receivers1_at.0, fits.receivers1_at.1);
        receivers2_at = (frame.receivers2 i ne ∙ fits.receivers2_at.0, fits.receivers2_at.1);
        blank1 = fits.blank1;
        blank2 = fits.blank2;
        seller_rows = (
          omega arith,
          omega arith,
          omega arith,
          omega arith,
          omega arith,
          omega arith,
          omega arith,
        );
        buyer_rows = (omega arith, omega arith, omega arith, omega arith, omega arith);
      }
