-- ===== src/SellInformation/State.antt =====
-- The two parties of the sale.
use zkfactorization.Prelude.{ℕ, List, [], Bool, ◌*◌, replicate}
use zkfactorization.Prelude.Int.{ℤ, pos}
use zkfactorization.Prelude.Result.{Run, ok, bind}
use zkfactorization.CryptoPp.{ModArith, NumberTheory}
use zkfactorization.Bitcoin.{BitcoinUtils, seller_port}
use zkfactorization.ShaCommitment
use zkfactorization.ShaCommitment.{blank_sender, blank_receiver}
use zkfactorization.SquareRoot.{SquareRoot, new_square_root}
use zkfactorization.SignatureKey.{SingleSeller, SingleBuyer}

-- `class Seller`; a row for each of the R instances.
pub record Seller (Point : Type 0) : Type 0 where
  pub p : ℕ
  pub q : ℕ
  pub n : ℕ
  pub price : ℕ
  pub cheat : Bool
  pub square_root : SquareRoot
  pub y : List (List ℕ)
  pub r1 : List (List ℤ)
  pub r2 : List (List ℤ)
  pub c1 : List (List (List ℕ))
  pub c2 : List (List (List ℕ))
  pub address : List ℕ
  pub t1 : List ℕ
  pub t1_output_script : List ℕ
  pub original_t1_output_script : List ℕ
  pub t2 : List ℕ
  pub single_sellers : List (SingleSeller Point)
  pub d1 : List (List ShaCommitment.Sender)
  pub d2 : List (List ShaCommitment.Sender)

-- `class Buyer`; `p` and `q` are its results.
pub record Buyer (Point : Type 0) : Type 0 where
  pub n : ℕ
  pub seller_address : List ℕ
  pub t1 : List ℕ
  pub t1_output_script : List ℕ
  pub original_t1_output_script : List ℕ
  pub t2 : List ℕ
  pub t2_hash : List ℕ
  pub price : ℕ
  pub x : List (List ℕ)
  pub y : List (List ℕ)
  pub r : List ℕ
  pub indices : List (List ℕ)
  pub signatures : List (List ℕ)
  pub p : ℕ
  pub q : ℕ
  pub single_buyers : List (SingleBuyer Point)
  pub d1 : List (List ShaCommitment.Receiver)
  pub d2 : List (List ShaCommitment.Receiver)

module _ (arithmetic : ModArith) (theory : NumberTheory) (bitcoin : BitcoinUtils) (Point : Type 0)
    (r l : ℕ) where
  -- `Seller::Seller`, which asks for an address
  unfoldable pub new_seller : ℕ → ℕ → ℕ → Bool → Run bitcoin.World (Seller Point)
  new_seller p q price cheat world = bind (bitcoin.fresh_address seller_port world) λ fresh. ok (
    record {
      p = p;
      q = q;
      n = p * q;
      price = price;
      cheat = cheat;
      square_root = new_square_root arithmetic theory p q;
      y = replicate r (replicate l 0);
      r1 = replicate r (replicate l (pos 0));
      r2 = replicate r (replicate l (pos 0));
      c1 = replicate r (replicate l []);
      c2 = replicate r (replicate l []);
      address = fresh.0;
      t1 = [];
      t1_output_script = [];
      original_t1_output_script = [];
      t2 = [];
      single_sellers = [];
      d1 = replicate r (replicate l blank_sender);
      d2 = replicate r (replicate l blank_sender);
    },
    fresh.1,
  )

  -- `Buyer::Buyer`
  unfoldable pub new_buyer : ℕ → ℕ → Buyer Point
  new_buyer n price = record {
    n = n;
    seller_address = [];
    t1 = [];
    t1_output_script = [];
    original_t1_output_script = [];
    t2 = [];
    t2_hash = [];
    price = price;
    x = replicate r (replicate l 0);
    y = replicate r (replicate l 0);
    r = [];
    indices = replicate r [];
    signatures = replicate r [];
    p = 0;
    q = 0;
    single_buyers = [];
    d1 = replicate r (replicate l blank_receiver);
    d2 = replicate r (replicate l blank_receiver);
  }
