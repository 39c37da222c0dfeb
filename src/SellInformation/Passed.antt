-- ===== src/SellInformation/Passed.antt =====
-- The instances that new parties keep are ready for the second cut and choose.
use zkfactorization.Prelude.{
  ℕ, ◌*◌, ◌<◌, ◌≡◌, refl, sym, ap, subst, ◌∙◌, List, [], ◌++◌, map, replicate, length-replicate,
  replicate-All, length, arith,
}
use zkfactorization.Prelude.Int.{ℤ, pos}
use zkfactorization.Prelude.Result.{ok}
use zkfactorization.Libraries.{Libraries}
use zkfactorization.ShaCommitment.{blank_sender, blank_receiver}
use zkfactorization.SignatureKey.{SingleSeller, SingleBuyer}
use zkfactorization.SignatureKey.Honest.{signature_key_protocol}
use zkfactorization.SellInformation.{read}
use zkfactorization.SellInformation.Protocol.{read_all}
use zkfactorization.SellInformation.Exec.{show_hash}
use zkfactorization.SellInformation.State.{Seller, Buyer, new_buyer}
use zkfactorization.SellInformation.Reads.{read-ok, read-replicate}
use zkfactorization.SellInformation.Sized.{show_hash-Sized}
use zkfactorization.SellInformation.Executed.{Executed, Executed-long, run_all-Executed}
use zkfactorization.SellInformation.Handed.{
  Fates-chosen, contains-read, Strict-read, read_all-reads,
}
use zkfactorization.SellInformation.Agreed.{Agreed}
use zkfactorization.SellInformation.Transacted.{SameRows}
use zkfactorization.SellInformation.Fits.{Fits}
use zkfactorization.SellInformation.Kept.{NewSeller, Kept}

module _ (libraries : Libraries) (past : ℕ → ℤ) (fuel t r l k : ℕ) where
  open libraries use {random, codec, sha, ofb, arithmetic, theory, curve, bitcoin}
  open bitcoin use {World}
  open curve use {Point}

  -- An instance that both parties keep: ready for a round, and with the keys of its signature.
  pub record Passed (p q i : ℕ) (s : Seller Point) (b : Buyer Point) : Type 0 where
    pub fits : Fits libraries past fuel t r l k p q i s b
    pub executed : Executed libraries past l k fits.single_s fits.single_b

  -- A picked instance is one that both parties executed.
  picked-Executed :
      (b : Buyer Point) (singles : List (SingleSeller Point) × List (SingleBuyer Point))
      (sellers : List (SingleSeller Point)) (buyers : List (SingleBuyer Point)) (i : ℕ)
      → Agreed libraries past fuel t r l k b singles.0 singles.1
      → read_all singles.0 b.r ≡ ok sellers
      → read_all singles.1 b.r ≡ ok buyers
      → i < r
      → (x : SingleSeller Point) × (y : SingleBuyer Point) × (read sellers i ≡ ok x)
        × (read buyers i ≡ ok y)
        × Executed libraries past l k x y
  picked-Executed b singles sellers buyers i agreed all_s all_b lt =
      let proto = signature_key_protocol random codec sha ofb arithmetic curve l k in
      let (ascends, long) = agreed.picked in
      let (ix, at) = read-ok b.r i (omega arith) in
      let (x, x_in, x_at) = read_all-reads singles.0 b.r i all_s at in
      let (y, y_in, y_at) = read_all-reads singles.1 b.r i all_b at in
      let below = Strict-read t 0 b.r i ascends at in
      let (x_ran, y_ran) =
        Fates-chosen proto past (map pos b.r) t 0 agreed.ran.0.0 agreed.ran.0.1 singles.0 singles.1
          agreed.fates ix ix below (omega arith) (contains-read b.r i at) x_in y_in in
      let shown = show_hash libraries past fuel t r l k b.t2_hash agreed.singles in
      let (sized_s, sized_b) =
        show_hash-Sized libraries past fuel t r l k b.t2_hash agreed.singles agreed.sized in
      (
        x,
        y,
        x_at,
        y_at,
        run_all-Executed libraries past l k t shown.0 shown.1 agreed.before sized_s sized_b
            agreed.runs ix x y below x_ran y_ran,
      )

  row-lt :
      {A : Type 0} (i : ℕ) (row : List A) (a : A) → row ≡ replicate r a → i < r → i < length row
  row-lt i row a same lt = let long = ap length same ∙ length-replicate r a in omega arith

  row-read :
      {A : Type 0} (i : ℕ) (row : List A) (a : A) → row ≡ replicate r a → i < r → read row i ≡ ok a
  row-read i row a same lt = ap (λ x. read x i) same ∙ read-replicate r i a lt

  -- Of parties that were new, each instance that they keep is ready for the second cut and choose.
  pub keep-Passed :
      (p q price i : ℕ) (s : Seller Point) (b : Buyer Point)
      (singles : List (SingleSeller Point) × List (SingleBuyer Point)) (s' : Seller Point)
      (b' : Buyer Point)
      → NewSeller libraries past fuel t r l k p q s
      → SameRows libraries past fuel t r l k
          (new_buyer arithmetic theory bitcoin Point r l (p * q) price)
          b
      → Agreed libraries past fuel t r l k b singles.0 singles.1
      → Kept libraries past fuel t r l k s b singles s' b'
      → i < r
      → Passed p q i s' b'
  unfolding new_buyer
  keep-Passed p q price i s b singles s' b' new rows agreed kept lt =
      let (x, y, x_at, y_at, executed) =
        picked-Executed b singles kept.sellers kept.buyers i agreed kept.reads_sellers
          kept.reads_buyers lt in
      let (y_row, r1_row, r2_row, c1_row, c2_row) = new.rows in
      let passed : Passed p q i
          (record s {
            single_sellers = s.single_sellers ++ kept.sellers;
            t1_output_script = b.t1_output_script;
            original_t1_output_script = b.original_t1_output_script;
            t2 = kept.t2;
          })
          (record b { single_buyers = kept.buyers }) =
        record {
          fits = record {
            single_s = x;
            single_b = y;
            senders1 = replicate l blank_sender;
            senders2 = replicate l blank_sender;
            receivers1 = replicate l blank_receiver;
            receivers2 = replicate l blank_receiver;
            seller_n = new.n;
            buyer_n = rows.n;
            square_root = new.square_root;
            seller_at = ap (λ row. read (row ++ kept.sellers) i) new.single_sellers ∙ x_at;
            buyer_at = y_at;
            key_count = executed.count;
            keys_long = Executed-long libraries past l k x y executed;
            keys_open = executed.opens;
            senders1_at = (row-read i s.d1 _ new.d1 lt, length-replicate l blank_sender);
            senders2_at = (row-read i s.d2 _ new.d2 lt, length-replicate l blank_sender);
            receivers1_at = (row-read i b.d1 _ rows.d1 lt, length-replicate l blank_receiver);
            receivers2_at = (row-read i b.d2 _ rows.d2 lt, length-replicate l blank_receiver);
            blank1 = replicate-All (λ rc. rc.m ≡ []) l blank_receiver refl;
            blank2 = replicate-All (λ rc. rc.m ≡ []) l blank_receiver refl;
            seller_rows = (
              omega arith,
              omega arith,
              omega arith,
              omega arith,
              omega arith,
              row-lt i s.d1 _ new.d1 lt,
              row-lt i s.d2 _ new.d2 lt,
            );
            buyer_rows = (
              row-lt i b.x _ rows.x lt,
              row-lt i b.y _ rows.y lt,
              row-lt i b.indices _ rows.indices lt,
              row-lt i b.d1 _ rows.d1 lt,
              row-lt i b.d2 _ rows.d2 lt,
            );
          };
          executed = executed;
        } in
      subst (λ b″. Passed p q i s' b″) (sym kept.buyer)
        (subst (λ s″. Passed p q i s″ (record b { single_buyers = kept.buyers })) (sym kept.seller)
          passed)
