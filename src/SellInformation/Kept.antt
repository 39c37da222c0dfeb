-- ===== src/SellInformation/Kept.antt =====
-- What the second cut and choose of `SellInformationProtocol::exec` starts from.
use zkfactorization.Prelude.{
  ℕ, ◌*◌, ◌≡◌, refl, sym, ap, subst, ◌∙◌, List, [], ◌++◌, map, replicate, length-replicate, length,
  not, ◌==◌, Bool,
}
use zkfactorization.Prelude.Int.{ℤ}
use zkfactorization.Prelude.Result.{
  ok, protocol, bind-eq-ok, ok-injective, from_result, from_result-eq-ok, require,
}
use zkfactorization.Libraries.{Libraries}
use zkfactorization.Bitcoin.{seller_port}
use zkfactorization.ShaCommitment.{blank_sender}
use zkfactorization.SquareRoot.{new_square_root}
use zkfactorization.SignatureKey.{SingleSeller, SingleBuyer}
use zkfactorization.SellInformation.Operations.{
  first_r, seller_keys, coordinates, numbers, verify_t2_signature,
}
use zkfactorization.SellInformation.Protocol.{read_all}
use zkfactorization.SellInformation.Exec.{keep}
use zkfactorization.SellInformation.State.{Seller, Buyer, new_seller}
use zkfactorization.SellInformation.Reads.{first_r-all}

module _ (libraries : Libraries) (past : ℕ → ℤ) (fuel t r l k : ℕ) where
  open libraries use {random, codec, sha, ofb, arithmetic, theory, curve, bitcoin}
  open bitcoin use {World}
  open curve use {Point}

  -- A seller that has not yet taken part.
  pub record NewSeller (p q : ℕ) (s : Seller Point) : Type 0 where
    pub n : s.n ≡ p * q
    pub square_root : s.square_root ≡ new_square_root arithmetic theory p q
    pub single_sellers : s.single_sellers ≡ []
    pub d1 : s.d1 ≡ replicate r (replicate l blank_sender)
    pub d2 : s.d2 ≡ replicate r (replicate l blank_sender)
    pub rows :
        (length s.y ≡ r)
        × (length s.r1 ≡ r)
        × (length s.r2 ≡ r)
        × (length s.c1 ≡ r)
        × (length s.c2 ≡ r)

  pub new_seller-NewSeller :
      (p q price : ℕ) (cheat : Bool) (w : World) {made : Seller Point × World}
      → new_seller arithmetic theory bitcoin Point r l p q price cheat w ≡ ok made
      → NewSeller p q made.0
  unfolding new_seller
  new_seller-NewSeller p q price cheat w h =
      let (fresh, e, h₁) = bind-eq-ok (bitcoin.fresh_address seller_port w) _ h in
      subst (λ (x : Seller Point × World). NewSeller p q x.0) (ok-injective h₁)
        (record {
          n = refl;
          square_root = refl;
          single_sellers = refl;
          d1 = refl;
          d2 = refl;
          rows = (
            length-replicate r _,
            length-replicate r _,
            length-replicate r _,
            length-replicate r _,
            length-replicate r _,
          );
        })

  -- The instances that the parties keep.
  pub record Kept (s : Seller Point) (b : Buyer Point)
      (singles : List (SingleSeller Point) × List (SingleBuyer Point)) (s' : Seller Point)
      (b' : Buyer Point) : Type 0 where
    pub sellers : List (SingleSeller Point)
    pub buyers : List (SingleBuyer Point)
    pub t2 : List ℕ
    pub reads_sellers : read_all singles.0 b.r ≡ ok sellers
    pub reads_buyers : read_all singles.1 b.r ≡ ok buyers
    pub seller : s' ≡ record s {
      single_sellers = s.single_sellers ++ sellers;
      t1_output_script = b.t1_output_script;
      original_t1_output_script = b.original_t1_output_script;
      t2 = t2;
    }
    pub buyer : b' ≡ record b { single_buyers = buyers }

  verify_t2_signature-t2 :
      (s : Seller Point) (w : World) {done : Seller Point × World}
      → verify_t2_signature libraries r l s w ≡ ok done
      → (t2 : List ℕ) × (done.0 ≡ record s { t2 = t2 })
  unfolding verify_t2_signature
  verify_t2_signature-t2 s w h =
      let (keys, e₁, h₁) = bind-eq-ok (from_result (seller_keys libraries r l s) w) _ h in
      let (singles, e₂, h₂) = bind-eq-ok (from_result (first_r r s.single_sellers) keys.1) _ h₁ in
      let signed =
        map (λ (x : SingleSeller Point). (x.shared_signature_s.r, x.shared_signature_s.s))
          singles.0 in
      let (transaction, e₃, h₃) =
        bind-eq-ok
          (bitcoin.get_signed_transaction seller_port s.t2
            (coordinates libraries r l curve.x keys.0) (coordinates libraries r l curve.y keys.0)
            (numbers libraries r l (λ rs. rs.0) signed) (numbers libraries r l (λ rs. rs.1) signed)
            s.t1_output_script s.original_t1_output_script singles.1)
          _ h₂ in
      let (guard, e₄, h₄) =
        bind-eq-ok
          (require (not (length transaction.0 == 0))
            (protocol "verify T2 signature in bitcoinj failed") transaction.1)
          _ h₃ in
      (transaction.0, sym (ap (λ (x : Seller Point × World). x.0) (ok-injective h₄)))

  pub keep-Kept :
      (s : Seller Point) (b : Buyer Point)
      (singles : List (SingleSeller Point) × List (SingleBuyer Point)) (w : World)
      {done : (Seller Point × Buyer Point) × World}
      → length b.r ≡ r
      → keep libraries past fuel t r l k s b singles w ≡ ok done
      → Kept s b singles done.0.0 done.0.1
  unfolding keep
  keep-Kept s b singles w long h =
      let (used, e₁, h₁) = bind-eq-ok (from_result (first_r r b.r) w) _ h in
      let (sellers, e₂, h₂) = bind-eq-ok (from_result (read_all singles.0 used.0) used.1) _ h₁ in
      let (buyers, e₃, h₃) = bind-eq-ok (from_result (read_all singles.1 used.0) sellers.1) _ h₂ in
      let all : used.0 ≡ b.r = ok-injective (
        sym (from_result-eq-ok (first_r r b.r) w e₁)
        ∙ subst (λ m. first_r m b.r ≡ ok b.r) long (first_r-all b.r)) in
      let (s₁, e₄, h₄) =
        bind-eq-ok
          (verify_t2_signature libraries r l
            (record s {
              single_sellers = s.single_sellers ++ sellers.0;
              t1_output_script = b.t1_output_script;
              original_t1_output_script = b.original_t1_output_script;
              t2 = b.t2;
            })
            buyers.1)
          _ h₃ in
      let (t2, same) =
        verify_t2_signature-t2
          (record s {
            single_sellers = s.single_sellers ++ sellers.0;
            t1_output_script = b.t1_output_script;
            original_t1_output_script = b.original_t1_output_script;
            t2 = b.t2;
          })
          buyers.1 e₄ in
      subst (λ (x : (Seller Point × Buyer Point) × World). Kept s b singles x.0.0 x.0.1)
        (ok-injective h₄)
        (record {
          sellers = sellers.0;
          buyers = buyers.0;
          t2 = t2;
          reads_sellers =
              subst (λ row. read_all singles.0 row ≡ ok sellers.0) all
                (from_result-eq-ok (read_all singles.0 used.0) used.1 e₂);
          reads_buyers =
              subst (λ row. read_all singles.1 row ≡ ok buyers.0) all
                (from_result-eq-ok (read_all singles.1 used.0) sellers.1 e₃);
          seller = same;
          buyer = refl;
        })
