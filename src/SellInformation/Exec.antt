-- ===== src/SellInformation/Exec.antt =====
-- `SellInformationProtocol::exec` up to the buyer's wait at its end, which is in
-- SellInformation/Race.antt. The single parties hold a pointer to the buyer's `T2_hash`: where the
-- buyer writes it, the model writes it to all of them. `SellInformationProtocol::open` is empty.
use zkfactorization.Prelude.{ℕ, zero, suc, ◌+◌, List, [], ◌∷◌, ◌++◌, map, replicate}
use zkfactorization.Prelude.Int.{ℤ, pos, negsuc}
use zkfactorization.Prelude.Result.{
  Run, ok, undefined, protocol, bind, ◌>>=◌, ◌>>◌, from_result, require, pure, on_first, on_second,
}
use zkfactorization.Libraries.{Libraries}
use zkfactorization.Paillier.{get_n, get_g}
use zkfactorization.CutAndChoose.{cut_and_choose}
use zkfactorization.TimedCommitment.{new_commiter, blank_commitment}
use zkfactorization.SharedSignature.Parties
use zkfactorization.SignatureKey.{SingleSeller, SingleBuyer, new_single_seller, new_single_buyer}
use zkfactorization.SignatureKey.Honest.{signature_key_protocol}
use zkfactorization.SellInformation.Draws.{pick_r}
use zkfactorization.SellInformation.Operations.{
  first_r, create_t1_and_t2, verify_t2_signature, make_payment, accept_t1, accept_payment,
}
use zkfactorization.SellInformation.Protocol.{read_all, exchange}
use zkfactorization.SellInformation.State.{Seller, Buyer}

module _ (libraries : Libraries) (past : ℕ → ℤ) (fuel t r l k : ℕ) where
  open libraries use {random, codec, sha, ofb, arithmetic, curve, bitcoin}
  open random use {Rng}
  open bitcoin use {World}
  open curve use {Point}

  -- The instances before they run: `T` copies of one seller and of one buyer.
  unfoldable pub new_singles :
      List ℕ → Run Rng (List (SingleSeller Point) × List (SingleBuyer Point))
  unfolding new_single_seller new_single_buyer
  new_singles hash rng₀ =
      let (signer, rng₁) = Parties.new_seller random codec arithmetic curve rng₀ in
      bind (get_n signer.paillier) λ n. bind (get_g signer.paillier) λ g.
        bind (Parties.new_buyer random codec arithmetic curve n g) λ cosigner.
          bind (new_commiter random ofb arithmetic blank_commitment rng₁) λ commiter. ok (
            (
              replicate t (new_single_seller l signer hash commiter.0),
              replicate t (new_single_buyer l cosigner hash),
            ),
            commiter.1,
          )

  -- The loop of key exchanges.
  unfoldable pub exchange_keys :
      List (SingleSeller Point)
      → List (SingleBuyer Point)
      → Run Rng (List (SingleSeller Point) × List (SingleBuyer Point))
  exchange_keys [] buyers rng = ok (([], buyers), rng)
  exchange_keys (s ∷ sellers) [] rng = undefined
  exchange_keys (s ∷ sellers) (b ∷ buyers) rng =
      bind
        (Parties.init random codec arithmetic curve s.shared_signature_s b.shared_signature_b rng)
        λ keyed. bind (exchange_keys sellers buyers keyed.1) λ rest. ok (
          (
            record s { shared_signature_s = keyed.0.0 } ∷ rest.0.0,
            record b { shared_signature_b = keyed.0.1 } ∷ rest.0.1,
          ),
          rest.1,
        )

  -- What the pointers show once `T2_hash` is written.
  unfoldable pub show_hash :
      List ℕ
      → List (SingleSeller Point) × List (SingleBuyer Point)
      → List (SingleSeller Point) × List (SingleBuyer Point)
  show_hash hash singles = (
    map {A = SingleSeller Point} (λ single. record single { t2_hash = hash }) singles.0,
    map {A = SingleBuyer Point} (λ single. record single { t2_hash = hash }) singles.1,
  )

  -- The transactions and the first cut and choose: the instances after it, and the buyer.
  unfoldable pub challenge :
      List (SingleSeller Point) × List (SingleBuyer Point)
      → Buyer Point
      → Run (Rng × World) ((List (SingleSeller Point) × List (SingleBuyer Point)) × Buyer Point)
  unfolding show_hash
  challenge singles b = do
    b₁ ← on_second (create_t1_and_t2 libraries r l b)
    let ready = show_hash b₁.t2_hash singles
    ran ← on_first (
        cut_and_choose (signature_key_protocol random codec sha ofb arithmetic curve l k) past t r
          ready.0 ready.1 (map pos b.r) (negsuc 0))
    require ran.2 (protocol "Generating signatures and keys failed!")
    pure ((ran.0, ran.1), b₁)

  -- All up to the first cut and choose.
  unfoldable pub agree :
      List ℕ
      → Buyer Point
      → Run (Rng × World) ((List (SingleSeller Point) × List (SingleBuyer Point)) × Buyer Point)
  unfolding new_singles exchange_keys challenge
  agree address b = do
    blank ← on_first (new_singles b.t2_hash)
    singles ← on_first (exchange_keys blank.0 blank.1)
    chosen ← on_first (pick_r random fuel t r)
    used ← from_result (first_r r chosen)
    picked ← from_result (read_all singles.1 used)
    challenge singles (record b {
      r = chosen;
      single_buyers = b.single_buyers ++ picked;
      seller_address = address;
    })

  -- What the parties keep of the first cut and choose, and the seller's check of the payment.
  unfoldable pub keep :
      Seller Point
      → Buyer Point
      → List (SingleSeller Point) × List (SingleBuyer Point)
      → Run World (Seller Point × Buyer Point)
  keep s b singles = do
    used ← from_result (first_r r b.r)
    sellers ← from_result (read_all singles.0 used)
    buyers ← from_result (read_all singles.1 used)
    s₁ ← verify_t2_signature libraries r l (record s {
      single_sellers = s.single_sellers ++ sellers;
      t1_output_script = b.t1_output_script;
      original_t1_output_script = b.original_t1_output_script;
      t2 = b.t2;
    })
    pure (s₁, record b { single_buyers = buyers })

  -- The loop over the R instances from `j` on, `left` of them.
  unfoldable pub exchange_all :
      ℕ → ℕ → Seller Point → Buyer Point → Run Rng (Seller Point × Buyer Point)
  unfolding exchange
  exchange_all zero j s b rng = ok ((s, b), rng)
  exchange_all (suc left) j s b rng =
      bind (exchange libraries past fuel t r l k j s b rng)
        λ done. exchange_all left (j + 1) done.0.0 done.0.1 done.1

  unfoldable pub exec_before_wait :
      Seller Point → Buyer Point → Run (Rng × World) (Seller Point × Buyer Point)
  unfolding agree keep exchange_all
  exec_before_wait s b = do
    agreed ← agree s.address b
    kept ← on_second (keep s agreed.1 agreed.0)
    shown ← on_first (exchange_all r 0 kept.0 kept.1)
    paid ← on_second (make_payment libraries r l shown.1)
    s₁ ← on_second (accept_t1 libraries r l shown.1.t1 shown.0)
    accepted ← on_second (accept_payment libraries r l s₁)
    pure (s₁, shown.1)
