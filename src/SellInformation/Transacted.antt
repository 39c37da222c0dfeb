-- ===== src/SellInformation/Transacted.antt =====
-- What the buyer's transactions are, and what making them leaves as it was.
use zkfactorization.Prelude.{ℕ, arith, ◌≡◌, ◌≢◌, refl, sym, ap, subst, ◌∙◌, List, not, ◌==◌, length}
use zkfactorization.Prelude.Int.{ℤ}
use zkfactorization.Prelude.Result.{
  ok, protocol, bind-eq-ok, ok-injective, from_result, require, require-holds, require-same,
  from_result-eq-ok,
}
use zkfactorization.Libraries.{Libraries}
use zkfactorization.Bitcoin.{buyer_port}
use zkfactorization.SignatureKey.{SingleSeller, SingleBuyer}
use zkfactorization.SellInformation.Operations.{buyer_keys, coordinates, create_t1_and_t2}
use zkfactorization.SellInformation.Exec.{new_singles, exchange_keys}
use zkfactorization.SellInformation.State.{Buyer}

module _ (libraries : Libraries) (past : ℕ → ℤ) (fuel t r l k : ℕ) where
  open libraries use {random, codec, sha, ofb, arithmetic, curve, bitcoin}
  open random use {Rng}
  open bitcoin use {World}
  open curve use {Point}

  -- What the buyer has for the second cut and choose.
  pub record SameRows (b b' : Buyer Point) : Type 0 where
    pub n : b'.n ≡ b.n
    pub x : b'.x ≡ b.x
    pub y : b'.y ≡ b.y
    pub indices : b'.indices ≡ b.indices
    pub d1 : b'.d1 ≡ b.d1
    pub d2 : b'.d2 ≡ b.d2

  -- The buyer's transactions: T1 pays the price to the joint keys, T2 spends T1 to the seller's address,
  -- and the hash is that of T2. Each is what the client answered.
  pub record Transacted (b : Buyer Point) : Type 0 where
    pub keys : List Point
    pub w₁ : World
    pub w₂ : World
    pub w₃ : World
    pub w₄ : World
    pub taken : buyer_keys libraries r l b ≡ ok keys
    pub pays :
        bitcoin.create_send buyer_port
          (coordinates libraries r l curve.x keys)
          (coordinates libraries r l curve.y keys)
          b.price
          w₁
        ≡ ok (
          record {
            tx = b.t1;
            original_script = b.original_t1_output_script;
            script = b.t1_output_script;
          },
          w₂,
        )
    pub some_t1 : length b.t1 ≢ 0
    pub spends :
        bitcoin.create_send_transaction_to_address buyer_port b.t1
          (coordinates libraries r l curve.x keys)
          (coordinates libraries r l curve.y keys)
          b.seller_address
          w₂
        ≡ ok (b.t2, w₃)
    pub hashes :
        bitcoin.hash_for_signature buyer_port b.t2
          (coordinates libraries r l curve.x keys)
          (coordinates libraries r l curve.y keys)
          b.original_t1_output_script
          w₃
        ≡ ok (b.t2_hash, w₄)

  -- The instances are the copies that `exec` made, after their key exchanges.
  pub record Exchanged (singles : List (SingleSeller Point) × List (SingleBuyer Point))
      : Type 0 where
    pub hash : List ℕ
    pub start : Rng
    pub between : Rng
    pub end : Rng
    pub blank : List (SingleSeller Point) × List (SingleBuyer Point)
    pub copies : new_singles libraries past fuel t r l k hash start ≡ ok (blank, between)
    pub exchanges :
        exchange_keys libraries past fuel t r l k blank.0 blank.1 between ≡ ok (singles, end)

  pub create_t1_and_t2-r :
      (b : Buyer Point) (w : World) {done : Buyer Point × World}
      → create_t1_and_t2 libraries r l b w ≡ ok done
      → (done.0.r ≡ b.r) × SameRows b done.0 × Transacted done.0
  unfolding create_t1_and_t2 buyer_keys
  create_t1_and_t2-r b w h =
      let (keys, e₁, h₁) = bind-eq-ok (from_result (buyer_keys libraries r l b) w) _ h in
      let xs = coordinates libraries r l curve.x keys.0 in
      let ys = coordinates libraries r l curve.y keys.0 in
      let (out, e₂, h₂) = bind-eq-ok (bitcoin.create_send buyer_port xs ys b.price keys.1) _ h₁ in
      let (filled, e₃, h₃) =
        bind-eq-ok (require (not (length out.0.tx == 0)) (protocol "T1 is empty") out.1) _ h₂ in
      let (t2, e₄, h₄) =
        bind-eq-ok
          (bitcoin.create_send_transaction_to_address buyer_port out.0.tx xs ys b.seller_address
            filled.1)
          _ h₃ in
      let (hash, e₅, h₅) =
        bind-eq-ok (bitcoin.hash_for_signature buyer_port t2.0 xs ys out.0.original_script t2.1) _
          h₄ in
      let filled_tx =
        require-holds (not (length out.0.tx == 0)) (protocol "T1 is empty") out.1 e₃ in
      let same_world : filled.1 ≡ out.1 =
        require-same (not (length out.0.tx == 0)) (protocol "T1 is empty") out.1 e₃ in
      subst (λ (x : Buyer Point × World). (x.0.r ≡ b.r) × SameRows b x.0 × Transacted x.0)
        (ok-injective h₅)
        (
          refl,
          record { n = refl; x = refl; y = refl; indices = refl; d1 = refl; d2 = refl },
          record {
            keys = keys.0;
            w₁ = keys.1;
            w₂ = out.1;
            w₃ = t2.1;
            w₄ = hash.1;
            taken = from_result-eq-ok (buyer_keys libraries r l b) w e₁;
            pays = e₂;
            some_t1 = ground arith;
            spends =
                ap
                  (λ (v : World).
                    bitcoin.create_send_transaction_to_address buyer_port out.0.tx xs ys
                      b.seller_address v)
                  (sym same_world)
                ∙ e₄;
            hashes = e₅;
          },
        )
