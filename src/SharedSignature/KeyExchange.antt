-- ===== src/SharedSignature/KeyExchange.antt =====
-- Setting up the shared key: the parties agree on its public half.
use native.Mathlib.Nat
use zkfactorization.Prelude.{ℕ, ◌-◌, ◌*◌, ◌<◌, ◌≡◌, refl, sym, ap, ◌∙◌, arith}
use zkfactorization.Prelude.Result.{ok}
use zkfactorization.CryptoPp.{Random, Codec, ModArith, Curve}
use zkfactorization.SharedSignature.Group.{IsGroup, eq_true}
use zkfactorization.SharedSignature.Parties.{Seller, Buyer, init}

module _ (random : Random) (codec : Codec) (arithmetic : ModArith) {curve : Curve}
    (group : IsGroup curve) where
  open random use {Rng, integer, integer_range}
  open curve use {Point, multiply, generator, order, eq}

  -- The state of both parties after the key exchange.
  pub record IsKeyed (s : Seller Point) (b : Buyer Point) : Type 0 where
    pub ds_pos : 0 < s.ds
    pub ds_lt : s.ds < order
    pub db_pos : 0 < b.db
    pub db_lt : b.db < order
    pub seller_q : s.q ≡ multiply (s.ds * b.db) generator
    pub buyer_q : b.q ≡ multiply (s.ds * b.db) generator

  -- The exchange never fails: both parties hold the point of the product of their secrets, and each
  -- secret lies between 1 and the order minus 1.
  pub init-IsKeyed :
      (s : Seller Point) (b : Buyer Point) (rng : Rng)
      → (s' : Seller Point) × (b' : Buyer Point) × (rng' : Rng) × (init random codec arithmetic
            curve s b rng
          ≡ ok ((s', b'), rng'))
        × IsKeyed s' b'
        × (s'.paillier ≡ s.paillier)
        × (b'.paillier ≡ b.paillier)
  unfolding init
  init-IsKeyed s b rng =
      let first = integer 1 (order - 1) rng in
      let second = integer 1 (order - 1) first.1 in
      let big = group.order_big in
      let ds_range = integer_range 1 (order - 1) rng (omega arith) in
      let db_range = integer_range 1 (order - 1) first.1 (omega arith) in
      let qs = multiply first.0 generator in
      let qb = multiply second.0 generator in
      let seller_q : multiply first.0 qb ≡ multiply (first.0 * second.0) generator =
        group.multiply-multiply first.0 second.0 in
      let buyer_q : multiply second.0 qs ≡ multiply (first.0 * second.0) generator =
        group.multiply-multiply second.0 first.0
        ∙ ap (λ (t : ℕ). multiply t generator) (Nat.mul_comm second.0 first.0) in
      (
        record s { ds = first.0; qs = qs; qb = qb; q = multiply first.0 qb },
        record b { db = second.0; qb = qb; qs = qs; q = multiply second.0 qs },
        second.1,
        ground (
          arith,
          ap (λ p. eq p (multiply second.0 qs)) (seller_q ∙ sym buyer_q),
          eq_true group (multiply second.0 qs),
        ),
        record {
          ds_pos = omega arith;
          ds_lt = omega arith;
          db_pos = omega arith;
          db_lt = omega arith;
          seller_q = seller_q;
          buyer_q = buyer_q;
        },
        refl,
        refl,
      )
