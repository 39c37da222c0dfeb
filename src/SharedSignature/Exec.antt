-- ===== src/SharedSignature/Exec.antt =====
-- The steps of `SharedSignature::exec`, one lemma for each party's method, and what they make
-- together.
use native.Mathlib.Nat
use zkfactorization.Prelude.{
  ℕ, ◌+◌, ◌-◌, ◌*◌, ◌%◌, ◌<◌, ◌≡◌, ◌≢◌, refl, sym, ap, ◌∙◌, arith, true, false, ◌==◌,
}
use zkfactorization.Prelude.Result.{ok}
use zkfactorization.CryptoPp.{Random, Codec, ModArith, Curve}
use zkfactorization.Paillier.{Paillier, client_key, dec}
use zkfactorization.Paillier.Ciphertext.{IsPrivate, Encrypts}
use zkfactorization.Paillier.Homomorphic.{enc-Encrypts, dec-Encrypts}
use zkfactorization.SharedSignature.Equations.{signature_value, unit-mul, unit-ne-zero}
use zkfactorization.SharedSignature.Group.{IsGroup}
use zkfactorization.SharedSignature.Verify.{hash_m_to_int, verify}
use zkfactorization.SharedSignature.Parties.{
  Seller, Buyer, get_data, start_sig, cont_sig, low_s, finish_sig, exec, reveal,
}
use zkfactorization.SharedSignature.Recover.{inverse_lem}
use zkfactorization.SharedSignature.KeyExchange.{IsKeyed}
use zkfactorization.SharedSignature.HalfSignature.{
  wide_enough, Vanishing, half_signature-Encrypts, small_lt,
}
use zkfactorization.SharedSignature.Signing.{verify-low_s}

module _ (random : Random) (codec : Codec) (arithmetic : ModArith) {curve : Curve}
    (group : IsGroup curve) {k : Paillier} (key : IsPrivate k) where
  open random use {Rng, integer, integer_range}
  open curve use {Point, multiply, generator, order, x, byte_count}
  open arithmetic use {a_times_b_mod_c, inverse_mod, times_eq}

  get_data-hash :
      (s : Seller Point) {z : ℕ}
      → hash_m_to_int codec s.message byte_count ≡ ok z
      → get_data random codec arithmetic curve s ≡ ok s.message
  unfolding get_data hash_m_to_int
  get_data-hash s h = ground arith

  -- What the buyer's ciphertext hides.
  abbrev pub half : (kb r z ds db u : ℕ) → ℕ
  half kb r z ds db u =
      let inv = inverse_mod kb order in
      inv * z % order + ds * (inv * r % order * db % order) + u * order

  finish_sig_lem :
      (s : Seller Point) (r cb plain : ℕ) {z : ℕ}
      → hash_m_to_int codec s.message byte_count ≡ ok z
      → dec random arithmetic s.paillier cb ≡ ok plain
      → let s0 = inverse_mod s.ks order * (plain % order) % order in
        s0 ≢ 0
        → verify codec arithmetic curve s.q s.message r (low_s random codec arithmetic curve s0)
          ≡ ok true
        → finish_sig random codec arithmetic curve s r cb
          ≡ ok (record s { r = r; s = low_s random codec arithmetic curve s0 })
  unfolding finish_sig
  finish_sig_lem s r cb plain hash plain_eq ne passes =
      let big = group.order_big in
      rw plain_eq (
        rw (times_eq (inverse_mod s.ks order) (plain % order) order (omega arith))
          (rw (get_data-hash s hash) (rw passes (ground (arith)))))

  module _ (wide : 2 * order * order * order * order < k.n)
      (vanishing : Vanishing random codec arithmetic curve key) where
    start_sig_lem :
        (s : Seller Point) (rng : Rng)
        → s.paillier ≡ k
        → s.ds < order
        → let first = integer 1 (order - 1) rng in
          (c : ℕ) × (start_sig random codec arithmetic curve s rng
            ≡ ok (
              record s { ks = first.0; ks_point = multiply first.0 generator; cs = c },
              (integer 1 k.n first.1).1,
            ))
          × Encrypts k s.ds c
    unfolding start_sig
    start_sig_lem s rng same lt =
        let first = integer 1 (order - 1) rng in
        let below =
          small_lt random codec arithmetic curve key group.order_big wide vanishing s.ds lt in
        let (c, e, h) = enc-Encrypts random arithmetic key s.ds first.1 below (vanishing first.1) in
        (c, rw same (rw e refl), h)

    cont_sig_lem :
        (b : Buyer Point) (ks cs z ds : ℕ) (rng : Rng)
        → b.paillier ≡ client_key k.n k.g
        → hash_m_to_int codec b.message byte_count ≡ ok z
        → Encrypts k ds cs
        → let kb = (integer 1 (order - 1) rng).0 in
          let r = x (multiply (kb * ks) generator) in
          0 < r
          → r < order
          → (c : ℕ) × (u : ℕ) × (rng' : Rng) × (cont_sig random codec arithmetic curve b
                (multiply ks generator)
                cs
                b.message
                rng
              ≡ ok (
                record b { kb = kb; k_point = multiply kb (multiply ks generator); r = r; cb = c },
                rng',
              ))
            × (u < order * order)
            × Encrypts k (half kb r z ds b.db u) c
    unfolding cont_sig
    cont_sig_lem b ks cs z ds rng client hash secret r_pos r_lt =
        let (kb, rng₁) = integer 1 (order - 1) rng in
        let r = x (multiply (kb * ks) generator) in
        let point : x (multiply kb (multiply ks generator)) % order ≡ r =
          ap (λ p. x p % order) (group.multiply-multiply kb ks) ∙ Nat.mod-eq_of_lt r_lt in
        let nonzero : (r == 0) ≡ false = ground arith in
        let (c, u, rng', e, u_lt, h) =
          half_signature-Encrypts random codec arithmetic curve key group.order_big wide vanishing b
            kb r z ds cs rng₁ client secret in
        (c, u, rng', rw point (rw nonzero (rw hash (rw e refl))), u_lt, h)

    nonzero : (t m v : ℕ) → t * m % order ≡ v % order → v % order ≢ 0 → t ≢ 0
    nonzero t m v e ne zero_t = ne (
        sym e
        ∙ ap (λ (a : ℕ). a * m % order) zero_t
        ∙ ap (λ (a : ℕ). a % order) (Nat.zero-mul m)
        ∙ Nat.zero-mod order)

    secret_ne :
        (s : Seller Point) (b : Buyer Point)
        → IsKeyed random codec arithmetic group s b
        → s.ds * b.db % order ≢ 0
    secret_ne s b keyed = unit-ne-zero order group.order_big (s.ds * b.db) _ (
        unit-mul order group.order_big s.ds _ b.db _
          (inverse_lem codec arithmetic group s.ds keyed.ds_pos keyed.ds_lt)
          (inverse_lem codec arithmetic group b.db keyed.db_pos keyed.db_lt))

    half_lt : (kb r z ds db u : ℕ) → ds < order → u < order * order → half kb r z ds db u < k.n
    half_lt kb r z ds db u ds_lt u_lt =
        let big = group.order_big in
        wide_enough order k.n _ ds _ u big wide (Nat.mod-lt _ (omega arith)) ds_lt
          (Nat.mod-lt _ (omega arith)) u_lt

    -- The seller's last step on the buyer's ciphertext, and the check on the buyer's side.
    finish_signs :
        (s : Seller Point) (b : Buyer Point) (kb r z u c : ℕ)
        → IsKeyed random codec arithmetic group s b
        → s.paillier ≡ k
        → s.message ≡ b.message
        → hash_m_to_int codec b.message byte_count ≡ ok z
        → (0 < s.ks) × (s.ks < order)
        → (0 < kb) × (kb < order)
        → x (multiply (kb * s.ks) generator) ≡ r
        → 0 < r
        → r < order
        → (z + r * (s.ds * b.db)) % order ≢ 0
        → u < order * order
        → Encrypts k (half kb r z s.ds b.db u) c
        → (low : ℕ) × (finish_sig random codec arithmetic curve s r c
            ≡ ok (record s { r = r; s = low }))
          × (verify codec arithmetic curve b.q b.message r low ≡ ok true)
    finish_signs s b kb r z u c keyed same common hash ks_range kb_range point r_pos r_lt ne u_lt
          hidden =
        let big = group.order_big in
        let d = s.ds * b.db in
        let plain = half kb r z s.ds b.db u in
        let iks = inverse_mod s.ks order in
        let ikb = inverse_mod kb order in
        let s_unit = inverse_lem codec arithmetic group s.ks ks_range.0 ks_range.1 in
        let b_unit = inverse_lem codec arithmetic group kb kb_range.0 kb_range.1 in
        let s0 = iks * (plain % order) % order in
        let value : s0 * (kb * s.ks) % order ≡ (z + r * d) % order =
          signature_value order big s.ks iks kb ikb z r s.ds b.db u s_unit b_unit in
        let s0_ne : s0 ≢ 0 = nonzero s0 (kb * s.ks) (z + r * d) value ne in
        let s0_lt : s0 < order = Nat.mod-lt (iks * (plain % order)) (omega arith) in
        let unit = unit-mul order big kb ikb s.ks iks b_unit s_unit in
        let low = low_s random codec arithmetic curve s0 in
        let passes : verify codec arithmetic curve (multiply d generator) b.message r low
            ≡ ok true =
          verify-low_s random codec arithmetic group d z r s0 (kb * s.ks) (ikb * iks) b.message unit
            hash (secret_ne s b keyed) r_pos r_lt (omega arith) s0_lt value point in
        let decrypts : dec random arithmetic s.paillier c ≡ ok plain =
          ap (λ p. dec random arithmetic p c) same
          ∙ dec-Encrypts random arithmetic key hidden
          ∙ ap ok (Nat.mod-eq_of_lt (half_lt kb r z s.ds b.db u keyed.ds_lt u_lt)) in
        (
          low,
          finish_sig_lem s r c plain (ap (λ m. hash_m_to_int codec m byte_count) common ∙ hash)
              decrypts s0_ne
              (ap (λ q. verify codec arithmetic curve q s.message r low) keyed.seller_q
                ∙ ap (λ m. verify codec arithmetic curve (multiply d generator) m r low) common
                ∙ passes),
          ap (λ q. verify codec arithmetic curve q b.message r low) keyed.buyer_q ∙ passes,
        )

    -- From a state that the key exchange leaves, with a Paillier key that the seller holds whole
    -- and the buyer its public half of, whose modulus is above 2 * n ^ 4 for the group's order n
    -- and whose encryption only draws numbers that vanish under n and the totient, and with one
    -- message of the digest's size on both sides, the protocol returns, and opening it then sets
    -- the buyer's flag to true. The draws are such that the first coordinate r of the nonces' point
    -- is above 0 and below the order, and that the number of the message plus r times the secret
    -- key is not 0 modulo the order.
    pub exec-signs :
        (s : Seller Point) (b : Buyer Point) (z : ℕ) (rng : Rng)
        → IsKeyed random codec arithmetic group s b
        → s.paillier ≡ k
        → b.paillier ≡ client_key k.n k.g
        → s.message ≡ b.message
        → hash_m_to_int codec b.message byte_count ≡ ok z
        → let first = integer 1 (order - 1) rng in
          let second = integer 1 (order - 1) (integer 1 k.n first.1).1 in
          let r = x (multiply (second.0 * first.0) generator) in
          0 < r
          → r < order
          → (z + r * (s.ds * b.db)) % order ≢ 0
          → (s' : Seller Point) × (b' : Buyer Point) × (rng' : Rng) × (exec random codec arithmetic
                curve s b rng
              ≡ ok ((s', b'), rng'))
            × (reveal random codec arithmetic curve s' b' ≡ ok (record b' { open_verified = true }))
    unfolding exec reveal
    exec-signs s b z rng keyed same client common hash r_pos r_lt value_ne =
        let (ks, rng₁) = integer 1 (order - 1) rng in
        let rng₂ = (integer 1 k.n rng₁).1 in
        let kb = (integer 1 (order - 1) rng₂).0 in
        let r = x (multiply (kb * ks) generator) in
        let big = group.order_big in
        let ks_range = integer_range 1 (order - 1) rng (omega arith) in
        let kb_range = integer_range 1 (order - 1) rng₂ (omega arith) in
        let (cs, started, secret) = start_sig_lem s rng same keyed.ds_lt in
        let (c, u, rng', continued, u_lt, hidden) =
          cont_sig_lem b ks cs z s.ds rng₂ client hash secret r_pos r_lt in
        let seller = record s { ks = ks; ks_point = multiply ks generator; cs = cs } in
        let still : IsKeyed random codec arithmetic group seller b = record {
          ds_pos = keyed.ds_pos;
          ds_lt = keyed.ds_lt;
          db_pos = keyed.db_pos;
          db_lt = keyed.db_lt;
          seller_q = keyed.seller_q;
          buyer_q = keyed.buyer_q;
        } in
        let (low, finished, passes) =
          finish_signs seller b kb r z u c still same common hash (omega arith, omega arith)
            (omega arith, omega arith) refl r_pos r_lt value_ne u_lt hidden in
        (
          record seller { r = r; s = low },
          record b { kb = kb; k_point = multiply kb (multiply ks generator); r = r; cb = c },
          rng',
          rw started (rw continued (rw finished refl)),
          rw passes refl,
        )
