-- ===== src/SharedSignature/Parties.antt =====
-- The two parties, and the protocol that runs them.
use zkfactorization.Prelude.{
  ℕ, ◌+◌, ◌-◌, ◌*◌, ◌%◌, List, [], Bool, false, not, ◌==◌, leb, ltb, if◌then◌else◌, length,
}
use zkfactorization.Prelude.Int.{pos}
use zkfactorization.Prelude.Result.{Run, Result, ok, throw, protocol, bind}
use zkfactorization.CryptoPp.{Random, Codec, ModArith, Curve}
use zkfactorization.Paillier.{Paillier, client_key, new_key, get_n, get_n2, enc, dec}
use zkfactorization.SharedSignature.Verify.{hash_m_to_int, encode_signature, verify}

-- `class S`
pub record Seller (Point : Type 0) : Type 0 where
  pub message : List ℕ
  pub ds : ℕ
  pub ks : ℕ
  pub qs : Point
  pub qb : Point
  pub q : Point
  pub ks_point : Point
  pub paillier : Paillier
  pub cs : ℕ
  pub r : ℕ
  pub s : ℕ

-- `class B`
pub record Buyer (Point : Type 0) : Type 0 where
  pub db : ℕ
  pub kb : ℕ
  pub qs : Point
  pub qb : Point
  pub q : Point
  pub paillier : Paillier
  pub k_point : Point
  pub r : ℕ
  pub cb : ℕ
  pub message : List ℕ
  pub open_verified : Bool

module _ (random : Random) (codec : Codec) (arithmetic : ModArith) (curve : Curve) where
  open random use {Rng, integer}
  open arithmetic use {a_times_b_mod_c, a_exp_b_mod_c, inverse_mod}
  open curve use {Point, multiply, identity, eq, x, generator, order, byte_count, bit_count}

  -- `S::S`; a Paillier modulus that is too short is only printed.
  unfoldable pub new_seller : Rng → Seller Point × Rng
  new_seller rng =
      let (key, rng') = new_key random arithmetic (2 * bit_count + 3) rng in
      (
        record {
          message = [];
          ds = 0;
          ks = 0;
          qs = identity;
          qb = identity;
          q = identity;
          ks_point = identity;
          paillier = key;
          cs = 0;
          r = 0;
          s = 0;
        },
        rng',
      )

  -- `B::B(paillier_n, paillier_g)`
  unfoldable pub new_buyer : ℕ → ℕ → Result (Buyer Point)
  new_buyer paillier_n paillier_g =
      let key = client_key paillier_n paillier_g in
      bind (get_n key) λ n.
        if leb n (2 * order * order * order * order)
        then throw (protocol "too short paillier")
        else ok (record {
          db = 0;
          kb = 0;
          qs = identity;
          qb = identity;
          q = identity;
          paillier = key;
          k_point = identity;
          r = 0;
          cb = 0;
          message = [];
          open_verified = false;
        })

  -- `S::get_data_length` together with `S::get_data`
  unfoldable pub get_data : Seller Point → Result (List ℕ)
  get_data s = if length s.message == 0 then throw (protocol "Data is empty!") else ok s.message

  unfoldable pub set_data_seller : Seller Point → List ℕ → Seller Point
  set_data_seller s m = record s { message = m }

  unfoldable pub set_data_buyer : Buyer Point → List ℕ → Buyer Point
  set_data_buyer b m = record b { message = m }

  unfoldable pub get_signature : Seller Point → List ℕ
  get_signature s = encode_signature codec s.r s.s

  -- `S::cheat`
  unfoldable pub cheat : Seller Point → Run Rng (Seller Point)
  cheat s rng =
      let (r, rng₁) = integer 1 order rng in
      let (t, rng₂) = integer 1 order rng₁ in ok (record s { r = r; s = t }, rng₂)

  -- `S::start_init` and `S::finish_init`
  unfoldable pub start_init_seller : Seller Point → Rng → Seller Point × Rng
  start_init_seller s rng =
      let (d, rng') = integer 1 (order - 1) rng in
      (record s { ds = d; qs = multiply d generator }, rng')

  unfoldable pub finish_init_seller : Seller Point → Point → Seller Point
  finish_init_seller s qb = record s { qb = qb; q = multiply s.ds qb }

  -- `B::start_init` and `B::finish_init`
  unfoldable pub start_init_buyer : Buyer Point → Rng → Buyer Point × Rng
  start_init_buyer b rng =
      let (d, rng') = integer 1 (order - 1) rng in
      (record b { db = d; qb = multiply d generator }, rng')

  unfoldable pub finish_init_buyer : Buyer Point → Point → Buyer Point
  finish_init_buyer b qs = record b { qs = qs; q = multiply b.db qs }

  unfoldable pub start_sig : Seller Point → Run Rng (Seller Point)
  start_sig s rng =
      let (k, rng₁) = integer 1 (order - 1) rng in
      bind (enc random arithmetic s.paillier (pos s.ds) rng₁)
        λ c. ok (record s { ks = k; ks_point = multiply k generator; cs = c.0 }, c.1)

  -- The part of `B::cont_sig` that follows the choice of `r`: the ciphertext of the half signature.
  unfoldable pub half_signature : Buyer Point → ℕ → ℕ → ℕ → ℕ → Run Rng ℕ
  half_signature b kb r hi cs rng =
      let inv = inverse_mod kb order in
      bind (enc random arithmetic b.paillier (pos (a_times_b_mod_c inv hi order)) rng) λ c1.
        let t = a_times_b_mod_c (a_times_b_mod_c inv r order) b.db order in
        bind (get_n2 b.paillier) λ n2.
          let c2 = a_times_b_mod_c c1.0 (a_exp_b_mod_c cs t n2) n2 in
          let (u, rng₂) = integer 0 (order * order - 1) c1.1 in
          bind (enc random arithmetic b.paillier (pos (u * order)) rng₂)
            λ c3. ok (a_times_b_mod_c c2 c3.0 n2, c3.1)

  unfoldable pub cont_sig : Buyer Point → Point → ℕ → List ℕ → Run Rng (Buyer Point)
  unfolding half_signature
  cont_sig b ks_point cs m rng =
      let (kb, rng₁) = integer 1 (order - 1) rng in
      let k = multiply kb ks_point in
      let r = x k % order in
      if r == 0
      then throw (protocol "r == 0")
      else bind (hash_m_to_int codec m byte_count) λ hi.
        bind (half_signature b kb r hi cs rng₁)
          λ c. ok (record b { kb = kb; k_point = k; r = r; cb = c.0 }, c.1)

  -- The smaller one of `s` and `n - s`.
  unfoldable pub low_s : ℕ → ℕ
  low_s s = if ltb (order - s) s then order - s else s

  unfoldable pub finish_sig : Seller Point → ℕ → ℕ → Result (Seller Point)
  unfolding get_data low_s
  finish_sig seller r cb = bind (dec random arithmetic seller.paillier cb) λ plain.
      let s2 = plain % order in
      let s0 = a_times_b_mod_c (inverse_mod seller.ks order) s2 order in
      if s0 == 0
      then throw (protocol "ERR s==0 restart protocol")
      else bind (get_data seller) λ m.
        bind (verify codec arithmetic curve seller.q m r (low_s s0)) λ valid.
          if not valid
          then throw (protocol "Invalid signature generated!")
          else ok (record seller { r = r; s = low_s s0 })

  -- `SharedSignature::init`
  unfoldable pub init : Seller Point → Buyer Point → Run Rng (Seller Point × Buyer Point)
  unfolding start_init_seller start_init_buyer finish_init_seller finish_init_buyer
  init s b rng =
      let (s₁, rng₁) = start_init_seller s rng in
      let (b₁, rng₂) = start_init_buyer b rng₁ in
      let s₂ = finish_init_seller s₁ b₁.qb in
      let b₂ = finish_init_buyer b₁ s₂.qs in
      if not (eq s₂.q b₂.q) then throw (protocol "Mismatching Q") else ok ((s₂, b₂), rng₂)

  -- `SharedSignature::exec`
  unfoldable pub exec : Seller Point → Buyer Point → Run Rng (Seller Point × Buyer Point)
  unfolding start_sig cont_sig finish_sig
  exec s b rng = bind (start_sig s rng) λ s₁.
      bind (cont_sig b s₁.0.ks_point s₁.0.cs b.message s₁.1)
        λ b₁. bind (finish_sig s₁.0 b₁.0.r b₁.0.cb) λ s₂. ok ((s₂, b₁.0), b₁.1)

  -- `SharedSignature::open`
  unfoldable pub reveal : Seller Point → Buyer Point → Result (Buyer Point)
  reveal s b =
      bind (verify codec arithmetic curve b.q b.message s.r s.s)
        λ result. ok (record b { open_verified = result })
