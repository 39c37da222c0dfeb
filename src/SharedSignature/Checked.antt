-- ===== src/SharedSignature/Checked.antt =====
-- What both parties hold after a signature has been made: a run that returns has been checked.
use zkfactorization.Prelude.{
  ℕ, ◌-◌, ◌%◌, ◌≡◌, refl, sym, ap, subst, ◌∙◌, arith, List, Bool, true, false, Bool-cases, inl, inr,
  ◌==◌, not, if◌then◌else◌,
}
use zkfactorization.Prelude.Result.{ok, throw, protocol, bind-eq-ok, ok-injective}
use zkfactorization.Prelude.Int.{pos}
use zkfactorization.CryptoPp.{Random, Codec, ModArith, Curve}
use zkfactorization.Paillier.{enc, dec}
use zkfactorization.SharedSignature.Verify.{hash_m_to_int, verify}
use zkfactorization.SharedSignature.Parties.{
  Seller, Buyer, get_data, start_sig, half_signature, cont_sig, low_s, finish_sig, exec,
}

module _ (random : Random) (codec : Codec) (arithmetic : ModArith) (curve : Curve) where
  open random use {Rng, integer}
  open curve use {Point, multiply, order, x, byte_count}
  open arithmetic use {a_times_b_mod_c, inverse_mod}

  get_data-ok :
      (s : Seller Point) {m : List ℕ}
      → get_data random codec arithmetic curve s ≡ ok m
      → s.message ≡ m
  unfolding get_data
  get_data-ok s h = ground arith

  -- The seller keeps its key and its message, and its new signature passes its own check.
  finish_sig-verifies :
      (s : Seller Point) (r cb : ℕ) {s' : Seller Point}
      → finish_sig random codec arithmetic curve s r cb ≡ ok s'
      → (verify codec arithmetic curve s.q s.message s'.r s'.s ≡ ok true) × (s'.ds ≡ s.ds)
  unfolding finish_sig
  finish_sig-verifies s r cb {s'} h =
      let (plain, e₁, h₁) = bind-eq-ok (dec random arithmetic s.paillier cb) _ h in
      let s0 = a_times_b_mod_c (inverse_mod s.ks order) (plain % order) order in
      let low = low_s random codec arithmetic curve s0 in
      elim (Bool-cases (s0 == 0)) [
        | inl e ↦ absurd (cc (rw e at h₁))
        | inr e ↦
            let (m, e₂, h₂) =
              bind-eq-ok (get_data random codec arithmetic curve s) _ (rw e at h₁) in
            let (valid, e₃, h₃) = bind-eq-ok (verify codec arithmetic curve s.q m r low) _ h₂ in
            decide s0 m valid (get_data-ok s e₂) e₃ h₃
      ]
    where
      decide :
          (s0 : ℕ) (m : List ℕ) (valid : Bool)
          → s.message ≡ m
          → verify codec arithmetic curve s.q m r (low_s random codec arithmetic curve s0)
            ≡ ok valid
          → (if not valid
              then throw (protocol "Invalid signature generated!")
              else ok (record s { r = r; s = low_s random codec arithmetic curve s0 }))
            ≡ ok s'
          → (verify codec arithmetic curve s.q s.message s'.r s'.s ≡ ok true) × (s'.ds ≡ s.ds)
      decide s0 m true same passes last =
          subst
            (λ (t : Seller Point).
              (verify codec arithmetic curve s.q s.message t.r t.s ≡ ok true) × (t.ds ≡ s.ds))
            (ok-injective last)
            (
              ap
                    (λ n.
                      verify codec arithmetic curve s.q n r
                        (low_s random codec arithmetic curve s0))
                    same
                  ∙ passes,
              refl,
            )
      decide s0 m false same passes last = absurd (cc last)

  cont_sig-keeps :
      (b : Buyer Point) (point : Point) (cs : ℕ) (m : List ℕ) (rng : Rng) {done : Buyer Point × Rng}
      → cont_sig random codec arithmetic curve b point cs m rng ≡ ok done
      → (done.0.q ≡ b.q) × (done.0.message ≡ b.message)
  unfolding cont_sig
  cont_sig-keeps b point cs m rng h =
      let (kb, rng₁) = integer 1 (order - 1) rng in
      let r = x (multiply kb point) % order in
      elim (Bool-cases (r == 0)) [
        | inl e ↦ absurd (cc (rw e at h))
        | inr e ↦
            let (hi, e₁, h₁) = bind-eq-ok (hash_m_to_int codec m byte_count) _ (rw e at h) in
            let (c, e₂, h₂) =
              bind-eq-ok (half_signature random codec arithmetic curve b kb r hi cs rng₁) _ h₁ in
            subst (λ (d : Buyer Point × Rng). (d.0.q ≡ b.q) × (d.0.message ≡ b.message))
              (ok-injective h₂) (refl, refl)
      ]

  start_sig-keeps :
      (s : Seller Point) (rng : Rng) {done : Seller Point × Rng}
      → start_sig random codec arithmetic curve s rng ≡ ok done
      → (done.0.q ≡ s.q) × (done.0.message ≡ s.message) × (done.0.ds ≡ s.ds)
  unfolding start_sig
  start_sig-keeps s rng h =
      let (k, rng₁) = integer 1 (order - 1) rng in
      let (c, e, h₁) = bind-eq-ok (enc random arithmetic s.paillier (pos s.ds) rng₁) _ h in
      subst
        (λ (d : Seller Point × Rng). (d.0.q ≡ s.q) × (d.0.message ≡ s.message) × (d.0.ds ≡ s.ds))
        (ok-injective h₁) (refl, refl, refl)

  -- Where the protocol returns, the seller's signature passes the check under the seller's key on the
  -- seller's message, and nobody's key or message has changed.
  pub exec-verifies :
      (s : Seller Point) (b : Buyer Point) (rng : Rng) {s' : Seller Point} {b' : Buyer Point}
      {rng' : Rng}
      → exec random codec arithmetic curve s b rng ≡ ok ((s', b'), rng')
      → (verify codec arithmetic curve s.q s.message s'.r s'.s ≡ ok true)
        × (b'.q ≡ b.q)
        × (b'.message ≡ b.message)
        × (s'.ds ≡ s.ds)
  unfolding exec
  exec-verifies s b rng {s'} {b'} {rng'} h =
      let (first, e₁, h₁) = bind-eq-ok (start_sig random codec arithmetic curve s rng) _ h in
      let (second, e₂, h₂) =
        bind-eq-ok
          (cont_sig random codec arithmetic curve b first.0.ks_point first.0.cs b.message first.1) _
          h₁ in
      let (third, e₃, h₃) =
        bind-eq-ok (finish_sig random codec arithmetic curve first.0 second.0.r second.0.cb) _ h₂ in
      let ended = ok-injective h₃ in
      let (q_same, m_same, d_same) = start_sig-keeps s rng e₁ in
      let (q_kept, m_kept) = cont_sig-keeps b first.0.ks_point first.0.cs b.message first.1 e₂ in
      let (passes, d_kept) = finish_sig-verifies first.0 second.0.r second.0.cb e₃ in
      subst
        (λ (p : (Seller Point × Buyer Point) × Rng).
          (verify codec arithmetic curve s.q s.message p.0.0.r p.0.0.s ≡ ok true)
          × (p.0.1.q ≡ b.q)
          × (p.0.1.message ≡ b.message)
          × (p.0.0.ds ≡ s.ds))
        ended
        (
          ap (λ q. verify codec arithmetic curve q s.message third.r third.s) (sym q_same)
              ∙ ap (λ m. verify codec arithmetic curve first.0.q m third.r third.s) (sym m_same)
              ∙ passes,
          q_kept,
          m_kept,
          d_kept ∙ d_same,
        )
