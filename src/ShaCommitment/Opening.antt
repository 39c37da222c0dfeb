-- ===== src/ShaCommitment/Opening.antt =====
-- What opening a commitment shows: an honest sender is believed, and the sender is bound.
use zkfactorization.Prelude.{
  ℕ, ◌≡◌, ◌≢◌, refl, sym, ap, subst, ◌∙◌, ◌⊎◌, List, [], ◌∷◌, ◌++◌, true, false, equal, equal_refl,
  equal_sound, length, append_inj, length-append, arith, inl, inr, Bool-cases, ◌==◌, if◌then◌else◌,
}
use zkfactorization.Prelude.Result.{ok, ok-injective, throw, protocol}
use zkfactorization.CryptoPp.{Sha256, Random}
use zkfactorization.ShaCommitment.{
  Sender, Receiver, cheat, cheat_from, compute_sha, exec, reveal, seed_size,
}

not-equal : (xs ys : List ℕ) → equal xs ys ≡ false → xs ≢ ys
not-equal xs ys h e =
    let yes_too : equal xs ys ≡ true = ap (λ (t : List ℕ). equal xs t) (sym e) ∙ equal_refl xs in cc

-- Two messages with one digest.
pub record Collision (sha : Sha256) : Type 0 where
  pub left : List ℕ
  pub right : List ℕ
  pub differ : left ≢ right
  pub collide : sha.digest left ≡ sha.digest right

pub Collision-or_eq :
    (sha : Sha256) (x y : List ℕ) → sha.digest x ≡ sha.digest y → (x ≡ y) ⊎ Collision sha
Collision-or_eq sha x y e = elim (Bool-cases (equal x y)) [
  | inl same ↦ inl (equal_sound x y same)
  | inr other ↦ inr (record { left = x; right = y; differ = not-equal x y other; collide = e })
]

module _ (sha : Sha256) (random : Random) where
  open random use {Rng, generate_block}

  abbrev digest_of : Sender → List ℕ
  digest_of s = compute_sha sha random s.m s.seed

  pub reveal_eq :
      (s : Sender) (r : Receiver)
      → reveal sha random s r ≡ (
          if equal r.commitment (digest_of s)
          then ok (record r { m = s.m; seed = s.seed; open_verified = true })
          else throw (protocol "sha commitment open failed"))
  unfolding reveal
  reveal_eq s r = ground arith

  -- The receiver after it has accepted the sender's message and seed.
  abbrev pub accepted : Sender → Receiver → Receiver
  accepted s r = record r { m = s.m; seed = s.seed; open_verified = true }

  -- Opening returns exactly where the digest of what the sender shows is the commitment that the
  -- receiver holds; the receiver then has the sender's message and seed and is verified. In every
  -- other case the call throws.
  pub reveal_cases :
      (s : Sender) (r : Receiver)
      → (r.commitment ≡ compute_sha sha random s.m s.seed)
          × (reveal sha random s r ≡ ok (accepted s r))
        ⊎ (r.commitment ≢ compute_sha sha random s.m s.seed)
          × (reveal sha random s r ≡ throw (protocol "sha commitment open failed"))
  reveal_cases s r = elim (Bool-cases (equal r.commitment (digest_of s))) [
    | inl e ↦ inl (equal_sound _ _ e, reveal_eq s r ∙ rw e)
    | inr e ↦ inr (not-equal _ _ e, reveal_eq s r ∙ rw e)
  ]

  -- What a sender commits to is what the receiver accepts on opening, from any state of the two.
  pub reveal-exec :
      (s : Sender) (r : Receiver) (rng : Rng)
      → (s' : Sender) × (r' : Receiver) × (rng' : Rng) × (exec sha random s r rng
          ≡ ok ((s', r'), rng'))
        × (s'.m ≡ s.m)
        × (reveal sha random s' r' ≡ ok (accepted s' r'))
  unfolding exec
  reveal-exec s r rng =
      let seed = (generate_block seed_size rng).0 in
      let c = compute_sha sha random s.m seed in
      let s' : Sender = record s { seed = seed; commitment = c } in
      let r' : Receiver = record r { commitment = c } in
      (s', r', (generate_block seed_size rng).1, refl, refl, reveal_eq s' r' ∙ rw (equal_refl c))

  reveal-ok :
      (s : Sender) (r : Receiver) {r' : Receiver}
      → reveal sha random s r ≡ ok r'
      → r.commitment ≡ sha.digest (s.m ++ s.seed)
  unfolding compute_sha
  reveal-ok s r h = elim (reveal_cases s r) [ inl p ↦ p.0 | inr p ↦ absurd (cc p.1) ]

  -- A sender is bound: two openings of one commitment that are both accepted, with seeds of one
  -- length, show the same message and the same seed, or give a collision of the digest.
  pub reveal_binding :
      (s t : Sender) (r q : Receiver) {r' q' : Receiver}
      → r.commitment ≡ q.commitment
      → length s.seed ≡ length t.seed
      → reveal sha random s r ≡ ok r'
      → reveal sha random t q ≡ ok q'
      → (s.m ≡ t.m) × (s.seed ≡ t.seed) ⊎ Collision sha
  reveal_binding s t r q same len hs ht =
      elim (Collision-or_eq sha (s.m ++ s.seed) (t.m ++ t.seed)
        (sym (reveal-ok s r hs) ∙ same ∙ reveal-ok t q ht)) [
          | inl e ↦ inl (
              append_inj s.m s.seed t.m t.seed
                (omega
                  (arith, ap length e, length-append s.m s.seed, length-append t.m t.seed, len))
                e)
          | inr c ↦ inr c
        ]

  cheat_from_differs :
      (s : Sender) (m : List ℕ) {c : Sender}
      → cheat_from s m ≡ ok c
      → (c.m ≢ m) × (c.seed ≡ s.seed) × (length c.m ≡ length m)
  unfolding cheat_from
  cheat_from_differs s [] h = cc
  cheat_from_differs s (b ∷ rest) h =
      subst (λ c. (c.m ≢ b ∷ rest) × (c.seed ≡ s.seed) × (length c.m ≡ length (b ∷ rest)))
        (ok-injective h) (other, refl, refl)
    where
      other : (if b == 0 then 1 else 0) ∷ rest ≢ b ∷ rest
      other e = let head : (if b == 0 then 1 else 0) ≡ b = cc in ground arith

  exec_commits :
      (s : Sender) (r : Receiver) (rng : Rng) {s' : Sender} {r' : Receiver} {rng' : Rng}
      → exec sha random s r rng ≡ ok ((s', r'), rng')
      → r'.commitment ≡ sha.digest (s'.m ++ s'.seed)
  unfolding exec compute_sha
  exec_commits s r rng h =
      subst (λ x. x.0.1.commitment ≡ sha.digest (x.0.0.m ++ x.0.0.seed)) (ok-injective h) refl

  -- A sender that has committed and then changes its message by `cheat` is refused on opening, or
  -- there is a collision of the digest.
  pub cheat_refused :
      (s : Sender) (r : Receiver) (rng : Rng) {s' c : Sender} {r' : Receiver} {rng' : Rng}
      → exec sha random s r rng ≡ ok ((s', r'), rng')
      → cheat s' ≡ ok c
      → (reveal sha random c r' ≡ throw (protocol "sha commitment open failed")) ⊎ Collision sha
  unfolding cheat compute_sha
  cheat_refused s r rng {s'} {c} {r'} h k = elim (reveal_cases c r') [
    | inr p ↦ inl p.1
    | inl p ↦
        elim (Collision-or_eq sha (c.m ++ c.seed) (s'.m ++ s'.seed)
          (sym p.0 ∙ exec_commits s r rng h)) [
            | inr found ↦ inr found
            | inl e ↦
                let d = cheat_from_differs s' s'.m k in
                absurd (d.0 (append_inj c.m c.seed s'.m s'.seed d.2 e).0)
          ]
  ]
