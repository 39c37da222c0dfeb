-- ===== src/SellInformation/Waited.antt =====
-- What holds when the buyer's wait ends.
use zkfactorization.Prelude.{
  ℕ, suc, ◌*◌, ◌%◌, ◌<◌, ◌≡◌, refl, sym, ap, subst, ◌∙◌, List, map, Bool, true, false, arith,
}
use zkfactorization.Prelude.Result.{ok, bind-eq-ok, ok-injective, from_result, from_result-eq-ok}
use zkfactorization.Libraries.{Libraries}
use zkfactorization.Prelude.Int.{pos}
use zkfactorization.Bitcoin.{IntegerPair, buyer_port}
use zkfactorization.BitUtils.{bits_to_integer}
use zkfactorization.Common.{integer2string}
use zkfactorization.TimedCommitment
use zkfactorization.SignatureKey.{SingleBuyer}
use zkfactorization.SellInformation.{read}
use zkfactorization.SellInformation.Found.{FoundIn, factorise-FoundIn}
use zkfactorization.SellInformation.Factorise
use zkfactorization.SellInformation.Factorise.{factorise-product}
use zkfactorization.SellInformation.Operations.{
  first_r, opened_messages, keys_of, signatures_of, fetch_signatures, factorise_buyer, redeem,
}
use zkfactorization.SellInformation.Race.{
  SignatureThread, fetching, factorising, factorised, signature_finished, trying, sleeping,
  redeemed, time_lock_finished, by_signature, by_time_lock, Race, start_wait, Step, sees_payment,
  fetches, factorises, sets_signature_finished, misses_payment, fails_to_fetch, fails_to_factorise,
  redeems, tries_next, fails_to_redeem, sleeps, sets_time_lock_finished, passes, joins_signature,
  joins_time_lock, Steps, stay, go,
}
use zkfactorization.SellInformation.Phases.{
  Factored, Refunded, Left, next_signature-Left, next_lock-Left, one_more,
}
use zkfactorization.SellInformation.State.{Buyer}

module _ (libraries : Libraries) (r l : ℕ) where
  open libraries use {random, codec, ofb, arithmetic, ecb, curve, bitcoin, gcd}
  open bitcoin use {World}
  open curve use {Point}

  -- What the two threads write of the buyer.
  abbrev written : Buyer Point → List (List ℕ) → ℕ → ℕ → Buyer Point
  written b signatures p q = record b { signatures = signatures; p = p; q = q }

  -- The signatures are those that the client had for the seller's address, the first r of them.
  pub record Fetched (b : Buyer Point) (signatures : List (List ℕ)) : Type 0 where
    pub w : World
    pub w' : World
    pub pairs : List IntegerPair
    pub used : List IntegerPair
    pub got : bitcoin.get_signatures buyer_port b.seller_address r w ≡ ok (pairs, w')
    pub first : first_r r pairs ≡ ok used
    pub encoded : signatures ≡ signatures_of libraries r l used

  -- The two results have the product n, and are the greatest common divisors that `factorise` takes of
  -- numbers which a key of one of the signatures decrypts.
  pub record Found (b : Buyer Point) (signatures : List (List ℕ)) (p q : ℕ) : Type 0 where
    pub fetched : Fetched b signatures
    pub used : List (List ℕ)
    pub first : first_r r signatures ≡ ok used
    pub place :
        FoundIn codec ecb gcd b.n
          (keys_of libraries r l used)
          (map opened_messages b.d1)
          (map opened_messages b.d2)
          (p, q)
    pub product : p * q ≡ b.n

  fetch_signatures-written :
      (b : Buyer Point) (w : World) {b' : Buyer Point} {w' : World}
      → fetch_signatures libraries r l b w ≡ ok (b', w')
      → (signatures : List (List ℕ)) × (b' ≡ record b { signatures = signatures })
        × Fetched b signatures
  unfolding fetch_signatures
  fetch_signatures-written b w h =
      let (pairs, e₁, h₁) =
        bind-eq-ok (bitcoin.get_signatures buyer_port b.seller_address r w) _ h in
      let (used, e₂, h₂) = bind-eq-ok (from_result (first_r r pairs.0) pairs.1) _ h₁ in
      (
        signatures_of libraries r l used.0,
        sym (ap (λ (x : Buyer Point × World). x.0) (ok-injective h₂)),
        record {
          w = w;
          w' = pairs.1;
          pairs = pairs.0;
          used = used.0;
          got = e₁;
          first = from_result-eq-ok (first_r r pairs.0) pairs.1 e₂;
          encoded = refl;
        },
      )

  factorise_buyer-written :
      (b : Buyer Point) {b' : Buyer Point}
      → factorise_buyer libraries r l b ≡ ok b'
      → (p : ℕ) × (q : ℕ) × (b' ≡ record b { p = p; q = q })
        × (Fetched b b.signatures → Found b b.signatures p q)
  unfolding factorise_buyer
  factorise_buyer-written b h =
      let (signatures, e₁, h₁) = bind-eq-ok (first_r r b.signatures) _ h in
      let keys = keys_of libraries r l signatures in
      let rows1 = map opened_messages b.d1 in
      let rows2 = map opened_messages b.d2 in
      let (found, e₂, h₂) =
        bind-eq-ok (Factorise.factorise codec ecb gcd b.n keys rows1 rows2) _ h₁ in
      (
        found.0,
        found.1,
        sym (ok-injective h₂),
        λ fetched. record {
          fetched = fetched;
          used = signatures;
          first = e₁;
          place = factorise-FoundIn codec ecb gcd b.n keys rows1 rows2 e₂;
          product = factorise-product codec ecb gcd b.n keys rows1 rows2 e₂;
        },
      )

  -- A round of `solve_time_lock` on instance `j`: with the number that the buyer read from the time lock
  -- by force and its own half of the key, the client was asked for the money, and answered `res`.
  pub record Asked (b : Buyer Point) (res : Bool) (j : ℕ) : Type 0 where
    pub single : SingleBuyer Point
    pub ds_bits : List Bool
    pub ds : ℕ
    pub w : World
    pub w' : World
    pub at : read b.single_buyers j ≡ ok single
    pub opened :
        TimedCommitment.force_open random ofb arithmetic single.timed_commitment_receiver
        ≡ ok ds_bits
    pub number : bits_to_integer codec ds_bits ≡ ok ds
    pub asked :
        bitcoin.redeem_transaction buyer_port b.t1 b.original_t1_output_script
          (integer2string codec (pos (ds * single.shared_signature_b.db % curve.order)))
          (integer2string codec (pos (curve.x single.shared_signature_b.q)))
          (integer2string codec (pos (curve.y single.shared_signature_b.q)))
          r
          w
        ≡ ok (res, w')

  redeem-Asked :
      (j : ℕ) (b : Buyer Point) (w : World) {res : Bool} {w' : World}
      → redeem libraries r l j b w ≡ ok (res, w')
      → Asked b res j
  unfolding redeem
  redeem-Asked j b w {res} {w'} h =
      let (single, e₁, h₁) = bind-eq-ok (from_result (read b.single_buyers j) w) _ h in
      let force =
        TimedCommitment.force_open random ofb arithmetic single.0.timed_commitment_receiver in
      let (ds_bits, e₂, h₂) = bind-eq-ok (from_result force single.1) _ h₁ in
      let (ds, e₃, h₃) =
        bind-eq-ok (from_result (bits_to_integer codec ds_bits.0) ds_bits.1) _ h₂ in
      record {
        single = single.0;
        ds_bits = ds_bits.0;
        ds = ds.0;
        w = ds.1;
        w' = w';
        at = from_result-eq-ok (read b.single_buyers j) w e₁;
        opened = from_result-eq-ok force single.1 e₂;
        number = from_result-eq-ok (bits_to_integer codec ds_bits.0) ds_bits.1 e₃;
        asked = h₃;
      }

  redeem-written :
      (j : ℕ) (b : Buyer Point) (signatures : List (List ℕ)) (p q : ℕ) (w : World)
      → redeem libraries r l j (written b signatures p q) w ≡ redeem libraries r l j b w
  unfolding redeem
  redeem-written j b signatures p q w = refl

  module _ (b : Buyer Point) where
    abbrev Wrote : Buyer Point → SignatureThread → Type 0
    Wrote x signature =
        (signatures : List (List ℕ)) × (p : ℕ) × (q : ℕ) × (x ≡ written b signatures p q)
        × Factored (Fetched b signatures) (Found b signatures p q) signature

    abbrev Established : Race libraries r l → Type 0
    Established s =
        Wrote s.buyer s.signature
        × Refunded r (Asked b true) (Asked b false) s.lock
        × Left s.signature s.lock s.main

    gives :
        (s : Race libraries r l) (res : Bool) (j : ℕ) {w : World}
        → Wrote s.buyer s.signature
        → redeem libraries r l j s.buyer s.world ≡ ok (res, w)
        → Asked b res j
    gives s res j {w} (signatures, p, q, same, _) h = redeem-Asked j b s.world (
        sym (redeem-written j b signatures p q s.world)
        ∙ ap (λ x. redeem libraries r l j x s.world) (sym same)
        ∙ h)

    Step-Established :
        {s t : Race libraries r l} → Step libraries r l s t → Established s → Established t
    Step-Established (sees_payment s alive e h) ((signatures, p, q, same, done), back, left) = (
      (signatures, p, q, same, tt),
      back,
      next_signature-Left s.signature fetching s.lock s.main (λ f. cc) left,
    )
    Step-Established (fetches s {b = b₁} {w = w₁} alive e h)
          ((signatures, p, q, same, done), back, left) =
        let (fetched, now, known) =
          fetch_signatures-written (written b signatures p q) s.world
            (subst (λ x. fetch_signatures libraries r l x s.world ≡ ok (b₁, w₁)) same h) in
        (
          (
            fetched,
            p,
            q,
            now,
            record {
              w = known.w;
              w' = known.w';
              pairs = known.pairs;
              used = known.used;
              got = known.got;
              first = known.first;
              encoded = known.encoded;
            },
          ),
          back,
          next_signature-Left s.signature factorising s.lock s.main (λ f. cc) left,
        )
    Step-Established (factorises s {b = b₁} alive e h)
          ((signatures, p, q, same, done), back, left) =
        let fetched = subst (Factored (Fetched b signatures) (Found b signatures p q)) e done in
        let (p', q', now, find) =
          factorise_buyer-written (written b signatures p q)
            (subst (λ x. factorise_buyer libraries r l x ≡ ok b₁) same h) in
        let found = find (record {
          w = fetched.w;
          w' = fetched.w';
          pairs = fetched.pairs;
          used = fetched.used;
          got = fetched.got;
          first = fetched.first;
          encoded = fetched.encoded;
        }) in
        (
          (
            signatures,
            p',
            q',
            now,
            record {
              fetched = fetched;
              used = found.used;
              first = found.first;
              place = found.place;
              product = found.product;
            },
          ),
          back,
          next_signature-Left s.signature factorised s.lock s.main (λ f. cc) left,
        )
    Step-Established (sets_signature_finished s alive e)
          ((signatures, p, q, same, done), back, left) =
        (
          (
            signatures,
            p,
            q,
            same,
            subst (Factored (Fetched b signatures) (Found b signatures p q)) e done,
          ),
          back,
          next_signature-Left s.signature signature_finished s.lock s.main (λ f. cc) left,
        )
    Step-Established (misses_payment s alive e h) (wrote, back, left) = (wrote, back, tt)
    Step-Established (fails_to_fetch s alive e h) (wrote, back, left) = (wrote, back, tt)
    Step-Established (fails_to_factorise s alive e h) (wrote, back, left) = (wrote, back, tt)
    Step-Established (redeems s {j} alive e lt h) (wrote, back, left) = (
      wrote,
      (j, lt, gives s true j wrote h),
      next_lock-Left s.signature s.lock redeemed s.main (λ f. cc) left,
    )
    Step-Established (tries_next s {j} alive e lt h) (wrote, back, left) = (
      wrote,
      one_more (Asked b false) j (subst (Refunded r (Asked b true) (Asked b false)) e back)
          (gives s false j wrote h),
      next_lock-Left s.signature s.lock (trying (suc j)) s.main (λ f. cc) left,
    )
    Step-Established (fails_to_redeem s alive e lt h) (wrote, back, left) = (wrote, back, tt)
    Step-Established (sleeps s alive e) (wrote, back, left) = (
      wrote,
      subst (Refunded r (Asked b true) (Asked b false)) e back,
      next_lock-Left s.signature s.lock sleeping s.main (λ f. cc) left,
    )
    Step-Established (sets_time_lock_finished s alive e) (wrote, back, left) = (
      wrote,
      subst (Refunded r (Asked b true) (Asked b false)) e back,
      next_lock-Left s.signature s.lock time_lock_finished s.main (λ f. cc) left,
    )
    Step-Established (passes s e done) (wrote, back, left) = (wrote, back, tt)
    Step-Established (joins_signature s e done) (wrote, back, left) = (wrote, back, done)
    Step-Established (joins_time_lock s e other done) (wrote, back, left) = (wrote, back, done)

    Steps-Established :
        {s t : Race libraries r l} → Steps libraries r l s t → Established s → Established t
    Steps-Established (stay s) known = known
    Steps-Established (go steps step) known = Step-Established step (Steps-Established steps known)

    start-Established : (w : World) → Established (start_wait libraries r l b w)
    unfolding start_wait
    start-Established w = ((b.signatures, b.p, b.q, refl, tt), (λ i h. absurd (omega arith)), tt)

    -- In every order of the threads' steps: where the wait ends by the signature, the buyer's signatures
    -- are the first r that the client had for the seller's address, and its two results have the product n
    -- and are the greatest common divisors of n and of n + a - b and a + b, for numbers a and b that a key
    -- of one of the signatures decrypts at one index; where it ends by the time lock, the client has
    -- redeemed the payment in the round of some instance, asked with the product of the number in the
    -- instance's time lock, opened by force, and the buyer's half of the key; the thread of the time lock
    -- sleeps only if the client has refused this in every round; and of the buyer nothing has changed but
    -- the signatures and the two results.
    pub wait_outcomes :
        (w : World) {t : Race libraries r l}
        → Steps libraries r l (start_wait libraries r l b w) t
        → (t.main ≡ by_signature → Found b t.buyer.signatures t.buyer.p t.buyer.q)
          × (t.main ≡ by_time_lock → (j : ℕ) × (j < r) × Asked b true j)
          × (t.lock ≡ sleeping → (j : ℕ) → j < r → Asked b false j)
          × (t.buyer ≡ record b { signatures = t.buyer.signatures; p = t.buyer.p; q = t.buyer.q })
    wait_outcomes w {t} steps =
        let ((signatures, p, q, same, done), back, left) =
          Steps-Established steps (start-Established w) in
        (
          λ e.
              let ended : t.signature ≡ signature_finished =
                subst (Left t.signature t.lock) e left in
              subst (λ (x : Buyer Point). Found b x.signatures x.p x.q) (sym same)
                (subst (Factored (Fetched b signatures) (Found b signatures p q)) ended done),
          λ e.
              let ended : t.lock ≡ time_lock_finished = subst (Left t.signature t.lock) e left in
              subst (Refunded r (Asked b true) (Asked b false)) ended back,
          λ e. subst (Refunded r (Asked b true) (Asked b false)) e back,
          same
              ∙ ap (λ (x : Buyer Point). record b { signatures = x.signatures; p = x.p; q = x.q })
                  (sym same),
        )
