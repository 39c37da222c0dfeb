-- ===== src/SellInformation/Agreed.antt =====
-- What the first cut and choose of the sale leaves: the check of the instances that the buyer did not
-- pick, on the hash of the buyer's own transaction.
use zkfactorization.Prelude.{
  ℕ, ◌<◌, ◌≡◌, refl, sym, ap, subst, ◌∙◌, List, ◌++◌, map, Bool, true, false, length,
}
use zkfactorization.Prelude.Int.{ℤ, pos, negsuc}
use zkfactorization.Prelude.Result.{
  ok, protocol, bind-eq-ok, ok-injective, from_result, require, on_first, on_second, on_first-eq-ok,
  on_second-eq-ok, require-holds,
}
use zkfactorization.Libraries.{Libraries}
use zkfactorization.CutAndChoose.{cut_and_choose, check_indices, cheat_at, run_all}
use zkfactorization.CutAndChoose.Opening.{Fates, cut_and_choose-Fates}
use zkfactorization.SignatureKey.{SingleSeller, SingleBuyer}
use zkfactorization.SignatureKey.Honest.{signature_key_protocol}
use zkfactorization.SellInformation.Draws.{pick_r}
use zkfactorization.SellInformation.Picked.{Strict, pick_r-check_indices}
use zkfactorization.SellInformation.Operations.{first_r, create_t1_and_t2}
use zkfactorization.SellInformation.Protocol.{read_all}
use zkfactorization.SellInformation.Exec.{new_singles, exchange_keys, show_hash, challenge, agree}
use zkfactorization.SellInformation.State.{Buyer}
use zkfactorization.SellInformation.Sized.{Sized, new_singles-Sized, exchange_keys-Sized}
use zkfactorization.CutAndChoose.Rounds.{contains}
use zkfactorization.SellInformation.Signed.{Signed, run_all-Signed}
use zkfactorization.SellInformation.Transacted.{SameRows, Transacted, Exchanged, create_t1_and_t2-r}

module _ (libraries : Libraries) (past : ℕ → ℤ) (fuel t r l k : ℕ) where
  open libraries use {random, codec, sha, ofb, arithmetic, curve, bitcoin}
  open random use {Rng}
  open bitcoin use {World}
  open curve use {Point}

  -- What the first cut and choose has made sure of: the instances `singles` ran on the hash of the
  -- buyer's transaction, and each that the buyer did not pick was opened and verified, while those
  -- that it picked are as their execution left them.
  pub record Agreed (b : Buyer Point) (sellers : List (SingleSeller Point))
      (buyers : List (SingleBuyer Point)) : Type 0 where
    pub singles : List (SingleSeller Point) × List (SingleBuyer Point)
    pub exchanged : Exchanged libraries past fuel t r l k singles
    pub transacted : Transacted libraries past fuel t r l k b
    pub sized : Sized libraries past fuel t r l k singles
    pub before : Rng
    pub ran : (List (SingleSeller Point) × List (SingleBuyer Point)) × Rng
    pub picked : Strict t 0 b.r × (length b.r ≡ r)
    pub runs :
        let shown = show_hash libraries past fuel t r l k b.t2_hash singles in
        run_all
          (signature_key_protocol random codec sha ofb arithmetic curve l k)
          past
          t
          shown.0
          shown.1
          before
        ≡ ok ran
    pub opened :
        (d : ℕ)
        → d < t
        → contains (map pos b.r) d ≡ false
        → Signed libraries past fuel t r l k b.t2_hash ran.0 sellers buyers d
    pub fates :
        Fates
          (signature_key_protocol random codec sha ofb arithmetic curve l k)
          past
          (map pos b.r)
          t
          0
          ran.0.0
          ran.0.1
          sellers
          buyers

  -- The parts, put together.
  concludes :
      (b : Buyer Point) (ready : List (SingleSeller Point) × List (SingleBuyer Point))
      (sellers : List (SingleSeller Point)) (buyers : List (SingleBuyer Point)) (before : Rng)
      (singles : List (SingleSeller Point) × List (SingleBuyer Point)) {after : Rng}
      → ready ≡ show_hash libraries past fuel t r l k b.t2_hash singles
      → Exchanged libraries past fuel t r l k singles
      → Transacted libraries past fuel t r l k b
      → Sized libraries past fuel t r l k singles
      → Strict t 0 b.r × (length b.r ≡ r)
      → check_indices t r (map pos b.r) ≡ ok (map pos b.r)
      → cut_and_choose
          (signature_key_protocol random codec sha ofb arithmetic curve l k)
          past
          t
          r
          ready.0
          ready.1
          (map pos b.r)
          (negsuc 0)
          before
        ≡ ok ((sellers, buyers, true), after)
      → Agreed b sellers buyers
  unfolding cheat_at
  concludes b ready sellers buyers before singles shown exchanged transacted sized picked checks
        returns =
      let proto = signature_key_protocol random codec sha ofb arithmetic curve l k in
      let (taken, all, cheated, checks', runs, kept, _, _, fates) =
        cut_and_choose-Fates proto past t r ready.0 ready.1 (map pos b.r) (negsuc 0) before
          returns in
      let honest : all.0.0 ≡ cheated = ok-injective kept in
      let same : taken ≡ map pos b.r = ok-injective (sym checks' ∙ checks) in
      let all_fates : Fates proto past (map pos b.r) t 0 all.0.0 all.0.1 sellers buyers =
        subst (λ cs. Fates proto past cs t 0 all.0.0 all.0.1 sellers buyers) same
          (subst (λ ps. Fates proto past taken t 0 ps all.0.1 sellers buyers) (sym honest) fates) in
      record {
        singles = singles;
        exchanged = exchanged;
        transacted = transacted;
        sized = sized;
        before = before;
        ran = all;
        picked = picked;
        runs = ap (λ x. run_all proto past t x.0 x.1 before) (sym shown) ∙ runs;
        opened =
            run_all-Signed libraries past fuel t r l k b.t2_hash (map pos b.r) singles before
              sellers buyers (ap (λ x. run_all proto past t x.0 x.1 before) (sym shown) ∙ runs)
              all_fates;
        fates = all_fates;
      }

  challenge-Agreed :
      (singles : List (SingleSeller Point) × List (SingleBuyer Point)) (b : Buyer Point)
      (state : Rng × World)
      {done : ((List (SingleSeller Point) × List (SingleBuyer Point)) × Buyer Point)
        × (Rng × World)}
      → Exchanged libraries past fuel t r l k singles
      → Sized libraries past fuel t r l k singles
      → Strict t 0 b.r × (length b.r ≡ r)
      → check_indices t r (map pos b.r) ≡ ok (map pos b.r)
      → challenge libraries past fuel t r l k singles b state ≡ ok done
      → Agreed done.0.1 done.0.0.0 done.0.0.1 × SameRows libraries past fuel t r l k b done.0.1
  unfolding challenge
  challenge-Agreed singles b state exchanged sized picked checks h =
      let proto = signature_key_protocol random codec sha ofb arithmetic curve l k in
      let (b₁, e₁, h₁) = bind-eq-ok (on_second (create_t1_and_t2 libraries r l b) state) _ h in
      let ready = show_hash libraries past fuel t r l k b₁.0.t2_hash singles in
      let run = cut_and_choose proto past t r ready.0 ready.1 (map pos b.r) (negsuc 0) in
      let (ran, e₂, h₂) = bind-eq-ok (on_first run b₁.1) _ h₁ in
      let why = protocol "Generating signatures and keys failed!" in
      let (guard, e₃, h₃) = bind-eq-ok (require ran.0.2 why ran.1) _ h₂ in
      let (same_r, rows, transacted) =
        create_t1_and_t2-r libraries past fuel t r l k b state.1
          (on_second-eq-ok (create_t1_and_t2 libraries r l b) state e₁) in
      let returns : run b₁.1.0 ≡ ok ((ran.0.0, ran.0.1, true), ran.1.0) =
        on_first-eq-ok run b₁.1 e₂
        ∙ ap (λ (res : Bool). ok ((ran.0.0, ran.0.1, res), ran.1.0))
            (require-holds ran.0.2 why ran.1 e₃) in
      subst
        (λ (x : ((List (SingleSeller Point) × List (SingleBuyer Point)) × Buyer Point)
            × (Rng × World)).
          Agreed x.0.1 x.0.0.0 x.0.0.1 × SameRows libraries past fuel t r l k b x.0.1)
        (ok-injective h₃)
        (
          (concludes b₁.0 ready ran.0.0 ran.0.1 b₁.1.0 singles refl exchanged transacted sized
              (subst (λ cs. Strict t 0 cs × (length cs ≡ r)) (sym same_r) picked)
              (ap (λ cs. check_indices t r (map pos cs)) same_r
                ∙ checks
                ∙ ap (λ cs. ok (map pos cs)) (sym same_r))
              (ap
                  (λ cs.
                    cut_and_choose proto past t r ready.0 ready.1 (map pos cs) (negsuc 0) b₁.1.0)
                  same_r
                ∙ returns)),
          rows,
        )

  pub agree-Agreed_rows :
      (address : List ℕ) (b : Buyer Point) (state : Rng × World)
      {done : ((List (SingleSeller Point) × List (SingleBuyer Point)) × Buyer Point)
        × (Rng × World)}
      → 0 < t
      → agree libraries past fuel t r l k address b state ≡ ok done
      → Agreed done.0.1 done.0.0.0 done.0.0.1 × SameRows libraries past fuel t r l k b done.0.1
  unfolding agree
  agree-Agreed_rows address b state {done} some_t h =
      let (blank, e₁, h₁) =
        bind-eq-ok (on_first (new_singles libraries past fuel t r l k b.t2_hash) state) _ h in
      let (singles, e₂, h₂) =
        bind-eq-ok
          (on_first (exchange_keys libraries past fuel t r l k blank.0.0 blank.0.1) blank.1) _ h₁ in
      let (chosen, e₃, h₃) = bind-eq-ok (on_first (pick_r random fuel t r) singles.1) _ h₂ in
      let (used, e₄, h₄) = bind-eq-ok (from_result (first_r r chosen.0) chosen.1) _ h₃ in
      let (picked, e₅, h₅) = bind-eq-ok (from_result (read_all singles.0.1 used.0) used.1) _ h₄ in
      let made =
        new_singles-Sized libraries past fuel t r l k b.t2_hash state.0
          (on_first-eq-ok (new_singles libraries past fuel t r l k b.t2_hash) state e₁) in
      let sized =
        exchange_keys-Sized libraries past fuel t r l k blank.0.0 blank.0.1 blank.1.0 made (
          on_first-eq-ok (exchange_keys libraries past fuel t r l k blank.0.0 blank.0.1) blank.1
            e₂) in
      let exchanged : Exchanged libraries past fuel t r l k singles.0 = record {
        hash = b.t2_hash;
        start = state.0;
        between = blank.1.0;
        end = singles.1.0;
        blank = blank.0;
        copies = on_first-eq-ok (new_singles libraries past fuel t r l k b.t2_hash) state e₁;
        exchanges =
            on_first-eq-ok (exchange_keys libraries past fuel t r l k blank.0.0 blank.0.1) blank.1
              e₂;
      } in
      let (ascends, long, checks) =
        pick_r-check_indices random fuel t r singles.1.0 some_t
          (on_first-eq-ok (pick_r random fuel t r) singles.1 e₃) in
      let (agreed, rows) =
        challenge-Agreed singles.0
          (record b {
            r = chosen.0;
            single_buyers = b.single_buyers ++ picked.0;
            seller_address = address;
          })
          picked.1 exchanged sized (ascends, long) checks h₅ in
      (
        agreed,
        record {
          n = rows.n;
          x = rows.x;
          y = rows.y;
          indices = rows.indices;
          d1 = rows.d1;
          d2 = rows.d2;
        },
      )
