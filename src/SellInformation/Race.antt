-- ===== src/SellInformation/Race.antt =====
-- `Buyer::wait_for_signature_or_time_lock`: the buyer's three threads as a step relation. The calls of
-- the bitcoin client are single steps in an order that nothing fixes; an exception that leaves a
-- thread ends the program. The times that the code measures are left out.
use zkfactorization.Prelude.{ℕ, suc, ◌<◌, ◌≡◌, ◌≢◌, ◌⊎◌, true, false}
use zkfactorization.Prelude.Result.{Exception, ok, throw}
use zkfactorization.Libraries.{Libraries}
use zkfactorization.SellInformation.Operations.{
  await_payment, fetch_signatures, factorise_buyer, redeem,
}
use zkfactorization.SellInformation.State.{Buyer}

-- Where `get_signature` stands; it sets its flag last.
pub data SignatureThread : Type 0 where
  awaiting fetching factorising factorised signature_finished : SignatureThread

-- Where `solve_time_lock` stands: before its round `j`, in its endless sleep, or at its end.
pub data TimeLockThread : Type 0 where
  trying : ℕ → TimeLockThread
  sleeping redeemed time_lock_finished : TimeLockThread

-- Where the caller stands: in its loop, behind it, or at one of its two ends; or nowhere.
pub data MainThread : Type 0 where
  waiting passed by_signature by_time_lock : MainThread
  terminated : Exception → MainThread

abbrev pub IsAlive : MainThread → Type 0
IsAlive (terminated e) = ⊥
IsAlive waiting = Unit
IsAlive passed = Unit
IsAlive by_signature = Unit
IsAlive by_time_lock = Unit

module _ (libraries : Libraries) (r l : ℕ) where
  open libraries use {curve, bitcoin}
  open bitcoin use {World}
  open curve use {Point}

  pub record Race : Type 0 where
    pub buyer : Buyer Point
    pub world : World
    pub signature : SignatureThread
    pub lock : TimeLockThread
    pub main : MainThread

  -- Both threads are started.
  unfoldable pub start_wait : Buyer Point → World → Race
  start_wait b w = record {
    buyer = b;
    world = w;
    signature = awaiting;
    lock = trying 0;
    main = waiting;
  }

  pub data Step : Race → Race → Type 0 where
    -- `get_signature`
    sees_payment :
        (s : Race) {w : World}
        → IsAlive s.main
        → s.signature ≡ awaiting
        → await_payment libraries r l s.buyer s.world ≡ ok (tt, w)
        → Step s (record s { world = w; signature = fetching })
    fetches :
        (s : Race) {b : Buyer Point} {w : World}
        → IsAlive s.main
        → s.signature ≡ fetching
        → fetch_signatures libraries r l s.buyer s.world ≡ ok (b, w)
        → Step s (record s { buyer = b; world = w; signature = factorising })
    factorises :
        (s : Race) {b : Buyer Point}
        → IsAlive s.main
        → s.signature ≡ factorising
        → factorise_buyer libraries r l s.buyer ≡ ok b
        → Step s (record s { buyer = b; signature = factorised })
    sets_signature_finished :
        (s : Race)
        → IsAlive s.main
        → s.signature ≡ factorised
        → Step s (record s { signature = signature_finished })
    misses_payment :
        (s : Race) {e : Exception}
        → IsAlive s.main
        → s.signature ≡ awaiting
        → await_payment libraries r l s.buyer s.world ≡ throw e
        → Step s (record s { main = terminated e })
    fails_to_fetch :
        (s : Race) {e : Exception}
        → IsAlive s.main
        → s.signature ≡ fetching
        → fetch_signatures libraries r l s.buyer s.world ≡ throw e
        → Step s (record s { main = terminated e })
    fails_to_factorise :
        (s : Race) {e : Exception}
        → IsAlive s.main
        → s.signature ≡ factorising
        → factorise_buyer libraries r l s.buyer ≡ throw e
        → Step s (record s { main = terminated e })
    -- `solve_time_lock`
    redeems :
        (s : Race) {j : ℕ} {w : World}
        → IsAlive s.main
        → s.lock ≡ trying j
        → j < r
        → redeem libraries r l j s.buyer s.world ≡ ok (true, w)
        → Step s (record s { world = w; lock = redeemed })
    tries_next :
        (s : Race) {j : ℕ} {w : World}
        → IsAlive s.main
        → s.lock ≡ trying j
        → j < r
        → redeem libraries r l j s.buyer s.world ≡ ok (false, w)
        → Step s (record s { world = w; lock = trying (suc j) })
    fails_to_redeem :
        (s : Race) {j : ℕ} {e : Exception}
        → IsAlive s.main
        → s.lock ≡ trying j
        → j < r
        → redeem libraries r l j s.buyer s.world ≡ throw e
        → Step s (record s { main = terminated e })
    sleeps : (s : Race) → IsAlive s.main → s.lock ≡ trying r → Step s (record s { lock = sleeping })
    sets_time_lock_finished :
        (s : Race)
        → IsAlive s.main
        → s.lock ≡ redeemed
        → Step s (record s { lock = time_lock_finished })
    -- the caller
    passes :
        (s : Race)
        → s.main ≡ waiting
        → (s.signature ≡ signature_finished) ⊎ (s.lock ≡ time_lock_finished)
        → Step s (record s { main = passed })
    joins_signature :
        (s : Race)
        → s.main ≡ passed
        → s.signature ≡ signature_finished
        → Step s (record s { main = by_signature })
    joins_time_lock :
        (s : Race)
        → s.main ≡ passed
        → s.signature ≢ signature_finished
        → s.lock ≡ time_lock_finished
        → Step s (record s { main = by_time_lock })

  pub data Steps : Race → Race → Type 0 where
    stay : (s : Race) → Steps s s
    go : {s t u : Race} → Steps s t → Step t u → Steps s u
