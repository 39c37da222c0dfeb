-- ===== src/Main.antt =====
-- main/main.cpp: one process plays both parties. It is followed up to the buyer's wait, at which `exec`
-- ends and whose outcomes are in SellInformation/Race.antt; the prompts are left out.
use zkfactorization.Prelude.{ℕ, ◌*◌, Bool, String}
use zkfactorization.Prelude.Int.{ℤ}
use zkfactorization.Prelude.Result.{
  Result, ok, throw, undefined, hangs, protocol, timed_protocol, sanity, paillier, standard,
  divide_by_zero, invalid_ciphertext, bind, on_second,
}
use zkfactorization.Libraries.{Libraries}
use zkfactorization.SellInformation.Protocol.{init}
use zkfactorization.SellInformation.Exec.{exec_before_wait}
use zkfactorization.SellInformation.State.{Seller, Buyer, new_seller, new_buyer}

-- What `main` goes on with: the text of the exception that it caught, or the parties in the wait and
-- the state of the random numbers and of the client.
pub data Progress (Point S : Type 0) : Type 0 where
  caught : String → Progress Point S
  waits : Seller Point → Buyer Point → S → Progress Point S

-- `catch (ProtocolException e)`: other exceptions pass through.
unfoldable pub catch_protocol :
    {Point S : Type 0} → Result ((Seller Point × Buyer Point) × S) → Result (Progress Point S)
catch_protocol (ok ((s, b), state)) = ok (waits s b state)
catch_protocol (throw (protocol text)) = ok (caught text)
catch_protocol (throw (timed_protocol text)) = throw (timed_protocol text)
catch_protocol (throw (sanity text)) = throw (sanity text)
catch_protocol (throw (paillier text)) = throw (paillier text)
catch_protocol (throw standard) = throw standard
catch_protocol (throw divide_by_zero) = throw divide_by_zero
catch_protocol (throw invalid_ciphertext) = throw invalid_ciphertext
catch_protocol undefined = undefined
catch_protocol hangs = hangs

module _ (libraries : Libraries) (past : ℕ → ℤ) (fuel t r l k : ℕ) where
  open libraries use {random, arithmetic, theory, curve, bitcoin}
  open random use {Rng}
  open bitcoin use {World}
  open curve use {Point}

  unfoldable pub main : ℕ → ℕ → ℕ → Bool → Rng × World → Result (Progress Point (Rng × World))
  unfolding new_seller new_buyer catch_protocol
  main p q price cheat state =
      bind (on_second (new_seller arithmetic theory bitcoin Point r l p q price cheat) state)
        λ made.
          let b = new_buyer arithmetic theory bitcoin Point r l (p * q) price in
          catch_protocol (
            bind (init libraries past fuel t r l k made.0 b)
              λ done. exec_before_wait libraries past fuel t r l k made.0 b made.1)
