-- ===== src/Lib.antt =====
-- A verification library for the zero-knowledge sale of a factorization: a seller S knows the factors
-- of numbers, a buyer B pays for them in bitcoin, and commitments, a two-party ECDSA signature and
-- cut and choose make both keep to the protocol.
--
-- The parts of the program and the modules that model them:
--   * common/common.{h,cpp}: conversions and parameters, in Common; common/aes.{h,cpp} in Aes;
--     common/square_root.{h,cpp}, the four square roots modulo p * q, in SquareRoot, with its proofs in
--     Roots, Opposite and Smallest.
--   * sha_commitment/sha_commitment.{h,cpp} in ShaCommitment: `Sender` and `Receiver` are the classes,
--     `init`, `exec` and `reveal` the methods `init`, `exec` and `open` of `ShaCommitment`.
--   * timed_commitment/regular_commitment.{h,cpp} in RegularCommitment, timed_commitment/bit_utils.cpp
--     in BitUtils, timed_commitment/timed_commitment.{h,cpp} in TimedCommitment: `Commiter` and
--     `Receiver` are the classes, `commit_message` is `Commiter::commit`, `open_with` is
--     `Receiver::open`, and `commit`, `open_commitment` are the two functions outside the classes.
--   * protocol.h and cut_and_choose/cut_and_choose.h in CutAndChoose: `Protocol` is the template's
--     parameter P with the two methods that it calls on the parties; `cut_and_choose` composes
--     `run_all` (the executions), `cheat_at`, `get_i`, `check_indices`, `open_loop` and `finish` in the
--     order of the template.
--   * shared_signature/paillier.{h,cpp} in Paillier; shared_signature/shared_sig.{h,cpp} in
--     SharedSignature: Verify has the functions outside the classes, Parties the classes S (`Seller`)
--     and B (`Buyer`) and the protocol that runs them; Equations, Group, Recover, KeyExchange,
--     HalfSignature, Signing and Exec hold the proofs. Trial is the program shared_signature/ecdsa.cpp,
--     with what it prints as its result and the verifier of Crypto++ as a parameter.
--   * main/signature_key.{h,cpp} in SignatureKey: `reveal` is `SignatureKeyProtocol::open`, and the
--     loops over `common::L` are functions of their own; Keys, Opening, Commits and Honest hold the
--     proofs. `signature_key_protocol` is what cut and choose runs.
--   * main/sell_information.{h,cpp} in SellInformation. The module itself has what works on the rows of
--     one instance; State the classes `Seller` and `Buyer` with their constructors; Operations their
--     methods, with `create_t1_and_t2` for `createT1AndT2` and so on; Draws `pickR` and `pickSubset`;
--     Factorise the loops of `Buyer::factorise`; Exchange the second cut and choose; Protocol
--     `SellInformationProtocol::init` and one round of the loop of `exec` (`exchange`); Exec the rest of
--     `exec`, as `agree` (up to the first cut and choose), `keep`, `exchange_all` and
--     `exec_before_wait`; Race the wait at the end of `exec`, a step relation of three threads.
--     The other modules hold the proofs: Picked and Sets of the draws; Subset, Revealed, Answered and
--     Shown of what the second cut and choose shows whoever runs it; Reads, Squares, OnlyRoots,
--     Prepared, Sealed, Ready, Accepted, Halves, Openings, Steps, Gains, Bought, Fits, Completed and
--     Sale of its rounds between honest parties; Found, Split and Works of the factorization; Sized,
--     Transacted, Signed, Agreed and SharedLock of the first cut and choose; Executed, Handed, Kept, Passed and Whole of what it hands
--     over to the second one; Phases and Waited of the wait.
--   * main/main.cpp in Main, up to the wait.
-- A seller's signature is made by Paillier's encryption; the instances of SignatureKey, which run the
-- signature, the time lock and the commitments, are what the first cut and choose of the sale runs;
-- the keys derived from their signatures lock the roots of the second one. Examples has concrete
-- instances of all interfaces, tests, among them a whole sale of 77 up to the factors that the buyer
-- finds, and the theorems applied to concrete inputs.
--
-- Conventions. A call returns a `Result`: a value, an exception, `undefined` for what C++ leaves
-- undefined, or `hangs` for a loop that has not ended within its fuel. A call that draws
-- random numbers takes the generator's state and returns the next one, so the draws happen in the
-- order of the source. What an object holds after a call on it has thrown
-- is not modelled. Crypto++'s Integer is unbounded: a number that is never negative is a natural
-- number, and the others are `ℤ`; its difference is never below 0 where the natural one stands for
-- it. Output on cerr and cout is left out. The `unsigned` exponent of `exp` is bounded by 2 ^ 32, and
-- its loop runs on fuel 33, which is enough for every such exponent. The read of `chosen_i` behind its
-- last element in cut and choose is a parameter `past`. The method `cheat` of `Protocol` is given
-- no generator: the one that the sale's cut and choose could call, of `SingleSeller`, only throws. The loop of `pickR` runs on fuel, and returns
-- where the draws within it have shown R different instances. T, R, L and K are parameters of the
-- model; Common has their values. The pointers of the instances to the buyer's `T2_hash` are followed
-- by writing the hash to all of them (`show_hash`).
--
-- The Crypto++ library is a parameter (CryptoPp): random numbers, SHA-256, the byte form of an
-- Integer, AES, modular arithmetic, square roots modulo a prime, CRT and the elliptic curve, with
-- their documented behaviour as laws. What depends on the primes of a key is a named hypothesis: that
-- a number drawn has the totient for a period (Euler's theorem), and the laws of the group
-- (SharedSignature.Group).
--
-- The bitcoin client, generated from bitcoin/bitcoin_utils.thrift, is a parameter too (Bitcoin): each
-- call may change the state of the world, throw, or not return, and nothing is assumed of its answers.
-- Libraries holds all the parameters of the sale.
--
-- Not modelled: the connections (`BaseParty`) and the times that the program prints; what the program
-- does in `main` after the wait, which prints the two factors; bitcoin/ (a server that is a stub, Java
-- and generated code), common/log.{h,cpp} (output only), the programs shared_signature/1.cpp
-- and ECDSA-Test-C.cpp (trials of Crypto++), and the tests.
pub mod Prelude
pub mod CryptoPp
pub mod Bitcoin
pub mod Libraries
pub mod BitUtils
pub mod RegularCommitment
pub mod ShaCommitment
pub mod TimedCommitment
pub mod Paillier
pub mod CutAndChoose
pub mod Common
pub mod Aes
pub mod SquareRoot
pub mod SharedSignature
pub mod SignatureKey
pub mod SellInformation
pub mod Main
mod Examples
