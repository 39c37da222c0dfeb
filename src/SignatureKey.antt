-- ===== src/SignatureKey.antt =====
-- main/signature_key.{h,cpp}: one instance of the sale. The parties sign the hash of a transaction,
-- the seller puts its half of the secret key under a time lock, and commits to the signature and to
-- the keys derived from it. `l` stands for `common::L` and `k` for `common::K`. The check by
-- Crypto++'s own verifier is left out: the program drops its result.
pub mod Keys
pub mod Opening
pub mod Commits
pub mod Honest
use zkfactorization.Prelude.{
  ℕ, zero, suc, ◌+◌, List, [], ◌∷◌, Bool, true, false, not, ◌==◌, if◌then◌else◌, replicate,
}
use zkfactorization.Prelude.Int.{pos}
use zkfactorization.Prelude.Result.{Run, Result, ok, throw, undefined, protocol, bind, pure}
use zkfactorization.CryptoPp.{Random, Sha256, Codec, Ofb, ModArith, Curve}
use zkfactorization.Common.{concatenate, to_bytes}
use zkfactorization.BitUtils.{integer_to_bits}
use zkfactorization.ShaCommitment
use zkfactorization.ShaCommitment.{blank_sender, blank_receiver}
use zkfactorization.TimedCommitment
use zkfactorization.TimedCommitment.{blank_commitment}
use zkfactorization.SharedSignature.Parties
use zkfactorization.SharedSignature.Parties.{
  Seller, Buyer, get_signature, set_data_seller, set_data_buyer,
}

pub record SingleSeller (Point : Type 0) : Type 0 where
  pub t2_hash : List ℕ
  pub keys : List (List ℕ)
  pub shared_signature_s : Seller Point
  pub timed_commitment_commiter : TimedCommitment.Commiter
  pub keys_commits : List ShaCommitment.Sender
  pub signature_commit : ShaCommitment.Sender

pub record SingleBuyer (Point : Type 0) : Type 0 where
  pub t2_hash : List ℕ
  pub open_verified : Bool
  pub shared_signature_b : Buyer Point
  pub timed_commitment_receiver : TimedCommitment.Receiver
  pub keys_commits : List ShaCommitment.Receiver
  pub signature_commit : ShaCommitment.Receiver

-- The constructors of the two classes.
unfoldable pub new_single_seller :
    {Point : Type 0} → ℕ → Seller Point → List ℕ → TimedCommitment.Commiter → SingleSeller Point
new_single_seller l signer hash commiter = record {
  t2_hash = hash;
  keys = replicate l [];
  shared_signature_s = signer;
  timed_commitment_commiter = commiter;
  keys_commits = replicate l blank_sender;
  signature_commit = blank_sender;
}

unfoldable pub new_single_buyer : {Point : Type 0} → ℕ → Buyer Point → List ℕ → SingleBuyer Point
new_single_buyer l cosigner hash = record {
  t2_hash = hash;
  open_verified = false;
  shared_signature_b = cosigner;
  timed_commitment_receiver = record { commitment = blank_commitment };
  keys_commits = replicate l blank_receiver;
  signature_commit = blank_receiver;
}

-- The loop of `genKeys` from index `i` on.
unfoldable pub gen_keys_from : Codec → Sha256 → List ℕ → ℕ → ℕ → List (List ℕ)
unfolding concatenate to_bytes
gen_keys_from codec sha signature i zero = []
gen_keys_from codec sha signature i (suc left) =
    sha.digest (concatenate signature (to_bytes codec (pos i)))
    ∷ gen_keys_from codec sha signature (i + 1) left

-- `keys_commits[i].m.assign(...)` for each `i`
unfoldable pub assign_keys : List (List ℕ) → List ShaCommitment.Sender → List ShaCommitment.Sender
assign_keys [] commits = commits
assign_keys (key ∷ keys) [] = []
assign_keys (key ∷ keys) (c ∷ commits) = record c { m = key } ∷ assign_keys keys commits

-- `std::equal` on the range of the first argument only
unfoldable pub equal_range : List ℕ → List ℕ → Result Bool
equal_range [] ys = ok true
equal_range (x ∷ xs) [] = undefined
equal_range (x ∷ xs) (y ∷ ys) = let rest = equal_range xs ys in if x == y then rest else ok false

-- The loop of `verifyKeys`
unfoldable pub verify_all : List ShaCommitment.Receiver → List (List ℕ) → Result (Unit {0})
unfolding equal_range
verify_all [] keys = ok tt
verify_all (c ∷ commits) [] = undefined
verify_all (c ∷ commits) (key ∷ keys) =
    bind (equal_range c.m key)
      λ same. elim same [ false ↦ throw (protocol "Invalid key") | true ↦ verify_all commits keys ]

module _ (random : Random) (codec : Codec) (sha : Sha256) (ofb : Ofb) (arithmetic : ModArith)
    (curve : Curve) (l k : ℕ) where
  open random use {Rng}
  open curve use {Point}

  unfoldable pub gen_keys : List ℕ → List (List ℕ)
  unfolding gen_keys_from
  gen_keys signature = gen_keys_from codec sha signature 0 l

  unfoldable pub gen_keys_and_setup_commits : SingleSeller Point → SingleSeller Point
  unfolding gen_keys assign_keys
  gen_keys_and_setup_commits s =
      let signature = get_signature random codec arithmetic curve s.shared_signature_s in
      let keys = gen_keys signature in
      record s {
        keys = keys;
        keys_commits = assign_keys keys s.keys_commits;
        signature_commit = record s.signature_commit { m = signature };
      }

  -- `SingleBuyer::verifyKeys`
  unfoldable pub verify_keys : SingleBuyer Point → Result (Unit {0})
  unfolding gen_keys verify_all
  verify_keys b = verify_all b.keys_commits (gen_keys b.signature_commit.m)

  -- `SingleSeller::cheat`
  unfoldable pub cheat : SingleSeller Point → Result (SingleSeller Point)
  cheat s = throw (protocol "Cheating not implemented!")

  unfoldable pub init :
      SingleSeller Point → SingleBuyer Point → Run Rng (SingleSeller Point × SingleBuyer Point)
  init s b = pure (s, b)

  -- The loop of commitments in `exec`
  unfoldable pub commit_all :
      List ShaCommitment.Sender
      → List ShaCommitment.Receiver
      → Run Rng (List ShaCommitment.Sender × List ShaCommitment.Receiver)
  commit_all [] receivers rng = ok (([], receivers), rng)
  commit_all (s ∷ senders) [] rng = undefined
  commit_all (s ∷ senders) (r ∷ receivers) rng = bind (ShaCommitment.init sha random s r rng) λ i.
      bind (ShaCommitment.exec sha random i.0.0 i.0.1 i.1) λ e.
        bind (commit_all senders receivers e.1)
          λ rest. ok ((e.0.0 ∷ rest.0.0, e.0.1 ∷ rest.0.1), rest.1)

  -- `SignatureKeyProtocol::exec`
  unfoldable pub exec :
      SingleSeller Point → SingleBuyer Point → Run Rng (SingleSeller Point × SingleBuyer Point)
  unfolding set_data_seller set_data_buyer gen_keys_and_setup_commits commit_all
  exec s b rng =
      let signer = set_data_seller random codec arithmetic curve s.shared_signature_s b.t2_hash in
      let cosigner = set_data_buyer random codec arithmetic curve b.shared_signature_b b.t2_hash in
      bind (Parties.exec random codec arithmetic curve signer cosigner rng) λ signed.
        bind (integer_to_bits codec (pos signed.0.0.ds)) λ secret.
          bind
            (TimedCommitment.commit random ofb arithmetic s.timed_commitment_commiter
              b.timed_commitment_receiver k secret signed.1)
            λ locked.
              let s₁ = gen_keys_and_setup_commits (record s {
                shared_signature_s = signed.0.0;
                timed_commitment_commiter = locked.0.0;
              }) in
              bind (commit_all s₁.keys_commits b.keys_commits locked.1) λ committed.
                bind
                  (ShaCommitment.init sha random s₁.signature_commit b.signature_commit committed.1)
                  λ i. bind (ShaCommitment.exec sha random i.0.0 i.0.1 i.1) λ last. ok (
                    (
                      record s₁ { keys_commits = committed.0.0; signature_commit = last.0.0 },
                      record b {
                        shared_signature_b = signed.0.1;
                        timed_commitment_receiver = locked.0.1;
                        keys_commits = committed.0.1;
                        signature_commit = last.0.1;
                      },
                    ),
                    last.1,
                  )

  -- The loop of openings in `open`
  unfoldable pub open_all :
      List ShaCommitment.Sender → List ShaCommitment.Receiver → Result (List ShaCommitment.Receiver)
  open_all [] receivers = ok receivers
  open_all (s ∷ senders) [] = undefined
  open_all (s ∷ senders) (r ∷ receivers) =
      bind (ShaCommitment.reveal sha random s r)
        λ r'. bind (open_all senders receivers) λ rest. ok (r' ∷ rest)

  -- `SignatureKeyProtocol::open`
  unfoldable pub reveal : SingleSeller Point → SingleBuyer Point → Result (SingleBuyer Point)
  unfolding open_all verify_keys
  reveal s b =
      bind (Parties.reveal random codec arithmetic curve s.shared_signature_s b.shared_signature_b)
        λ signature.
          bind
            (TimedCommitment.open_commitment random ofb arithmetic s.timed_commitment_commiter
              b.timed_commitment_receiver)
            λ secret. bind (open_all s.keys_commits b.keys_commits) λ opened.
              bind (ShaCommitment.reveal sha random s.signature_commit b.signature_commit) λ last.
                let b₁ = record b {
                  shared_signature_b = signature;
                  keys_commits = opened;
                  signature_commit = last;
                } in
                bind (verify_keys b₁)
                  λ done. ok (record b₁ { open_verified = signature.open_verified })
