-- ===== src/ShaCommitment.antt =====
-- sha_commitment/sha_commitment.{h,cpp}: a commitment to a message by the SHA-256 digest of the
-- message and a random seed. A party's fields that a call does not name stay as they are.
pub mod Opening
use zkfactorization.Prelude.{ℕ, List, [], ◌∷◌, ◌++◌, Bool, false, not, ◌==◌, if◌then◌else◌, equal}
use zkfactorization.Prelude.Result.{Run, Result, ok, throw, undefined, protocol, pure}
use zkfactorization.CryptoPp.{Sha256, Random}

-- the security parameter, in bytes
abbrev pub seed_size : ℕ
seed_size = 32

pub record Sender : Type 0 where
  pub m : List ℕ
  pub seed : List ℕ
  pub commitment : List ℕ

pub record Receiver : Type 0 where
  pub open_verified : Bool
  pub m : List ℕ
  pub seed : List ℕ
  pub commitment : List ℕ

-- Both as default construction leaves them; the fields that it does not set stand empty here.
abbrev pub blank_sender : Sender
blank_sender = record { m = []; seed = []; commitment = [] }

abbrev pub blank_receiver : Receiver
blank_receiver = record { open_verified = false; m = []; seed = []; commitment = [] }

-- `Sender::cheat`: `*m.begin() = !(*m.begin())`, which needs a first byte.
unfoldable pub cheat_from : Sender → List ℕ → Result Sender
cheat_from s [] = undefined
cheat_from s (b ∷ rest) = ok (record s { m = (if b == 0 then 1 else 0) ∷ rest })

unfoldable pub cheat : Sender → Result Sender
unfolding cheat_from
cheat s = cheat_from s s.m

module _ (sha : Sha256) (random : Random) where
  open random use {Rng, generate_block}

  unfoldable pub compute_sha : List ℕ → List ℕ → List ℕ
  compute_sha msg seed = sha.digest (msg ++ seed)

  unfoldable pub init : Sender → Receiver → Run Rng (Sender × Receiver)
  init s r = pure (s, r)

  unfoldable pub exec : Sender → Receiver → Run Rng (Sender × Receiver)
  unfolding compute_sha
  exec s r rng =
      let (seed, rng') = generate_block seed_size rng in
      let commitment = compute_sha s.m seed in
      ok (
        (record s { seed = seed; commitment = commitment }, record r { commitment = commitment }),
        rng',
      )

  -- `ShaCommitment::open`, on the receiver; the sender is only read.
  unfoldable pub reveal : Sender → Receiver → Result Receiver
  unfolding compute_sha
  reveal s r =
      let verified = equal r.commitment (compute_sha s.m s.seed) in
      if not verified
      then throw (protocol "sha commitment open failed")
      else ok (record r { m = s.m; seed = s.seed; open_verified = verified })
