-- ===== src/SellInformation/Sealed.antt =====
-- Rows of ciphertexts and of commitments to them: no step of `Seller::encryptRoots`,
-- `Seller::setupCommit` and the loop of commitments fails, and each index holds what belongs to it.
use zkfactorization.Prelude.{
  ℕ, zero, suc, ◌<◌, ◌≡◌, refl, sym, ap, subst, ◌∙◌, List, [], ◌∷◌, All, length, arith,
}
use zkfactorization.Prelude.Int.{ℤ}
use zkfactorization.Prelude.Result.{ok, ok-injective}
use zkfactorization.CryptoPp.{Random, Sha256, Codec, Ecb}
use zkfactorization.Common.{to_bytes}
use zkfactorization.Aes
use zkfactorization.Aes.{aes_length}
use zkfactorization.ShaCommitment
use zkfactorization.SellInformation.{read, encrypt_roots, setup_commit}
use zkfactorization.SellInformation.Exchange.{Rows, commit_rows}
use zkfactorization.SellInformation.Reads.{read-ok}
use zkfactorization.SellInformation.Openings.{Opens}

module _ (random : Random) (codec : Codec) (sha : Sha256) (ecb : Ecb) where
  open random use {Rng}

  read_nil : {A : Type 0} (i : ℕ) {a : A} → read [] i ≡ ok a → ⊥
  unfolding read
  read_nil i h = cc

  enc-runs : (key m : List ℕ) → length key ≡ aes_length → (c : List ℕ) × (Aes.enc ecb key m ≡ ok c)
  unfolding Aes.enc
  enc-runs key m long = (ecb.encrypt key m, ground arith)

  encrypted_cons :
      (c : ShaCommitment.Sender) (commits : List ShaCommitment.Sender) (root : ℤ) (roots : List ℤ)
      (m : List ℕ) (row : List (List ℕ))
      → Aes.enc ecb c.m (to_bytes codec root) ≡ ok m
      → ((i : ℕ) (d : ShaCommitment.Sender) (a : ℤ)
          → read commits i ≡ ok d
          → read roots i ≡ ok a
          → (x : List ℕ) × (read row i ≡ ok x) × (Aes.enc ecb d.m (to_bytes codec a) ≡ ok x))
      → (i : ℕ) (d : ShaCommitment.Sender) (a : ℤ) → read (c ∷ commits) i ≡ ok d
      → read (root ∷ roots) i ≡ ok a
      → (x : List ℕ) × (read (m ∷ row) i ≡ ok x) × (Aes.enc ecb d.m (to_bytes codec a) ≡ ok x)
  unfolding read
  encrypted_cons c commits root roots m row sealed at zero d a h k =
      let key : c ≡ d = ok-injective h in
      let same : root ≡ a = ok-injective k in
      (
        m,
        refl,
        subst (λ t. Aes.enc ecb t.m (to_bytes codec a) ≡ ok m) key
            (subst (λ t. Aes.enc ecb c.m (to_bytes codec t) ≡ ok m) same sealed),
      )
  encrypted_cons c commits root roots m row sealed at (suc i) d a h k = at i d a h k

  -- Under keys of 32 bytes a row of roots is encrypted, index by index.
  pub encrypt_roots-reads :
      (commits : List ShaCommitment.Sender) (roots : List ℤ)
      → All (λ c. length c.m ≡ aes_length) commits
      → length roots ≡ length commits
      → (row : List (List ℕ)) × (encrypt_roots codec ecb commits roots ≡ ok row)
        × (length row ≡ length commits)
        × ((i : ℕ) (c : ShaCommitment.Sender) (root : ℤ)
            → read commits i ≡ ok c
            → read roots i ≡ ok root
            → (m : List ℕ) × (read row i ≡ ok m) × (Aes.enc ecb c.m (to_bytes codec root) ≡ ok m))
  unfolding encrypt_roots
  encrypt_roots-reads [] roots keys same = ([], refl, refl, λ i c root h k. absurd (read_nil i h))
  encrypt_roots-reads (c ∷ commits) [] keys same = absurd (omega arith)
  encrypt_roots-reads (c ∷ commits) (root ∷ roots) (key, keys) same =
      let (row, e, long, at) = encrypt_roots-reads commits roots keys (omega arith) in
      let (m, sealed) = enc-runs c.m (to_bytes codec root) key in
      (
        m ∷ row,
        rw sealed (rw e refl),
        ap suc long,
        encrypted_cons c commits root roots m row sealed at,
      )

  -- A row of senders takes over the messages.
  pub length-setup_commit :
      (row : List (List ℕ)) (senders : List ShaCommitment.Sender)
      → length row ≡ length senders
      → length (setup_commit row senders) ≡ length senders
  unfolding setup_commit
  length-setup_commit [] senders same = refl
  length-setup_commit (m ∷ row) [] same = refl
  length-setup_commit (m ∷ row) (s ∷ senders) same =
      ap suc (length-setup_commit row senders (omega arith))

  pub read-setup_commit :
      (row : List (List ℕ)) (senders : List ShaCommitment.Sender) (i : ℕ) {m : List ℕ}
      → length row ≡ length senders
      → read row i ≡ ok m
      → (s : ShaCommitment.Sender) × (read (setup_commit row senders) i ≡ ok s) × (s.m ≡ m)
  unfolding read setup_commit
  read-setup_commit [] senders i same h = absurd (cc h)
  read-setup_commit (m ∷ row) [] i same h = absurd (omega arith)
  read-setup_commit (m ∷ row) (s ∷ senders) zero same h = (record s { m = m }, refl, ok-injective h)
  read-setup_commit (m ∷ row) (s ∷ senders) (suc i) same h =
      read-setup_commit row senders i (omega arith) h

  -- A commitment to a message at an index.
  pub record CommittedAt (senders : List ShaCommitment.Sender)
      (receivers : List ShaCommitment.Receiver) (m : List ℕ) (i : ℕ) : Type 0 where
    pub opens : Opens random codec sha ecb senders receivers i
    pub message : opens.s.m ≡ m
    pub nothing : opens.r.m ≡ []

  abbrev pub Committed :
      List ShaCommitment.Sender → List ShaCommitment.Sender → List ShaCommitment.Receiver → Type 0
  Committed before senders receivers =
      (i : ℕ) (s : ShaCommitment.Sender)
      → read before i ≡ ok s
      → CommittedAt senders receivers s.m i

  Committed-cons :
      (s : ShaCommitment.Sender) (rc : ShaCommitment.Receiver) (rng : Rng)
      {e : (ShaCommitment.Sender × ShaCommitment.Receiver) × Rng}
      (before senders : List ShaCommitment.Sender) (receivers : List ShaCommitment.Receiver)
      → rc.m ≡ []
      → ShaCommitment.exec sha random s rc rng ≡ ok e
      → Committed before senders receivers
      → Committed (s ∷ before) (e.0.0 ∷ senders) (e.0.1 ∷ receivers)
  unfolding read ShaCommitment.exec
  Committed-cons s rc rng before senders receivers blank h rest zero t k =
      subst
        (λ (x : (ShaCommitment.Sender × ShaCommitment.Receiver) × Rng).
          CommittedAt (x.0.0 ∷ senders) (x.0.1 ∷ receivers) t.m zero)
        (ok-injective h)
        (record {
          opens = record { s = _; r = _; sender = refl; receiver = refl; commits = refl };
          message = ap (λ (x : ShaCommitment.Sender). x.m) (ok-injective k);
          nothing = blank;
        })
  Committed-cons s rc rng before senders receivers blank h rest (suc i) t k =
      let there = rest i t k in
      record {
        opens = record {
          s = there.opens.s;
          r = there.opens.r;
          sender = there.opens.sender;
          receiver = there.opens.receiver;
          commits = there.opens.commits;
        };
        message = there.message;
        nothing = there.nothing;
      }

  exec-runs :
      (s : ShaCommitment.Sender) (rc : ShaCommitment.Receiver) (rng : Rng)
      → (e : (ShaCommitment.Sender × ShaCommitment.Receiver) × Rng) × (ShaCommitment.exec sha random
            s rc rng
          ≡ ok e)
  unfolding ShaCommitment.exec
  exec-runs s rc rng = (_, refl)

  -- The loop of commitments returns, and commits to the messages of both rows.
  pub commit_rows-Committed :
      (s1 s2 : List ShaCommitment.Sender) (r1 r2 : List ShaCommitment.Receiver) (rng : Rng)
      → length s2 ≡ length s1
      → length r1 ≡ length s1
      → length r2 ≡ length s1
      → All (λ rc. rc.m ≡ []) r1
      → All (λ rc. rc.m ≡ []) r2
      → (done : Rows × Rng) × (commit_rows random codec sha ecb s1 s2 r1 r2 rng ≡ ok done)
        × Committed s1 done.0.senders1 done.0.receivers1
        × Committed s2 done.0.senders2 done.0.receivers2
        × (length done.0.receivers1 ≡ length s1)
        × (length done.0.receivers2 ≡ length s1)
  unfolding commit_rows ShaCommitment.init
  commit_rows-Committed [] (s ∷ s2) r1 r2 rng e₁ e₂ e₃ blank1 blank2 = absurd (omega arith)
  commit_rows-Committed [] [] r1 r2 rng e₁ e₂ e₃ blank1 blank2 =
      (_, refl, λ i s h. absurd (read_nil i h), λ i s h. absurd (read_nil i h), e₂, e₃)
  commit_rows-Committed (a ∷ s1) [] r1 r2 rng e₁ e₂ e₃ blank1 blank2 = absurd (omega arith)
  commit_rows-Committed (a ∷ s1) (b ∷ s2) [] r2 rng e₁ e₂ e₃ blank1 blank2 = absurd (omega arith)
  commit_rows-Committed (a ∷ s1) (b ∷ s2) (c ∷ r1) [] rng e₁ e₂ e₃ blank1 blank2 =
      absurd (omega arith)
  commit_rows-Committed (a ∷ s1) (b ∷ s2) (c ∷ r1) (d ∷ r2) rng e₁ e₂ e₃ blank1 blank2 =
      let (one, h₁) = exec-runs a c rng in
      let (two, h₂) = exec-runs b d one.1 in
      let (rest, h₃, first, second, long1, long2) =
        commit_rows-Committed s1 s2 r1 r2 two.1 (omega arith) (omega arith) (omega arith) blank1.1
          blank2.1 in
      let rows : Rows = record {
        senders1 = one.0.0 ∷ rest.0.senders1;
        senders2 = two.0.0 ∷ rest.0.senders2;
        receivers1 = one.0.1 ∷ rest.0.receivers1;
        receivers2 = two.0.1 ∷ rest.0.receivers2;
      } in
      (
        (rows, rest.1),
        rw h₁ (rw h₂ (rw h₃ refl)),
        Committed-cons a c rng s1 rest.0.senders1 rest.0.receivers1 blank1.0 h₁ first,
        Committed-cons b d one.1 s2 rest.0.senders2 rest.0.receivers2 blank2.0 h₂ second,
        ap suc long1,
        ap suc long2,
      )

  -- A sender has the ciphertext of its index, and its receiver has no message yet.
  pub record Holds (senders : List ShaCommitment.Sender) (receivers : List ShaCommitment.Receiver)
      (row : List (List ℕ)) (i : ℕ) : Type 0 where
    pub s : ShaCommitment.Sender
    pub rc : ShaCommitment.Receiver
    pub sender : read senders i ≡ ok s
    pub receiver : read receivers i ≡ ok rc
    pub message : read row i ≡ ok s.m
    pub nothing : rc.m ≡ []

  pub Committed-Holds :
      (row : List (List ℕ)) (senders : List ShaCommitment.Sender)
      {after : List ShaCommitment.Sender} {receivers : List ShaCommitment.Receiver}
      → length row ≡ length senders
      → Committed (setup_commit row senders) after receivers
      → (i : ℕ) → i < length row
      → Holds after receivers row i
  Committed-Holds row senders fits all i lt =
      let (m, in_row) = read-ok row i lt in
      let (t, set_at, same) = read-setup_commit row senders i fits in_row in
      let c = all i t set_at in
      record {
        s = c.opens.s;
        rc = c.opens.r;
        sender = c.opens.sender;
        receiver = c.opens.receiver;
        message = in_row ∙ ap ok (sym (c.message ∙ same));
        nothing = c.nothing;
      }
