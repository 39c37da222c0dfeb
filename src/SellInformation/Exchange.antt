-- ===== src/SellInformation/Exchange.antt =====
-- The second cut and choose of `SellInformationProtocol::exec`, on the rows of one instance: the
-- commitments to the encrypted roots, and the openings that the subset asks for.
use zkfactorization.Prelude.{
  ℕ, zero, suc, ◌+◌, ◌/◌, List, [], ◌∷◌, Bool, true, false, not, ◌==◌, leb, if◌then◌else◌, length,
  set, occurrences,
}
use zkfactorization.Prelude.Result.{Run, Result, ok, throw, undefined, protocol, bind}
use zkfactorization.CryptoPp.{Random, Sha256, Codec, Ecb}
use zkfactorization.ShaCommitment
use zkfactorization.SellInformation.{read, verify_root}
use zkfactorization.SellInformation.Draws.{set_of}

-- The two rows of commitments, on each side.
pub record Rows : Type 0 where
  pub senders1 : List ShaCommitment.Sender
  pub senders2 : List ShaCommitment.Sender
  pub receivers1 : List ShaCommitment.Receiver
  pub receivers2 : List ShaCommitment.Receiver

-- What the buyer holds of an instance while commitments are opened.
pub record Held : Type 0 where
  pub keys : List ShaCommitment.Receiver
  pub first : List ShaCommitment.Receiver
  pub second : List ShaCommitment.Receiver

-- The check of the indices: `L / 2` different ones, all below `L`.
unfoldable pub all_below : ℕ → List ℕ → Bool
all_below l [] = true
all_below l (i ∷ is) = elim (leb l i) [ true ↦ false | false ↦ all_below l is ]

unfoldable pub check_subset : ℕ → List ℕ → Result (List ℕ)
unfolding set_of all_below
check_subset l indices =
    let indices_set = set_of indices in
    if not (length indices_set == l / 2)
    then throw (protocol "invalid indices size")
    else if not (all_below l indices_set)
    then throw (protocol "invalid commitment_indices value")
    else ok indices_set

module _ (random : Random) (codec : Codec) (sha : Sha256) (ecb : Ecb) where
  open random use {Rng}

  -- The loop of commitments: the first row and the second one in turn.
  unfoldable pub commit_rows :
      List ShaCommitment.Sender
      → List ShaCommitment.Sender
      → List ShaCommitment.Receiver
      → List ShaCommitment.Receiver
      → Run Rng Rows
  commit_rows [] s2 r1 r2 rng =
      ok (record { senders1 = []; senders2 = s2; receivers1 = r1; receivers2 = r2 }, rng)
  commit_rows (s1 ∷ ss1) (s2 ∷ ss2) (r1 ∷ rs1) (r2 ∷ rs2) rng =
      bind (ShaCommitment.init sha random s1 r1 rng) λ i1.
        bind (ShaCommitment.init sha random s2 r2 i1.1) λ i2.
          bind (ShaCommitment.exec sha random i1.0.0 i1.0.1 i2.1) λ e1.
            bind (ShaCommitment.exec sha random i2.0.0 i2.0.1 e1.1) λ e2.
              bind (commit_rows ss1 ss2 rs1 rs2 e2.1) λ rest. ok (
                record {
                  senders1 = e1.0.0 ∷ rest.0.senders1;
                  senders2 = e2.0.0 ∷ rest.0.senders2;
                  receivers1 = e1.0.1 ∷ rest.0.receivers1;
                  receivers2 = e2.0.1 ∷ rest.0.receivers2;
                },
                rest.1,
              )
  commit_rows (s1 ∷ ss1) _ _ _ rng = undefined

  -- `open(&senders[ind], &receivers[ind])`
  unfoldable pub open_at :
      ℕ
      → List ShaCommitment.Sender
      → List ShaCommitment.Receiver
      → Result (ShaCommitment.Receiver × List ShaCommitment.Receiver)
  unfolding read
  open_at ind senders receivers = bind (read senders ind) λ s.
      bind (read receivers ind)
        λ r. bind (ShaCommitment.reveal sha random s r) λ r'. ok (r', set receivers ind r')

  -- The switch on the commitment index: the row that is opened, and the message shown.
  unfoldable pub open_root :
      ℕ → ℕ → List ShaCommitment.Sender → List ShaCommitment.Sender → Held → Result (List ℕ × Held)
  unfolding open_at
  open_root which ind d1 d2 held =
      if which == 1
      then bind (open_at ind d1 held.first) (λ o. ok (o.0.m, record held { first = o.1 }))
      else if which == 2
      then bind (open_at ind d2 held.second) (λ o. ok (o.0.m, record held { second = o.1 }))
      else throw (protocol "matching roots to values didn't work")

  -- One round of the loop over the subset: the key and one of the two roots are opened, and the
  -- buyer checks that it finds its own root.
  unfoldable pub open_index :
      List ShaCommitment.Sender
      → List ShaCommitment.Sender
      → List ShaCommitment.Sender
      → List ℕ
      → ℕ
      → ℕ
      → Held
      → Result Held
  unfolding open_root
  open_index keys d1 d2 x ind which held = bind (open_at ind keys held.keys) λ key.
      bind (open_root which ind d1 d2 (record held { keys = key.1 })) λ shown.
        bind (read x ind)
          λ mine. bind (verify_root codec ecb mine key.0.m shown.0) λ done. ok shown.1

  unfoldable pub open_subset :
      List ShaCommitment.Sender
      → List ShaCommitment.Sender
      → List ShaCommitment.Sender
      → List ℕ
      → List ℕ
      → List ℕ
      → Held
      → Result Held
  unfolding open_index
  open_subset keys d1 d2 x [] which held = ok held
  open_subset keys d1 d2 x (ind ∷ indices) [] held = undefined
  open_subset keys d1 d2 x (ind ∷ indices) (w ∷ which) held =
      bind (open_index keys d1 d2 x ind w held)
        λ held'. open_subset keys d1 d2 x indices which held'

  -- The last loop: both roots are opened where the key stays closed.
  unfoldable pub open_others :
      ℕ → ℕ → List ℕ → List ShaCommitment.Sender → List ShaCommitment.Sender → Held → Result Held
  unfolding open_at
  open_others zero ind chosen d1 d2 held = ok held
  open_others (suc left) ind chosen d1 d2 held = elim (occurrences ind chosen == 0) [
    | false ↦ open_others left (ind + 1) chosen d1 d2 held
    | true ↦ bind (open_at ind d1 held.first) λ first. bind (open_at ind d2 held.second) λ second.
        open_others left (ind + 1) chosen d1 d2 (record held { first = first.1; second = second.1 })
  ]
