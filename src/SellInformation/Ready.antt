-- ===== src/SellInformation/Ready.antt =====
-- The preparation of one instance as a whole, from the squares that the buyer draws to the commitments
-- of the seller: it never fails, and leaves every index ready to be opened.
use zkfactorization.Prelude.{
  ℕ, ◌+◌, ◌*◌, ◌/◌, ◌%◌, ◌≤◌, ◌<◌, ◌≡◌, sym, ap, subst, ◌∙◌, List, [], All, length, arith,
}
use zkfactorization.Prelude.Int.{ℤ}
use zkfactorization.Prelude.Result.{ok}
use zkfactorization.Libraries.{Libraries}
use zkfactorization.Common.{to_bytes}
use zkfactorization.Aes
use zkfactorization.Aes.{aes_length}
use zkfactorization.ShaCommitment
use zkfactorization.SquareRoot.{new_square_root}
use zkfactorization.SellInformation.{gen_squares, encrypt_roots, setup_commit}
use zkfactorization.SellInformation.Operations.{find_roots_row}
use zkfactorization.SellInformation.Exchange.{Rows, commit_rows}
use zkfactorization.SellInformation.Works.{IsUnitSquare}
use zkfactorization.SellInformation.Squares.{
  length-gen_squares, length-gen_squares_roots, read-gen_squares,
}
use zkfactorization.SellInformation.Reads.{read-ok, All-read}
use zkfactorization.SellInformation.Openings.{AllOpen}
use zkfactorization.SellInformation.Prepared.{AreFactors, find_roots_row-Covers}
use zkfactorization.SellInformation.Sealed.{
  encrypt_roots-reads, length-setup_commit, read-setup_commit, commit_rows-Committed, Holds,
  Committed-Holds,
}
use zkfactorization.SellInformation.Accepted.{Ready}

-- The product of two odd numbers is odd, so that half of it is less than its half.
odd_half : (p q x : ℕ) → p % 2 ≡ 1 → q % 2 ≡ 1 → x ≤ p * q / 2 → x + x < p * q
odd_half p q x p_odd q_odd h =
    let a = p / 2 in
    let b = q / 2 in
    let p_eq : p ≡ 2 * a + 1 = omega arith in
    let q_eq : q ≡ 2 * b + 1 = omega arith in
    let whole : p * q ≡ 2 * (a * q + b) + 1 = omega (arith, ap (λ (t : ℕ). t * q) p_eq) in
    omega arith

module _ (libraries : Libraries) (r l p q : ℕ) (factors : AreFactors libraries p q) (n : ℕ)
    (n_eq : n ≡ p * q) (rng : libraries.random.Rng)
    (units : All (IsUnitSquare p q) (gen_squares libraries.random n l rng).0.1)
    (commits : List ShaCommitment.Sender) (key_count : length commits ≡ l)
    (keys_long : All (λ c. length c.m ≡ aes_length) commits) where
  open libraries use {random, codec, sha, arithmetic, theory, ecb}
  open random use {Rng}

  abbrev pub drawn : (List ℕ × List ℕ) × Rng
  drawn = gen_squares random n l rng

  -- The rows that the seller computes, with the calls that return them, and the state after them.
  pub record Preparation (senders1 senders2 : List ShaCommitment.Sender)
      (receivers1 receivers2 : List ShaCommitment.Receiver) : Type 0 where
    pub found : (List ℤ × List ℤ) × Rng
    pub row1 : List (List ℕ)
    pub row2 : List (List ℕ)
    pub committed : Rows × Rng
    pub finds :
        find_roots_row libraries r l (new_square_root arithmetic theory p q) drawn.0.1 drawn.1
        ≡ ok found
    pub encrypts1 : encrypt_roots codec ecb commits found.0.0 ≡ ok row1
    pub encrypts2 : encrypt_roots codec ecb commits found.0.1 ≡ ok row2
    pub commits_rows :
        commit_rows random codec sha ecb
          (setup_commit row1 senders1)
          (setup_commit row2 senders2)
          receivers1
          receivers2
          found.1
        ≡ ok committed
    pub ready :
        (i : ℕ)
        → i < l
        → Ready random codec sha ecb l n commits committed.0.senders1 committed.0.senders2 drawn.0.0
            drawn.0.1 found.0.0 found.0.1 i
    pub long1 : length row1 ≡ l
    pub long2 : length row2 ≡ l
    pub holds :
        (i : ℕ)
        → i < l
        → Holds random codec sha ecb committed.0.senders1 committed.0.receivers1 row1 i
          × Holds random codec sha ecb committed.0.senders2 committed.0.receivers2 row2 i
    pub open1 : AllOpen random codec sha ecb l committed.0.senders1 committed.0.receivers1
    pub open2 : AllOpen random codec sha ecb l committed.0.senders2 committed.0.receivers2

  pub prepares :
      (senders1 senders2 : List ShaCommitment.Sender)
      (receivers1 receivers2 : List ShaCommitment.Receiver)
      → length senders1 ≡ l
      → length senders2 ≡ l
      → length receivers1 ≡ l
      → length receivers2 ≡ l
      → All (λ rc. rc.m ≡ []) receivers1
      → All (λ rc. rc.m ≡ []) receivers2
      → Preparation senders1 senders2 receivers1 receivers2
  prepares senders1 senders2 receivers1 receivers2 s1_long s2_long r1_long r2_long blank1 blank2 =
      let squares_long : length drawn.0.1 ≡ l = length-gen_squares random n l rng in
      let roots_long : length drawn.0.0 ≡ l = length-gen_squares_roots random n l rng in
      let (found, finds, long1, long2, at) =
        find_roots_row-Covers libraries r l p q factors drawn.0.1 drawn.1 units in
      let (row1, e₁, row1_long, at1) =
        encrypt_roots-reads random codec sha ecb commits found.0.0 keys_long
          (long1 ∙ squares_long ∙ sym key_count) in
      let (row2, e₂, row2_long, at2) =
        encrypt_roots-reads random codec sha ecb commits found.0.1 keys_long
          (long2 ∙ squares_long ∙ sym key_count) in
      let fits1 : length row1 ≡ length senders1 = row1_long ∙ key_count ∙ sym s1_long in
      let fits2 : length row2 ≡ length senders2 = row2_long ∙ key_count ∙ sym s2_long in
      let set1 = length-setup_commit random codec sha ecb row1 senders1 fits1 ∙ s1_long in
      let set2 = length-setup_commit random codec sha ecb row2 senders2 fits2 ∙ s2_long in
      let (committed, e₃, first, second, held1, held2) =
        commit_rows-Committed random codec sha ecb (setup_commit row1 senders1)
          (setup_commit row2 senders2) receivers1 receivers2 found.1 (set2 ∙ sym set1)
          (r1_long ∙ sym set1) (r2_long ∙ sym set1) blank1 blank2 in
      record {
        found = found;
        row1 = row1;
        row2 = row2;
        committed = committed;
        finds = finds;
        encrypts1 = e₁;
        encrypts2 = e₂;
        commits_rows = e₃;
        ready = λ i lt.
            let (mine, stored) = read-ok drawn.0.0 i (omega arith) in
            let (square, small) = read-gen_squares random n l rng i stored in
            let (key, key_at) = read-ok commits i (omega arith) in
            let f = at i (mine * mine % n) square in
            let (m1, in_row1, sealed1) = at1 i key f.root1 key_at f.at1 in
            let (m2, in_row2, sealed2) = at2 i key f.root2 key_at f.at2 in
            let (t1, set_at1, same1) =
              read-setup_commit random codec sha ecb row1 senders1 i fits1 in_row1 in
            let (t2, set_at2, same2) =
              read-setup_commit random codec sha ecb row2 senders2 i fits2 in_row2 in
            let committed1 = first i t1 set_at1 in
            let committed2 = second i t2 set_at2 in
            let half =
              odd_half p q mine factors.p_odd factors.q_odd
                (subst (λ t. mine ≤ t / 2) n_eq small) in
            record {
              mine = mine;
              a = f.covers.a;
              b = f.covers.b;
              key = key;
              s1 = committed1.opens.s;
              s2 = committed2.opens.s;
              stored = stored;
              square = square;
              small = small;
              root1 = f.at1 ∙ ap ok f.covers.first;
              root2 = f.at2 ∙ ap ok f.covers.second;
              found = f.covers.only mine (ap (λ t. mine * mine % t) (sym n_eq)) half;
              key_at = key_at;
              long = All-read (λ c. length c.m ≡ aes_length) commits i keys_long key_at;
              sender1 = committed1.opens.sender;
              sender2 = committed2.opens.sender;
              sealed1 =
                  subst (λ root. Aes.enc ecb key.m (to_bytes codec root) ≡ ok m1) f.covers.first
                    sealed1
                  ∙ ap ok (sym (committed1.message ∙ same1));
              sealed2 =
                  subst (λ root. Aes.enc ecb key.m (to_bytes codec root) ≡ ok m2) f.covers.second
                    sealed2
                  ∙ ap ok (sym (committed2.message ∙ same2));
            };
        long1 = row1_long ∙ key_count;
        long2 = row2_long ∙ key_count;
        open1 = (
          held1 ∙ set1,
          λ i lt.
              let (s, stored) = read-ok (setup_commit row1 senders1) i (omega arith) in
              (first i s stored).opens,
        );
        open2 = (
          held2 ∙ set1,
          λ i lt.
              let (s, stored) = read-ok (setup_commit row2 senders2) i (omega arith) in
              (second i s stored).opens,
        );
        holds = λ i lt. (
          Committed-Holds random codec sha ecb row1 senders1 fits1 first i (omega arith),
          Committed-Holds random codec sha ecb row2 senders2 fits2 second i (omega arith),
        );
      }
