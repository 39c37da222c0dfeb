-- ===== src/SellInformation/Revealed.antt =====
-- What the second cut and choose shows to the buyer at each index of an instance.
use zkfactorization.Prelude.{
  ℕ, zero, suc, ◌≡◌, ◌≢◌, refl, sym, ap, subst, ◌∙◌, List, [], ◌∷◌, some, get_elem?, set,
}
use zkfactorization.Prelude.Result.{ok, bind-eq-ok, ok-injective}
use zkfactorization.CryptoPp.{Random, Sha256, Codec, Ecb}
use zkfactorization.Aes
use zkfactorization.ShaCommitment
use zkfactorization.SellInformation.{read}
use zkfactorization.SellInformation.Exchange.{open_at}

-- Two rows agree at an index.
abbrev pub Same : {A : Type 0} → List A → List A → ℕ → Type 0
Same before after i = get_elem? after i ≡ get_elem? before i

pub read-get_elem? :
    {A : Type 0} (row : List A) (i : ℕ) {a : A} → read row i ≡ ok a → get_elem? row i ≡ some a
unfolding read
read-get_elem? [] i h = cc
read-get_elem? (x ∷ row) zero h = ap some (ok-injective h)
read-get_elem? (x ∷ row) (suc i) h = read-get_elem? row i h

get_elem?-set :
    {A : Type 0} (row : List A) (i : ℕ) (v : A) {a : A}
    → read row i ≡ ok a
    → get_elem? (set row i v) i ≡ some v
unfolding read
get_elem?-set [] i v h = cc
get_elem?-set (x ∷ row) zero v h = refl
get_elem?-set (x ∷ row) (suc i) v h = get_elem?-set row i v h

get_elem?-set_other :
    {A : Type 0} (row : List A) (i j : ℕ) (v : A) → j ≢ i → Same row (set row i v) j
get_elem?-set_other [] i j v ne = refl
get_elem?-set_other (x ∷ row) zero zero v ne = absurd (ne refl)
get_elem?-set_other (x ∷ row) zero (suc j) v ne = refl
get_elem?-set_other (x ∷ row) (suc i) zero v ne = refl
get_elem?-set_other (x ∷ row) (suc i) (suc j) v ne =
    get_elem?-set_other row i j v (λ e. ne (ap suc e))

module _ (random : Random) (codec : Codec) (sha : Sha256) (ecb : Ecb) where
  -- The commitment at an index has been opened in between, and was verified; `r'` is the receiver after it.
  pub record Opened (senders : List ShaCommitment.Sender)
      (before after : List ShaCommitment.Receiver) (i : ℕ) (r' : ShaCommitment.Receiver)
      : Type 0 where
    pub s : ShaCommitment.Sender
    pub r : ShaCommitment.Receiver
    pub sender : get_elem? senders i ≡ some s
    pub receiver : get_elem? before i ≡ some r
    pub reveals : ShaCommitment.reveal sha random s r ≡ ok r'
    pub result : get_elem? after i ≡ some r'

  -- The ciphertext holds the buyer's own root under the key.
  pub record Finds (x : List ℕ) (i : ℕ) (key c : List ℕ) : Type 0 where
    pub mine : ℕ
    pub encoded : List ℕ
    pub stored : read x i ≡ ok mine
    pub decrypts : Aes.dec ecb key c ≡ ok encoded
    pub decodes : codec.decode encoded ≡ mine

  pub open_at-Opened :
      (ind : ℕ) (senders : List ShaCommitment.Sender) (receivers : List ShaCommitment.Receiver)
      {o : ShaCommitment.Receiver × List ShaCommitment.Receiver}
      → open_at random codec sha ecb ind senders receivers ≡ ok o
      → Opened senders receivers o.1 ind o.0 × ((i : ℕ) → i ≢ ind → Same receivers o.1 i)
  unfolding open_at
  open_at-Opened ind senders receivers {o} h =
      let (s, e₁, h₁) = bind-eq-ok (read senders ind) _ h in
      let (r, e₂, h₂) = bind-eq-ok (read receivers ind) _ h₁ in
      let (r', e₃, h₃) = bind-eq-ok (ShaCommitment.reveal sha random s r) _ h₂ in
      let same = ok-injective h₃ in
      subst
        (λ (x : ShaCommitment.Receiver × List ShaCommitment.Receiver).
          Opened senders receivers x.1 ind x.0 × ((i : ℕ) → i ≢ ind → Same receivers x.1 i))
        same
        (
          record {
            s = s;
            r = r;
            sender = read-get_elem? senders ind e₁;
            receiver = read-get_elem? receivers ind e₂;
            reveals = e₃;
            result = get_elem?-set receivers ind r' e₂;
          },
          λ i ne. get_elem?-set_other receivers ind i r' ne,
        )

  pub later :
      {senders : List ShaCommitment.Sender} {before mid after : List ShaCommitment.Receiver} {i : ℕ}
      {r' : ShaCommitment.Receiver}
      → Opened senders before mid i r'
      → Same mid after i
      → Opened senders before after i r'
  later o same = record {
    s = o.s;
    r = o.r;
    sender = o.sender;
    receiver = o.receiver;
    reveals = o.reveals;
    result = same ∙ o.result;
  }

  pub earlier :
      {senders : List ShaCommitment.Sender} {before mid after : List ShaCommitment.Receiver} {i : ℕ}
      {r' : ShaCommitment.Receiver}
      → Same before mid i
      → Opened senders mid after i r'
      → Opened senders before after i r'
  earlier same o = record {
    s = o.s;
    r = o.r;
    sender = o.sender;
    receiver = sym same ∙ o.receiver;
    reveals = o.reveals;
    result = o.result;
  }
