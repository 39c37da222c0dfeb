-- ===== src/SharedSignature/Verify.antt =====
-- The functions of shared_sig.cpp that stand outside the parties: the number of a message, the
-- check of a signature and its byte form.
use zkfactorization.Prelude.{
  ℕ, List, ◌++◌, Bool, false, not, ◌||◌, ◌==◌, leb, ltb, if◌then◌else◌, length, take,
}
use zkfactorization.Prelude.Int.{pos}
use zkfactorization.Prelude.Result.{Result, ok, throw, undefined, protocol, bind}
use zkfactorization.CryptoPp.{Sha256, Codec, ModArith, Curve}

module _ (codec : Codec) where
  -- `Integer(m, ret_byte_count)`, which reads that many bytes
  unfoldable pub number_of : List ℕ → ℕ → Result ℕ
  number_of m count = if ltb (length m) count then undefined else ok (codec.decode (take count m))

  unfoldable pub hash_m_to_int : List ℕ → ℕ → Result ℕ
  unfolding number_of
  hash_m_to_int m ret_byte_count =
      if not (length m == 32)
      then throw (protocol "m_len != sha digest size")
      else number_of m ret_byte_count

  unfoldable pub m_to_int : Sha256 → List ℕ → ℕ → Result ℕ
  unfolding number_of
  m_to_int sha m ret_byte_count = number_of (sha.digest m) ret_byte_count

  unfoldable pub encode_signature : ℕ → ℕ → List ℕ
  encode_signature r s = codec.encode (pos r) 32 ++ codec.encode (pos s) 32

  module _ (arithmetic : ModArith) (curve : Curve) where
    open arithmetic use {a_times_b_mod_c, inverse_mod}
    open curve use {Point, multiply, add, identity, eq, x, generator, order, byte_count}

    -- `P2` of `verify`
    unfoldable pub recovered : Point → ℕ → ℕ → ℕ → Point
    recovered q z r s =
        let w = inverse_mod s order in
        let u1 = a_times_b_mod_c z w order in
        let u2 = a_times_b_mod_c r w order in add (multiply u1 generator) (multiply u2 q)

    unfoldable pub verify : Point → List ℕ → ℕ → ℕ → Result Bool
    unfolding hash_m_to_int recovered
    verify q message r s = bind (hash_m_to_int message byte_count) λ z.
        if eq q identity
        then ok false
        else if not (eq (multiply order q) identity)
        then ok false
        else if leb r 0 || leb order r
        then ok false
        else if leb s 0 || leb order s
        then ok false
        else ok (x (recovered q z r s) == r)
