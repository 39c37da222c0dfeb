-- ===== src/SharedSignature.antt =====
-- shared_signature/shared_sig.{h,cpp}: an ECDSA signature by two parties, the seller S and the buyer
-- B, that share the secret key. Both parties' curve and base point are the program's one curve; a
-- point that is not yet set is the identity, as `ECPPoint` is built, and such a number is 0.
pub mod Equations
pub mod Group
pub mod Verify
pub mod Recover
pub mod Parties
pub mod KeyExchange
pub mod HalfSignature
pub mod Signing
pub mod Exec
pub mod Checked
pub mod Trial
