-- ===== src/Jwk.antt =====
-- The package jwk: JSON Web Keys, the providers of verification keys, and the Ed25519 signer.
pub mod Key
pub mod Decode
pub mod Set
pub mod Static
pub mod Remote
pub mod Ed25519
