-- ===== src/Auth.antt =====
-- src/auth: request signatures, LNURL-auth registration and the nonces behind it.
pub mod Crypto
pub mod Replay
pub mod Secp256k1
pub mod Guard
pub mod Purge
pub mod InternalOps
