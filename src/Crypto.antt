-- ===== src/Crypto.antt =====
-- The cryptography that this TPM builds on the digests of aws-lc-rs, src/tpm/crypto.
pub mod Hash
pub mod Hmac
pub mod Rand
pub mod Kdf
