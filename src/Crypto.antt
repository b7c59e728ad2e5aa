-- ===== src/Crypto.antt =====
-- packages/crypto: the client's cryptography.
pub mod Aead
pub mod Curves
pub mod Toy
pub mod Encryption
pub mod Ratchet
pub mod Keys
pub mod X3dh
