-- ===== src/Crypto.antt =====
-- src/odio/crypto.cpp: base64url and base64, SHA-256, HMAC and the comparison of signatures.
pub mod Base64
pub mod Sha256
pub mod Compare
mod Tests
