-- ===== src/Secret.antt =====
-- web/static/secret.js: end-to-end encrypted sessions of direct messages.
pub mod Bytes
pub mod Crypto
pub mod Session
pub mod Handshake
pub mod Ratchet
pub mod Events
