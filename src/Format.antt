-- ===== src/Format.antt =====
-- web/static/format.js: the pure parts of message formatting that other modules decide by.
pub mod Permalinks
pub mod Queries
pub mod Mentions
