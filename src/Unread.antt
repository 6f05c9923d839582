-- ===== src/Unread.antt =====
-- web/static/unread.js: what an incoming message does to the reader, and the read-tracking that
-- lasts as long as the session.
pub mod Classify
pub mod Tracker
