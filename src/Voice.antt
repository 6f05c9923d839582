-- ===== src/Voice.antt =====
-- web/static/voice.js: the decisions of a call. What the browser measures is an argument.
pub mod Negotiation
pub mod Call
pub mod Bitrate
pub mod Shape
pub mod Motion
pub mod Monitor
pub mod Reconnect
