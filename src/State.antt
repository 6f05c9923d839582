-- ===== src/State.antt =====
-- web/static/state.js, the pure reducer. Each child has one part of the state and its laws.
pub mod Messages
pub mod Counts
pub mod Users
pub mod Emojis
pub mod Channels
pub mod Typing
pub mod Events
pub mod Valid
