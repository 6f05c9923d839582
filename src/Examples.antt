-- ===== src/Examples.antt =====
-- The theorems at concrete inputs, and runs of the definitions.
mod Texts
mod Signals
mod Secrets
mod Fixtures
mod Reducer
mod Tracking
mod Network
mod Calls
mod Rows
mod Editing
