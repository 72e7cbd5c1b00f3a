-- ===== src/Session.antt =====
-- crates/zeb-runtime/src/session.rs: the handoff between the game's worker thread and its host.
-- `State` is what they share, `Events` the stream of event records, `Replies` what the host
-- assembles, and `Transport` the rest of the calls.
pub mod State
pub mod Events
pub mod Replies
pub mod Transport
pub mod Bounds
pub mod Channel
pub mod Transfer
pub mod Records
pub mod Stream
pub mod Exchange
mod Tests
