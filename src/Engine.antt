-- ===== src/Engine.antt =====
-- src/lib.rs: the engine. `State` has its records, the modules below it one part of the file each.
pub mod State
pub mod Calls
pub mod Ids
pub mod Controls
pub mod Hangup
pub mod Outgoing
pub mod Dial
pub mod Incoming
pub mod Accept
pub mod Polls
pub mod Device
pub mod Transfer
pub mod Steps
pub mod Sessions
pub mod Ai
