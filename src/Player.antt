-- ===== src/Player.antt =====
-- src/player/play.c: the streams of a file, their packets, and the threads that read and play them.
pub mod State
pub mod Streams
pub mod Threads
pub mod Reading
pub mod Control
pub mod Steps
pub mod Sound
pub mod Kept
pub mod Turns
pub mod Received
pub mod Invariant
pub mod Reached
pub mod Made
pub mod Channel
pub mod Content
pub mod Channels
pub mod Refined
pub mod Added
pub mod Pushed
pub mod Comes
pub mod InOrder
mod Tests
