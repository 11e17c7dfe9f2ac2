-- ===== src/Playlist.antt =====
-- src/playlist/playlist.c: the playlist, its play order and its event handlers.
pub mod State
pub mod Edit
pub mod Control
pub mod Lines
pub mod Auto
pub mod Machine
pub mod Serial
mod Tests
