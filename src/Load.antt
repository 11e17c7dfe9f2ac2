-- ===== src/Load.antt =====
-- src/tcvp/event.c: the event TCVP_LOAD as a byte string.
pub mod Serial
pub mod Trip
pub mod Size
mod Tests
