-- ===== src/Mux.antt =====
-- src/demuxer/mux/mux.c: packets of several streams, passed on in the order of their times.
pub mod Defs
pub mod Order
mod Tests
