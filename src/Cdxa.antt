-- ===== src/Cdxa.antt =====
-- src/demuxer/mpeg/cdxa.c: MPEG streams in the sectors of a CD-XA file.
pub mod Seek
pub mod Places
mod Tests
