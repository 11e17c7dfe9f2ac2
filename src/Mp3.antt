-- ===== src/Mp3.antt =====
-- src/demuxer/mp3: the frame headers of audio streams.
pub mod Mpeg1
pub mod Accepted
pub mod Ac3
pub mod Ac3Accepted
mod Tests
