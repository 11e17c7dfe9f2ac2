-- ===== src/Matroska.antt =====
-- src/demuxer/matroska: elements of EBML and blocks of Matroska files.
pub mod Ebml
pub mod Vint
pub mod Block
pub mod Laced
pub mod Frames
pub mod RoundTrip
pub mod Elements
pub mod Progress
mod Tests
