-- ===== src/Id3.antt =====
-- src/demuxer/mp3/id3.c: tags at the start and at the end of a file.
pub mod Tag
pub mod Read
pub mod Sizes
pub mod Trip
pub mod Old
pub mod OldLaws
mod Tests
