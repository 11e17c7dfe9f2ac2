-- ===== src/Crop.antt =====
-- src/filters/crop/crop.c: the filter that crops video.
pub mod Probe
pub mod Inside
mod Tests
