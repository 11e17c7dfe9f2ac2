-- ===== src/Mpeg.antt =====
-- src/demuxer/mpeg: the headers of MPEG program and transport streams, written and read.
pub mod Pes
pub mod PesTrip
pub mod Ts
pub mod TsRead
pub mod TsTrip
pub mod Clock
pub mod Unit
pub mod Crc
pub mod CrcLaws
pub mod Psi
pub mod Tables
pub mod DoPsi
pub mod PsiWrite
pub mod PatTrip
pub mod Sections
pub mod Es
pub mod EsTrip
pub mod UnitTrip
mod Tests
