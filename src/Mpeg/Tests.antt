-- ===== src/Mpeg/Tests.antt =====
-- A stream of video with the PID 257, and packets of it.
use tcvp.Prelude.{
  ℕ, ◌≡◌, refl, arith, true, false, [], ◌∷◌, ◌++◌, none, some, ◌==◌, if◌then◌else◌, take, drop, inr,
  replicate,
}
use tcvp.Mpeg.Crc.{mpeg_crc32, be32, crc_bytes, crc_step, crc_table}
use tcvp.Mpeg.CrcLaws.{mpeg_crc32-append}
use tcvp.Mpeg.Psi.{collect, clear}
use tcvp.Mpeg.Tables.{unused, psi_no_index, Demux, no_version, overrun, done}
use tcvp.Mpeg.DoPsi.{do_psi}
use tcvp.Mpeg.PsiWrite.{pat_packet}
use tcvp.Mpeg.PatTrip.{with_program, do_psi-pat_packet}
use tcvp.Mpeg.Es.{TsBuf, write_unit}
use tcvp.Mpeg.UnitTrip.{Arrives, write_unit-Arrives}
use tcvp.Mpeg.Sections.{IsGood, collect-IsGood}
use tcvp.Prelude.Wire.{Bytes}
use tcvp.Mpeg.Pes.{Pes, is_plain}
use tcvp.Mpeg.Ts.{OutputStream, write_ts_packet}
use tcvp.Mpeg.TsRead.{TsPacket}
use tcvp.Mpeg.Unit.{Carries, write_ts_packet-Carries}

abbrev video : OutputStream
video = record { is_video = true; pid = 257; stream_id = 224; ccount = 18 }

abbrev picture : Bytes
picture = 1 ∷ 2 ∷ 3 ∷ []

abbrev blank : TsPacket
blank = record {
  unit_start = false;
  priority = false;
  pid = 0;
  scrambling = 0;
  adaptation = 0;
  cont_counter = 0;
  field = record {
    discontinuity = false;
    random_access = false;
    es_priority = false;
    pcr_flag = false;
    opcr_flag = false;
    splicing_point = false;
    transport_private = false;
    extension = false;
    pcr = 0;
    opcr = 0;
    splice_countdown = 0;
  };
  data_length = 0;
  data_at = 0;
}

abbrev no_pes : Pes
no_pes = record {
  stream_id = 0;
  has_pts = false;
  has_dts = false;
  pts = 0;
  dts = 0;
  size = 0;
  data_at = 0;
}

write_ts_packet-Carries_example :
    Carries video 0
      (some 90000)
      (some 86400)
      picture
      blank
      no_pes
      (write_ts_packet video picture true (some 27000000) (some 25920000)).1
      (write_ts_packet video picture true (some 27000000) (some 25920000)).2
unfolding is_plain
write_ts_packet-Carries_example =
    write_ts_packet-Carries video picture (some 27000000) (some 25920000) blank no_pes (omega arith)
      (omega arith) refl (omega arith) (omega arith) (omega arith)

-- Before the first table.
abbrev fresh : Demux
fresh = record {
  pidmap = λ x. if x == 0 then psi_no_index else unused;
  pat_version = no_version;
  programs = [];
  psi = none;
  nit_pid = 0;
}

do_psi-pat_packet_example :
    (do_psi fresh 0 true (drop 4 (pat_packet 1 256)) ≡ done (with_program fresh 1 256))
    × (mpeg_crc32 (take 16 (drop 5 (pat_packet 1 256))) ≡ 0)
do_psi-pat_packet_example =
    do_psi-pat_packet fresh 1 256 refl refl (omega arith) (omega arith) (omega arith) (omega arith)

abbrev digits_text : Bytes
digits_text = b'1' ∷ b'2' ∷ b'3' ∷ b'4' ∷ b'5' ∷ b'6' ∷ b'7' ∷ b'8' ∷ b'9' ∷ []

mpeg_crc32-append_example : mpeg_crc32 (digits_text ++ be32 (mpeg_crc32 digits_text)) ≡ 0
mpeg_crc32-append_example = mpeg_crc32-append digits_text

-- The check value of this checksum.
check_value : mpeg_crc32 digits_text ≡ 0x0376e6e7
unfolding mpeg_crc32 crc_bytes crc_step crc_table
check_value = refl

-- A map of program 1 with one stream of sound; `v` has the version.
abbrev map_section : ℕ → Bytes
map_section v =
    2 ∷ 0xb0 ∷ 18 ∷ 0 ∷ 1 ∷ v ∷ 0 ∷ 0 ∷ 0xe1 ∷ 1 ∷ 0xf0 ∷ 0 ∷ 3 ∷ 0xe1 ∷ 2 ∷ 0xf0 ∷ 0 ∷ 0 ∷ 0 ∷ 0
    ∷ 0 ∷ []

collect-IsGood_example :
    IsGood (collect 26 (map_section 0xc1 ++ (2 ∷ 0xb0 ∷ 18 ∷ 0 ∷ 1 ∷ [])) clear)
collect-IsGood_example =
    collect-IsGood 26 (map_section 0xc1 ++ (2 ∷ 0xb0 ∷ 18 ∷ 0 ∷ 1 ∷ [])) clear
      (omega arith, omega arith, λ e. absurd (e refl)) (omega arith)

-- The streams of a map are counted on from those of the map of another version before it, behind the
-- array; and a pointer behind the data is not noticed.
overruns :
    (do_psi (with_program fresh 1 256) 256 true (0 ∷ map_section 0xc1 ++ map_section 0xc3)
      ≡ overrun)
    × (do_psi fresh 0 true (9 ∷ 0 ∷ []) ≡ overrun)
unfolding do_psi
overruns = (refl, refl)

abbrev no_data : TsBuf
no_data = record {
  has_pts = false;
  has_dts = false;
  pts = 0;
  dts = 0;
  buf = [];
  hlen = 0;
  cc = none;
  start = false;
}

-- Data for two packets.
abbrev two_packets : Bytes
two_packets = replicate 200 7

write_unit-Arrives_example :
    Arrives
      (write_unit 200 video two_packets true (some 27000000) (some 25920000)).1
      (write_unit 200 video two_packets true (some 27000000) (some 25920000)).0
      two_packets
      (some 27000000)
      (some 25920000)
      blank
      no_data
unfolding is_plain
write_unit-Arrives_example =
    write_unit-Arrives video two_packets (some 27000000) (some 25920000) blank no_data (omega arith)
      (omega arith) refl (omega arith) (omega arith) (omega arith) (omega arith) refl
      (inr (refl, refl, refl))
