-- ===== src/Mpeg/Es.antt =====
-- The data of a stream: `mpegts_do_es` of mpegts.c, and the packets of a unit as mpegtsmux.c writes them.
use tcvp.Prelude.{
  ℕ, zero, suc, ◌+◌, ◌-◌, ◌*◌, ◌%◌, Bool, true, false, not, ◌&&◌, ◌||◌, List, [], ◌∷◌, ◌++◌, Option,
  none, some, ltb, ◌==◌, if◌then◌else◌, length, drop, segment,
}
use tcvp.Prelude.Wire.{Bytes}
use tcvp.Mpeg.Pes.{Pes, PesResult, bad_start, overrun, parsed, mpegpes_header}
use tcvp.Mpeg.PesTrip.{buffer}
use tcvp.Mpeg.Ts.{OutputStream, write_ts_packet}
use tcvp.Mpeg.TsRead.{TsPacket, lost_sync, bad_packet, packet, read_round}

-- `struct tsbuf`; `buf` holds the bytes below `bpos`, and `cc` is -1 at first.
pub record TsBuf : Type 0 where
  pub has_pts : Bool
  pub has_dts : Bool
  pub pts : ℕ
  pub dts : ℕ
  pub buf : Bytes
  pub hlen : ℕ
  pub cc : Option ℕ
  pub start : Bool

-- A packet that is passed on: its size is the length of the data, less `missing`.
pub record UnitPacket : Type 0 where
  pub payload : Bytes
  pub missing : ℕ
  pub pts : Option ℕ
  pub dts : Option ℕ

-- `mpegts_mkpacket`
unfoldable pub mkpacket : TsBuf → UnitPacket
mkpacket tb = record {
  payload = drop tb.hlen tb.buf;
  missing = tb.hlen - length tb.buf;
  pts = if tb.has_pts then some (tb.pts * 300) else none;
  dts = if tb.has_dts then some (tb.dts * 300) else none;
}

-- A buffer is full of whole packets of 184 bytes at most.
abbrev pub max_packet_size : ℕ
max_packet_size = 0x10000

-- Whether what is in the buffer is closed before a packet with or without the mark of a start.
abbrev pub closes : Bool → TsBuf → Bool
closes ustart tb = (ustart && not (length tb.buf == 0)) || ltb max_packet_size (length tb.buf)

abbrev pub emptied : Bool → TsBuf → TsBuf
emptied true tb = record tb { buf = []; has_pts = false; has_dts = false; hlen = 0 }
emptied false tb = tb

abbrev pub passed_on : Bool → TsBuf → List UnitPacket
passed_on closed tb = if closed && tb.start then mkpacket tb ∷ [] else []

-- `struct mpegpes_packet pes`, of which only what `mpegpes_header` sets is read.
abbrev pub unset : Pes
unset = record {
  stream_id = 0;
  has_pts = false;
  has_dts = false;
  pts = 0;
  dts = 0;
  size = 0;
  data_at = 0;
}

-- The header at the start of a unit. Behind the bytes of the buffer the reader finds others, which stand
-- as zeros.
unfoldable pub take_header : TsBuf → PesResult → Option TsBuf
take_header tb bad_start = some tb
take_header tb overrun = none
take_header tb (parsed pes) = some (record tb {
  hlen = pes.data_at;
  has_pts = tb.has_pts || pes.has_pts;
  has_dts = tb.has_dts || pes.has_dts;
  pts = if pes.has_pts then pes.pts else tb.pts;
  dts = if pes.has_dts then pes.dts else tb.dts;
  start = true;
})

abbrev pub with_header : Bool → TsBuf → Option TsBuf
with_header false tb = some tb
with_header true tb =
    take_header tb (mpegpes_header 0 (2 * max_packet_size - 6) (buffer tb.buf) unset)

-- A packet with the counter of the one before is left out; where others are missing, this is reported.
abbrev pub is_duplicate : Option ℕ → ℕ → Bool
is_duplicate none cont = false
is_duplicate (some cc) cont = (cont + 16 - cc) % 16 == 0

abbrev pub and_passed : List UnitPacket → Option TsBuf → Option (TsBuf × List UnitPacket)
and_passed made none = none
and_passed made (some tb) = some (tb, made)

-- `mpegts_do_es` of a used stream, for a packet with the mark of a start, the counter and the data; `none`
-- is a read behind the buffer. What is returned is not used.
unfoldable pub do_es : Bool → ℕ → Bytes → TsBuf → Option (TsBuf × List UnitPacket)
unfolding mkpacket take_header
do_es ustart cont d tb =
    let closed = closes ustart tb in
    let kept = emptied closed (record tb { cc = some cont }) in
    if is_duplicate tb.cc cont
    then some (tb, [])
    else and_passed (passed_on closed tb) (with_header ustart (record kept { buf = kept.buf ++ d }))

abbrev pub pass_more :
    List UnitPacket → Option (TsBuf × List UnitPacket) → Option (TsBuf × List UnitPacket)
pass_more made none = none
pass_more made (some (tb, more)) = some (tb, made ++ more)

-- Packets of one stream, one after another, through `mpegts_read_packet` and `mpegts_do_es`, as
-- `mpegts_packet` calls them; `none` also where a packet is not read.
unfoldable pub read_packets : List Bytes → TsPacket → TsBuf → Option (TsBuf × List UnitPacket)
unfolding read_round do_es
read_packets [] old tb = some (tb, [])
read_packets (out ∷ outs) old tb = elim (read_round (buffer out) old) [
  | lost_sync ↦ none
  | bad_packet ↦ none
  | packet p ↦
      elim (do_es p.unit_start p.cont_counter (segment (buffer out) p.data_at p.data_length) tb) [
        | none ↦ none
        | some (t, made) ↦ pass_more made (read_packets outs p t)
      ]
]

-- The packets that `mpegts_input` writes for the data of one packet of a stream: the times go with the
-- first. Each holds at least a byte, so the number of bytes is fuel enough.
unfoldable pub write_unit :
    ℕ → OutputStream → Bytes → Bool → Option ℕ → Option ℕ → OutputStream × List Bytes
write_unit zero os bytes ustart pts dts = (os, [])
write_unit (suc n) os bytes ustart pts dts =
    let (os1, out, k) = write_ts_packet os bytes ustart pts dts in
    let (os2, outs) = write_unit n os1 (drop k bytes) false none none in
    if length (drop k bytes) == 0 then (os1, out ∷ []) else (os2, out ∷ outs)
