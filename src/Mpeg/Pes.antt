-- ===== src/Mpeg/Pes.antt =====
-- The header of a PES packet: `write_pes_header` and `mpegpes_header` of mpeg.c. A mask followed by a
-- shift is written as a quotient and a remainder, and `|` of fields that do not overlap as a sum.
use Prim.Native.Nat.{bit_or}
use tcvp.Prelude.{
  ℕ, zero, suc, ◌+◌, ◌*◌, ◌/◌, ◌%◌, ◌^◌, Bool, true, false, not, ◌&&◌, [], ◌∷◌, ◌++◌, Option, none,
  some, ltb, ◌==◌, if◌then◌else◌,
}
use tcvp.Prelude.Wire.{Bytes}

-- `st_unaligned16(htob_16(v), p)`, most significant byte first.
abbrev pub be16 : ℕ → Bytes
be16 v = (v / 256 % 256) ∷ (v % 256) ∷ []

-- `htob_16(unaligned16(b + i))`
abbrev pub get16 : (ℕ → ℕ) → ℕ → ℕ
get16 b i = b i * 256 + b (i + 1)

-- A time stamp of 33 bits, in five bytes with marker bits; `prefix` is what stands above it.
unfoldable pub stamp : ℕ → ℕ → Bytes
stamp prefix t =
    (t / 2 ^ 30 % 8 * 2 + prefix) ∷ be16 (t / 2 ^ 15 % 2 ^ 15 * 2 + 1) ++ be16 (t % 2 ^ 15 * 2 + 1)

unfoldable pub stamp_at : (ℕ → ℕ) → ℕ → ℕ
stamp_at b i =
    get16 b (i + 3) / 2 % 2 ^ 15 + get16 b (i + 1) / 2 % 2 ^ 15 * 2 ^ 15 + b i / 2 % 8 * 2 ^ 30

-- The streams whose packets have no flags and times.
unfoldable pub is_plain : ℕ → Bool
is_plain id = not (
    not (id == 0xbe)
    && not (id == 0xbf)
    && not (id == 0xf0)
    && not (id == 0xf1)
    && not (id == 0xff)
    && not (id == 0xf2)
    && not (id == 0xf8)
    && not (id == 0xbb))

abbrev pub is_some : Option ℕ → Bool
is_some none = false
is_some (some t) = true

abbrev pub stamp_bytes : ℕ → Option ℕ → Bytes
stamp_bytes prefix none = []
stamp_bytes prefix (some t) = stamp prefix t

-- `hdrl`, where there are times.
abbrev pub header_length : Option ℕ → Option ℕ → ℕ
header_length pts dts = (if is_some pts then 5 else 0) + (if is_some dts then 5 else 0)

-- `write_pes_header`: the times are there as the flags say. Returned is the length, which is 9 also for
-- the streams that have no flags and of which only 6 bytes are written.
unfoldable pub write_pes_header : ℕ → ℕ → Option ℕ → Option ℕ → Bytes × ℕ
unfolding stamp
write_pes_header id size pts dts =
    let hdrl = if is_plain id then 0 else header_length pts dts in
    let pklen = if ltb 0 size then size + (if is_plain id then 0 else 3 + hdrl) else 0 in
    let start = bit_or id 0x100 in
    let tail =
      if is_plain id
      then []
      else 0x80
        ∷ ((if is_some pts then 0x80 else 0) + (if is_some dts then 0x40 else 0))
        ∷ hdrl
        ∷ (stamp_bytes (if is_some dts then 0x31 else 0x21) pts ++ stamp_bytes 0x11 dts) in
    (be16 (start / 2 ^ 16) ++ (be16 start ++ (be16 pklen ++ tail)), hdrl + 9)

-- `struct mpegpes_packet`: `flags` in two parts, and where the data start.
pub record Pes : Type 0 where
  pub stream_id : ℕ
  pub has_pts : Bool
  pub has_dts : Bool
  pub pts : ℕ
  pub dts : ℕ
  pub size : ℕ
  pub data_at : ℕ

-- -1 for a wrong start code; `overrun` where the loop over the stuffing leaves the data.
pub data PesResult : Type 0 where
  bad_start overrun : PesResult
  parsed : Pes → PesResult

-- `while(c == 0xff) c = data[++hl]` in a buffer of `n` more bytes.
unfoldable pub skip_stuffing : ℕ → (ℕ → ℕ) → ℕ → Option ℕ
skip_stuffing zero b hl = none
skip_stuffing (suc n) b hl =
    let more = skip_stuffing n b (suc hl) in if b hl == 0xff then more else some hl

-- The header of MPEG-1, behind the stuffing: where the data and the presentation time are.
unfoldable pub old_header : (ℕ → ℕ) → ℕ → ℕ × Option ℕ
old_header b hl0 =
    let hl1 = if b hl0 / 64 == 1 then hl0 + 2 else hl0 in
    let c = b hl1 in
    let hl2 = if c / 32 == 1 then hl1 + 4 else hl1 in
    let hl3 = if c / 16 == 3 then hl2 + 5 else hl2 in
    (hl3 + 1, if c / 32 == 1 then some hl1 else none)

abbrev pub time_or : (ℕ → ℕ) → Option ℕ → ℕ → ℕ
time_or b none old = old
time_or b (some i) old = stamp_at b i

-- The end of `mpegpes_header`, with where the data and the times are.
unfoldable pub pes_fields : ℕ → (ℕ → ℕ) → Pes → ℕ → Option ℕ → Option ℕ → Pes
pes_fields h b old hl pts dts =
    let pkl = if ltb h 5 then get16 b 4 else 0 in
    record {
      stream_id = if ltb h 4 then b 3 else old.stream_id;
      has_pts = is_some pts;
      has_dts = is_some dts;
      pts = time_or b pts old.pts;
      dts = time_or b dts old.dts;
      size = if pkl == 0 then old.size else pkl + 6;
      data_at = hl;
    }

abbrev pub old_pes : ℕ → (ℕ → ℕ) → Pes → Option ℕ → PesResult
old_pes h b old none = overrun
old_pes h b old (some hl) =
    let (at, pts) = old_header b hl in parsed (pes_fields h b old at pts none)

-- `mpegpes_header` of a buffer of `n` bytes, of which `h` were read before.
unfoldable pub mpegpes_header : ℕ → ℕ → (ℕ → ℕ) → Pes → PesResult
unfolding skip_stuffing old_header pes_fields
mpegpes_header h n b old =
    if h == 0 && not (b 0 == 0 && b 1 == 0 && b 2 == 1)
    then bad_start
    else if b 6 / 64 == 2
    then parsed (
        pes_fields h b old (b 8 + 9) (if b 7 / 128 % 2 == 1 then some 9 else none)
          (if b 7 / 64 % 2 == 1 then some 14 else none))
    else old_pes h b old (skip_stuffing n b 6)
