-- ===== src/Mpeg/Ts.antt =====
-- Packets of a transport stream, as mpegtsmux.c writes them.
use Prim.Native.Nat.{bit_or}
use tcvp.Prelude.{
  ℕ, zero, suc, ◌+◌, ◌-◌, ◌*◌, ◌/◌, ◌%◌, ◌^◌, Bool, [], ◌∷◌, ◌++◌, Option, none, some, ◌==◌,
  if◌then◌else◌, length, take, replicate, min,
}
use tcvp.Prelude.Wire.{Bytes}
use tcvp.Mpeg.Pes.{be16, write_pes_header}

-- The adaptation field that fills up a packet: `stuffing` bytes.
unfoldable pub stuffing_bytes : ℕ → Bytes
stuffing_bytes zero = []
stuffing_bytes (suc zero) = 0 ∷ []
stuffing_bytes (suc (suc n)) = suc n ∷ 0 ∷ replicate n 0xff

-- The packet, from the PES header `pesh` that goes before the data, which is empty where none is
-- wanted.
unfoldable pub ts_packet : ℕ → ℕ → Bool → Bytes → Bytes → Bytes × ℕ
unfolding stuffing_bytes
ts_packet pid ccount ustart pesh bytes =
    let dsize = min (length bytes) (184 - length pesh) in
    let stuffing = 184 - (dsize + length pesh) in
    let cc = ccount % 16 + 0x10 + (if stuffing == 0 then 0 else 0x20) in
    (
      0x47
          ∷ (be16 (if ustart then bit_or pid 0x4000 else pid)
              ++ (cc ∷ (stuffing_bytes stuffing ++ (pesh ++ take dsize bytes)))),
      dsize,
    )

-- The parts of `mpegts_output_stream` that are used.
pub record OutputStream : Type 0 where
  pub is_video : Bool
  pub pid : ℕ
  pub stream_id : ℕ
  pub ccount : ℕ

-- -1 stands for a time that is not known, here `none`; times are in 27 MHz.
abbrev pub ticks : Option ℕ → Option ℕ
ticks none = none
ticks (some t) = some (t / 300)

-- The decoding time is used with a presentation time only.
abbrev pub both : Option ℕ → Option ℕ → Option ℕ
both none dts = none
both (some p) dts = dts

-- The header in the local array: as many bytes as its length says. Where fewer are written, the others
-- are undefined, and stand as zeros.
unfoldable pub local_header : Bytes × ℕ → Bytes
local_header (written, peshl) = take peshl (written ++ (0 ∷ 0 ∷ 0 ∷ []))

-- `write_ts_packet`: the stream with its counter, the packet, and how much of the data it holds.
unfoldable pub write_ts_packet :
    OutputStream → Bytes → Bool → Option ℕ → Option ℕ → OutputStream × Bytes × ℕ
write_ts_packet os bytes ustart pts dts =
    let pesh =
      if ustart
      then local_header (
          write_pes_header os.stream_id (if os.is_video then 0 else length bytes) (ticks pts)
            (ticks (both pts dts)))
      else [] in
    let (out, n) = ts_packet os.pid os.ccount ustart pesh bytes in
    (record os { ccount = os.ccount + 1 }, out, n)

-- `put_pcr`
unfoldable pub put_pcr : ℕ → Bytes
put_pcr pcr =
    let base = pcr / 300 % 2 ^ 33 in
    let ext = pcr % 300 % 512 in
    be16 (base / 2 / 2 ^ 16) ++ (be16 (base / 2) ++ be16 (ext + base % 2 * 2 ^ 15 + 0x7e00))

-- `pcr_packet` before a clock is put into it, and `null_packet`.
unfoldable pub pcr_packet : ℕ → Bytes
pcr_packet pid = 0x47 ∷ (be16 pid ++ (0x20 ∷ 183 ∷ 0x10 ∷ replicate 182 0xff))

unfoldable pub null_packet : Bytes
null_packet = 0x47 ∷ (be16 0x1fff ++ (0x10 ∷ replicate 184 0))
