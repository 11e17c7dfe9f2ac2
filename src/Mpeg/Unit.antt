-- ===== src/Mpeg/Unit.antt =====
-- The start of a unit through both layers: a PES header in a packet of a transport stream.
use tcvp.Prelude.{
  ℕ, zero, suc, ◌+◌, ◌*◌, ◌%◌, ◌^◌, ◌<◌, ◌≤◌, ◌≡◌, refl, sym, ◌∙◌, ap, arith, Bool, true, false, [],
  ◌∷◌, ◌++◌, Option, none, some, if◌then◌else◌, length, take, drop,
}
use tcvp.Prelude.Wire.{Bytes}
use tcvp.Mpeg.Pes.{is_plain, write_pes_header, header_length, stamp, Pes, parsed, mpegpes_header}
use tcvp.Mpeg.PesTrip.{buffer, expected, header-write_pes, IsTimes}
use tcvp.Mpeg.Ts.{ts_packet, OutputStream, ticks, both, local_header, write_ts_packet}
use tcvp.Mpeg.TsRead.{TsPacket}
use tcvp.Mpeg.TsTrip.{IsRead, IsRead-ts_packet}

-- A time of 27 MHz that fits the 33 bits of a time stamp, if there is one.
abbrev pub IsClock : Option ℕ → Type 0
IsClock none = Unit
IsClock (some t) = t < 300 * 2 ^ 33

pub ticks-IsTimes :
    (pts dts : Option ℕ) → IsClock pts → IsClock dts → IsTimes (ticks pts) (ticks (both pts dts))
ticks-IsTimes none dts h k = tt
ticks-IsTimes (some p) none h k = omega arith
ticks-IsTimes (some p) (some d) h k = (omega arith, omega arith)

pub length-write_pes :
    (id size : ℕ) (pts dts : Option ℕ)
    → is_plain id ≡ false
    → length (write_pes_header id size pts dts).0 ≡ header_length pts dts + 9
unfolding write_pes_header stamp
length-write_pes id size none none e = rw e refl
length-write_pes id size (some p) none e = rw e refl
length-write_pes id size none (some d) e = rw e refl
length-write_pes id size (some p) (some d) e = rw e refl

returned :
    (id size : ℕ) (pts dts : Option ℕ)
    → is_plain id ≡ false
    → (write_pes_header id size pts dts).1 ≡ header_length pts dts + 9
unfolding write_pes_header
returned id size pts dts e = rw e refl

pub drop-append : (xs ys : Bytes) (n : ℕ) → length xs ≡ n → drop n (xs ++ ys) ≡ ys
drop-append [] ys zero e = refl
drop-append [] ys (suc n) e = absurd (omega arith)
drop-append (x ∷ xs) ys zero e = absurd (omega arith)
drop-append (x ∷ xs) ys (suc n) e = drop-append xs ys n (omega arith)

take-append : (xs ys : Bytes) (n : ℕ) → length xs ≡ n → take n (xs ++ ys) ≡ xs
take-append [] ys zero e = refl
take-append [] ys (suc n) e = absurd (omega arith)
take-append (x ∷ xs) ys zero e = absurd (omega arith)
take-append (x ∷ xs) ys (suc n) e = ap (◌∷◌ x) (take-append xs ys n (omega arith))

-- The header of a stream with flags is taken as it is written.
pub local-write_pes :
    (id size : ℕ) (pts dts : Option ℕ)
    → is_plain id ≡ false
    → local_header (write_pes_header id size pts dts) ≡ (write_pes_header id size pts dts).0
unfolding local_header
local-write_pes id size pts dts plain =
    take-append (write_pes_header id size pts dts).0 (0 ∷ 0 ∷ 0 ∷ [])
      (write_pes_header id size pts dts).1
      (length-write_pes id size pts dts plain ∙ sym (returned id size pts dts plain))

pub header-few : (pts dts : Option ℕ) → header_length pts dts ≤ 10
header-few none none = omega arith
header-few (some p) none = omega arith
header-few none (some d) = omega arith
header-few (some p) (some d) = omega arith

-- What the packet `out` with `n` bytes of the data carries, when it is read and its payload is taken as
-- the start of a PES packet.
pub record Carries (os : OutputStream) (size : ℕ) (pts dts : Option ℕ) (bytes : Bytes)
    (old : TsPacket) (pes : Pes) (out : Bytes) (n : ℕ) : Type 0 where
  pub whole : length out ≡ 188
  pub ts : TsPacket
  pub payload : Bytes
  pub ts_read : IsRead out old true os.pid (os.ccount % 16) payload ts
  pub pes_read :
      (m : ℕ)
      → mpegpes_header 0 m (buffer payload) pes ≡ parsed (expected os.stream_id size pts dts pes)
  pub data_read : drop (header_length pts dts + 9) payload ≡ take n bytes

-- The first packet of a unit of a stream with flags, a PID of 13 bits and an identifier of 8, of fewer
-- than 65000 bytes and with times that fit 33 bits in 90 kHz: what was written is read back, the PID and
-- the counter in the packet, the stream and the times in 90 kHz in the header, and behind it the data that
-- are said to be written.
pub write_ts_packet-Carries :
    (os : OutputStream) (bytes : Bytes) (pts dts : Option ℕ) (old : TsPacket) (pes : Pes)
    → os.pid < 8192
    → os.stream_id < 256
    → is_plain os.stream_id ≡ false
    → length bytes < 65000
    → IsClock pts
    → IsClock dts
    → Carries os
        (if os.is_video then 0 else length bytes)
        (ticks pts)
        (ticks (both pts dts))
        bytes
        old
        pes
        (write_ts_packet os bytes true pts dts).1
        (write_ts_packet os bytes true pts dts).2
unfolding write_ts_packet
write_ts_packet-Carries os bytes pts dts old pes hp hid plain hs hpts hdts =
    let size : ℕ = if os.is_video then 0 else length bytes in
    let p = ticks pts in
    let d = ticks (both pts dts) in
    let pesh : Bytes = (write_pes_header os.stream_id size p d).0 in
    let long = length-write_pes os.stream_id size p d plain in
    let r =
      IsRead-ts_packet os.pid os.ccount true pesh bytes old hp
        (omega (arith, long, header-few p d)) in
    rw (local-write_pes os.stream_id size p d plain) (record {
      whole = r.0;
      ts = r.1;
      payload = pesh ++ take (ts_packet os.pid os.ccount true pesh bytes).1 bytes;
      ts_read = r.2;
      pes_read = λ m.
          header-write_pes os.stream_id size m p d pes _ hid plain (small os.is_video)
            (ticks-IsTimes pts dts hpts hdts);
      data_read = drop-append pesh _ (header_length p d + 9) long;
    })
  where
    small : (v : Bool) → (if v then 0 else length bytes) < 65000
    small true = omega arith
    small false = hs
