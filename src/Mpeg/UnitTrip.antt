-- ===== src/Mpeg/UnitTrip.antt =====
-- A whole unit of a stream through both sides, with its header.
use tcvp.Prelude.{
  ℕ, suc, ◌+◌, ◌-◌, ◌*◌, ◌/◌, ◌%◌, ◌<◌, ◌≤◌, ◌≡◌, refl, sym, ap, ◌∙◌, arith, Bool, true, false,
  List, [], ◌∷◌, ◌++◌, Option, none, some, ◌==◌, if◌then◌else◌, length, take, drop, segment,
  Bool-cases, ◌⊎◌, inl, inr, length-append, length-take, length-drop, take-append-drop,
}
use tcvp.Prelude.Wire.{Bytes}
use tcvp.Mpeg.Pes.{is_plain, is_some, write_pes_header, header_length, mpegpes_header, parsed}
use tcvp.Mpeg.PesTrip.{buffer, or_else, expected, header-write_pes}
use tcvp.Mpeg.Ts.{ts_packet, OutputStream, ticks, both, write_ts_packet}
use tcvp.Mpeg.TsRead.{TsPacket}
use tcvp.Mpeg.TsTrip.{IsRead, IsRead-ts_packet}
use tcvp.Mpeg.Unit.{
  IsClock, drop-append, local-write_pes, length-write_pes, header-few, ticks-IsTimes,
}
use tcvp.Mpeg.Es.{
  TsBuf, UnitPacket, mkpacket, unset, take_header, closes, passed_on, is_duplicate, do_es,
  pass_more, read_packets, write_unit,
}
use tcvp.Mpeg.EsTrip.{
  read-continued, read-nothing, goes_on, size_taken, nothing_left, append_nil, append_assoc,
}

-- A buffer in which a unit may begin: there is something in it, or nothing is known of its times.
abbrev pub IsWaiting : TsBuf → Type 0
IsWaiting tb = (0 < length tb.buf) ⊎ ((tb.buf ≡ []) × (tb.has_pts ≡ false) × (tb.has_dts ≡ false))

-- The buffer with the bytes of a unit that has begun.
abbrev pub begun : TsBuf → Option ℕ → Option ℕ → ℕ → Bytes → TsBuf
begun tb p d cont buf = record {
  has_pts = is_some p;
  has_dts = is_some d;
  pts = if is_some p then or_else p 0 else tb.pts;
  dts = if is_some d then or_else d 0 else tb.dts;
  buf = buf;
  hlen = header_length p d + 9;
  cc = some cont;
  start = true;
}

starting :
    (out : Bytes) (pid cont id size : ℕ) (bytes : Bytes) (old t : TsPacket) (tb : TsBuf)
    (p d : Option ℕ)
    → IsRead out old true pid cont bytes t
    → is_duplicate tb.cc cont ≡ false
    → IsWaiting tb
    → ((m : ℕ) → mpegpes_header 0 m (buffer bytes) unset ≡ parsed (expected id size p d unset))
    → do_es t.unit_start t.cont_counter (segment (buffer out) t.data_at t.data_length) tb
      ≡ some (begun tb p d cont bytes, passed_on (closes true tb) tb)
unfolding do_es take_header
starting out pid cont id size bytes old t tb p d r next (inl some_bytes) header =
    let closed : closes true tb ≡ true = ground arith in
    rw (r.unit_start_is, r.count_is, r.payload_is, do_es, next, closed, header)
starting out pid cont id size bytes old t tb p d r next (inr (nil, no_pts, no_dts)) header =
    rw (r.unit_start_is, r.count_is, r.payload_is, do_es, next, nil, no_pts, no_dts, header)

-- A time in 27 MHz as it comes back, in whole steps of 90 kHz.
abbrev pub coarse : Option ℕ → Option ℕ
coarse none = none
coarse (some t) = some (t / 300 * 300)

times_back :
    (p : Option ℕ) (n : ℕ)
    → (if is_some (ticks p)
        then some ((if is_some (ticks p) then or_else (ticks p) 0 else n) * 300)
        else none)
      ≡ coarse p
times_back none n = refl
times_back (some t) n = refl

-- A unit that is whole in the buffer.
abbrev unit_of : TsBuf → Option ℕ → Option ℕ → ℕ → Bytes → Bytes → TsBuf
unit_of tb p d cont pesh bytes = begun tb (ticks p) (ticks (both p d)) cont (pesh ++ bytes)

mkpacket-unit_of :
    (tb : TsBuf) (p d : Option ℕ) (cont : ℕ) (pesh bytes : Bytes)
    → length pesh ≡ header_length (ticks p) (ticks (both p d)) + 9
    → mkpacket (unit_of tb p d cont pesh bytes)
      ≡ record { payload = bytes; missing = 0; pts = coarse p; dts = coarse (both p d) }
unfolding mkpacket
mkpacket-unit_of tb p d cont pesh bytes e =
    let none_missing : header_length (ticks p) (ticks (both p d)) + 9 - length (pesh ++ bytes) ≡ 0 =
      omega (arith, e, length-append pesh bytes) in
    rw (
      drop-append pesh bytes (header_length (ticks p) (ticks (both p d)) + 9) e,
      none_missing,
      times_back p tb.pts,
      times_back (both p d) tb.dts,
    )

read-starting :
    (out : Bytes) (outs : List Bytes) (pid cont id size : ℕ) (bytes : Bytes) (old t : TsPacket)
    (tb : TsBuf) (p d : Option ℕ)
    → IsRead out old true pid cont bytes t
    → is_duplicate tb.cc cont ≡ false
    → IsWaiting tb
    → ((m : ℕ) → mpegpes_header 0 m (buffer bytes) unset ≡ parsed (expected id size p d unset))
    → read_packets (out ∷ outs) old tb
      ≡ pass_more (passed_on (closes true tb) tb) (read_packets outs t (begun tb p d cont bytes))
unfolding read_packets
read-starting out outs pid cont id size bytes old t tb p d r next wait header =
    rw (read_packets, r.read, starting out pid cont id size bytes old t tb p d r next wait header)

-- The first packet holds the header, and data.
abbrev first_packet : OutputStream → Bytes → Option ℕ → Option ℕ → Bytes × ℕ
first_packet os bytes pts dts =
    ts_packet os.pid os.ccount true
      (write_pes_header os.stream_id (if os.is_video then 0 else length bytes) (ticks pts)
        (ticks (both pts dts))).0
      bytes

write_ts_packet-first :
    (os : OutputStream) (bytes : Bytes) (pts dts : Option ℕ)
    → is_plain os.stream_id ≡ false
    → write_ts_packet os bytes true pts dts ≡ (
      record os { ccount = os.ccount + 1 },
      (first_packet os bytes pts dts).0,
      (first_packet os bytes pts dts).1,
    )
unfolding write_ts_packet
write_ts_packet-first os bytes pts dts plain = rw (
    local-write_pes os.stream_id (if os.is_video then 0 else length bytes) (ticks pts)
      (ticks (both pts dts)) plain)

-- Nothing but what was there before is passed on while the packets of a unit are read.
passed_only :
    (made : List UnitPacket) (tb : TsBuf) → pass_more made (some (tb, [])) ≡ some (tb, made)
passed_only made tb = ap (λ x. some (tb, x)) (append_nil made)

small_size : (v : Bool) (n : ℕ) → n < 65000 → (if v then 0 else n) < 65000
small_size true n h = omega arith
small_size false n h = h

-- The buffer behind the packets of a unit.
write_unit-read :
    (n : ℕ) (os : OutputStream) (bytes : Bytes) (pts dts : Option ℕ) (old : TsPacket) (tb : TsBuf)
    → os.pid < 8192
    → os.stream_id < 256
    → is_plain os.stream_id ≡ false
    → length bytes ≤ suc n
    → length bytes < 65000
    → IsClock pts
    → IsClock dts
    → is_duplicate tb.cc (os.ccount % 16) ≡ false
    → IsWaiting tb
    → read_packets (write_unit (suc n) os bytes true pts dts).1 old tb
      ≡ some (
        unit_of tb pts dts
            (((write_unit (suc n) os bytes true pts dts).0.ccount + 15) % 16)
            (write_pes_header os.stream_id
              (if os.is_video then 0 else length bytes)
              (ticks pts)
              (ticks (both pts dts))).0
            bytes,
        passed_on (closes true tb) tb,
      )
unfolding write_unit
write_unit-read n os bytes pts dts old tb hp hid plain hn hs hpts hdts next wait =
    let size : ℕ = if os.is_video then 0 else length bytes in
    let p = ticks pts in
    let d = ticks (both pts dts) in
    let pesh : Bytes = (write_pes_header os.stream_id size p d).0 in
    let long = length-write_pes os.stream_id size p d plain in
    let few = header-few p d in
    let (_, t, r) =
      IsRead-ts_packet os.pid os.ccount true pesh bytes old hp (omega (arith, long, few)) in
    let (out, k) = first_packet os bytes pts dts in
    let k_is = size_taken os.pid os.ccount true pesh bytes in
    let os1 : OutputStream = record os { ccount = os.ccount + 1 } in
    let made = passed_on (closes true tb) tb in
    let step : (outs : List Bytes) → _ = λ outs.
      read-starting out outs os.pid (os.ccount % 16) os.stream_id size (pesh ++ take k bytes) old t
        tb p d r next wait
        (λ m.
          header-write_pes os.stream_id size m p d unset (take k bytes) hid plain
            (small_size os.is_video (length bytes) hs) (ticks-IsTimes pts dts hpts hdts)) in
    elim (Bool-cases (length (drop k bytes) == 0)) [
      | inl e ↦
          let whole : take k bytes ≡ bytes =
            sym (append_nil (take k bytes))
            ∙ ap (λ x. take k bytes ++ x) (sym (nothing_left (drop k bytes) e))
            ∙ take-append-drop k bytes in
          let same : (os.ccount + 1 + 15) % 16 ≡ os.ccount % 16 = omega arith in
          rw (write_unit, write_ts_packet-first os bytes pts dts plain, e, same)
            (step []
              ∙ ap (pass_more made) (read-nothing t _)
              ∙ passed_only made _
              ∙ ap (λ x. some (begun tb p d (os.ccount % 16) (pesh ++ x), made)) whole)
      | inr e ↦
          let w = write_unit n os1 (drop k bytes) false none none in
          let ih =
            read-continued n os1 (drop k bytes) t
              (begun tb p d (os.ccount % 16) (pesh ++ take k bytes)) hp
              (omega (arith, length-drop k bytes, k_is, long, few)) (ground (arith, e))
              (omega (
                arith,
                length-drop k bytes,
                length-take k bytes,
                length-append pesh (take k bytes),
                k_is,
                long,
                few,
              ))
              (goes_on os.ccount) in
          rw (write_unit, write_ts_packet-first os bytes pts dts plain, e)
            (step w.1
              ∙ ap (pass_more made) ih
              ∙ passed_only made _
              ∙ ap (λ x. some (begun tb p d ((w.0.ccount + 15) % 16) x, made))
                  (append_assoc pesh (take k bytes) (drop k bytes)
                    ∙ ap (λ x. pesh ++ x) (take-append-drop k bytes)))
    ]

-- What the packets `outs` of a unit come to in a buffer: `after` is the stream behind them.
pub record Arrives (outs : List Bytes) (after : OutputStream) (bytes : Bytes) (pts dts : Option ℕ)
    (old : TsPacket) (tb : TsBuf) : Type 0 where
  pub arrived : TsBuf
  pub read : read_packets outs old tb ≡ some (arrived, passed_on (closes true tb) tb)
  pub whole :
      mkpacket arrived
      ≡ record { payload = bytes; missing = 0; pts = coarse pts; dts = coarse (both pts dts) }
  pub started : arrived.start ≡ true
  pub waiting : 0 < length arrived.buf
  pub next : is_duplicate arrived.cc (after.ccount % 16) ≡ false

-- The data of a packet of a stream with flags, a PID of 13 bits and an identifier of 8, not empty and
-- shorter than 65000 bytes and with times that fit 33 bits in 90 kHz, that are written as packets of a
-- transport stream and read into a buffer in which a unit may begin, with the counter going on: what was
-- in the buffer is passed on if it had a start, and nothing else is; what is then there makes just the
-- data that were written, with their times in whole steps of 90 kHz; and another unit may follow.
pub write_unit-Arrives :
    (os : OutputStream) (bytes : Bytes) (pts dts : Option ℕ) (old : TsPacket) (tb : TsBuf)
    → os.pid < 8192
    → os.stream_id < 256
    → is_plain os.stream_id ≡ false
    → 0 < length bytes
    → length bytes < 65000
    → IsClock pts
    → IsClock dts
    → is_duplicate tb.cc (os.ccount % 16) ≡ false
    → IsWaiting tb
    → Arrives
        (write_unit (length bytes) os bytes true pts dts).1
        (write_unit (length bytes) os bytes true pts dts).0
        bytes
        pts
        dts
        old
        tb
write_unit-Arrives os [] pts dts old tb hp hid plain h0 hs hpts hdts next wait =
    absurd (omega arith)
write_unit-Arrives os (b ∷ bs) pts dts old tb hp hid plain h0 hs hpts hdts next wait =
    let bytes : Bytes = b ∷ bs in
    let w = write_unit (length bytes) os bytes true pts dts in
    let size : ℕ = if os.is_video then 0 else length bytes in
    let p = ticks pts in
    let d = ticks (both pts dts) in
    let pesh : Bytes = (write_pes_header os.stream_id size p d).0 in
    let long = length-write_pes os.stream_id size p d plain in
    record {
      arrived = unit_of tb pts dts ((w.0.ccount + 15) % 16) pesh bytes;
      read =
          write_unit-read (length bs) os bytes pts dts old tb hp hid plain (omega arith) hs hpts
            hdts next wait;
      whole = mkpacket-unit_of tb pts dts ((w.0.ccount + 15) % 16) pesh bytes long;
      started = refl;
      waiting = omega (arith, long, length-append pesh bytes);
      next = ground arith;
    }
