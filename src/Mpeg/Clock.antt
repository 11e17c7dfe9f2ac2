-- ===== src/Mpeg/Clock.antt =====
-- The clock reference of a transport stream, written and read.
use tcvp.Prelude.{
  ℕ, ◌+◌, ◌*◌, ◌/◌, ◌%◌, ◌^◌, ◌<◌, ◌≡◌, refl, arith, true, false, ◌∷◌, ◌++◌, drop, length,
}
use tcvp.Prelude.Wire.{Bytes}
use tcvp.Mpeg.Pes.{be16}
use tcvp.Mpeg.PesTrip.{buffer}
use tcvp.Mpeg.Ts.{put_pcr, pcr_packet}
use tcvp.Mpeg.TsRead.{
  getbit, get_pcr, Adaptation, TsPacket, packet, is_stuffing, read_field, read_adaptation,
  read_round,
}
use tcvp.Mpeg.TsTrip.{headed}

-- `put_pcr(tsm->pcr_packet + 6, pcr)` in the packet with the counter `cc` in its fourth byte: the six
-- bytes after the flags are overwritten.
unfoldable pub clock_packet : ℕ → ℕ → ℕ → Bytes
unfolding pcr_packet
clock_packet pid cc pcr =
    0x47 ∷ (be16 pid ++ (cc ∷ 183 ∷ 0x10 ∷ (put_pcr pcr ++ drop 12 (pcr_packet pid))))

-- `inc_cc` of that byte.
unfoldable pub inc_cc : ℕ → ℕ
inc_cc cc = cc / 16 * 16 + (cc + 1) % 16

get_pcr-from :
    (b : ℕ → ℕ) (i pcr base ext : ℕ)
    → pcr ≡ base * 300 + ext
    → ext < 300
    → base < 2 ^ 33
    → b i ≡ base / 2 / 2 ^ 16 / 256 % 256
    → b (i + 1) ≡ base / 2 / 2 ^ 16 % 256
    → b (i + 2) ≡ base / 2 / 256 % 256
    → b (i + 3) ≡ base / 2 % 256
    → b (i + 4) ≡ (ext + base % 2 * 2 ^ 15 + 0x7e00) / 256 % 256
    → b (i + 5) ≡ (ext + base % 2 * 2 ^ 15 + 0x7e00) % 256
    → get_pcr b i ≡ pcr
unfolding get_pcr
get_pcr-from b i pcr base ext e hx hb e0 e1 e2 e3 e4 e5 =
    let whole : b i * 2 ^ 25
          + b (i + 1) * 2 ^ 17
          + b (i + 2) * 2 ^ 9
          + b (i + 3) * 2
          + b (i + 4) / 2 ^ 7 % 2
        ≡ base =
      omega arith in
    let rest : b (i + 4) % 2 * 256 + b (i + 5) ≡ ext = omega arith in rw (whole, rest, e)

field-clock :
    (b : ℕ → ℕ) (pcr : ℕ) (old : Adaptation)
    → b 5 ≡ 0x10
    → get_pcr b 6 ≡ pcr
    → is_stuffing 176 b 12 ≡ true
    → ((read_field b 183 old).0.pcr_flag ≡ true)
      × ((read_field b 183 old).0.pcr ≡ pcr)
      × ((read_field b 183 old).1 ≡ true)
unfolding read_field
field-clock b pcr old e5 e s = rw (e5, e, s) (refl, refl, refl)

clock_bytes : (pid cc pcr : ℕ) → is_stuffing 176 (buffer (clock_packet pid cc pcr)) 12 ≡ true
unfolding clock_packet put_pcr is_stuffing
clock_bytes pid cc pcr = refl

clock_length : (pid cc pcr : ℕ) → length (clock_packet pid cc pcr) ≡ 188
unfolding clock_packet put_pcr
clock_length pid cc pcr = refl

clock_pcr :
    (pid cc pcr : ℕ) → pcr < 300 * 2 ^ 33 → get_pcr (buffer (clock_packet pid cc pcr)) 6 ≡ pcr
unfolding clock_packet put_pcr
clock_pcr pid cc pcr h =
    let ext_is : pcr % 300 % 512 ≡ pcr % 300 = omega arith in
    let base_is : pcr / 300 % 2 ^ 33 ≡ pcr / 300 = omega arith in
    get_pcr-from (buffer (clock_packet pid cc pcr)) 6 pcr (pcr / 300) (pcr % 300) (omega arith)
      (omega arith) (omega arith) (rw base_is refl) (rw base_is refl) (rw base_is refl)
      (rw base_is refl) (rw (base_is, ext_is) refl) (rw (base_is, ext_is) refl)

read-field_only :
    (b : ℕ → ℕ) (old : TsPacket)
    → b 0 ≡ 0x47
    → getbit (b 1) 7 ≡ false
    → b 3 / 16 % 4 ≡ 2
    → b 4 ≡ 183
    → (read_field b 183 old.field).1 ≡ true
    → read_round b old
      ≡ packet (record (headed b 2 (read_field b 183 old.field).0 old) { data_length = 0 })
unfolding read_round read_adaptation
read-field_only b old e0 e1 e3 e4 ok = rw (e0, e1, e3, e4, ok)

-- A packet with a clock reference of less than 2 ^ 33 ticks of 90 kHz has 188 bytes and is read without
-- error: with its PID, its counter and its clock, and no data.
pub read-clock_packet :
    (pid cc pcr : ℕ) (old : TsPacket)
    → pid < 8192
    → cc / 16 ≡ 2
    → pcr < 300 * 2 ^ 33
    → (length (clock_packet pid cc pcr) ≡ 188)
      × (p : TsPacket) × (read_round (buffer (clock_packet pid cc pcr)) old ≡ packet p)
      × (p.pid ≡ pid)
      × (p.cont_counter ≡ cc % 16)
      × (p.field.pcr_flag ≡ true)
      × (p.field.pcr ≡ pcr)
      × (p.data_length ≡ 0)
unfolding clock_packet
read-clock_packet pid cc pcr old hp hc h =
    let f =
      field-clock (buffer (clock_packet pid cc pcr)) pcr old.field refl (clock_pcr pid cc pcr h)
        (clock_bytes pid cc pcr) in
    (
      clock_length pid cc pcr,
      _,
      read-field_only (buffer (clock_packet pid cc pcr)) old refl (ground arith) (omega arith) refl
          f.2,
      omega arith,
      refl,
      f.0,
      f.1,
      refl,
    )
