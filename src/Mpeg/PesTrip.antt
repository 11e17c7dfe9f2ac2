-- ===== src/Mpeg/PesTrip.antt =====
-- A PES header is read as it was written.
use Prim.Native.Nat.{bit_or}
use tcvp.Prelude.{
  all_below, all_below-at, ==_iff, ℕ, ◌+◌, ◌*◌, ◌/◌, ◌%◌, ◌^◌, ◌<◌, ◌≡◌, refl, arith, true, false,
  ◌++◌, Option, none, some, ltb, ◌==◌, if◌then◌else◌, get_or, Bool-cases, inl, inr, ap,
}
use tcvp.Prelude.Wire.{Bytes}
use tcvp.Mpeg.Pes.{
  get16, stamp_at, is_plain, is_some, header_length, write_pes_header, Pes, parsed, pes_fields,
  mpegpes_header, time_or,
}

-- A list of bytes as a buffer.
abbrev pub buffer : Bytes → ℕ → ℕ
buffer bs i = get_or bs i 0

stamp-stamp_at :
    (p t : ℕ) (b : ℕ → ℕ) (i : ℕ)
    → t < 2 ^ 33
    → p % 2 ≡ 1
    → b i ≡ t / 2 ^ 30 % 8 * 2 + p
    → p % 16 ≡ 1
    → get16 b (i + 1) ≡ t / 2 ^ 15 % 2 ^ 15 * 2 + 1
    → get16 b (i + 3) ≡ t % 2 ^ 15 * 2 + 1
    → stamp_at b i ≡ t
unfolding stamp_at
stamp-stamp_at p t b i ht e1 e2 e3 e4 e5 = omega arith

abbrev pub IsTime : Option ℕ → Type 0
IsTime none = Unit
IsTime (some t) = t < 2 ^ 33

abbrev pub or_else : Option ℕ → ℕ → ℕ
or_else none d = d
or_else (some t) d = t

-- What is read of the header of a stream with flags.
abbrev pub expected : ℕ → ℕ → Option ℕ → Option ℕ → Pes → Pes
expected id size pts dts old = record {
  stream_id = id;
  has_pts = is_some pts;
  has_dts = is_some dts;
  pts = or_else pts old.pts;
  dts = or_else dts old.dts;
  size = if ltb 0 size then size + 9 + header_length pts dts else old.size;
  data_at = header_length pts dts + 9;
}

start_codes : all_below 256 (λ x. bit_or x 0x100 == x + 0x100) ≡ true
unfolding all_below
start_codes = refl

start_code : (id : ℕ) → id < 256 → bit_or id 0x100 ≡ id + 0x100
start_code id h =
    (==_iff _ _).0 (all_below-at 256 (λ x. bit_or x 0x100 == x + 0x100) id start_codes h)

-- The fields, from what stands in the buffer.
fields-expected :
    (id size : ℕ) (b : ℕ → ℕ) (pts dts at_pts at_dts : Option ℕ) (old : Pes)
    → b 3 ≡ id
    → get16 b 4 ≡ (if ltb 0 size then size + (3 + header_length pts dts) else 0)
    → is_some at_pts ≡ is_some pts
    → is_some at_dts ≡ is_some dts
    → time_or b at_pts old.pts ≡ or_else pts old.pts
    → time_or b at_dts old.dts ≡ or_else dts old.dts
    → pes_fields 0 b old (header_length pts dts + 9) at_pts at_dts ≡ expected id size pts dts old
unfolding pes_fields
fields-expected id size b pts dts at_pts at_dts old e1 e2 e3 e4 e5 e6 =
    elim (Bool-cases (ltb 0 size)) [
      | inl p ↦
          let l = header_length pts dts in
          let some_size : (size + (3 + l) == 0) ≡ false = ground arith in
          let whole : size + (3 + l) + 6 ≡ size + 9 + l = omega arith in
          rw (e1, e2, e3, e4, e5, e6, p, some_size, whole)
      | inr p ↦ rw (e1, e2, e3, e4, e5, e6, p)
    ]

-- No times, a presentation time, or both.
abbrev pub IsTimes : Option ℕ → Option ℕ → Type 0
IsTimes none none = Unit
IsTimes (some p) none = p < 2 ^ 33
IsTimes (some p) (some d) = (p < 2 ^ 33) × (d < 2 ^ 33)
IsTimes none (some d) = ⊥

abbrev if_there : Option ℕ → ℕ → Option ℕ
if_there none i = none
if_there (some t) i = some i

-- The header, from what stands in the buffer.
header-expected :
    (id size n : ℕ) (b : ℕ → ℕ) (pts dts : Option ℕ) (old : Pes)
    → b 0 ≡ 0
    → b 1 ≡ 0
    → b 2 ≡ 1
    → b 3 ≡ id
    → get16 b 4 ≡ (if ltb 0 size then size + (3 + header_length pts dts) else 0)
    → b 6 ≡ 0x80
    → b 7 ≡ (if is_some pts then 0x80 else 0) + (if is_some dts then 0x40 else 0)
    → b 8 ≡ header_length pts dts
    → time_or b (if_there pts 9) old.pts ≡ or_else pts old.pts
    → time_or b (if_there dts 14) old.dts ≡ or_else dts old.dts
    → mpegpes_header 0 n b old ≡ parsed (expected id size pts dts old)
unfolding mpegpes_header
header-expected id size n b none none old e0 e1 e2 e3 e4 e6 e7 e8 e9 e10 =
    rw (e0, e1, e2, e6, e7, e8)
      (ap parsed (fields-expected id size b none none none none old e3 e4 refl refl e9 e10))
header-expected id size n b (some p) none old e0 e1 e2 e3 e4 e6 e7 e8 e9 e10 =
    rw (e0, e1, e2, e6, e7, e8)
      (ap parsed (fields-expected id size b (some p) none (some 9) none old e3 e4 refl refl e9 e10))
header-expected id size n b none (some d) old e0 e1 e2 e3 e4 e6 e7 e8 e9 e10 =
    rw (e0, e1, e2, e6, e7, e8)
      (ap parsed
        (fields-expected id size b none (some d) none (some 14) old e3 e4 refl refl e9 e10))
header-expected id size n b (some p) (some d) old e0 e1 e2 e3 e4 e6 e7 e8 e9 e10 =
    rw (e0, e1, e2, e6, e7, e8)
      (ap parsed
        (fields-expected id size b (some p) (some d) (some 9) (some 14) old e3 e4 refl refl e9 e10))

-- The header of a stream that has one with flags is read as it was written, whatever follows it: the
-- stream, the times that are there, the size with the header, and where the data start.
pub header-write_pes :
    (id size n : ℕ) (pts dts : Option ℕ) (old : Pes) (rest : Bytes)
    → id < 256
    → is_plain id ≡ false
    → size < 65000
    → IsTimes pts dts
    → mpegpes_header 0 n (buffer ((write_pes_header id size pts dts).0 ++ rest)) old
      ≡ parsed (expected id size pts dts old)
unfolding write_pes_header
header-write_pes id size n none none old rest hid plain hs ht =
    rw (plain, start_code id hid)
      (header-expected id size n _ none none old (omega arith) (omega arith) (omega arith)
        (omega arith) (ground arith) refl refl refl refl refl)
header-write_pes id size n (some p) none old rest hid plain hs ht =
    rw (plain, start_code id hid)
      (header-expected id size n _ (some p) none old (omega arith) (omega arith) (omega arith)
        (omega arith) (ground arith) refl refl refl
        (stamp-stamp_at 0x21 p _ 9 ht refl refl refl (omega arith) (omega arith)) refl)
header-write_pes id size n none (some d) old rest hid plain hs ht = absurd ht
header-write_pes id size n (some p) (some d) old rest hid plain hs ht =
    rw (plain, start_code id hid)
      (header-expected id size n _ (some p) (some d) old (omega arith) (omega arith) (omega arith)
        (omega arith) (ground arith) refl refl refl
        (stamp-stamp_at 0x31 p _ 9 ht.0 refl refl refl (omega arith) (omega arith))
        (stamp-stamp_at 0x11 d _ 14 ht.1 refl refl refl (omega arith) (omega arith)))
