-- ===== src/Mpeg/EsTrip.antt =====
-- A unit of data through both sides of a transport stream.

use tcvp.Prelude.{
  ℕ, zero, suc, ◌+◌, ◌-◌, ◌%◌, ◌<◌, ◌≤◌, ◌≡◌, refl, sym, ap, ◌∙◌, arith, Bool, true, false, List,
  [], ◌∷◌, ◌++◌, Option, none, some, ltb, ◌==◌, length, take, drop, min, segment, Bool-cases, inl,
  inr, length-append, length-take, length-drop, take-append-drop,
}
use tcvp.Prelude.Wire.{Bytes}
use tcvp.Mpeg.PesTrip.{buffer}
use tcvp.Mpeg.Ts.{ts_packet, OutputStream, write_ts_packet}
use tcvp.Mpeg.TsRead.{TsPacket}
use tcvp.Mpeg.TsTrip.{IsRead, IsRead-ts_packet}
use tcvp.Mpeg.Es.{
  TsBuf, UnitPacket, max_packet_size, is_duplicate, do_es, pass_more, read_packets, write_unit,
}

pub append_nil : {A : Type 0} (xs : List A) → xs ++ [] ≡ xs
append_nil [] = refl
append_nil (x ∷ xs) = ap (◌∷◌ x) (append_nil xs)

pub append_assoc : (xs ys zs : Bytes) → (xs ++ ys) ++ zs ≡ xs ++ (ys ++ zs)
append_assoc [] ys zs = refl
append_assoc (x ∷ xs) ys zs = ap (◌∷◌ x) (append_assoc xs ys zs)

continuing :
    (out : Bytes) (pid cont : ℕ) (d : Bytes) (old p : TsPacket) (tb : TsBuf)
    → IsRead out old false pid cont d p
    → is_duplicate tb.cc cont ≡ false
    → length tb.buf ≤ max_packet_size
    → do_es p.unit_start p.cont_counter (segment (buffer out) p.data_at p.data_length) tb
      ≡ some (record tb { cc = some cont; buf = tb.buf ++ d }, [])
unfolding do_es
continuing out pid cont d old p tb r next room =
    let still : ltb max_packet_size (length tb.buf) ≡ false = ground arith in
    rw (r.unit_start_is, r.count_is, r.payload_is, do_es, next, still)

-- A packet without the mark of a start adds its data.
read-continuing :
    (out : Bytes) (outs : List Bytes) (pid cont : ℕ) (d : Bytes) (old p : TsPacket) (tb : TsBuf)
    → IsRead out old false pid cont d p
    → is_duplicate tb.cc cont ≡ false
    → length tb.buf ≤ max_packet_size
    → read_packets (out ∷ outs) old tb
      ≡ pass_more [] (read_packets outs p (record tb { cc = some cont; buf = tb.buf ++ d }))
unfolding read_packets
read-continuing out outs pid cont d old p tb r next room =
    rw (read_packets, r.read, continuing out pid cont d old p tb r next room)

-- The counter of a stream goes on.
pub goes_on : (c : ℕ) → is_duplicate (some (c % 16)) ((c + 1) % 16) ≡ false
goes_on c = ground arith

pass_none : (o : Option (TsBuf × List UnitPacket)) → pass_more [] o ≡ o
pass_none none = refl
pass_none (some (tb, more)) = refl

pub size_taken :
    (pid cc : ℕ) (u : Bool) (pesh bytes : Bytes)
    → (ts_packet pid cc u pesh bytes).1 ≡ min (length bytes) (184 - length pesh)
unfolding ts_packet
size_taken pid cc u pesh bytes = refl

pub nothing_left : (d : Bytes) → (length d == 0) ≡ true → d ≡ []
nothing_left [] e = refl
nothing_left (b ∷ bs) e = absurd (ground (arith, e))

pub read-nothing : (old : TsPacket) (tb : TsBuf) → read_packets [] old tb ≡ some (tb, [])
unfolding read_packets
read-nothing old tb = refl

abbrev grown : TsBuf → ℕ → Bytes → Option (TsBuf × List UnitPacket)
grown tb cont d = some (record tb { cc = some cont; buf = tb.buf ++ d }, [])

-- The packets behind the first one add the data that are left.
pub read-continued :
    (n : ℕ) (os : OutputStream) (bytes : Bytes) (old : TsPacket) (tb : TsBuf)
    → os.pid < 8192
    → length bytes ≤ n
    → 0 < length bytes
    → length tb.buf + length bytes ≤ max_packet_size
    → is_duplicate tb.cc (os.ccount % 16) ≡ false
    → read_packets (write_unit n os bytes false none none).1 old tb
      ≡ some (
        record tb {
          cc = some (((write_unit n os bytes false none none).0.ccount + 15) % 16);
          buf = tb.buf ++ bytes;
        },
        [],
      )
unfolding write_unit write_ts_packet
read-continued zero os bytes old tb hp hn h0 room next = absurd (omega arith)
read-continued (suc n) os bytes old tb hp hn h0 room next =
    let k = (ts_packet os.pid os.ccount false [] bytes).1 in
    let out = (ts_packet os.pid os.ccount false [] bytes).0 in
    let os1 : OutputStream = record os { ccount = os.ccount + 1 } in
    let size = size_taken os.pid os.ccount false [] bytes in
    let (_, p, r) = IsRead-ts_packet os.pid os.ccount false [] bytes old hp (omega arith) in
    let step : (outs : List Bytes) → _ = λ outs.
      read-continuing out outs os.pid (os.ccount % 16) (take k bytes) old p tb r next (omega arith)
      ∙ pass_none _ in
    elim (Bool-cases (length (drop k bytes) == 0)) [
      | inl e ↦
          let whole : take k bytes ≡ bytes =
            sym (append_nil (take k bytes))
            ∙ ap (λ x. take k bytes ++ x) (sym (nothing_left (drop k bytes) e))
            ∙ take-append-drop k bytes in
          let same : (os.ccount + 1 + 15) % 16 ≡ os.ccount % 16 = omega arith in
          rw (e, same) (step [] ∙ read-nothing p _ ∙ ap (grown tb (os.ccount % 16)) whole)
      | inr e ↦
          let ih =
            read-continued n os1 (drop k bytes) p
              (record tb { cc = some (os.ccount % 16); buf = tb.buf ++ take k bytes }) hp
              (omega (arith, length-drop k bytes, size)) (ground (arith, e))
              (omega (
                arith,
                length-drop k bytes,
                length-take k bytes,
                length-append tb.buf (take k bytes),
                size,
              ))
              (goes_on os.ccount) in
          rw e (
            step (write_unit n os1 (drop k bytes) false none none).1
            ∙ ih
            ∙ ap
                (λ x. some (
                  record tb {
                    cc =
                        some
                          (((write_unit n os1 (drop k bytes) false none none).0.ccount + 15) % 16);
                    buf = x;
                  },
                  [],
                ))
                (append_assoc tb.buf (take k bytes) (drop k bytes)
                  ∙ ap (λ x. tb.buf ++ x) (take-append-drop k bytes)))
    ]
