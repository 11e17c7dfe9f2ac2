-- ===== src/Mpeg/TsTrip.antt =====
-- A packet of a transport stream is read as it was written.
use Prim.Native.Nat.{bit_or}
use tcvp.Prelude.{
  ℕ, zero, suc, ◌+◌, ◌-◌, ◌*◌, ◌/◌, ◌%◌, ◌<◌, ◌≤◌, ◌≡◌, refl, sym, ap, ◌∙◌, arith, Bool, true,
  false, ◌&&◌, [], ◌∷◌, ◌++◌, ltb, leb, ◌==◌, if◌then◌else◌, length, take, replicate, segment,
  all_below, all_below-at, ==_iff, min, length-append, length-take, length-replicate,
}
use tcvp.Prelude.Wire.{Bytes}
use tcvp.Mpeg.PesTrip.{buffer}
use tcvp.Mpeg.Ts.{ts_packet, stuffing_bytes}
use tcvp.Mpeg.TsRead.{
  getbit, Adaptation, TsPacket, packet, is_stuffing, read_field, read_adaptation, read_round,
}

segment-cons :
    (x : ℕ) (xs : Bytes) (i n : ℕ) → segment (buffer (x ∷ xs)) (suc i) n ≡ segment (buffer xs) i n
segment-cons x xs i zero = refl
segment-cons x xs i (suc n) = ap (λ t. buffer xs i ∷ t) (segment-cons x xs (suc i) n)

segment-buffer : (xs ys : Bytes) → segment (buffer (xs ++ ys)) (length xs) (length ys) ≡ ys
segment-buffer [] [] = refl
segment-buffer [] (y ∷ ys) =
    ap (λ t. y ∷ t) (segment-cons y ys 0 (length ys) ∙ segment-buffer [] ys)
segment-buffer (x ∷ xs) ys =
    segment-cons x (xs ++ ys) (length xs) (length ys) ∙ segment-buffer xs ys

pub segment-at :
    (xs ys : Bytes) (i n : ℕ) → length xs ≡ i → length ys ≡ n → segment (buffer (xs ++ ys)) i n ≡ ys
segment-at xs ys i n e f =
    ap (λ t. segment (buffer (xs ++ ys)) t n) (sym e)
    ∙ ap (λ t. segment (buffer (xs ++ ys)) (length xs) t) (sym f)
    ∙ segment-buffer xs ys

is_stuffing-cons :
    (x : ℕ) (xs : Bytes) (i n : ℕ)
    → is_stuffing n (buffer (x ∷ xs)) (suc i) ≡ is_stuffing n (buffer xs) i
unfolding is_stuffing
is_stuffing-cons x xs i zero = refl
is_stuffing-cons x xs i (suc n) =
    ap (λ t. buffer xs i == 0xff && t) (is_stuffing-cons x xs (suc i) n)

pub is_stuffing-replicate :
    (n : ℕ) (ys : Bytes) → is_stuffing n (buffer (replicate n 0xff ++ ys)) 0 ≡ true
unfolding is_stuffing
is_stuffing-replicate zero ys = refl
is_stuffing-replicate (suc n) ys =
    is_stuffing-cons 0xff (replicate n 0xff ++ ys) 0 n ∙ is_stuffing-replicate n ys

pub is_stuffing-append :
    (xs ys : Bytes) (n : ℕ)
    → is_stuffing n (buffer (xs ++ ys)) (length xs) ≡ is_stuffing n (buffer ys) 0
is_stuffing-append [] ys n = refl
is_stuffing-append (x ∷ xs) ys n =
    is_stuffing-cons x (xs ++ ys) (length xs) n ∙ is_stuffing-append xs ys n

-- What a packet without errors says in its first bytes.
abbrev pub headed : (ℕ → ℕ) → ℕ → Adaptation → TsPacket → TsPacket
headed b adaptation field old = record {
  unit_start = getbit (b 1) 6;
  priority = getbit (b 1) 5;
  pid = b 1 % 32 * 256 + b 2;
  scrambling = b 3 / 64 % 4;
  adaptation = adaptation;
  cont_counter = b 3 % 16;
  field = field;
  data_length = old.data_length;
  data_at = old.data_at;
}

read-full :
    (b : ℕ → ℕ) (old : TsPacket)
    → b 0 ≡ 0x47
    → getbit (b 1) 7 ≡ false
    → b 3 / 16 % 4 ≡ 1
    → read_round b old
      ≡ packet (record (headed b 1 old.field old) { data_length = 184; data_at = 4 })
unfolding read_round
read-full b old e0 e1 e3 = rw (e0, e1, e3)

read-empty_field :
    (b : ℕ → ℕ) (old : TsPacket)
    → b 0 ≡ 0x47
    → getbit (b 1) 7 ≡ false
    → b 3 / 16 % 4 ≡ 3
    → b 4 ≡ 0
    → read_round b old
      ≡ packet (record (headed b 3 old.field old) { data_length = 183; data_at = 5 })
unfolding read_round read_adaptation
read-empty_field b old e0 e1 e3 e4 = rw (e0, e1, e3, e4)

-- The field in which no flag is set.
abbrev no_flags : Adaptation → Adaptation
no_flags a = record {
  discontinuity = false;
  random_access = false;
  es_priority = false;
  pcr_flag = false;
  opcr_flag = false;
  splicing_point = false;
  transport_private = false;
  extension = false;
  pcr = a.pcr;
  opcr = a.opcr;
  splice_countdown = a.splice_countdown;
}

field-stuffing :
    (b : ℕ → ℕ) (m : ℕ) (old : Adaptation)
    → b 5 ≡ 0
    → is_stuffing m b 6 ≡ true
    → read_field b (suc m) old ≡ (no_flags old, true)
unfolding read_field
field-stuffing b m old e5 s =
    let enough : leb 6 (5 + suc m) ≡ true = ground arith in
    let rest : 5 + suc m - 6 ≡ m = omega arith in rw (e5, enough, rest, s)

read-stuffed :
    (b : ℕ → ℕ) (m : ℕ) (old : TsPacket)
    → b 0 ≡ 0x47
    → getbit (b 1) 7 ≡ false
    → b 3 / 16 % 4 ≡ 3
    → b 4 ≡ suc m
    → suc m ≤ 183
    → b 5 ≡ 0
    → is_stuffing m b 6 ≡ true
    → read_round b old
      ≡ packet
          (record (headed b 3 (no_flags old.field) old) { data_length = 182 - m; data_at = 6 + m })
unfolding read_round read_adaptation
read-stuffed b m old e0 e1 e3 e4 few e5 s =
    let small : ltb 183 (suc m) ≡ false = ground arith in
    let some : (suc m == 0) ≡ false = ground arith in
    let at : 5 + suc m ≡ 6 + m = omega arith in
    let left : 188 - (6 + m) ≡ 182 - m = omega arith in
    rw (e0, e1, e3, e4, small, some, field-stuffing b m old.field e5 s, at, left)

-- A packet `p` that is read from the bytes `bs`.
pub record IsRead (bs : Bytes) (old : TsPacket) (ustart : Bool) (pid count : ℕ) (payload : Bytes)
    (p : TsPacket) : Type 0 where
  pub read : read_round (buffer bs) old ≡ packet p
  pub unit_start_is : p.unit_start ≡ ustart
  pub pid_is : p.pid ≡ pid
  pub count_is : p.cont_counter ≡ count
  pub clear : p.scrambling ≡ 0
  pub payload_is : segment (buffer bs) p.data_at p.data_length ≡ payload

-- The bytes of a packet.
abbrev packet_bytes : ℕ → ℕ → ℕ → ℕ → Bytes → Bytes
packet_bytes q1 q2 k n ys =
    0x47 ∷ q1 ∷ q2 ∷ (k + 0x10 + (if n == 0 then 0 else 0x20)) ∷ (stuffing_bytes n ++ ys)

bytes-IsRead :
    (q1 q2 k n : ℕ) (ys : Bytes) (old : TsPacket)
    → q1 / 128 % 2 ≡ 0
    → k < 16
    → n + length ys ≡ 184
    → (p : TsPacket) × IsRead
        (packet_bytes q1 q2 k n ys)
        old
        (getbit q1 6)
        (q1 % 32 * 256 + q2)
        k
        ys
        p
unfolding stuffing_bytes
bytes-IsRead q1 q2 k zero ys old e1 hk whole = (
  _,
  record {
    read = read-full (buffer (packet_bytes q1 q2 k 0 ys)) old refl (ground arith) (omega arith);
    unit_start_is = refl;
    pid_is = refl;
    count_is = omega arith;
    clear = omega arith;
    payload_is =
        segment-at (0x47 ∷ q1 ∷ q2 ∷ (k + 0x10 + 0) ∷ []) ys 4 184 refl (omega (arith, whole));
  },
)
bytes-IsRead q1 q2 k (suc zero) ys old e1 hk whole = (
  _,
  record {
    read =
        read-empty_field (buffer (packet_bytes q1 q2 k 1 ys)) old refl (ground arith) (omega arith)
          refl;
    unit_start_is = refl;
    pid_is = refl;
    count_is = omega arith;
    clear = omega arith;
    payload_is =
        segment-at (0x47 ∷ q1 ∷ q2 ∷ (k + 0x10 + 0x20) ∷ 0 ∷ []) ys 5 183 refl
          (omega (arith, whole));
  },
)
bytes-IsRead q1 q2 k (suc (suc n)) ys old e1 hk whole =
    let some : (suc (suc n) == 0) ≡ false = ground arith in
    let c : ℕ = k + 0x10 + (if suc (suc n) == 0 then 0 else 0x20) in
    let c_is : c ≡ k + 0x30 = rw some (omega arith) in
    let start : Bytes = 0x47 ∷ q1 ∷ q2 ∷ c ∷ suc n ∷ 0 ∷ [] in
    let filled = is_stuffing-append start (replicate n 0xff ++ ys) n ∙ is_stuffing-replicate n ys in
    (
      _,
      record {
        read =
            read-stuffed (buffer (packet_bytes q1 q2 k (suc (suc n)) ys)) n old refl (ground arith)
              (omega (arith, c_is)) refl (omega arith) refl filled;
        unit_start_is = refl;
        pid_is = refl;
        count_is = omega (arith, c_is);
        clear = omega (arith, c_is);
        payload_is =
            segment-at (0x47 ∷ q1 ∷ q2 ∷ c ∷ suc n ∷ 0 ∷ replicate n 0xff) ys (6 + n) (182 - n)
              (omega (arith, length-replicate {A = ℕ} n 0xff)) (omega arith);
      },
    )

pid_starts : all_below 8192 (λ x. bit_or x 0x4000 == x + 0x4000) ≡ true
unfolding all_below
pid_starts = refl

pid_start : (pid : ℕ) → pid < 8192 → bit_or pid 0x4000 ≡ pid + 0x4000
pid_start pid h =
    (==_iff _ _).0 (all_below-at 8192 (λ x. bit_or x 0x4000 == x + 0x4000) pid pid_starts h)

length-stuffing_bytes : (n : ℕ) → length (stuffing_bytes n) ≡ n
unfolding stuffing_bytes
length-stuffing_bytes zero = refl
length-stuffing_bytes (suc zero) = refl
length-stuffing_bytes (suc (suc n)) = omega (arith, length-replicate {A = ℕ} n 0xff)

abbrev marked : Bool → ℕ → ℕ
marked ustart pid = if ustart then bit_or pid 0x4000 else pid

marked_lem :
    (ustart : Bool) (pid : ℕ)
    → pid < 8192
    → (marked ustart pid / 256 % 256 / 128 % 2 ≡ 0)
      × (getbit (marked ustart pid / 256 % 256) 6 ≡ ustart)
      × (marked ustart pid / 256 % 256 % 32 * 256 + marked ustart pid % 256 ≡ pid)
marked_lem true pid h = rw (pid_start pid h) (omega arith, ground arith, omega arith)
marked_lem false pid h = (omega arith, ground arith, omega arith)

-- A packet that is written has 188 bytes and is read without error, whatever was read before: with the
-- mark of a start, the PID and the counter that were written, and the header and the data as payload.
pub IsRead-ts_packet :
    (pid ccount : ℕ) (ustart : Bool) (pesh bytes : Bytes) (old : TsPacket)
    → pid < 8192
    → length pesh ≤ 184
    → (length (ts_packet pid ccount ustart pesh bytes).0 ≡ 188)
      × (p : TsPacket) × IsRead
          (ts_packet pid ccount ustart pesh bytes).0
          old
          ustart
          pid
          (ccount % 16)
          (pesh ++ take (ts_packet pid ccount ustart pesh bytes).1 bytes)
          p
unfolding ts_packet
IsRead-ts_packet pid ccount ustart pesh bytes old hp hh =
    let dsize : ℕ = min (length bytes) (184 - length pesh) in
    let n : ℕ = 184 - (dsize + length pesh) in
    let payload : Bytes = pesh ++ take dsize bytes in
    let long : length payload ≡ length pesh + dsize =
      omega (arith, length-append pesh (take dsize bytes), length-take dsize bytes) in
    let m = marked_lem ustart pid hp in
    let r =
      bytes-IsRead (marked ustart pid / 256 % 256) (marked ustart pid % 256) (ccount % 16) n payload
        old m.0 (omega arith) (omega (arith, long, hh)) in
    (
      omega (arith, length-append (stuffing_bytes n) payload, length-stuffing_bytes n, long, hh),
      r.0,
      record {
        read = r.1.read;
        unit_start_is = r.1.unit_start_is ∙ m.1;
        pid_is = r.1.pid_is ∙ m.2;
        count_is = r.1.count_is;
        clear = r.1.clear;
        payload_is = r.1.payload_is;
      },
    )
