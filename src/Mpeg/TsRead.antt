-- ===== src/Mpeg/TsRead.antt =====
-- Packets of a transport stream, as mpegts.c reads them.
use tcvp.Prelude.{
  ℕ, zero, suc, ◌+◌, ◌-◌, ◌*◌, ◌/◌, ◌%◌, ◌^◌, Bool, true, false, not, ◌&&◌, ltb, leb, ◌==◌,
  if◌then◌else◌,
}

-- `getbit`
abbrev pub getbit : ℕ → ℕ → Bool
getbit v b = v / 2 ^ b % 2 == 1

-- `get_pcr` at the index `i`.
unfoldable pub get_pcr : (ℕ → ℕ) → ℕ → ℕ
get_pcr b i =
    (b i * 2 ^ 25 + b (i + 1) * 2 ^ 17 + b (i + 2) * 2 ^ 9 + b (i + 3) * 2 + b (i + 4) / 2 ^ 7 % 2)
      * 300
    + (b (i + 4) % 2 * 256 + b (i + 5))

-- `struct adaptation_field`
pub record Adaptation : Type 0 where
  pub discontinuity : Bool
  pub random_access : Bool
  pub es_priority : Bool
  pub pcr_flag : Bool
  pub opcr_flag : Bool
  pub splicing_point : Bool
  pub transport_private : Bool
  pub extension : Bool
  pub pcr : ℕ
  pub opcr : ℕ
  pub splice_countdown : ℕ

-- `struct mpegts_packet`; the data are given by the index where they start.
pub record TsPacket : Type 0 where
  pub unit_start : Bool
  pub priority : Bool
  pub pid : ℕ
  pub scrambling : ℕ
  pub adaptation : ℕ
  pub cont_counter : ℕ
  pub field : Adaptation
  pub data_length : ℕ
  pub data_at : ℕ

-- A round of the loop: no sync byte, an error in the packet, or a packet.
pub data Round : Type 0 where
  lost_sync bad_packet : Round
  packet : TsPacket → Round

-- The loop over the stuffing: `n` bytes from `i` on.
unfoldable pub is_stuffing : ℕ → (ℕ → ℕ) → ℕ → Bool
is_stuffing zero b i = true
is_stuffing (suc n) b i = b i == 0xff && is_stuffing n b (suc i)

-- The part of a given length, whose first byte is that length, if the flag is set: the index behind it,
-- and whether it ends before `end`.
abbrev pub part : Bool → (ℕ → ℕ) → ℕ → ℕ → ℕ × Bool
part false b i end = (i, true)
part true b i end = (i + 1 + b i, leb (i + 1 + b i) end)

-- The adaptation field at the index 5, of `al` bytes: the field, and whether it is well formed.
unfoldable pub read_field : (ℕ → ℕ) → ℕ → Adaptation → Adaptation × Bool
unfolding get_pcr is_stuffing
read_field b al old =
    let v = b 5 in
    let i1 = if getbit v 4 then 12 else 6 in
    let i2 = if getbit v 3 then i1 + 6 else i1 in
    let i3 = if getbit v 2 then i2 + 1 else i2 in
    let (i4, ok4) = part (getbit v 1) b i3 (5 + al) in
    let (i5, ok5) = part (getbit v 0) b i4 (5 + al) in
    (
      record {
        discontinuity = getbit v 7;
        random_access = getbit v 6;
        es_priority = getbit v 5;
        pcr_flag = getbit v 4;
        opcr_flag = getbit v 3;
        splicing_point = getbit v 2;
        transport_private = getbit v 1;
        extension = getbit v 0;
        pcr = if getbit v 4 then get_pcr b 6 else old.pcr;
        opcr = if getbit v 3 then get_pcr b i1 else old.opcr;
        splice_countdown = if getbit v 2 then b i2 else old.splice_countdown;
      },
      ok4 && ok5 && leb i5 (5 + al) && is_stuffing (5 + al - i5) b i5,
    )

-- The end of a round: the data from the index `i` on, if there are any.
abbrev pub with_data : ℕ → TsPacket → Round
with_data i p =
    if p.adaptation % 2 == 1
    then packet (record p { data_length = 188 - i; data_at = i })
    else packet (record p { data_length = 0 })

unfoldable pub read_adaptation : (ℕ → ℕ) → TsPacket → Round
read_adaptation b p =
    let al = b 4 in
    let (field, ok) = read_field b al p.field in
    if ltb 183 al
    then bad_packet
    else if al == 0
    then with_data 5 p
    else if ok
    then with_data (5 + al) (record p { field = field })
    else bad_packet

-- A round of `mpegts_read_packet` for the packet `b` in the buffer; `old` is what was in the structure.
unfoldable pub read_round : (ℕ → ℕ) → TsPacket → Round
unfolding read_adaptation
read_round b old =
    let p : TsPacket = record {
      unit_start = getbit (b 1) 6;
      priority = getbit (b 1) 5;
      pid = b 1 % 32 * 256 + b 2;
      scrambling = b 3 / 64 % 4;
      adaptation = b 3 / 16 % 4;
      cont_counter = b 3 % 16;
      field = old.field;
      data_length = old.data_length;
      data_at = old.data_at;
    } in
    if not (b 0 == 0x47)
    then lost_sync
    else if getbit (b 1) 7
    then bad_packet
    else if p.adaptation / 2 % 2 == 1
    then read_adaptation b p
    else with_data 4 p
