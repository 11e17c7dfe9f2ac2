-- ===== src/Mpeg/Psi.antt =====
-- The tables of programs in a transport stream, as mpegts.c reads them.
use tcvp.Prelude.{
  ℕ, zero, suc, ◌+◌, ◌-◌, ◌*◌, ◌/◌, ◌%◌, ◌^◌, Bool, true, false, not, ◌&&◌, ◌||◌, List, [], ◌∷◌,
  ◌++◌, Option, none, some, ltb, ◌==◌, if◌then◌else◌, length, take, drop, min, get_or,
}
use tcvp.Prelude.Wire.{Bytes}

-- `struct mpegts_section`; `buf` holds the bytes that are read, and `read` is their number.
pub record Section : Type 0 where
  pub table_id : ℕ
  pub section_length : ℕ
  pub id : ℕ
  pub version : ℕ
  pub current : ℕ
  pub number : ℕ
  pub last : ℕ
  pub buf : Bytes

-- `mpegts_section_clear`
abbrev pub clear : Section
clear = record {
  table_id = 0;
  section_length = 0;
  id = 0;
  version = 0;
  current = 0;
  number = 0;
  last = 0;
  buf = [];
}

-- `htob_16(unaligned16(dp))` at the index `i`.
abbrev pub word_at : Bytes → ℕ → ℕ
word_at bs i = get_or bs i 0 * 256 + get_or bs (i + 1) 0

-- `mpegts_section_init`, where `none` is -1.
unfoldable pub section_init : Section → Option Section
section_init psi =
    let val = word_at psi.buf 1 in
    let flags = get_or psi.buf 5 0 in
    if not (val / 0x8000 % 2 == 1)
      || not (val / 0x4000 % 2 == 0)
      || not (val / 0x1000 % 4 == 3)
      || ltb 1024 (val % 0x1000 + 3)
      || not (flags / 64 % 4 == 3)
    then none
    else some (record {
      table_id = get_or psi.buf 0 0;
      section_length = val % 0x1000 + 3;
      id = word_at psi.buf 3;
      version = flags / 2 % 32;
      current = flags % 2;
      number = get_or psi.buf 6 0;
      last = get_or psi.buf 7 0;
      buf = psi.buf;
    })

-- What the loop of `mpegts_do_psi` comes to: the sections that were complete, in order, the one that is
-- not, the bytes that were not read, and whether it ended with an error.
pub record Collected : Type 0 where
  pub complete : List Section
  pub left : Section
  pub rest : Bytes
  pub err : Bool

abbrev pub stopped : Section → Bytes → Bool → Collected
stopped psi d err = record { complete = []; left = psi; rest = d; err = err }

-- How much of the data is read in a round; the subtraction is one of `unsigned int`.
unfoldable pub wanted : Section → Bytes → ℕ
wanted psi d =
    if psi.section_length == 0
    then min (length d) 8
    else min (length d) ((psi.section_length + 2 ^ 32 - length psi.buf) % 2 ^ 32)

-- The header of the section, once there are bytes enough.
unfoldable pub started : Section → Option Section
unfolding section_init
started psi =
    if psi.section_length == 0 && not (ltb (length psi.buf) 8) then section_init psi else some psi

abbrev pub complete_first : Section → Collected → Collected
complete_first psi c = record c { complete = psi ∷ c.complete }

-- The loop, which goes on with the section `psi` in the data `d`. What is done with a section that is
-- complete does not change how the others are read, and is done afterwards.
unfoldable pub collect : ℕ → Bytes → Section → Collected
unfolding wanted started
collect zero d psi = stopped psi d false
collect (suc n) [] psi = stopped psi [] false
collect (suc n) (b ∷ bs) psi =
    let d = b ∷ bs in
    let len = wanted psi d in
    let more : Section = record psi { buf = psi.buf ++ take len d } in
    let rest = drop len d in
    if psi.section_length == 0 && b == 255
    then stopped psi d false
    else if ltb 1024 (length psi.buf + len)
    then stopped psi d true
    else elim (started more) [
      | none ↦ stopped more rest true
      | some s ↦
          let on = collect n rest s in
          let cleared = complete_first s (collect n rest clear) in
          if not (s.section_length == 0) && length s.buf == s.section_length then cleared else on
    ]
