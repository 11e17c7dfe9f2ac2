-- ===== src/Mpeg/DoPsi.antt =====
-- `mpegts_do_psi` of mpegts.c: the sections of the tables in the packets.
use tcvp.Prelude.{
  ℕ, Bool, true, false, [], ◌∷◌, Option, none, some, ltb, ◌==◌, if◌then◌else◌, length, drop,
  get_elem?,
}
use tcvp.Prelude.Wire.{Bytes}
use tcvp.Mpeg.Psi.{Section, clear, Collected, collect}
use tcvp.Mpeg.Tables.{
  PidUse, unused, psi_no_index, psi_of, es, nit, Demux, map_pid, put_program, find_program, Outcome,
  overrun, done, do_sections,
}

-- `mpegts_section_get`: the state without the section, and the section. There is none for a PID that is
-- not one of tables, and a program that is gone is read all the same.
unfoldable pub section_get : Demux → PidUse → Option (Demux × Option Section)
section_get s unused = none
section_get s psi_no_index = some (record s { psi = none }, s.psi)
section_get s (psi_of i) = elim (get_elem? s.programs i) [
  | none ↦ none
  | some pg ↦ some (put_program s i (record pg { psi = none }), pg.psi)
]
section_get s (es i) = none
section_get s (nit i) = none

-- The section that is not complete is kept for the next packet.
unfoldable pub keep : Demux → ℕ → Section → Demux
unfolding find_program
keep s pid psi =
    if psi.section_length == 0
    then s
    else if psi.table_id == 2
    then elim (find_program s.programs psi.id) [
      | none ↦ s
      | some i ↦ elim (get_elem? s.programs i) [
        | none ↦ s
        | some pg ↦ record (put_program s i (record pg { psi = some psi })) {
          pidmap = map_pid s.pidmap pid (psi_of i);
        }
      ]
    ]
    else record s { psi = some psi }

abbrev pub kept : ℕ → Collected → Outcome → Outcome
kept pid c overrun = overrun
kept pid c (done s) = if c.err then done s else done (keep s pid c.left)

-- The end of `mpegts_do_psi`, from the loop on.
unfoldable pub read_sections : Demux → ℕ → Section → Bytes → Outcome
unfolding collect do_sections keep
read_sections s pid psi d =
    let c = collect (length d) d psi in kept pid c (do_sections c.complete s)

abbrev pub or_clear : Option Section → Section
or_clear none = clear
or_clear (some psi) = psi

-- The pointer before the data of a packet with a start: it is skipped, and so are the bytes that it
-- counts if no section is waiting for them. A pointer behind the data makes their size wrap around.
unfoldable pub behind_pointer : Option Section → Bytes → Option Bytes
behind_pointer psi [] = none
behind_pointer (some psi) (pointer ∷ d) = some d
behind_pointer none (pointer ∷ d) = if ltb (length d) pointer then none else some (drop pointer d)

abbrev pub with_pointer : Demux → ℕ → Option Section → Option Bytes → Outcome
with_pointer s pid psi none = overrun
with_pointer s pid psi (some d) = read_sections s pid (or_clear psi) d

-- `mpegts_do_psi`, of a packet with the PID, the mark of a start, and the data.
unfoldable pub do_psi : Demux → ℕ → Bool → Bytes → Outcome
unfolding section_get read_sections behind_pointer
do_psi s pid true d = elim (section_get s (s.pidmap pid)) [
  | none ↦ overrun
  | some (t, psi) ↦ with_pointer t pid psi (behind_pointer psi d)
]
do_psi s pid false d = elim (section_get s (s.pidmap pid)) [
  | none ↦ overrun
  | some (t, none) ↦ done t
  | some (t, some psi) ↦ read_sections t pid psi d
]
