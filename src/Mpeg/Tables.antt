-- ===== src/Mpeg/Tables.antt =====
-- What mpegts.c keeps of the tables of programs, and `mpegts_do_psi`.
use tcvp.Prelude.{
  ℕ, zero, suc, ◌+◌, ◌-◌, ◌/◌, ◌%◌, ◌^◌, Bool, true, false, not, ◌||◌, List, [], ◌∷◌, ◌++◌, Option,
  none, some, ltb, ◌==◌, if◌then◌else◌, length, take, drop, get_elem?, set, get_or, replicate,
}
use tcvp.Prelude.Wire.{Bytes}
use tcvp.Mpeg.Psi.{Section, word_at}

-- `struct mpegts_elem_stream`
pub record ElemStream : Type 0 where
  pub stream_type : ℕ
  pub pid : ℕ
  pub descriptors : Bytes

-- `struct mpegts_program`; `streams` is all of the array, of which `num_streams` are said to be in use.
pub record Program : Type 0 where
  pub program_number : ℕ
  pub program_map_pid : ℕ
  pub pcr_pid : ℕ
  pub descriptors : Bytes
  pub pmt_version : ℕ
  pub num_streams : ℕ
  pub streams : List ElemStream
  pub psi : Option Section

-- What a PID is for, with the index of it: `MPEGTS_PID_MAP`.
pub data PidUse : Type 0 where
  unused psi_no_index : PidUse
  psi_of es nit : ℕ → PidUse

-- The parts of `struct mpegts_stream` that the tables are read into.
pub record Demux : Type 0 where
  pub pidmap : ℕ → PidUse
  pub pat_version : ℕ
  pub programs : List Program
  pub psi : Option Section
  pub nit_pid : ℕ

-- `MPEGTS_PSI_NO_VERSION`
abbrev pub no_version : ℕ
no_version = 0x20

abbrev pub map_pid : (ℕ → PidUse) → ℕ → PidUse → ℕ → PidUse
map_pid pidmap pid v x = if x == pid then v else pidmap x

-- The entry of number `i`, of the program `prg`.
unfoldable pub add_program : ℕ → ℕ → ℕ → Demux → Demux
add_program i prg pid s =
    if prg == 0
    then record s { pidmap = map_pid s.pidmap pid (nit i); nit_pid = pid }
    else record s {
      pidmap = map_pid s.pidmap pid psi_no_index;
      programs =
          s.programs
          ++ (record {
            program_number = prg;
            program_map_pid = pid;
            pcr_pid = 0;
            descriptors = [];
            pmt_version = no_version;
            num_streams = 0;
            streams = [];
            psi = none;
          }
              ∷ []);
    }

-- The loop of `mpegts_parse_pat` over `n` entries, from number `i` on.
unfoldable pub pat_entries : ℕ → ℕ → Bytes → Demux → Demux
unfolding add_program
pat_entries zero i dp s = s
pat_entries (suc n) i dp s =
    pat_entries n (suc i) (drop 4 dp) (add_program i (word_at dp 0) (word_at dp 2 % 2 ^ 13) s)

-- `mpegts_parse_pat`: the table is left out where nothing is done with it. A wrong checksum is only
-- reported.
unfoldable pub parse_pat : Demux → Section → Demux
unfolding pat_entries
parse_pat s psi =
    if psi.version == s.pat_version
      || ltb psi.section_length 12
      || not (psi.number == 0)
      || not (psi.last == 0)
    then s
    else pat_entries ((psi.section_length - 12) / 4) 0 (drop 8 psi.buf)
        (record s { programs = []; pat_version = psi.version })

abbrev pub plus_one : Option ℕ → Option ℕ
plus_one none = none
plus_one (some i) = some (suc i)

-- `mpegts_find_program`, which gives the index.
unfoldable pub find_program : List Program → ℕ → Option ℕ
find_program [] n = none
find_program (p ∷ ps) n =
    let later = plus_one (find_program ps n) in if p.program_number == n then some 0 else later

-- The program at an index is replaced.
abbrev pub put_program : Demux → ℕ → Program → Demux
put_program s i pg = record s { programs = set s.programs i pg }

abbrev pub no_stream : ElemStream
no_stream = record { stream_type = 0; pid = 0; descriptors = [] }

-- A write behind the array, or the array, the number in use, and whether -1 is not returned.
pub data Elements : Type 0 where
  overflow : Elements
  filled : List ElemStream → ℕ → Bool → Elements

-- The loop of `mpegts_parse_pmt`, in the bytes that are left of the section; each round takes five or
-- more, so the number of bytes is fuel enough.
unfoldable pub elem_streams : ℕ → Bytes → List ElemStream → ℕ → Elements
elem_streams zero dp ss k = filled ss k false
elem_streams (suc n) dp ss k =
    let esil = word_at dp 3 % 2 ^ 12 in
    let es : ElemStream = record {
      stream_type = get_or dp 0 0;
      pid = word_at dp 1 % 2 ^ 13;
      descriptors = take esil (drop 5 dp);
    } in
    let on = elem_streams n (drop (5 + esil) dp) (set ss k es) (k + 1) in
    if ltb (length dp) 9
    then (if length dp == 0 then filled (take k ss) k true else filled ss k false)
    else if ltb (length dp) (5 + esil)
    then filled ss k false
    else if ltb k (length ss)
    then on
    else overflow

-- A read or a write outside of what is allocated, or the state.
pub data Outcome : Type 0 where
  overrun : Outcome
  done : Demux → Outcome

-- The number of streams is not set to 0 where the old ones are freed.
abbrev pub fill_program : Demux → ℕ → Program → Elements → Outcome
fill_program s i pg overflow = overrun
fill_program s i pg (filled ss k ok) =
    done (put_program s i (record pg { streams = ss; num_streams = k }))

-- `mpegts_parse_pmt` from the program on, which is the one of index `i`.
unfoldable pub program_map : Demux → Section → ℕ → Program → Outcome
unfolding elem_streams
program_map s psi i pg =
    let pi_len = word_at psi.buf 10 % 2 ^ 12 in
    let clocked : Program = record pg { pcr_pid = word_at psi.buf 8 % 2 ^ 13 } in
    let size = psi.section_length - 12 - pi_len in
    if psi.version == pg.pmt_version
    then done s
    else if ltb (psi.section_length - 12) (pi_len + 4)
    then done (put_program s i clocked)
    else fill_program s i
        (record clocked {
          pmt_version = psi.version;
          descriptors = take pi_len (drop 12 psi.buf);
          psi = none;
        })
        (elem_streams (length psi.buf) (drop (12 + pi_len) psi.buf) (replicate (size / 5) no_stream)
          pg.num_streams)

abbrev pub at_program : Demux → Section → ℕ → Option Program → Outcome
at_program s psi i none = done s
at_program s psi i (some pg) = program_map s psi i pg

-- `mpegts_parse_pmt`
unfoldable pub parse_pmt : Demux → Section → Outcome
unfolding program_map find_program
parse_pmt s psi =
    if ltb psi.section_length 16 then done s else elim (find_program s.programs psi.id) [
      | none ↦ done s
      | some i ↦ at_program s psi i (get_elem? s.programs i)
    ]

-- `mpegts_do_section`
unfoldable pub do_section : Demux → Section → Outcome
unfolding parse_pat parse_pmt
do_section s psi =
    if psi.table_id == 0
    then done (parse_pat s psi)
    else if psi.table_id == 2
    then parse_pmt s psi
    else done s

unfoldable pub do_sections : List Section → Demux → Outcome
unfolding do_section
do_sections [] s = done s
do_sections (psi ∷ more) s = elim (do_section s psi) [
  | overrun ↦ overrun
  | done t ↦ do_sections more t
]
