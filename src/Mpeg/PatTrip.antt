-- ===== src/Mpeg/PatTrip.antt =====
-- The table of programs through both sides: what `pat_packet` writes, `mpegts_do_psi` reads.
use Prim.Native.Nat.{bit_or}
use tcvp.Prelude.{
  ℕ, ◌+◌, ◌*◌, ◌/◌, ◌%◌, ◌^◌, ◌<◌, ◌≡◌, ◌≢◌, refl, ap, ◌∙◌, arith, [], ◌∷◌, ◌++◌, true, false, ◌==◌,
  ==_iff, all_below, all_below-at, replicate, take, drop, none,
}
use tcvp.Mpeg.Crc.{mpeg_crc32}
use tcvp.Mpeg.CrcLaws.{mpeg_crc32-append}
use tcvp.Mpeg.Psi.{Section, clear, section_init, wanted, started, collect, stopped}
use tcvp.Mpeg.Tables.{
  Program, psi_no_index, Demux, map_pid, no_version, add_program, pat_entries, parse_pat,
  do_section, do_sections, done,
}
use tcvp.Mpeg.DoPsi.{section_get, keep, kept, read_sections, behind_pointer, do_psi}
use tcvp.Mpeg.PsiWrite.{pat_section, pat_packet}

map_pids : all_below 8192 (λ x. bit_or x 0xe000 == x + 0xe000) ≡ true
unfolding all_below
map_pids = refl

map_pid_bits : (pid : ℕ) → pid < 8192 → bit_or pid 0xe000 ≡ pid + 0xe000
map_pid_bits pid h =
    (==_iff _ _).0 (all_below-at 8192 (λ x. bit_or x 0xe000 == x + 0xe000) pid map_pids h)

-- The section, from its last eight bytes.
abbrev pat_of : (a b c d e f g h : ℕ) → Section
pat_of a b c d e f g h = record {
  table_id = 0;
  section_length = 16;
  id = 0;
  version = 0;
  current = 1;
  number = 0;
  last = 0;
  buf = 0 ∷ 0xb0 ∷ 0x0d ∷ 0 ∷ 0 ∷ 0xc1 ∷ 0 ∷ 0 ∷ a ∷ b ∷ c ∷ d ∷ e ∷ f ∷ g ∷ h ∷ [];
}

collect-pat :
    (a b c d e f g h : ℕ)
    → collect 183 ((pat_of a b c d e f g h).buf ++ replicate 167 0xff) clear ≡ record {
      complete = pat_of a b c d e f g h ∷ [];
      left = clear;
      rest = replicate 167 0xff;
      err = false;
    }
unfolding collect wanted started section_init
collect-pat a b c d e f g h = refl

abbrev program_of : ℕ → ℕ → Program
program_of pn pmpid = record {
  program_number = pn;
  program_map_pid = pmpid;
  pcr_pid = 0;
  descriptors = [];
  pmt_version = no_version;
  num_streams = 0;
  streams = [];
  psi = none;
}

-- The state with the one program.
abbrev pub with_program : Demux → ℕ → ℕ → Demux
with_program s pn pmpid = record {
  pidmap = map_pid s.pidmap pmpid psi_no_index;
  pat_version = 0;
  programs = program_of pn pmpid ∷ [];
  psi = none;
  nit_pid = s.nit_pid;
}

parse_pat-one :
    (s : Demux) (pn pmpid a b c d e f g h : ℕ)
    → s.pat_version ≢ 0
    → pn ≢ 0
    → a * 256 + b ≡ pn
    → (c * 256 + d) % 2 ^ 13 ≡ pmpid
    → parse_pat (record s { psi = none }) (pat_of a b c d e f g h) ≡ with_program s pn pmpid
unfolding parse_pat pat_entries add_program
parse_pat-one s pn pmpid a b c d e f g h old nz ep em =
    let fresh : (0 == s.pat_version) ≡ false = ground (arith, old) in
    let prg : (pn == 0) ≡ false = ground (arith, nz) in rw (fresh, ep, em, prg)

read_sections-one :
    (s : Demux) (pn pmpid a b c d e f g h : ℕ)
    → parse_pat (record s { psi = none }) (pat_of a b c d e f g h) ≡ with_program s pn pmpid
    → read_sections
        (record s { psi = none })
        0
        clear
        ((pat_of a b c d e f g h).buf ++ replicate 167 0xff)
      ≡ done (with_program s pn pmpid)
unfolding read_sections do_sections do_section keep
read_sections-one s pn pmpid a b c d e f g h parsed =
    let psi = pat_of a b c d e f g h in
    ap (λ x. kept 0 x (do_sections x.complete (record s { psi = none })))
      (collect-pat a b c d e f g h)
    ∙ ap (λ t. kept 0 (stopped clear [] false) (done t)) parsed

do_psi-one :
    (s : Demux) (pn pmpid a b c d e f g h : ℕ)
    → s.pidmap 0 ≡ psi_no_index
    → s.psi ≡ none
    → parse_pat (record s { psi = none }) (pat_of a b c d e f g h) ≡ with_program s pn pmpid
    → do_psi s 0 true (0 ∷ (pat_of a b c d e f g h).buf ++ replicate 167 0xff)
      ≡ done (with_program s pn pmpid)
unfolding do_psi section_get behind_pointer
do_psi-one s pn pmpid a b c d e f g h waits nothing parsed =
    rw (do_psi, waits, nothing) (read_sections-one s pn pmpid a b c d e f g h parsed)

-- A reader that waits for a table on PID 0, has no part of a section and knows no table of the version
-- 0 takes the data of the packet for the one program that was written, of a number other than 0 of 16
-- bits, with the PID of 13 bits of its map, which is then read as tables too; and the checksum of the
-- section in the packet is right.
pub do_psi-pat_packet :
    (s : Demux) (pn pmpid : ℕ)
    → s.pidmap 0 ≡ psi_no_index
    → s.psi ≡ none
    → s.pat_version ≢ 0
    → pn ≢ 0
    → pn < 2 ^ 16
    → pmpid < 2 ^ 13
    → (do_psi s 0 true (drop 4 (pat_packet pn pmpid)) ≡ done (with_program s pn pmpid))
      × (mpeg_crc32 (take 16 (drop 5 (pat_packet pn pmpid))) ≡ 0)
unfolding pat_packet pat_section
do_psi-pat_packet s pn pmpid waits nothing old nz hn hp =
    let crc = mpeg_crc32 (pat_section pn pmpid) in
    let word = bit_or pmpid 0xe000 in
    (
      do_psi-one s pn pmpid _ _ _ _ _ _ _ _ waits nothing (
          parse_pat-one s pn pmpid (pn / 256 % 256) (pn % 256) (word / 256 % 256) (word % 256)
            (crc / 2 ^ 16 / 256 % 256) (crc / 2 ^ 16 % 256) (crc / 256 % 256) (crc % 256) old nz
            (omega arith) (omega (arith, map_pid_bits pmpid hp))),
      mpeg_crc32-append (pat_section pn pmpid),
    )
