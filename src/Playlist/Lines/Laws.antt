-- ===== src/Playlist/Lines/Laws.antt =====
-- Which lines of a playlist file name which file.
use tcvp.Prelude.{
  ℕ, ◌≡◌, refl, true, false, ◌||◌, [], ◌∷◌, ◌++◌, some, ◌==◌, if◌then◌else◌, take, arith,
}
use tcvp.Playlist.State.{Name}
use tcvp.Playlist.Lines.{slash, is_newline, strip_tail, strip, contains, full_name, line_file}

abbrev pub AllNewlines : Name → Type 0
AllNewlines [] = Unit
AllNewlines (c ∷ cs) = (is_newline c ≡ true) × AllNewlines cs

strip_tail-newlines : (ns : Name) → AllNewlines ns → strip_tail ns ≡ []
unfolding strip_tail
strip_tail-newlines [] h = refl
strip_tail-newlines (c ∷ ns) h = ground (arith, strip_tail-newlines ns h.1)

-- The text before the newlines at the end stays, if it ends in something else.
strip_tail-append :
    (xs : Name) (c : ℕ) (ns : Name)
    → is_newline c ≡ false
    → AllNewlines ns
    → strip_tail (xs ++ (c ∷ ns)) ≡ xs ++ (c ∷ [])
unfolding strip_tail
strip_tail-append [] c ns h k = ground (arith, strip_tail-newlines ns k)
strip_tail-append (x ∷ []) c ns h k = ground (arith, strip_tail-append [] c ns h k)
strip_tail-append (x ∷ y ∷ xs) c ns h k = ground (arith, strip_tail-append (y ∷ xs) c ns h k)

-- A relative name of at least two characters, whatever newlines follow it, is taken in the
-- directory of the playlist, and an absolute one or one with a colon is taken as it stands, both
-- cut to 1023 bytes.
pub line_file_lem :
    (dir xs : Name) (x c : ℕ) (ns : Name)
    → (x == b'#') ≡ false
    → is_newline c ≡ false
    → AllNewlines ns
    → let name = x ∷ (xs ++ (c ∷ [])) in
      line_file dir (x ∷ (xs ++ (c ∷ ns)))
      ≡ some (
          if x == slash || contains b':' name
          then take 1023 name
          else take 1023 (dir ++ (slash ∷ name)))
unfolding line_file strip full_name
line_file_lem dir xs x c ns h k a = rw (h, strip_tail-append xs c ns k a)

-- The loop does not look at the first character: a blank line names a file, the directory with the
-- newline behind it.
pub blank_line :
    (dir : Name) (c : ℕ)
    → is_newline c ≡ true
    → line_file dir (c ∷ []) ≡ some (take 1023 (dir ++ (slash ∷ c ∷ [])))
unfolding line_file strip strip_tail full_name contains
blank_line dir c h = ground arith
