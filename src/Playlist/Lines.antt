-- ===== src/Playlist/Lines.antt =====
-- The lines of a playlist file, as `pl_addlist` reads them.
pub mod Laws
use tcvp.Prelude.{
  ℕ, suc, Bool, true, false, ◌&&◌, ◌||◌, List, [], ◌∷◌, ◌++◌, Option, none, some, ◌==◌,
  if◌then◌else◌, length, take,
}
use tcvp.Playlist.State.{Name}

abbrev pub slash : ℕ
slash = b'/'

-- What stands before the last `/`, as `strrchr` finds it.
pub before_last : Name → Option Name
before_last [] = none
before_last (c ∷ cs) = elim (before_last cs) [
  | some p ↦ some (c ∷ p)
  | none ↦ if c == slash then some [] else none
]

abbrev pub or_dot : Option Name → Name
or_dot none = b'.' ∷ []
or_dot (some p) = p

-- The directory of the playlist file; one slash at the end of the name does not count.
pub dir_of : Name → Name
dir_of file = elim (before_last file) [
  | none ↦ b'.' ∷ []
  | some p ↦ if length file == suc (length p) then or_dot (before_last p) else p
]

abbrev pub is_newline : ℕ → Bool
is_newline c = c == b'\n' || c == b'\r'

abbrev pub is_empty : Name → Bool
is_empty [] = true
is_empty (c ∷ cs) = false

-- Without the newlines at the end.
pub strip_tail : Name → Name
strip_tail [] = []
strip_tail (c ∷ cs) = let r = strip_tail cs in if is_newline c && is_empty r then [] else c ∷ r

-- `while(bl > 0 && …) buf[bl--] = 0`: the first character stays.
pub strip : Name → Name
strip [] = []
strip (c ∷ cs) = c ∷ strip_tail cs

unfoldable pub contains : ℕ → Name → Bool
contains x [] = false
contains x (c ∷ cs) = c == x || contains x cs

-- The bytes that go into `line`: a buffer of 1024, with the closing zero.
pub full_name : Name → Name → Name
full_name dir [] = []
full_name dir (c ∷ cs) =
    if c == slash || contains b':' (c ∷ cs)
    then take 1023 (c ∷ cs)
    else take 1023 (dir ++ (slash ∷ c ∷ cs))

-- The file that a line names; comments and empty lines name none.
pub line_file : Name → Name → Option Name
line_file dir [] = none
line_file dir (c ∷ cs) = if c == b'#' then none else some (full_name dir (strip (c ∷ cs)))
