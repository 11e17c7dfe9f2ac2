-- ===== src/Playlist/Auto.antt =====
-- `pl_addlist` and `pl_addauto`: files are added as what they are, playlists by their lines.
pub mod Valid
use tcvp.Prelude.{ℕ, zero, suc, ◌+◌, List, [], ◌∷◌, Option, none, some}
use tcvp.Prelude.Int.{ℤ, pos}
use tcvp.Playlist.State.{Name, Playlist, Env, Outcome, Magic, unknown, playlist_file, media, ◌>>=◌}
use tcvp.Playlist.Edit.{position, add}
use tcvp.Playlist.Lines.{dir_of, line_file}
use tcvp.Playlist.Control.{content}

-- `pl_addlist` returns -1, here `none`, if the file cannot be opened, and else a number of entries.
abbrev pub AddList : Type 0
AddList = Name → ℕ → Playlist → Option (Playlist × Option ℕ)

-- The loop of `pl_addauto_unlocked` from the position `p` on.
pub add_each : Env → AddList → List Name → ℕ → ℕ → Playlist → Option (Playlist × ℕ)
add_each env add_list [] p nadd pl = some (pl, nadd)
add_each env add_list (f ∷ fs) p nadd pl = elim (env.magic f) [
  | unknown ↦ add_each env add_list fs p nadd pl
  | playlist_file ↦ elim (add_list f p pl) [
    | none ↦ none
    | some (pl1, none) ↦ add_each env add_list fs p nadd pl1
    | some (pl1, some np) ↦ add_each env add_list fs (p + np) (nadd + np) pl1
  ]
  | media ↦ elim (add env (f ∷ []) (pos p) pl) [
    | none ↦ none
    | some pl1 ↦ add_each env add_list fs (suc p) (suc nadd) pl1
  ]
]

-- The loop of `pl_addlist` over the lines, with `n` entries added.
pub add_lines : Env → AddList → Name → List Name → ℕ → ℕ → Playlist → Option (Playlist × Option ℕ)
add_lines env add_list dir [] p n pl = some (pl, some n)
add_lines env add_list dir (l ∷ ls) p n pl = elim (line_file dir l) [
  | none ↦ add_lines env add_list dir ls p n pl
  | some name ↦ elim (add_each env add_list (name ∷ []) (p + n) 0 pl) [
    | none ↦ none
    | some (pl1, k) ↦ add_lines env add_list dir ls p (n + k) pl1
  ]
]

-- The fuel bounds how deep playlists name one another; `none` without fuel is the stack overflow
-- of a playlist that names itself.
pub add_list : Env → ℕ → AddList
add_list env zero file p pl = none
add_list env (suc fuel) file p pl = elim (env.lines file) [
  | none ↦ some (pl, none)
  | some ls ↦ add_lines env (add_list env fuel) (dir_of file) ls p 0 pl
]

pub add_auto : Env → ℕ → List Name → ℤ → Playlist → Option (Playlist × ℕ)
add_auto env fuel fs p pl = add_each env (add_list env fuel) fs (position p pl.nf) 0 pl

-- The handlers of TCVP_PL_ADD and, for one name, of TCVP_PL_ADDLIST.
unfoldable pub on_add : Env → ℕ → List Name → ℤ → Playlist → Outcome
on_add env fuel fs p pl = do (pl1, _) ← add_auto env fuel fs p pl; some (pl1, content pl1 ∷ [])
