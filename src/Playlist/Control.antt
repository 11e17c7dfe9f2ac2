-- ===== src/Playlist/Control.antt =====
-- `pl_start`, `pl_next` and the event handlers `epl_*`.
pub mod Valid
pub mod Seek
pub mod Handlers
pub mod Moves
use Prim.Native.Nat.{bit_and, bit_or, bit_xor}
use tcvp.Prelude.{
  ℕ, zero, suc, Bool, not, ◌&&◌, ◌||◌, [], ◌∷◌, ◌++◌, some, ltb, ◌==◌, if◌then◌else◌, segment,
}
use tcvp.Prelude.Int.{ℤ, pos, negsuc, ◌+ℤ◌, ltb_ℤ}
use tcvp.Playlist.State.{
  Playlist, PlayState, playing, stopped, end, Out, Env, Outcome, ◌>>=◌, is_playing, is_end, has,
  shuffle, repeat, list_repeat, fetch, pl_content, close, open_file, start_play, load,
}
use tcvp.Playlist.Edit.{remove, set_flags, send_state}

-- What `pl_start` does; its result -1 for an empty list is used by no caller.
pub start : Playlist → Outcome
start pl =
    if pl.nf == 0
    then some (pl, [])
    else let pl1 = if ltb_ℤ pl.cur (pos pl.nf) then pl else record pl { cur = pos 0 } in
      do name ← fetch pl1; some (pl1, close ∷ open_file name ∷ start_play ∷ [])

-- The position that `pl_next` goes to.
pub step : ℕ → Bool → ℤ → ℤ
step nf wrap c =
    if not (ltb_ℤ c (pos nf)) || ltb_ℤ c (pos 0)
    then (if wrap
        then (if ltb_ℤ c (pos 0) then pos nf +ℤ negsuc 0 else pos 0)
        else (if ltb_ℤ c (pos 0) then pos 0 else pos nf))
    else c

-- The state behind the critical section of `pl_next`.
pub next_state : ℕ → Bool → ℤ → PlayState → PlayState
next_state nf wrap c s =
    if (not (ltb_ℤ c (pos nf)) || ltb_ℤ c (pos 0)) && (is_playing s && not wrap) then end else s

-- `stream_open` of the current file, sent to be shown if it opens.
pub preview : Env → Playlist → Outcome
preview env pl = do name ← fetch pl; some (pl, if env.opens name then load name ∷ [] else [])

-- What `pl_next` does about the new current position.
pub show_current : Env → Playlist → Outcome
show_current env pl =
    if ltb_ℤ pl.cur (pos pl.nf)
    then (if is_playing pl.state then start (record pl { state = stopped }) else preview env pl)
    else some (pl, [])

pub next : Env → ℤ → Playlist → Outcome
next env dir pl =
    let c = pl.cur +ℤ dir in
    let wrap = has pl.flags list_repeat in
    do
      (pl2, outs) ←
          show_current env
            (record pl { cur = step pl.nf wrap c; state = next_state pl.nf wrap c pl.state })
      some (pl2, outs ++ ((if is_end pl2.state then close ∷ [] else []) ++ (send_state pl2 ∷ [])))

-- TCVP_STATE_*
pub data StateEvent : Type 0 where
  now_playing now_end now_error now_stopped : StateEvent

pub on_state : Env → StateEvent → Playlist → Outcome
on_state env now_error pl =
    if env.stop_on_error
    then (do
      (pl1, outs) ← next env (pos 0) (record pl { state = stopped })
      some (pl1, close ∷ outs))
    else next env (pos 1) (record pl { state = playing })
on_state env now_end pl =
    if is_playing pl.state
    then (if has pl.flags repeat then start pl else next env (pos 1) pl)
    else some (pl, [])
on_state env now_playing pl =
    let pl1 = record pl { state = playing } in some (pl1, send_state pl1 ∷ [])
on_state env now_stopped pl = some (pl, [])

pub on_start : Playlist → Outcome
on_start pl = if is_playing pl.state then some (pl, []) else start pl

pub on_stop : Playlist → Outcome
on_stop pl = let pl1 = record pl { state = stopped } in some (pl1, send_state pl1 ∷ [])

-- The event TCVP_PL_CONTENT with the entries in use.
pub content : Playlist → Out
content pl = pl_content (segment pl.files 0 pl.nf)

pub on_remove : ℤ → ℤ → Playlist → Outcome
on_remove s n pl = let pl1 = remove s n pl in some (pl1, content pl1 ∷ send_state pl1 ∷ [])

-- TCVP_PL_FLAGS_*; any other operation changes nothing.
pub data FlagOp : Type 0 where
  set_op or_op and_op xor_op other_op : FlagOp

pub new_flags : FlagOp → ℕ → ℕ → ℕ
new_flags set_op flags arg = arg
new_flags or_op flags arg = bit_or flags arg
new_flags and_op flags arg = bit_and flags arg
new_flags xor_op flags arg = bit_xor flags arg
new_flags other_op flags arg = flags

pub on_flags : Env → FlagOp → ℕ → Playlist → Outcome
on_flags env op arg pl = some (set_flags env (new_flags op pl.flags arg) pl)

pub on_query : Playlist → Outcome
on_query pl = some (pl, content pl ∷ send_state pl ∷ [])

-- TCVP_PL_SEEK_*
pub data SeekHow : Type 0 where
  absolute relative other_how : SeekHow

-- The first index from `i` on, of `n`, at which the order holds `x`, and `x` if there is none.
pub find_order : (ℕ → ℕ) → ℕ → ℕ → ℕ → ℕ
find_order order x i zero = x
find_order order x i (suc n) =
    let rest = find_order order x (suc i) n in if order i == x then i else rest

pub seek_target : SeekHow → ℤ → ℤ → ℤ
seek_target absolute offset cur = offset
seek_target relative offset cur = cur +ℤ offset
seek_target other_how offset cur = negsuc 0

pub seek_index : SeekHow → Playlist → ℕ → ℕ
seek_index absolute pl x = if has pl.flags shuffle then find_order pl.order x 0 pl.nf else x
seek_index relative pl x = x
seek_index other_how pl x = x

pub on_seek : Env → ℤ → SeekHow → Playlist → Outcome
on_seek env offset how pl = elim (seek_target how offset pl.cur) [
  | negsuc _ ↦ some (pl, [])
  | pos x ↦
      if ltb x pl.nf
      then next env (pos 0) (record pl { cur = pos (seek_index how pl x) })
      else some (pl, [])
]
