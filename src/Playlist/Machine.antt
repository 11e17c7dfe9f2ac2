-- ===== src/Playlist/Machine.antt =====
-- The events that a playlist handles, one after the other.
pub mod Safe
use tcvp.Prelude.{ℕ, List, [], ◌∷◌, ◌++◌, Option, none, some}
use tcvp.Prelude.Int.{ℤ, pos, negsuc}
use tcvp.Playlist.State.{Name, Playlist, Out, Env, Outcome, ◌>>=◌}
use tcvp.Playlist.Control.{
  StateEvent, FlagOp, SeekHow, next, on_state, on_start, on_stop, on_remove, on_flags, on_query,
  on_seek,
}
use tcvp.Playlist.Auto.{on_add}

-- One constructor for each handler that TC2Module connects; TCVP_PL_ADDLIST is `add` of one name.
pub data Command : Type 0 where
  status : StateEvent → Command
  start_cmd stop_cmd next_cmd prev_cmd query_cmd : Command
  add_cmd : ℕ → List Name → ℤ → Command
  remove_cmd : ℤ → ℤ → Command
  flags_cmd : FlagOp → ℕ → Command
  seek_cmd : ℤ → SeekHow → Command

-- The number beside the names of `add_cmd` is the fuel for playlists in playlists.
pub handle : Env → Command → Playlist → Outcome
handle env (status e) pl = on_state env e pl
handle env start_cmd pl = on_start pl
handle env stop_cmd pl = on_stop pl
handle env next_cmd pl = next env (pos 1) pl
handle env prev_cmd pl = next env (negsuc 0) pl
handle env query_cmd pl = on_query pl
handle env (add_cmd fuel names p) pl = on_add env fuel names p pl
handle env (remove_cmd s n) pl = on_remove s n pl
handle env (flags_cmd op arg) pl = on_flags env op arg pl
handle env (seek_cmd offset how) pl = on_seek env offset how pl

pub run : Env → List Command → Playlist → Outcome
run env [] pl = some (pl, [])
run env (c ∷ cs) pl = do
  (pl1, outs) ← handle env c pl
  (pl2, more) ← run env cs pl1
  some (pl2, outs ++ more)
