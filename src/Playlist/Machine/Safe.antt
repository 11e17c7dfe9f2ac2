-- ===== src/Playlist/Machine/Safe.antt =====
-- No sequence of events, short of the exceptions named here, takes a playlist outside its arrays.
use tcvp.Prelude.{
  refl, ◌++◌, arith, count, ltb, if◌then◌else◌, ℕ, ◌<◌, ◌≡◌, false, ◌⊎◌, List, [], ◌∷◌, All,
}
use tcvp.Playlist.State.{Out, new_playlist, Name, Playlist, Env, IsValid, has, list_repeat}
use tcvp.Playlist.Edit.{position}
use tcvp.Playlist.Control.{content}
use tcvp.Playlist.Control.Valid.{Succeeds}
use tcvp.Playlist.Control.Handlers.{
  next_forward, next_back, on_state-Succeeds, on_start-Succeeds, on_stop-Succeeds,
  on_remove-Succeeds, on_flags-Succeeds, on_query-Succeeds, on_seek-Succeeds,
}
use tcvp.Playlist.Auto.{on_add}
use tcvp.Playlist.Auto.Valid.{Fits, Ranked, add_auto-IsValid}
use tcvp.Playlist.Machine.{
  Command, handle, status, start_cmd, stop_cmd, next_cmd, prev_cmd, query_cmd, add_cmd, remove_cmd,
  flags_cmd, seek_cmd, run, some,
}

-- What the code does not check: names are added at the end or before the last entry, playlists in
-- playlists stay within the fuel, and the step back is not taken in an empty list that repeats.
abbrev pub Allowed : (Name → ℕ) → Command → Playlist → Type 0
Allowed rank (add_cmd fuel names p) pl = All (λ f. rank f < fuel) names × Fits (position p pl.nf) pl
Allowed rank prev_cmd pl = (has pl.flags list_repeat ≡ false) ⊎ (0 < pl.nf)
Allowed rank (status e) pl = Unit
Allowed rank start_cmd pl = Unit
Allowed rank stop_cmd pl = Unit
Allowed rank next_cmd pl = Unit
Allowed rank query_cmd pl = Unit
Allowed rank (remove_cmd s n) pl = Unit
Allowed rank (flags_cmd op arg) pl = Unit
Allowed rank (seek_cmd offset how) pl = Unit

module _ (env : Env) (rank : Name → ℕ) (ranked : Ranked env rank) where
  -- Every handler, at an event that is allowed, ends without a fault, and keeps a valid playlist
  -- valid.
  pub handle-Succeeds :
      (c : Command) {pl : Playlist} → IsValid pl → Allowed rank c pl → Succeeds (handle env c pl)
  unfolding handle
  handle-Succeeds (status e) v ok = on_state-Succeeds env e v
  handle-Succeeds start_cmd v ok = on_start-Succeeds v
  handle-Succeeds stop_cmd v ok = on_stop-Succeeds v
  handle-Succeeds next_cmd v ok = next_forward env v
  handle-Succeeds prev_cmd v ok = next_back env v ok
  handle-Succeeds query_cmd v ok = on_query-Succeeds v
  handle-Succeeds (add_cmd fuel names p) {pl} v ok =
      unfold on_add in
      let (pl', k, e, v', n) = add_auto-IsValid env rank ranked fuel names p pl ok.0 v ok.1 in
      (pl', content pl' ∷ [], rw e, v')
  handle-Succeeds (remove_cmd s n) v ok = on_remove-Succeeds s n v
  handle-Succeeds (flags_cmd op arg) v ok = on_flags-Succeeds env op arg v
  handle-Succeeds (seek_cmd offset how) v ok = on_seek-Succeeds env offset how v

  -- Every event of the sequence is allowed in the state in which it is handled.
  abbrev pub AllAllowed : List Command → Playlist → Type 0
  AllAllowed [] pl = Unit
  AllAllowed (c ∷ cs) pl =
      Allowed rank c pl
      × ((pl1 : Playlist) (outs : List Out)
          → handle env c pl ≡ some (pl1, outs)
          → AllAllowed cs pl1)

  -- A run of events that are allowed, from a valid playlist, ends without a fault in a valid one.
  pub run-Succeeds :
      (cs : List Command) {pl : Playlist} → IsValid pl → AllAllowed cs pl → Succeeds (run env cs pl)
  unfolding run
  run-Succeeds [] {pl} v ok = (pl, [], refl, v)
  run-Succeeds (c ∷ cs) v ok =
      let (pl1, outs, e, v1) = handle-Succeeds c v ok.0 in
      let (pl2, more, e2, v2) = run-Succeeds cs v1 (ok.1 pl1 outs e) in
      (pl2, outs ++ more, rw (e, e2), v2)

new_playlist-IsValid_order : (v : ℕ) → ◌≡◌ {A = ℕ} 0 (if ltb v 0 then 1 else 0)
new_playlist-IsValid_order v = ground arith

-- A new playlist is valid.
pub new_playlist-IsValid : IsValid new_playlist
unfolding count
new_playlist-IsValid = record {
  room = omega arith;
  named = λ k h. absurd (omega arith);
  ordered = new_playlist-IsValid_order;
  cur_pos = refl;
  cur_in = omega arith;
  plain = λ e k h. absurd (omega arith);
}
