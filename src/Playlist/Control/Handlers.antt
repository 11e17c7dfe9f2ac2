-- ===== src/Playlist/Control/Handlers.antt =====
-- Each handler of playlist.c on a valid playlist.
use tcvp.Prelude.{
  ℕ, ◌<◌, ◌≡◌, refl, arith, Bool, true, false, if◌then◌else◌, ◌⊎◌, inl, inr, Bool-cases, ap, sym,
  dec_lt, lt→ltb, le→ltb_false, [], ◌∷◌, some,
}
use mathlib.Core.Path.{subst}
use tcvp.Prelude.Int.{ℤ, pos, negsuc, pos_part}
use tcvp.Playlist.State.{
  Playlist, PlayState, playing, stopped, Env, Out, IsValid, Outcome, has, list_repeat, repeat,
  is_playing, close, ◌>>=◌,
}
use tcvp.Playlist.Edit.{remove, set_flags, send_state}
use tcvp.Playlist.Edit.Valid.{remove-IsValid, set_flags-IsValid}
use tcvp.Playlist.Control.{
  StateEvent, now_playing, now_end, now_error, now_stopped, FlagOp, SeekHow, next, start, on_state,
  on_start, on_stop, on_remove, on_flags, on_query, on_seek, seek_target, seek_index, content,
  new_flags,
}
use tcvp.Playlist.Control.Valid.{
  Succeeds, moved-IsValid, start_lem, next_from, step_forward, step_back, step_here,
}
use tcvp.Playlist.Control.Seek.{seek_index-lt}

-- A valid playlist by its position as a number.
at_position :
    {pl : Playlist} → IsValid pl → pl ≡ record pl { cur = pos (pos_part pl.cur); state = pl.state }
at_position {pl} v = ap (λ (c : ℤ). record pl { cur = c }) v.cur_pos

pub start-Succeeds : {pl : Playlist} → IsValid pl → Succeeds (start pl)
start-Succeeds {pl} v =
    subst (λ q. Succeeds (start q)) (sym (at_position v))
      (start_lem (pos_part pl.cur) pl.state v v.cur_in)

with_state : {pl : Playlist} (s : PlayState) → IsValid pl → IsValid (record pl { state = s })
with_state {pl} s v =
    subst IsValid (ap (λ (c : ℤ). record pl { cur = c; state = s }) (sym v.cur_pos))
      (moved-IsValid (pos_part pl.cur) s v v.cur_in)

pub next_forward : (env : Env) {pl : Playlist} → IsValid pl → Succeeds (next env (pos 1) pl)
next_forward env {pl} v =
    let (c, e, h) = step_forward pl.nf (pos_part pl.cur) (has pl.flags list_repeat) v.cur_in in
    next_from env (pos 1) c v (rw v.cur_pos e) h

-- Back from an empty list that repeats there is no way to go.
pub next_back :
    (env : Env) {pl : Playlist}
    → IsValid pl
    → ((has pl.flags list_repeat ≡ false) ⊎ (0 < pl.nf))
    → Succeeds (next env (negsuc 0) pl)
next_back env {pl} v ok =
    let (c, e, h) = step_back pl.nf (pos_part pl.cur) (has pl.flags list_repeat) v.cur_in ok in
    next_from env (negsuc 0) c v (rw v.cur_pos e) h

pub next_stay : (env : Env) {pl : Playlist} → IsValid pl → Succeeds (next env (pos 0) pl)
next_stay env {pl} v =
    let (c, e, h) = step_here pl.nf (pos_part pl.cur) (has pl.flags list_repeat) v.cur_in in
    next_from env (pos 0) c v (rw v.cur_pos e) h

-- What a handler sends first changes nothing.
Succeeds-cons :
    {r : Outcome} (o : Out) → Succeeds r → Succeeds (r >>= λ (pl, outs). some (pl, o ∷ outs))
Succeeds-cons o (pl, outs, e, v) = (pl, o ∷ outs, rw e, v)

pub on_state-Succeeds :
    (env : Env) (e : StateEvent) {pl : Playlist} → IsValid pl → Succeeds (on_state env e pl)
unfolding on_state
on_state-Succeeds env now_error {pl} v = on_error env.stop_on_error
  where
    on_error :
        (stop : Bool)
        → Succeeds (
            if stop
            then (next env (pos 0) (record pl { state = stopped }) >>= λ (pl1, outs).
                some (pl1, close ∷ outs))
            else next env (pos 1) (record pl { state = playing }))
    on_error true = Succeeds-cons close (next_stay env (with_state stopped v))
    on_error false = next_forward env (with_state playing v)
on_state-Succeeds env now_end {pl} v = elim (Bool-cases (is_playing pl.state)) [
  | inl b ↦ elim (Bool-cases (has pl.flags repeat)) [
    | inl f ↦ rw (b, f) (start-Succeeds v)
    | inr f ↦ rw (b, f) (next_forward env v)
  ]
  | inr b ↦ rw b (pl, [], refl, v)
]
on_state-Succeeds env now_playing {pl} v = (
  record pl { state = playing },
  send_state (record pl { state = playing }) ∷ [],
  refl,
  with_state playing v,
)
on_state-Succeeds env now_stopped {pl} v = (pl, [], refl, v)

pub on_start-Succeeds : {pl : Playlist} → IsValid pl → Succeeds (on_start pl)
unfolding on_start
on_start-Succeeds {pl} v = elim (Bool-cases (is_playing pl.state)) [
  | inl b ↦ rw b (pl, [], refl, v)
  | inr b ↦ rw b (start-Succeeds v)
]

pub on_stop-Succeeds : {pl : Playlist} → IsValid pl → Succeeds (on_stop pl)
unfolding on_stop
on_stop-Succeeds {pl} v = (
  record pl { state = stopped },
  send_state (record pl { state = stopped }) ∷ [],
  refl,
  with_state stopped v,
)

pub on_remove-Succeeds : (s n : ℤ) {pl : Playlist} → IsValid pl → Succeeds (on_remove s n pl)
unfolding on_remove
on_remove-Succeeds s n {pl} v =
    let pl1 = remove s n pl in (pl1, content pl1 ∷ send_state pl1 ∷ [], refl, remove-IsValid s n v)

pub on_flags-Succeeds :
    (env : Env) (op : FlagOp) (arg : ℕ) {pl : Playlist}
    → IsValid pl
    → Succeeds (on_flags env op arg pl)
unfolding on_flags
on_flags-Succeeds env op arg {pl} v =
    let r = set_flags env (new_flags op pl.flags arg) pl in
    (r.0, r.1, refl, set_flags-IsValid env (new_flags op pl.flags arg) v)

pub on_query-Succeeds : {pl : Playlist} → IsValid pl → Succeeds (on_query pl)
unfolding on_query
on_query-Succeeds {pl} v = (pl, content pl ∷ send_state pl ∷ [], refl, v)

pub on_seek-Succeeds :
    (env : Env) (offset : ℤ) (how : SeekHow) {pl : Playlist}
    → IsValid pl
    → Succeeds (on_seek env offset how pl)
unfolding on_seek
on_seek-Succeeds env offset how {pl} v = to_target (seek_target how offset pl.cur) refl
  where
    to_target : (t : ℤ) → seek_target how offset pl.cur ≡ t → Succeeds (on_seek env offset how pl)
    to_target (negsuc n) e = rw (e, on_seek) (pl, [], refl, v)
    to_target (pos x) e = elim (dec_lt x pl.nf) [
      | no out ↦ rw (e, on_seek, le→ltb_false x pl.nf (omega arith)) (pl, [], refl, v)
      | yes lt ↦
          rw (e, on_seek, lt→ltb x pl.nf lt)
            (next_stay env (
              moved-IsValid (seek_index how pl x) pl.state v
                (omega (arith, seek_index-lt how x v lt))))
    ]
