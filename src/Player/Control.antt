-- ===== src/Player/Control.antt =====
-- The functions of the pipe that s_play makes, and the steps of all threads.
use tcvp.Prelude.{
  ℕ, zero, suc, Bool, true, false, not, ◌||◌, ◌&&◌, [], Option, none, some, ltb, ◌==◌,
  if◌then◌else◌,
}
use tcvp.Prelude.Int.{pos}
use tcvp.Player.State.{
  State, run, pause, stop, up, down, same_int, run, pause, stop, SpStream, Effect, timer_start,
  timer_stop, started, stopped, Shared, Player, Env, note_if, zeroed, Outcome, undefined_behaviour,
  done,
}
use tcvp.Player.Streams.{add_stream, del_stream, is_ok}
use tcvp.Player.Reading.{flush_all, no_bits}

-- The streams that play are started or stopped in their order.
unfoldable pub note_each : (ℕ → Bool) → (ℕ → Effect) → ℕ → Player → Player
note_each who e zero p = p
note_each who e (suc n) p = note_if (who n) (e n) (note_each who e n p)

abbrev pub set_running : Bool → ℕ → (ℕ → SpStream) → ℕ → SpStream
set_running b n streams i = if ltb i n then record (streams i) { running = b } else streams i

abbrev pub plays : (ℕ → SpStream) → ℕ → Bool
plays streams i = is_ok (streams i).probe && (streams i).opened

-- `s_start`, up to its wait, and behind it.
unfoldable pub s_start : Player → Player
s_start p = record p { state = run }

unfoldable pub s_started : Env → Player → Player
unfolding note_each
s_started env p =
    let q = note_each (λ i. plays p.streams i && env.has_start i) started p.nstreams p in
    let r = record q {
      streams = set_running true p.nstreams q.streams;
      shared = record q.shared { nready = up q.shared.nready };
    } in
    note_if (same_int r.shared.nready r.shared.players) timer_start r

-- `s_stop`, up to its wait, and behind it.
unfoldable pub s_stop : Player → Player
s_stop p = record p { state = pause }

unfoldable pub s_stopped : Env → Player → Player
unfolding note_each
s_stopped env p =
    let q = note_each (λ i. plays p.streams i && env.has_stop i) stopped p.nstreams p in
    let r = record q {
      streams = set_running false p.nstreams q.streams;
      shared = record q.shared { nready = down q.shared.nready };
    } in
    note_if (same_int r.shared.nready (pos 0)) timer_stop r

-- The start of `s_free`; it then waits for all threads.
unfoldable pub s_free : Player → Player
s_free p = record p { state = stop }

-- `s_flush`.
unfoldable pub s_flush : Env → Bool → Player → Player
unfolding flush_all
s_flush env drop p = flush_all env p.nstreams drop p

-- The player that `s_play` allocates.
abbrev pub empty_player : Shared → Player
empty_player sh = record {
  streams = λ i. zeroed;
  smap = λ i. none;
  nstreams = 0;
  pstreams = 0;
  fail = 0;
  waiting = 0;
  nbuf = no_bits;
  used = no_bits;
  state = pause;
  reading = false;
  shared = sh;
  log = [];
}

-- `if(add_stream(sp, i)) del_stream(sp, i)`
abbrev pub keep_added : Env → ℕ → Outcome (Player × Bool) → Outcome Player
keep_added env i undefined_behaviour = undefined_behaviour
keep_added env i (done (p, true)) = done p
keep_added env i (done (p, false)) = done (del_stream env i p)

abbrev pub add_next : Env → ℕ → Outcome Player → Outcome Player
add_next env i undefined_behaviour = undefined_behaviour
add_next env i (done p) = keep_added env i (add_stream env i p)

unfoldable pub add_streams : Env → ℕ → Player → Outcome Player
unfolding add_stream
add_streams env zero p = done p
add_streams env (suc n) p = add_next env n (add_streams env n p)

-- A player with a stream counts among the players, and is read; `none` is NULL.
abbrev pub counted : Player → Option Player
counted p =
    if p.pstreams == 0
    then none
    else some
        (record p { reading = true; shared = record p.shared { players = up p.shared.players } })

abbrev pub counted_outcome : Outcome Player → Outcome (Option Player)
counted_outcome undefined_behaviour = undefined_behaviour
counted_outcome (done p) = done (counted p)

-- `s_play`.
unfoldable pub s_play : Env → Shared → Outcome (Option Player)
unfolding add_streams
s_play env sh = counted_outcome (add_streams env env.n_streams (empty_player sh))

-- Some bit of `nbuf` is set.
unfoldable pub has_bits : (ℕ → Bool) → ℕ → Bool
has_bits nbuf zero = false
has_bits nbuf (suc n) = nbuf n || has_bits nbuf n

abbrev pub may_not_read : State → Bool → Bool
may_not_read run bits = not bits
may_not_read pause bits = true
may_not_read stop bits = false

-- The loop of `waitbuf` goes on.
unfoldable pub must_buffer : Player → Bool
unfolding has_bits
must_buffer p = may_not_read p.state (has_bits p.nbuf p.nstreams)
