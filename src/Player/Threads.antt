-- ===== src/Player/Threads.antt =====
-- The threads of play_stream: waitplay, the packets, and the end of a stream.
use tcvp.Prelude.{
  ℕ, ◌+◌, ◌-◌, ◌%◌, ◌^◌, Bool, true, false, not, ◌||◌, ◌&&◌, List, [], ◌∷◌, Option, none, some, ltb,
  if◌then◌else◌, update, length,
}
use tcvp.Player.State.{
  Packet, State, run, pause, stop, Thread, idle, waiting, ready, over, SpStream, started, flushed,
  fed, Player, Env, set_stream, note, note_if,
}
use tcvp.Player.Streams.{del_stream}

abbrev pub is_stop : State → Bool
is_stop stop = true
is_stop run = false
is_stop pause = false

abbrev pub is_pause : State → Bool
is_pause pause = true
is_pause run = false
is_pause stop = false

abbrev pub has_items : Option (List (Option Packet)) → Bool
has_items none = false
has_items (some []) = false
has_items (some (pk ∷ pks)) = true

-- The loop of `waitplay` goes on.
unfoldable pub must_wait : ℕ → Player → Bool
must_wait s p = (not (has_items (p.streams s).packets) || is_pause p.state) && not (is_stop p.state)

abbrev pub set_thread : Thread → ℕ → Player → Player
set_thread th s p = set_stream s (record (p.streams s) { th = th }) p

-- `waitplay`, up to the first wait or, without one, to its end.
unfoldable pub begin_wait : ℕ → Player → Player
unfolding must_wait
begin_wait s p =
    if must_wait s p
    then record (set_thread waiting s p) { waiting = p.waiting + 1 }
    else set_thread ready s p

-- The rest of it once the condition was signalled; it may have to wait on.
unfoldable pub end_wait : ℕ → Player → Player
unfolding must_wait
end_wait s p =
    if must_wait s p then p else record (set_thread ready s p) { waiting = p.waiting - 1 }

-- `tclist_shift`, which answers NULL for a list that is empty.
abbrev pub shift_list : List (Option Packet) → Option Packet × List (Option Packet)
shift_list [] = (none, [])
shift_list (pk ∷ pks) = (pk, pks)

abbrev pub tail_of : ℕ → Option Packet → ℕ
tail_of t none = t
tail_of t (some pk) = elim pk.pts [ none ↦ t | some pts ↦ pts ]

-- `tclist_items(...) < min_packets || headtime - tailtime < buffertime`
abbrev pub is_low : Env → SpStream → ℕ → List (Option Packet) → Bool
is_low env str tail pks =
    ltb (length pks) env.min_packets || ltb ((str.headtime + 2 ^ 64 - tail) % 2 ^ 64) env.buffertime

-- The packet that a turn of the loop takes, and the player then.
abbrev pub shifted : Env → ℕ → List (Option Packet) → Player → Player
shifted env s pks p =
    let str = p.streams s in
    let pk = (shift_list pks).0 in
    let left = (shift_list pks).1 in
    let tail = tail_of str.tailtime pk in
    let low = is_low env str tail left && p.used s && not (env.no_buffer s) in
    record p {
      streams = update p.streams s (record str { packets = some left; tailtime = tail });
      nbuf = update p.nbuf s (p.nbuf s || low);
    }

-- What follows the loop of `play_stream`.
unfoldable pub end_stream : Env → ℕ → Player → Player
unfolding del_stream
end_stream env s p =
    let q = note_if (env.has_start s) (started s) p in
    let r = note (fed s none) (note (flushed s (is_stop q.state)) q) in
    del_stream env s (set_thread over s r)

-- The packet is input, and the thread goes on as the pipe answers.
abbrev pub input : Env → ℕ → Bool → Option Packet → Player → Player
input env s accepted none p = end_stream env s p
input env s accepted (some pk) p =
    let q = note (fed s (some pk)) p in if accepted then set_thread idle s q else end_stream env s q

-- The list of packets stands as long as the thread goes on.
abbrev pub play_list : Env → ℕ → Bool → Option (List (Option Packet)) → Player → Player
play_list env s accepted none p = end_stream env s p
play_list env s accepted (some pks) p =
    input env s accepted (shift_list pks).0 (shifted env s pks p)

-- A turn of the loop of `play_stream` once `waitplay` is through, with the pipe's answer.
unfoldable pub play_turn : Env → ℕ → Bool → Player → Player
unfolding end_stream
play_turn env s accepted p =
    if is_stop p.state then end_stream env s p else play_list env s accepted (p.streams s).packets p
