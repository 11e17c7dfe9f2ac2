-- ===== src/Player/Steps.antt =====
-- The steps of the threads: the one that reads, those of the streams, and those that call the pipe's
-- functions. What a thread does while it holds the lock is one step, and so is do_data_packet; where that has
-- undefined behaviour there is no step.
use tcvp.Prelude.{ℕ, ◌<◌, ◌≤◌, ◌≡◌, Bool, true, false, some}
use tcvp.Player.State.{
  Packet, Probe, stop, idle, waiting, ready, timer_reset, Shared, Player, Env, note, done,
}
use tcvp.Player.Streams.{flush_stream}
use tcvp.Player.Threads.{begin_wait, end_wait, play_turn}
use tcvp.Player.Reading.{do_data_packet, end_of_file, stop_reading}
use tcvp.Player.Control.{s_start, s_started, s_stop, s_stopped, s_free, s_flush, s_play}

-- Behind a wait of s_start no bit of `nbuf` is set, and behind that of s_stop all streams wait.
pub data Step (env : Env) : Player → Player → Type 0 where
  waits : (p : Player) (s : ℕ) → (p.streams s).th ≡ idle → Step env p (begin_wait s p)
  wakes : (p : Player) (s : ℕ) → (p.streams s).th ≡ waiting → Step env p (end_wait s p)
  turns :
      (p : Player) (s : ℕ) (accepted : Bool)
      → (p.streams s).th ≡ ready
      → Step env p (play_turn env s accepted p)
  reads :
      (p q : Player) (s : ℕ) (answer : Probe) (pk : Packet)
      → p.reading ≡ true
      → do_data_packet env s answer pk p ≡ done q
      → Step env p q
  flushes :
      (p : Player) (s : ℕ) (drop : Bool)
      → p.reading ≡ true
      → s < p.nstreams
      → Step env p (flush_stream env s drop p)
  flushes_all : (p : Player) (drop : Bool) → Step env p (s_flush env drop p)
  times : (p : Player) (t : ℕ) → env.synctime ≡ true → Step env p (note (timer_reset t) p)
  ends : (p : Player) → p.reading ≡ true → Step env p (end_of_file p)
  quits : (p : Player) → p.reading ≡ true → p.state ≡ stop → Step env p (stop_reading p)
  starts : (p : Player) → Step env p (s_start p)
  started_up : (p : Player) → ((i : ℕ) → p.nbuf i ≡ false) → Step env p (s_started env p)
  stops : (p : Player) → Step env p (s_stop p)
  stopped_now : (p : Player) → p.pstreams ≤ p.waiting → Step env p (s_stopped env p)
  frees : (p : Player) → Step env p (s_free p)

-- The states that a player comes to.
pub data Reach (env : Env) : Player → Type 0 where
  made : (p : Player) (sh : Shared) → s_play env sh ≡ done (some p) → Reach env p
  then_step : {p q : Player} → Reach env p → Step env p q → Reach env q
