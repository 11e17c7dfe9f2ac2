-- ===== src/Player/Refined.antt =====
-- What the thread that reads does to the channels.
use mathlib.Core.Path.{subst}
use tcvp.Prelude.{
  ℕ, ◌+◌, ◌≡◌, refl, sym, Bool, ◌&&◌, ltb, Option, none, some, ◌==◌, if◌then◌else◌, List, [],
}
use tcvp.Player.State.{
  Packet, Probe, SpStream, Player, Env, idle, load, timer_reset, started, flushed, note, set_stream,
  never,
}
use tcvp.Player.Streams.{flush_stream, flush_list, flushed_stream}
use tcvp.Player.Reading.{
  start_clock, with_start, timed, with_time, check_time, begin_playing, given_up,
}
use tcvp.Player.Invariant.{if-has}
use tcvp.Player.Channel.{
  Moves, stays, clears, Acts, Acts-refl, Acts-trans, set_stream-Acts, note-Acts, note_if-Acts,
}
use tcvp.Player.Channels.{set_thread-Acts, del_stream-Acts}

-- The list of a stream, as the code found it, changes.
pub relist-Acts :
    (p : Player) (s : ℕ) (l : List (Option Packet)) (str : SpStream)
    → (p.streams s).packets ≡ some l
    → ((o : List (Option Packet)) → Moves (some l, o) (str.packets, o))
    → Acts p (set_stream s str p)
relist-Acts p s l str e h = set_stream-Acts p s str (λ o.
    subst (λ (x : Option (List (Option Packet))). Moves (x, o) (str.packets, o)) (sym e) (h o))

module _ (env : Env) (s : ℕ) where
  flush_list-Acts :
      (drop : Bool) (p : Player) (l : Option (List (Option Packet)))
      → (p.streams s).packets ≡ l
      → Acts p (flush_list env s drop l p)
  flush_list-Acts drop p none e = Acts-refl p
  flush_list-Acts drop p (some l) e =
      let str = record (p.streams s) { packets = some (if drop then [] else l) } in
      let q = set_stream s str p in
      Acts-trans p q (flushed_stream env s drop l p)
        (relist-Acts p s l str e (λ o.
          if-has (λ (x : List (Option Packet)). Moves (some l, o) (some x, o)) drop [] l
            (λ b. clears stays) (λ b. stays)))
        (note_if-Acts (p.streams s).opened q (flushed s drop) (λ i. refl))

  pub flush_stream-Acts : (drop : Bool) (p : Player) → Acts p (flush_stream env s drop p)
  unfolding flush_stream
  flush_stream-Acts drop p = flush_list-Acts drop p (p.streams s).packets refl

  start_clock-Acts : (pts : ℕ) (p : Player) → Acts p (start_clock pts p)
  unfolding start_clock
  start_clock-Acts pts p =
      let q = record p { shared = with_start pts p.shared } in
      if-has (Acts p) (p.shared.starttime == never) (note (timer_reset pts) q) p
        (λ e. note-Acts q (timer_reset pts) (λ i. refl)) (λ e. Acts-refl p)

  timed-Acts : (pts : ℕ) (pk : Packet) (p : Player) → Acts p (timed s pts pk p).1
  timed-Acts pts pk p =
      if-has (λ (r : Option Packet × Player). Acts p r.1) (ltb p.shared.endtime pts) _ _
        (λ e. Acts-refl p)
        (λ e.
          if-has (λ (r : Option Packet × Player). Acts p r.1) ((p.streams s).starttime == never) _ _
            (λ c. set_stream-Acts p s (record (p.streams s) { starttime = pts }) (λ o. stays))
            (λ c. Acts-refl p))

  with_time-Acts : (pk : Packet) (t : Option ℕ) (p : Player) → Acts p (with_time s pk t p).1
  with_time-Acts pk none p = Acts-refl p
  with_time-Acts pk (some pts) p =
      Acts-trans p (start_clock pts p) (timed s pts pk (start_clock pts p)).1
        (start_clock-Acts pts p) (timed-Acts pts pk (start_clock pts p))

  pub check_time-Acts : (pk : Packet) (p : Player) → Acts p (check_time s pk p).1
  unfolding check_time
  check_time-Acts pk p = with_time-Acts pk pk.pts p

  pub probe-Acts :
      (a : Probe) (k : ℕ) (p : Player)
      → Acts p (set_stream s (record (p.streams s) { probe = a; nprobe = k }) p)
  probe-Acts a k p =
      set_stream-Acts p s (record (p.streams s) { probe = a; nprobe = k }) (λ o. stays)

  pub given_up-Acts : (p q : Player) → Acts p q → Acts p (given_up env s q)
  given_up-Acts p q f =
      Acts-trans p q (given_up env s q) f (del_stream-Acts env s (record q { fail = q.fail + 1 }))

  pub begin_playing-Acts : (p : Player) → Acts p (begin_playing env s p)
  begin_playing-Acts p =
      let q = note load p in
      let r = set_stream s (record (p.streams s) { th = idle }) q in
      Acts-trans p q (begin_playing env s p) (note-Acts p load (λ i. refl)) (
        Acts-trans q r (begin_playing env s p) (set_thread-Acts q s idle)
          (note_if-Acts (env.has_start s && (p.streams s).running) r (started s) (λ i. refl)))
