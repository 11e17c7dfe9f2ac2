-- ===== src/Player/InOrder.antt =====
-- Every packet that is read goes through its stream in order.
use mathlib.Core.Path.{subst}
use tcvp.Prelude.{
  ◌&&◌, ℕ, zero, suc, ◌≡◌, refl, Bool, true, false, ◌&&◌, ltb, Option, none, some, List, [], ◌++◌,
}
use tcvp.Prelude.Int.{pos}
use tcvp.Player.State.{
  up, down, same_int, Packet, SpStream, Player, Env, Shared, Effect, timer_reset, started, stopped,
  timer_start, timer_stop, note_if, done,
}
use tcvp.Player.Streams.{flush_stream}
use tcvp.Player.Reading.{ended_list, end_of_file, stop_reading, flush_all}
use tcvp.Player.Control.{
  note_each, set_running, plays, s_start, s_started, s_stop, s_stopped, s_free, s_flush, s_play,
  empty_player,
}
use tcvp.Player.Steps.{
  Step, Reach, made, then_step, waits, wakes, turns, reads, flushes, flushes_all, times, ends,
  quits, starts, started_up, stops, stopped_now, frees,
}
use tcvp.Player.Invariant.{if-has}
use tcvp.Player.Channel.{
  Moves, stays, puts_null, channel, fed_to, fed_by, Acts, Acts-refl, Acts-trans, note_if-Acts,
  note-Acts,
}
use mathlib.Core.List.{append-nil, Sublist}
use mathlib.Core.List.Sublist as Sublist
use tcvp.Player.Content.{content, data_of, came, Moves-Sublist, ReadsTo}
use tcvp.Player.Pushed.{do_data_packet-ReadsTo}
use tcvp.Player.Added.{MadeActs, s_play-MadeActs}
use tcvp.Player.Threads.{begin_wait, end_wait, play_turn}
use tcvp.Player.State.{note}
use tcvp.Player.Channels.{begin_wait-Acts, end_wait-Acts, play_turn-Acts}
use tcvp.Player.Refined.{flush_stream-Acts}

flush_all-Acts : (env : Env) (n : ℕ) (drop : Bool) (p : Player) → Acts p (flush_all env n drop p)
unfolding flush_all
flush_all-Acts env zero drop p = Acts-refl p
flush_all-Acts env (suc n) drop p =
    let q = flush_all env n drop p in
    Acts-trans p q (flush_stream env n drop q) (flush_all-Acts env n drop p)
      (flush_stream-Acts env n drop q)

note_each-Acts :
    (who : ℕ → Bool) (e : ℕ → Effect) (n : ℕ) (p : Player)
    → ((i k : ℕ) → fed_by i (e k) ≡ [])
    → Acts p (note_each who e n p)
unfolding note_each
note_each-Acts who e zero p h = Acts-refl p
note_each-Acts who e (suc n) p h =
    let q = note_each who e n p in
    Acts-trans p q (note_if (who n) (e n) q) (note_each-Acts who e n p h)
      (note_if-Acts (who n) q (e n) (λ i. h i n))

ended_list-Moves :
    (l : Option (List (Option Packet))) (o : List (Option Packet)) → Moves (l, o) (ended_list l, o)
ended_list-Moves none o = stays
ended_list-Moves (some l) o = puts_null stays

end_of_file-Acts : (p : Player) → Acts p (end_of_file p)
unfolding end_of_file
end_of_file-Acts p i =
    if-has (λ (x : SpStream). Moves (channel i p) (x.packets, fed_to i p.log)) (ltb i p.nstreams) _
      _ (λ e. ended_list-Moves (p.streams i).packets (fed_to i p.log)) (λ e. stays)

set_running-Acts :
    (b : Bool) (n : ℕ) (p : Player) → Acts p (record p { streams = set_running b n p.streams })
set_running-Acts b n p i =
    if-has (λ (x : SpStream). Moves (channel i p) (x.packets, fed_to i p.log)) (ltb i n) _ _
      (λ e. stays) (λ e. stays)

module _ (env : Env) where
  s_started-Acts : (p : Player) → Acts p (s_started env p)
  unfolding s_started
  s_started-Acts p =
      let who : (ℕ → Bool) = λ i. plays p.streams i && env.has_start i in
      let q = note_each who started p.nstreams p in
      let r = record q {
        streams = set_running true p.nstreams q.streams;
        shared = record q.shared { nready = up q.shared.nready };
      } in
      Acts-trans p q (s_started env p) (note_each-Acts who started p.nstreams p (λ i k. refl)) (
        Acts-trans q r (s_started env p) (set_running-Acts true p.nstreams q)
          (note_if-Acts (same_int r.shared.nready r.shared.players) r timer_start (λ i. refl)))

  s_stopped-Acts : (p : Player) → Acts p (s_stopped env p)
  unfolding s_stopped
  s_stopped-Acts p =
      let who : (ℕ → Bool) = λ i. plays p.streams i && env.has_stop i in
      let q = note_each who stopped p.nstreams p in
      let r = record q {
        streams = set_running false p.nstreams q.streams;
        shared = record q.shared { nready = down q.shared.nready };
      } in
      Acts-trans p q (s_stopped env p) (note_each-Acts who stopped p.nstreams p (λ i k. refl)) (
        Acts-trans q r (s_stopped env p) (set_running-Acts false p.nstreams q)
          (note_if-Acts (same_int r.shared.nready (pos 0)) r timer_stop (λ i. refl)))

  -- A step at which no packet is read.
  quiet :
      (i : ℕ) (p q : Player)
      → Acts p q
      → Sublist (content (channel i q)) (content (channel i p) ++ [])
  quiet i p q f = rw (append-nil (content (channel i p))) (Moves-Sublist (f i))

  -- The packets that a step reads for a stream, and those that were read on the way to a state.
  pub read_now : {p q : Player} → ℕ → Step env p q → List Packet
  read_now i (waits p s e) = []
  read_now i (wakes p s e) = []
  read_now i (turns p s a e) = []
  read_now i (reads p q s a pk r e) = came i s pk
  read_now i (flushes p s drop r h) = []
  read_now i (flushes_all p drop) = []
  read_now i (times p t e) = []
  read_now i (ends p r) = []
  read_now i (quits p r e) = []
  read_now i (starts p) = []
  read_now i (started_up p h) = []
  read_now i (stops p) = []
  read_now i (stopped_now p h) = []
  read_now i (frees p) = []

  unfoldable pub read_for : {p : Player} → ℕ → Reach env p → List Packet
  unfolding read_now
  read_for i (made p sh e) = []
  read_for i (then_step r t) = read_for i r ++ read_now i t

  Step-Sublist :
      {p q : Player} (i : ℕ) (t : Step env p q)
      → Sublist (content (channel i q)) (content (channel i p) ++ read_now i t)
  unfolding s_flush s_start s_stop s_free stop_reading read_now
  Step-Sublist i (waits p s e) = quiet i p (begin_wait s p) (begin_wait-Acts env s p)
  Step-Sublist i (wakes p s e) = quiet i p (end_wait s p) (end_wait-Acts env s p)
  Step-Sublist i (turns p s a e) = quiet i p (play_turn env s a p) (play_turn-Acts env s a p)
  Step-Sublist i (reads p q s a pk r e) =
      subst (ReadsTo s pk p) e (do_data_packet-ReadsTo env s a pk p) i
  Step-Sublist i (flushes p s drop r h) =
      quiet i p (flush_stream env s drop p) (flush_stream-Acts env s drop p)
  Step-Sublist i (flushes_all p drop) =
      quiet i p (flush_all env p.nstreams drop p) (flush_all-Acts env p.nstreams drop p)
  Step-Sublist i (times p t e) =
      quiet i p (note (timer_reset t) p) (note-Acts p (timer_reset t) (λ k. refl))
  Step-Sublist i (ends p r) = quiet i p (end_of_file p) (end_of_file-Acts p)
  Step-Sublist i (quits p r e) = quiet i p p (Acts-refl p)
  Step-Sublist i (starts p) = quiet i p p (Acts-refl p)
  Step-Sublist i (started_up p h) = quiet i p (s_started env p) (s_started-Acts p)
  Step-Sublist i (stops p) = quiet i p p (Acts-refl p)
  Step-Sublist i (stopped_now p h) = quiet i p (s_stopped env p) (s_stopped-Acts p)
  Step-Sublist i (frees p) = quiet i p p (Acts-refl p)

  -- The player that s_play makes has given nothing, and nothing waits.
  made-Sublist :
      (sh : Shared) (p : Player) (i : ℕ)
      → s_play env sh ≡ done (some p)
      → Sublist (content (channel i p)) []
  unfolding data_of fed_to
  made-Sublist sh p i e =
      Moves-Sublist (subst (MadeActs (empty_player sh)) e (s_play-MadeActs env sh) i)

  -- Whatever the threads do and in whatever order, short of undefined behaviour, from the player that
  -- s_play makes on: what the pipe of a stream was given, followed by what waits in the list of the
  -- stream, is a part of the packets that were read for it, in the order in which they were read,
  -- each at most as often as it was read; so no packet overtakes another, none comes twice, none
  -- comes to another stream, and none that was not read.
  pub Reach-InOrder :
      {p : Player} (i : ℕ) (r : Reach env p) → Sublist (content (channel i p)) (read_for i r)
  unfolding read_for
  Reach-InOrder i (made p sh e) = made-Sublist sh p i e
  Reach-InOrder {p = q} i (then_step {p = p} r t) =
      Sublist.trans (Step-Sublist i t)
        (Sublist.append (Reach-InOrder i r) (Sublist.refl (read_now i t)))
