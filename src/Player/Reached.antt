-- ===== src/Player/Reached.antt =====
-- Every step of a thread keeps what holds of the streams.
use mathlib.Core.Path.{subst}
use tcvp.Prelude.{
  ℕ, zero, suc, ◌≡◌, refl, ap, sym, ◌∙◌, arith, Bool, true, false, ◌&&◌, Option, none, some, ltb,
  List,
}
use tcvp.Prelude.Int.{pos}
use tcvp.Player.State.{
  up, down, same_int, Packet, SpStream, Player, Env, Effect, started, stopped, timer_start,
  timer_stop,
}
use tcvp.Player.Sound.{is_waiting, has_list, is_sane, IsSound, pointwise-Sound}
use tcvp.Player.Kept.{note_if-IsSound, begin_wait-IsSound, end_wait-IsSound}
use tcvp.Player.Reading.{flush_all, end_of_file, stop_reading, ended_stream, end_all, ended_list}
use tcvp.Player.Turns.{play_turn-IsSound}
use tcvp.Player.Received.{flush_stream-IsSound}
use tcvp.Player.Invariant.{IsKept, if-has, do_data_packet-IsKept}
use tcvp.Player.Control.{
  note_each, set_running, plays, s_start, s_started, s_stop, s_stopped, s_free, s_flush,
}
use tcvp.Player.Steps.{
  Step, waits, wakes, turns, reads, flushes, flushes_all, times, ends, quits, starts, started_up,
  stops, stopped_now, frees,
}

flush_all-IsSound :
    (env : Env) (n : ℕ) (drop : Bool) (p : Player) → IsSound p → IsSound (flush_all env n drop p)
unfolding flush_all
flush_all-IsSound env zero drop p sound = sound
flush_all-IsSound env (suc n) drop p sound =
    flush_stream-IsSound env n drop (flush_all env n drop p) (flush_all-IsSound env n drop p sound)

note_each-IsSound :
    (who : ℕ → Bool) (e : ℕ → Effect) (n : ℕ) (p : Player)
    → IsSound p
    → IsSound (note_each who e n p)
unfolding note_each
note_each-IsSound who e zero p sound = sound
note_each-IsSound who e (suc n) p sound =
    note_if-IsSound (who n) (e n) (note_each who e n p) (note_each-IsSound who e n p sound)

-- A change of every stream below a bound, in what does not count.
module _ (p : Player) (sound : IsSound p) where
  set_running-IsSound :
      (b : Bool) (n : ℕ) → IsSound (record p { streams = set_running b n p.streams })
  set_running-IsSound b n =
      pointwise-Sound sound (set_running b n p.streams)
        (λ i.
          if-has (λ (x : SpStream). is_sane x ≡ true) (ltb i n) _ _ (λ e. sound.sane i)
            (λ e. sound.sane i))
        (λ i.
          if-has (λ (x : SpStream). x.opened ≡ (p.streams i).opened) (ltb i n) _ _ (λ e. refl)
            (λ e. refl))
        (λ i.
          if-has (λ (x : SpStream). is_waiting x.th ≡ is_waiting (p.streams i).th) (ltb i n) _ _
            (λ e. refl) (λ e. refl))

  ended-is_sane :
      (i : ℕ) (l : Option (List (Option Packet)))
      → (p.streams i).packets ≡ l
      → is_sane (ended_stream (p.streams i)) ≡ true
  ended-is_sane i none e =
      let same : ended_list (p.streams i).packets ≡ none = ap ended_list e in
      let listed : has_list (ended_list (p.streams i).packets) ≡ has_list (p.streams i).packets =
        ap has_list same ∙ sym (ap has_list e) in
      let old = sound.sane i in ground (arith, old, listed)
  ended-is_sane i (some pks) e =
      let listed : has_list (ended_list (p.streams i).packets) ≡ true =
        ap (λ x. has_list (ended_list x)) e in
      let old = sound.sane i in ground (arith, old, listed)

  end_of_file-IsSound : IsSound (end_of_file p)
  unfolding end_of_file
  end_of_file-IsSound =
      pointwise-Sound sound (end_all p.nstreams p.streams)
        (λ i.
          if-has (λ (x : SpStream). is_sane x ≡ true) (ltb i p.nstreams) _ _
            (λ e. ended-is_sane i (p.streams i).packets refl) (λ e. sound.sane i))
        (λ i.
          if-has (λ (x : SpStream). x.opened ≡ (p.streams i).opened) (ltb i p.nstreams) _ _
            (λ e. refl) (λ e. refl))
        (λ i.
          if-has (λ (x : SpStream). is_waiting x.th ≡ is_waiting (p.streams i).th)
            (ltb i p.nstreams) _ _ (λ e. refl) (λ e. refl))

module _ (env : Env) where
  s_started-IsSound : (p : Player) → IsSound p → IsSound (s_started env p)
  unfolding s_started
  s_started-IsSound p sound =
      let who : (ℕ → Bool) = λ i. plays p.streams i && env.has_start i in
      let q = note_each who started p.nstreams p in
      let r = record q {
        streams = set_running true p.nstreams q.streams;
        shared = record q.shared { nready = up q.shared.nready };
      } in
      note_if-IsSound (same_int r.shared.nready r.shared.players) timer_start r
        (set_running-IsSound q (note_each-IsSound who started p.nstreams p sound) true p.nstreams)

  s_stopped-IsSound : (p : Player) → IsSound p → IsSound (s_stopped env p)
  unfolding s_stopped
  s_stopped-IsSound p sound =
      let who : (ℕ → Bool) = λ i. plays p.streams i && env.has_stop i in
      let q = note_each who stopped p.nstreams p in
      let r = record q {
        streams = set_running false p.nstreams q.streams;
        shared = record q.shared { nready = down q.shared.nready };
      } in
      note_if-IsSound (same_int r.shared.nready (pos 0)) timer_stop r
        (set_running-IsSound q (note_each-IsSound who stopped p.nstreams p sound) false p.nstreams)

  pub Step-IsSound : {p q : Player} → Step env p q → IsSound p → IsSound q
  unfolding s_flush s_start s_stop s_free stop_reading
  Step-IsSound (waits p s e) sound = begin_wait-IsSound p sound s e
  Step-IsSound (wakes p s e) sound = end_wait-IsSound p sound s e
  Step-IsSound (turns p s a e) sound = play_turn-IsSound env s a p sound e
  Step-IsSound (reads p q s a pk r e) sound =
      subst IsKept e (do_data_packet-IsKept env s a pk p sound)
  Step-IsSound (flushes p s drop r h) sound = flush_stream-IsSound env s drop p sound
  Step-IsSound (flushes_all p drop) sound = flush_all-IsSound env p.nstreams drop p sound
  Step-IsSound (times p t e) sound = sound
  Step-IsSound (ends p r) sound = end_of_file-IsSound p sound
  Step-IsSound (quits p r e) sound = sound
  Step-IsSound (starts p) sound = sound
  Step-IsSound (started_up p h) sound = s_started-IsSound p sound
  Step-IsSound (stops p) sound = sound
  Step-IsSound (stopped_now p h) sound = s_stopped-IsSound p sound
  Step-IsSound (frees p) sound = sound
