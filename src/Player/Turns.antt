-- ===== src/Player/Turns.antt =====
-- A turn of the loop of play_stream, and its end, keep what holds of the streams.

use tcvp.Prelude.{ℕ, ◌≡◌, ap, sym, ◌∙◌, arith, Bool, true, false, Option, none, some, update, List}
use tcvp.Player.State.{
  Packet, idle, ready, over, SpStream, Player, Env, Effect, note, note_if, started, flushed, fed,
}
use tcvp.Player.Streams.{del_stream}
use tcvp.Player.Threads.{
  shift_list, tail_of, play_turn, end_stream, set_thread, input, play_list, shifted, is_stop,
}
use tcvp.Player.Sound.{is_playing, is_waiting, one, IsSound, update-here}
use tcvp.Player.Kept.{
  if-IsSound, del_stream-IsSound, is_sane-IsPlaying, thread-IsSound, relist-IsSound,
}

-- The end of a thread that is in its loop, but does not wait.
module _ (env : Env) (p : Player) (sound : IsSound p) (s : ℕ)
    (t : is_playing (p.streams s).th ≡ true) (awake : is_waiting (p.streams s).th ≡ false) where
  over-IsSound : IsSound (del_stream env s (set_thread over s p))
  over-IsSound =
      let now = is_sane-IsPlaying (p.streams s) (sound.sane s) t in
      let str = record (p.streams s) { th = over } in
      let up : update p.streams s str s ≡ str = update-here p.streams s str in
      let quiet = ap one awake in
      let ended : IsSound (set_thread over s p) =
        thread-IsSound p sound s over p.waiting t (omega (arith, quiet)) in
      del_stream-IsSound (set_thread over s p) ended s (sound.inside s now.is_open)
        (ap (λ (x : SpStream). is_playing x.th) up) env
        (ap (λ (x : SpStream). x.owned) up
          ∙ (now.is_owned ∙ sym now.is_open)
          ∙ sym (ap (λ (x : SpStream). x.opened) up))

module _ (env : Env) (s : ℕ) where
  note-IsSound :
      (b : Bool) (p : Player)
      → IsSound p
      → is_playing (p.streams s).th ≡ true
      → is_waiting (p.streams s).th ≡ false
      → IsSound (del_stream env s (set_thread over s (note (fed s none) (note (flushed s b) p))))
  note-IsSound b p sound t awake =
      over-IsSound env (note (fed s none) (note (flushed s b) p)) sound s t awake

  begun-IsSound :
      (c : Bool) (e : Effect) (p : Player)
      → IsSound p
      → is_playing (p.streams s).th ≡ true
      → is_waiting (p.streams s).th ≡ false
      → IsSound (
          del_stream env s (
            set_thread over s (
              note
                (fed s none)
                (note (flushed s (is_stop (note_if c e p).state)) (note_if c e p)))))
  begun-IsSound true e p sound t awake = note-IsSound (is_stop p.state) (note e p) sound t awake
  begun-IsSound false e p sound t awake = note-IsSound (is_stop p.state) p sound t awake

  pub end_stream-IsSound :
      (p : Player)
      → IsSound p
      → is_playing (p.streams s).th ≡ true
      → is_waiting (p.streams s).th ≡ false
      → IsSound (end_stream env s p)
  unfolding end_stream
  end_stream-IsSound p sound t awake = begun-IsSound (env.has_start s) (started s) p sound t awake

  input-IsSound :
      (accepted : Bool) (pk : Option Packet) (p : Player)
      → IsSound p
      → is_playing (p.streams s).th ≡ true
      → is_waiting (p.streams s).th ≡ false
      → IsSound (input env s accepted pk p)
  input-IsSound accepted none p sound t awake = end_stream-IsSound p sound t awake
  input-IsSound accepted (some pk) p sound t awake =
      let q = note (fed s (some pk)) p in
      let quiet = ap one awake in
      if-IsSound accepted (set_thread idle s q) (end_stream env s q)
        (λ a. thread-IsSound q sound s idle q.waiting t (omega (arith, quiet)))
        (λ a. end_stream-IsSound q sound t awake)

  -- A turn of a thread whose wait is over.
  play_list-IsSound :
      (accepted : Bool) (l : Option (List (Option Packet))) (p : Player)
      → IsSound p
      → is_playing (p.streams s).th ≡ true
      → is_waiting (p.streams s).th ≡ false
      → IsSound (play_list env s accepted l p)
  play_list-IsSound accepted none p sound t awake = end_stream-IsSound p sound t awake
  play_list-IsSound accepted (some pks) p sound t awake =
      let now = is_sane-IsPlaying (p.streams s) (sound.sane s) t in
      let q = shifted env s pks p in
      let str = record (p.streams s) {
        packets = some (shift_list pks).1;
        tailtime = tail_of (p.streams s).tailtime (shift_list pks).0;
      } in
      let up : q.streams s ≡ str = update-here p.streams s str in
      let kept : IsSound q =
        relist-IsSound p s (shift_list pks).1 (tail_of (p.streams s).tailtime (shift_list pks).0)
          (p.streams s).headtime sound now.is_listed in
      input-IsSound accepted (shift_list pks).0 q kept
        (ap (λ (x : SpStream). is_playing x.th) up ∙ t)
        (ap (λ (x : SpStream). is_waiting x.th) up ∙ awake)

  pub play_turn-IsSound :
      (accepted : Bool) (p : Player)
      → IsSound p
      → (p.streams s).th ≡ ready
      → IsSound (play_turn env s accepted p)
  unfolding play_turn
  play_turn-IsSound accepted p sound e =
      let t : is_playing (p.streams s).th ≡ true = ap is_playing e in
      let awake : is_waiting (p.streams s).th ≡ false = ap is_waiting e in
      if-IsSound (is_stop p.state) (end_stream env s p)
        (play_list env s accepted (p.streams s).packets p) (λ b. end_stream-IsSound p sound t awake)
        (λ b. play_list-IsSound accepted (p.streams s).packets p sound t awake)
