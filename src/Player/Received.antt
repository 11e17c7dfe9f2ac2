-- ===== src/Player/Received.antt =====
-- What read_stream does keeps what holds of the streams.

use tcvp.Prelude.{
  ℕ, ◌+◌, ◌≡◌, refl, ap, sym, ◌∙◌, arith, Bool, true, false, ◌&&◌, Option, none, some, ltb, ◌==◌,
  if◌then◌else◌, update, Bool-cases, inl, inr, List, [], ◌∷◌, ◌++◌,
}
use tcvp.Player.State.{
  Packet, Probe, probe_none, probe_ok, probe_fail, probe_again, probe_discard, idle, SpStream,
  Player, Env, note, started, flushed, set_stream, load, timer_reset, never,
}
use tcvp.Player.Streams.{is_ok, flush_stream, flush_list, flushed_stream}
use tcvp.Player.Sound.{is_playing, has_list, IsSound, same-Sound, update-here}
use tcvp.Player.Kept.{
  is_waiting-playing, note_if-IsSound, if-IsSound, relist-IsSound, del_stream-IsSound,
}
use tcvp.Player.Reading.{
  start_clock, with_start, timed, with_time, push_list, check_time, push_packet, head_of,
  begin_playing, probed, given_up, after_probe,
}

module _ (env : Env) (s : ℕ) where
  flushed_stream-IsSound :
      (drop : Bool) (pks : List (Option Packet)) (p : Player)
      → IsSound p
      → has_list (p.streams s).packets ≡ true
      → IsSound (flushed_stream env s drop pks p)
  flushed_stream-IsSound drop pks p sound listed =
      note_if-IsSound (p.streams s).opened (flushed s drop) _ (
        relist-IsSound p s (if drop then [] else pks) (p.streams s).tailtime (p.streams s).headtime
          sound listed)

  flush_list-IsSound :
      (drop : Bool) (l : Option (List (Option Packet))) (p : Player)
      → IsSound p
      → (p.streams s).packets ≡ l
      → IsSound (flush_list env s drop l p)
  flush_list-IsSound drop none p sound e = sound
  flush_list-IsSound drop (some pks) p sound e =
      flushed_stream-IsSound drop pks p sound (ap has_list e)

  pub flush_stream-IsSound :
      (drop : Bool) (p : Player) → IsSound p → IsSound (flush_stream env s drop p)
  unfolding flush_stream
  flush_stream-IsSound drop p sound = flush_list-IsSound drop (p.streams s).packets p sound refl

  push_list-IsSound :
      (pk : Option Packet) (l : Option (List (Option Packet))) (p : Player)
      → IsSound p
      → (p.streams s).packets ≡ l
      → IsSound (push_list env s pk l p)
  push_list-IsSound pk none p sound e = sound
  push_list-IsSound pk (some pks) p sound e =
      relist-IsSound p s (pks ++ (pk ∷ [])) (p.streams s).tailtime
        (head_of (p.streams s).headtime pk) sound (ap has_list e)

  pub push_packet-IsSound :
      (pk : Option Packet) (p : Player) → IsSound p → IsSound (push_packet env s pk p)
  unfolding push_packet
  push_packet-IsSound pk p sound = push_list-IsSound pk (p.streams s).packets p sound refl

  start_clock-IsSound : (pts : ℕ) (p : Player) → IsSound p → IsSound (start_clock pts p)
  unfolding start_clock
  start_clock-IsSound pts p sound =
      if-IsSound (p.shared.starttime == never)
        (note (timer_reset pts) (record p { shared = with_start pts p.shared })) p (λ e. sound)
        (λ e. sound)

  timed-IsSound : (pts : ℕ) (pk : Packet) (p : Player) → IsSound p → IsSound (timed s pts pk p).1
  timed-IsSound pts pk p sound = elim (Bool-cases (ltb p.shared.endtime pts)) [
    | inl e ↦ rw e sound
    | inr e ↦ elim (Bool-cases ((p.streams s).starttime == never)) [
      | inl c ↦
          rw (e, c)
            (same-Sound sound s (record (p.streams s) { starttime = pts }) (sound.sane s) refl refl)
      | inr c ↦ rw (e, c) sound
    ]
  ]

  with_time-IsSound :
      (pk : Packet) (t : Option ℕ) (p : Player) → IsSound p → IsSound (with_time s pk t p).1
  with_time-IsSound pk none p sound = sound
  with_time-IsSound pk (some pts) p sound =
      timed-IsSound pts pk (start_clock pts p) (start_clock-IsSound pts p sound)

  pub check_time-IsSound : (pk : Packet) (p : Player) → IsSound p → IsSound (check_time s pk p).1
  unfolding check_time
  check_time-IsSound pk p sound = with_time-IsSound pk pk.pts p sound

  -- A stream whose probe goes on is deleted, or not, with the result of the probe.
  module _ (p : Player) (sound : IsSound p) (o : (p.streams s).opened ≡ true)
      (still : is_playing (p.streams s).th ≡ false) where
    probed_stream-IsSound :
        (a : Probe) (k : ℕ)
        → IsSound (set_stream s (record (p.streams s) { probe = a; nprobe = k }) p)
    probed_stream-IsSound a k =
        let old = sound.sane s in
        same-Sound sound s (record (p.streams s) { probe = a; nprobe = k })
          (ground (arith, old, o, still)) refl refl

    given_up-IsSound :
        (a : Probe) (k : ℕ)
        → IsSound (given_up env s (set_stream s (record (p.streams s) { probe = a; nprobe = k }) p))
    given_up-IsSound a k =
        let str = record (p.streams s) { probe = a; nprobe = k } in
        let up : update p.streams s str s ≡ str = update-here p.streams s str in
        let old = sound.sane s in
        let owned : (p.streams s).owned ≡ true = ground (arith, old, o) in
        let q = set_stream s str p in
        del_stream-IsSound (record q { fail = q.fail + 1 }) (probed_stream-IsSound a k) s
          (sound.inside s o) (ap (λ (x : SpStream). is_playing x.th) up ∙ still) env
          (ap (λ (x : SpStream). x.owned) up
            ∙ owned
            ∙ sym o
            ∙ sym (ap (λ (x : SpStream). x.opened) up))

    begin_playing-IsSound : is_ok (p.streams s).probe ≡ true → IsSound (begin_playing env s p)
    begin_playing-IsSound good =
        let old = sound.sane s in
        let str = record (p.streams s) { th = idle } in
        note_if-IsSound (env.has_start s && (p.streams s).running) (started s)
          (set_stream s str (note load p))
          (same-Sound sound s str (ground (arith, old, o, good)) refl
            (sym (is_waiting-playing (p.streams s).th still)))

  module _ (p : Player) (sound : IsSound p) (o : (p.streams s).opened ≡ true)
      (still : is_playing (p.streams s).th ≡ false) where
    begun-IsSound :
        (k : ℕ)
        → IsSound (
            begin_playing env s
              (set_stream s (record (p.streams s) { probe = probe_ok; nprobe = k }) p))
    begun-IsSound k =
        let str = record (p.streams s) { probe = probe_ok; nprobe = k } in
        let up : update p.streams s str s ≡ str = update-here p.streams s str in
        begin_playing-IsSound (set_stream s str p)
          (probed_stream-IsSound p sound o still probe_ok k)
          (ap (λ (x : SpStream). x.opened) up ∙ o)
          (ap (λ (x : SpStream). is_playing x.th) up ∙ still)
          (ap (λ (x : SpStream). is_ok x.probe) up)

    pub after_probe-IsSound : (pk : Packet) (a : Probe) → IsSound (after_probe env s pk a p)
    after_probe-IsSound pk probe_fail =
        given_up-IsSound p sound o still probe_fail (p.streams s).nprobe
    after_probe-IsSound pk probe_ok =
        let k = (p.streams s).nprobe + 1 in
        if-IsSound (ltb env.max_probe (p.streams s).nprobe) (given_up env s (probed s probe_ok p))
          (push_packet env s (some pk) (begin_playing env s (probed s probe_ok p)))
          (λ e. given_up-IsSound p sound o still probe_ok k)
          (λ e.
            push_packet-IsSound (some pk) (begin_playing env s (probed s probe_ok p))
              (begun-IsSound k))
    after_probe-IsSound pk probe_discard =
        let k = (p.streams s).nprobe + 1 in
        if-IsSound (ltb env.max_probe (p.streams s).nprobe)
          (given_up env s (probed s probe_discard p))
          (flush_stream env s true (probed s probe_discard p))
          (λ e. given_up-IsSound p sound o still probe_discard k)
          (λ e.
            flush_stream-IsSound true (probed s probe_discard p)
              (probed_stream-IsSound p sound o still probe_discard k))
    after_probe-IsSound pk probe_again =
        let k = (p.streams s).nprobe + 1 in
        if-IsSound (ltb env.max_probe (p.streams s).nprobe)
          (given_up env s (probed s probe_again p))
          (push_packet env s (some pk) (probed s probe_again p))
          (λ e. given_up-IsSound p sound o still probe_again k)
          (λ e.
            push_packet-IsSound (some pk) (probed s probe_again p)
              (probed_stream-IsSound p sound o still probe_again k))
    after_probe-IsSound pk probe_none =
        let k = (p.streams s).nprobe + 1 in
        if-IsSound (ltb env.max_probe (p.streams s).nprobe) (given_up env s (probed s probe_none p))
          (push_packet env s (some pk) (probed s probe_none p))
          (λ e. given_up-IsSound p sound o still probe_none k)
          (λ e.
            push_packet-IsSound (some pk) (probed s probe_none p)
              (probed_stream-IsSound p sound o still probe_none k))
