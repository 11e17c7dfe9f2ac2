-- ===== src/Player/Comes.antt =====
-- A packet that is read for a stream that plays is not lost.

use mathlib.Core.List.{append_assoc, append-nil}
use tcvp.Prelude.{
  ℕ, ◌≡◌, refl, sym, arith, true, false, Option, none, some, ltb, ◌==◌, List, [], ◌∷◌, ◌++◌,
}
use tcvp.Player.State.{Packet, Probe, probe_ok, Player, Env, timer_reset, note, never, done}
use tcvp.Player.Reading.{
  start_clock, timed, with_time, check_time, push_packet, handle_probe, packet_of, is_new,
  do_data_packet,
}
use tcvp.Player.Invariant.{if-has}
use tcvp.Player.Channel.{channel, fed_to, fed_to-append}
use tcvp.Player.Content.{content, data_of, data_of-one}

module _ (env : Env) (s : ℕ) where
  -- The stream has a list and was probed, and its packets are `c`.
  abbrev Plays : List Packet → Player → Type 0
  Plays c p =
      ((p.streams s).probe ≡ probe_ok)
      × ((l : List (Option Packet)) × ((p.streams s).packets ≡ some l))
      × (content (channel s p) ≡ c)

  push_packet-content :
      (pk : Packet) (p : Player) (c : List Packet)
      → Plays c p
      → content (channel s (push_packet env s (some pk) p)) ≡ c ++ (pk ∷ [])
  unfolding push_packet
  push_packet-content pk p c (ok, (l, e), same) =
      let o = data_of (fed_to s p.log) in
      let now : o ++ data_of l ≡ c = rw e at same in
      let self : (s == s) ≡ true = ground arith in
      rw (e, self, data_of-one l pk, sym now, append_assoc o (data_of l) (pk ∷ [])) refl

  start_clock-Plays :
      (pts : ℕ) (p : Player) (c : List Packet) → Plays c p → Plays c (start_clock pts p)
  unfolding start_clock
  start_clock-Plays pts p c h =
      if-has (Plays c) (p.shared.starttime == never) _ p
        (λ e.
          let same : content (channel s (note (timer_reset pts) p)) ≡ c =
            rw (fed_to-append s p.log (timer_reset pts), append-nil (fed_to s p.log)) h.2 in
          (h.0, h.1, same))
        (λ e. h)

  timed-Plays :
      (pts : ℕ) (pk : Packet) (p : Player) (c : List Packet)
      → ltb p.shared.endtime pts ≡ false
      → Plays c p
      → ((timed s pts pk p).0 ≡ some pk) × Plays c (timed s pts pk p).1
  timed-Plays pts pk p c early h =
      let self : (s == s) ≡ true = ground arith in
      rw early (
        if-has (λ (r : Option Packet × Player). (r.0 ≡ some pk) × Plays c r.1)
          ((p.streams s).starttime == never) _ _ (λ e. rw self (refl, h)) (λ e. (refl, h)))

  handled-content :
      (a : Probe) (pk : Packet) (r : Option Packet × Player) (c : List Packet)
      → r.0 ≡ some pk
      → Plays c r.1
      → (q : Player) × (handle_probe env s a (r.1.streams s).probe r.0 r.1 ≡ done q)
        × (content (channel s q) ≡ c ++ (pk ∷ []))
  handled-content a pk (x, p) c e h =
      (push_packet env s (some pk) p, rw (h.0, e) refl, push_packet-content pk p c h)

  -- The packet is not behind the end time, which its own time may have just set.
  abbrev IsInTime : Option ℕ → Player → Type 0
  IsInTime none p = Unit
  IsInTime (some pts) p = ltb (start_clock pts p).shared.endtime pts ≡ false

  with_time-content :
      (a : Probe) (pk : Packet) (t : Option ℕ) (p : Player) (c : List Packet)
      → IsInTime t p
      → Plays c p
      → ((with_time s pk t p).0 ≡ some pk) × Plays c (with_time s pk t p).1
  with_time-content a pk none p c early h = (refl, h)
  with_time-content a pk (some pts) p c early h =
      timed-Plays pts pk (start_clock pts p) c early (start_clock-Plays pts p c h)

  -- A packet that is read for a stream that is not new, was probed and has a list, and whose time, if
  -- it has one, is not behind the end time, is not lost: reading it has a result, in which it stands
  -- behind all the packets of the stream that were given to the pipe or wait, and these are as before.
  pub do_data_packet-comes :
      (a : Probe) (pk : Packet) (p : Player) (l : List (Option Packet))
      → is_new s p ≡ false
      → (p.streams s).probe ≡ probe_ok
      → (p.streams s).packets ≡ some l
      → IsInTime pk.pts p
      → (q : Player) × (do_data_packet env s a pk p ≡ done q)
        × (content (channel s q) ≡ content (channel s p) ++ (pk ∷ []))
  unfolding do_data_packet packet_of check_time
  do_data_packet-comes a pk p l old ok e early =
      let c = content (channel s p) in
      let t = with_time-content a pk pk.pts p c early (ok, (l, e), refl) in
      rw old (handled-content a pk (with_time s pk pk.pts p) c t.0 t.1)
