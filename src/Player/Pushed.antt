-- ===== src/Player/Pushed.antt =====
-- A packet of data that is read: it comes to its own stream, behind all others, or to none.
use mathlib.Core.Path.{subst}
use mathlib.Core.List.{append_assoc, append-nil}
use mathlib.Core.List.Sublist as Sublist
use tcvp.Prelude.{
  ℕ, ◌+◌, ◌≡◌, refl, sym, ap, arith, ◌∙◌, Bool, true, false, ltb, Option, none, some, ◌==◌,
  if◌then◌else◌, Bool-cases, inl, inr, List, [], ◌∷◌, ◌++◌,
}
use tcvp.Player.State.{
  Packet, Probe, probe_none, probe_ok, probe_fail, probe_again, probe_discard, Player, Env, Outcome,
  undefined_behaviour, done, never,
}
use tcvp.Player.Streams.{del_stream, flush_stream, add_stream}
use tcvp.Player.Reading.{
  check_time, timed, with_time, start_clock, push_list, push_packet, pushed_stream, begin_playing,
  probed, given_up, after_probe, probe_packet, handle_probe, packet_of, is_new, after_add,
  do_data_packet,
}
use tcvp.Player.Invariant.{if-has}
use tcvp.Player.Channel.{channel, puts_null, stays, fed_to, Acts, Acts-refl, Acts-trans}
use tcvp.Player.Content.{
  content, data_of, data_of-one, Reads, Acts-Reads, Reads-trans, ReadsTo, ReadsTo-trans,
}
use tcvp.Player.Channels.{del_stream-Acts}
use tcvp.Player.Refined.{
  relist-Acts, flush_stream-Acts, check_time-Acts, probe-Acts, given_up-Acts, begin_playing-Acts,
}
use tcvp.Player.Added.{AddActsTo, add_stream-ActsTo}

module _ (env : Env) (s : ℕ) where
  push_null-Acts :
      (p : Player) (l : Option (List (Option Packet)))
      → (p.streams s).packets ≡ l
      → Acts p (push_list env s none l p)
  push_null-Acts p none e = Acts-refl p
  push_null-Acts p (some l) e =
      relist-Acts p s l (pushed_stream none l (p.streams s)) e (λ o. puts_null stays)

  push_list-Reads :
      (pk : Packet) (p : Player) (l : Option (List (Option Packet)))
      → (p.streams s).packets ≡ l
      → Reads s pk p (push_list env s (some pk) l p)
  push_list-Reads pk p none e i = Acts-Reads s pk p p (Acts-refl p) i
  push_list-Reads pk p (some l) e i = elim (Bool-cases (i == s)) [
    | inl h ↦
        let q : s ≡ i = ground (arith, h) in
        let here : (p.streams i).packets ≡ some l = ap (λ k. (p.streams k).packets) (sym q) ∙ e in
        let o = data_of (fed_to i p.log) in
        rw (h, data_of-one l pk, here, append_assoc o (data_of l) (pk ∷ []))
          (Sublist.refl (o ++ (data_of l ++ (pk ∷ []))))
    | inr h ↦ rw (h, append-nil (content (channel i p))) (Sublist.refl (content (channel i p)))
  ]

  push_packet-Reads : (pk : Packet) (p : Player) → Reads s pk p (push_packet env s (some pk) p)
  unfolding push_packet
  push_packet-Reads pk p = push_list-Reads pk p (p.streams s).packets refl

  -- The stream is given up, or goes on.
  goes_on-Reads :
      (pk : Packet) (p q r : Player)
      → Acts p q
      → Reads s pk q r
      → Reads s pk p (if ltb env.max_probe (p.streams s).nprobe then given_up env s q else r)
  goes_on-Reads pk p q r f g =
      if-has (Reads s pk p) (ltb env.max_probe (p.streams s).nprobe) (given_up env s q) r
        (λ e. Acts-Reads s pk p (given_up env s q) (given_up-Acts env s p q f))
        (λ e. Reads-trans s pk p q r f g)

  after_probe-Reads :
      (pk : Packet) (a : Probe) (p : Player) → Reads s pk p (after_probe env s pk a p)
  after_probe-Reads pk probe_fail p =
      Acts-Reads s pk p (after_probe env s pk probe_fail p)
        (given_up-Acts env s p _ (probe-Acts env s probe_fail (p.streams s).nprobe p))
  after_probe-Reads pk probe_ok p =
      let q = probed s probe_ok p in
      let r = begin_playing env s q in
      goes_on-Reads pk p q (push_packet env s (some pk) r)
        (probe-Acts env s probe_ok ((p.streams s).nprobe + 1) p)
        (Reads-trans s pk q r (push_packet env s (some pk) r) (begin_playing-Acts env s q)
          (push_packet-Reads pk r))
  after_probe-Reads pk probe_discard p =
      let q = probed s probe_discard p in
      goes_on-Reads pk p q (flush_stream env s true q)
        (probe-Acts env s probe_discard ((p.streams s).nprobe + 1) p)
        (Acts-Reads s pk q (flush_stream env s true q) (flush_stream-Acts env s true q))
  after_probe-Reads pk probe_again p =
      let q = probed s probe_again p in
      goes_on-Reads pk p q (push_packet env s (some pk) q)
        (probe-Acts env s probe_again ((p.streams s).nprobe + 1) p) (push_packet-Reads pk q)
  after_probe-Reads pk probe_none p =
      let q = probed s probe_none p in
      goes_on-Reads pk p q (push_packet env s (some pk) q)
        (probe-Acts env s probe_none ((p.streams s).nprobe + 1) p) (push_packet-Reads pk q)

  -- What is left of a packet behind `check_time`: it, or NULL.
  abbrev IsLeft : Packet → Option Packet → Type 0
  IsLeft pk none = Unit
  IsLeft pk (some x) = x ≡ pk

  timed-IsLeft : (pts : ℕ) (pk : Packet) (p : Player) → IsLeft pk (timed s pts pk p).0
  timed-IsLeft pts pk p =
      if-has (λ (r : Option Packet × Player). IsLeft pk r.0) (ltb p.shared.endtime pts) _ _ (λ e. _)
        (λ e.
          if-has (λ (r : Option Packet × Player). IsLeft pk r.0) ((p.streams s).starttime == never)
            _ _ (λ c. refl) (λ c. refl))

  with_time-IsLeft : (pk : Packet) (t : Option ℕ) (p : Player) → IsLeft pk (with_time s pk t p).0
  with_time-IsLeft pk none p = refl
  with_time-IsLeft pk (some pts) p = timed-IsLeft pts pk (start_clock pts p)

  check_time-IsLeft : (pk : Packet) (p : Player) → IsLeft pk (check_time s pk p).0
  unfolding check_time
  check_time-IsLeft pk p = with_time-IsLeft pk pk.pts p

  pushed-Reads :
      (pk : Packet) (x : Option Packet) (p : Player)
      → IsLeft pk x
      → Reads s pk p (push_packet env s x p)
  unfolding push_packet
  pushed-Reads pk none p h =
      Acts-Reads s pk p (push_packet env s none p) (push_null-Acts p (p.streams s).packets refl)
  pushed-Reads pk (some x) p h =
      subst (λ (y : Packet). Reads s y p (push_packet env s (some x) p)) h (push_packet-Reads x p)

  probe_packet-ReadsTo :
      (pk : Packet) (a : Probe) (x : Option Packet) (p : Player)
      → IsLeft pk x
      → ReadsTo s pk p (probe_packet env s a x p)
  probe_packet-ReadsTo pk a none p h = _
  probe_packet-ReadsTo pk a (some x) p h =
      if-has (ReadsTo s pk p) (p.streams s).opened (done (after_probe env s x a p))
        undefined_behaviour
        (λ o.
          subst (λ (y : Packet). Reads s y p (after_probe env s x a p)) h (after_probe-Reads x a p))
        (λ o. _)

  handle_probe-ReadsTo :
      (pk : Packet) (a now : Probe) (x : Option Packet) (p : Player)
      → IsLeft pk x
      → ReadsTo s pk p (handle_probe env s a now x p)
  handle_probe-ReadsTo pk a probe_again x p h = probe_packet-ReadsTo pk a x p h
  handle_probe-ReadsTo pk a probe_discard x p h = probe_packet-ReadsTo pk a x p h
  handle_probe-ReadsTo pk a probe_ok x p h = pushed-Reads pk x p h
  handle_probe-ReadsTo pk a probe_fail x p h = Acts-Reads s pk p p (Acts-refl p)
  handle_probe-ReadsTo pk a probe_none x p h = Acts-Reads s pk p p (Acts-refl p)

  packet_of-ReadsTo :
      (a : Probe) (pk : Packet) (p : Player) → ReadsTo s pk p (packet_of env s a pk p)
  unfolding packet_of
  packet_of-ReadsTo a pk p =
      let t = check_time s pk p in
      let r = handle_probe env s a (t.1.streams s).probe t.0 t.1 in
      ReadsTo-trans s pk p t.1 r (check_time-Acts env s pk p)
        (handle_probe-ReadsTo pk a (t.1.streams s).probe t.0 t.1 (check_time-IsLeft pk p))

  after_add-ReadsTo :
      (a : Probe) (pk : Packet) (p : Player) (r : Outcome (Player × Bool))
      → AddActsTo p r
      → ReadsTo s pk p (after_add env s a pk r)
  after_add-ReadsTo a pk p undefined_behaviour f = _
  after_add-ReadsTo a pk p (done (q, true)) f =
      ReadsTo-trans s pk p q (packet_of env s a pk q) f (packet_of-ReadsTo a pk q)
  after_add-ReadsTo a pk p (done (q, false)) f =
      Acts-Reads s pk p (del_stream env s q)
        (Acts-trans p q (del_stream env s q) f (del_stream-Acts env s q))

  pub do_data_packet-ReadsTo :
      (a : Probe) (pk : Packet) (p : Player) → ReadsTo s pk p (do_data_packet env s a pk p)
  unfolding do_data_packet
  do_data_packet-ReadsTo a pk p =
      if-has (ReadsTo s pk p) (is_new s p) (after_add env s a pk (add_stream env s p))
        (packet_of env s a pk p)
        (λ e. after_add-ReadsTo a pk p (add_stream env s p) (add_stream-ActsTo env s p))
        (λ e. packet_of-ReadsTo a pk p)
