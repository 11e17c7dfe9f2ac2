-- ===== src/Player/Invariant.antt =====
-- What holds of every player that is reached.
use mathlib.Core.Path.{subst}
use tcvp.Prelude.{
  ℕ, suc, ◌+◌, ◌<◌, ◌≡◌, refl, ap, sym, ◌∙◌, arith, Bool, true, false, not, ◌||◌, Option, none,
  some, ltb, leb, if◌then◌else◌, update, ◌&&◌,
}
use tcvp.Player.State.{
  Packet, Probe, probe_none, probe_ok, probe_fail, probe_again, probe_discard, SpStream, Player,
  Env, zeroed, Outcome, undefined_behaviour, done,
}
use tcvp.Player.Streams.{
  any_thread, is_ok, use_stream, add_stream, open_stream, fresh_stream, grow_arrays, with_number,
}
use tcvp.Player.Sound.{
  is_playing, is_waiting, one, IsSound, replace-Sound, grown-Sound, update-here,
}
use tcvp.Player.Kept.{del_stream-IsSound}
use tcvp.Player.Reading.{
  check_time, after_probe, probe_packet, handle_probe, packet_of, is_new, after_add, do_data_packet,
}
use tcvp.Player.Received.{after_probe-IsSound, push_packet-IsSound, check_time-IsSound}

-- Where a function ends, it keeps what holds.
abbrev pub IsKept : Outcome Player → Type 0
IsKept undefined_behaviour = Unit
IsKept (done p) = IsSound p

-- Both branches have a property.
pub if-has :
    {A : Type 0} (P : A → Type 0) (b : Bool) (x y : A)
    → (b ≡ true → P x)
    → (b ≡ false → P y)
    → P (if b then x else y)
if-has P true x y f g = f refl
if-has P false x y f g = g refl

module _ (env : Env) (s : ℕ) where
  probe_packet-IsKept :
      (a : Probe) (pk : Option Packet) (p : Player)
      → IsSound p
      → is_ok (p.streams s).probe ≡ false
      → IsKept (probe_packet env s a pk p)
  probe_packet-IsKept a none p sound bad = _
  probe_packet-IsKept a (some pk) p sound bad =
      let old = sound.sane s in
      let still : is_playing (p.streams s).th ≡ false = ground (arith, old, bad) in
      if-has IsKept (p.streams s).opened (done (after_probe env s pk a p)) undefined_behaviour
        (λ o. after_probe-IsSound env s p sound o still pk a) (λ c. _)

  handle_probe-IsKept :
      (a now : Probe) (pk : Option Packet) (p : Player)
      → IsSound p
      → (p.streams s).probe ≡ now
      → IsKept (handle_probe env s a now pk p)
  handle_probe-IsKept a probe_again pk p sound e = probe_packet-IsKept a pk p sound (ap is_ok e)
  handle_probe-IsKept a probe_discard pk p sound e = probe_packet-IsKept a pk p sound (ap is_ok e)
  handle_probe-IsKept a probe_ok pk p sound e = push_packet-IsSound env s pk p sound
  handle_probe-IsKept a probe_fail pk p sound e = sound
  handle_probe-IsKept a probe_none pk p sound e = sound

  packet_of-IsKept :
      (a : Probe) (pk : Packet) (p : Player) → IsSound p → IsKept (packet_of env s a pk p)
  unfolding packet_of
  packet_of-IsKept a pk p sound =
      let t = check_time s pk p in
      handle_probe-IsKept a (t.1.streams s).probe t.0 t.1 (check_time-IsSound env s pk p sound) refl

  -- A stream that is not opened is as memset left it.
  abbrev pub IsAdded : Player × Bool → Type 0
  IsAdded (p, true) = IsSound p
  IsAdded (p, false) = IsSound p × (s < p.nstreams) × (p.streams s ≡ zeroed)

  open_stream-IsAdded :
      (sid : ℕ) (p : Player)
      → IsSound p
      → s < p.nstreams
      → p.streams s ≡ zeroed
      → IsAdded (open_stream env sid s p)
  open_stream-IsAdded sid p sound inside e =
      let shut : one (p.streams s).opened ≡ 0 = ap (λ (x : SpStream). one x.opened) e in
      let quiet : one (is_waiting (p.streams s).th) ≡ 0 =
        ap (λ (x : SpStream). one (is_waiting x.th)) e in
      let still : is_playing (p.streams s).th ≡ false = ap (λ (x : SpStream). is_playing x.th) e in
      if-has IsAdded (use_stream env p.shared sid s) _ _
        (λ u.
          if-has IsAdded (env.opens sid) _ _
            (λ o.
              replace-Sound sound s (fresh_stream (p.streams s)) (p.pstreams + 1) p.waiting inside
                (ground (arith, still)) (omega (arith, shut)) refl)
            (λ c. (sound, inside, e)))
        (λ u. (sound, inside, e))

if-true : {A : Type 0} (b : Bool) (x y : A) → b ≡ true → (if b then x else y) ≡ x
if-true true x y e = refl
if-true false x y e = ground (arith, e)

-- The next stream of the arrays.
module _ (env : Env) (p : Player) (sound : IsSound p) where
  abbrev enlarged : Player
  enlarged = record p { streams = update p.streams p.nstreams zeroed; nstreams = suc p.nstreams }

  new_stream-IsAdded :
      IsAdded env p.nstreams (
        open_stream env p.shared.sid p.nstreams (with_number p.nstreams (grow_arrays p.nstreams p)))
  new_stream-IsAdded =
      let i = p.shared.sid in
      let g : grow_arrays p.nstreams p ≡ enlarged =
        if-true (leb p.nstreams p.nstreams) enlarged p (ground arith) in
      subst
        (λ (q : Player).
          IsAdded env p.nstreams (open_stream env i p.nstreams (with_number p.nstreams q)))
        (sym g)
        (open_stream-IsAdded env p.nstreams i (with_number p.nstreams enlarged)
          (grown-Sound sound i) (omega arith) (update-here p.streams p.nstreams zeroed))

abbrev pub IsAddedOutcome : Env → ℕ → Outcome (Player × Bool) → Type 0
IsAddedOutcome env s undefined_behaviour = Unit
IsAddedOutcome env s (done r) = IsAdded env s r

module _ (env : Env) (s : ℕ) where
  pub add_stream-IsAdded :
      (p : Player) → IsSound p → (s < p.nstreams → ⊥) → IsAddedOutcome env s (add_stream env s p)
  unfolding add_stream
  add_stream-IsAdded p sound new =
      if-has (IsAddedOutcome env s)
        (ltb p.nstreams s
          || (leb p.nstreams s && any_thread p.streams p.nstreams)
          || not (ltb s 64))
        undefined_behaviour
        (done (open_stream env p.shared.sid s (with_number s (grow_arrays s p)))) (λ e. _)
        (λ e.
          let here : p.nstreams ≡ s = ground (arith, e, new) in
          subst
            (λ (x : ℕ).
              IsAdded env x (open_stream env p.shared.sid x (with_number x (grow_arrays x p))))
            here (new_stream-IsAdded env p sound))

  after_add-IsKept :
      (a : Probe) (pk : Packet) (r : Outcome (Player × Bool))
      → IsAddedOutcome env s r
      → IsKept (after_add env s a pk r)
  after_add-IsKept a pk undefined_behaviour h = _
  after_add-IsKept a pk (done (p, true)) h = packet_of-IsKept env s a pk p h
  after_add-IsKept a pk (done (p, false)) h =
      del_stream-IsSound p h.0 s h.1 (ap (λ (x : SpStream). is_playing x.th) h.2) env
        (ap (λ (x : SpStream). x.owned) h.2 ∙ sym (ap (λ (x : SpStream). x.opened) h.2))

  is_new-above : (p : Player) → IsSound p → is_new s p ≡ true → s < p.nstreams → ⊥
  is_new-above p sound e inside =
      let named = sound.named s inside in
      let low : leb p.nstreams s ≡ false = ground (arith, inside) in ground (arith, e, named, low)

  pub do_data_packet-IsKept :
      (a : Probe) (pk : Packet) (p : Player) → IsSound p → IsKept (do_data_packet env s a pk p)
  unfolding do_data_packet
  do_data_packet-IsKept a pk p sound =
      if-has IsKept (is_new s p) (after_add env s a pk (add_stream env s p))
        (packet_of env s a pk p)
        (λ e.
          after_add-IsKept a pk (add_stream env s p)
            (add_stream-IsAdded p sound (is_new-above p sound e)))
        (λ e. packet_of-IsKept env s a pk p sound)
