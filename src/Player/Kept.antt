-- ===== src/Player/Kept.antt =====
-- The operations on one stream keep what holds of the streams.
use mathlib.Core.Path.{subst}
use tcvp.Prelude.{
  ℕ, ◌+◌, ◌-◌, ◌<◌, ◌≤◌, ◌≡◌, refl, ap, sym, ◌∙◌, arith, Bool, true, false, not, ◌||◌, ◌&&◌, Option,
  some, ◌==◌, if◌then◌else◌, Bool-cases, inl, inr, List,
}
use tcvp.Prelude.Int.{pos}
use tcvp.Player.State.{
  down, same_int, set_stream, Packet, Thread, absent, idle, waiting, ready, over, SpStream, Player,
  Env, Effect, note, note_if, stop, state_end, state_error,
}
use tcvp.Player.Streams.{is_ok, del_stream, closed, closed_stream, count_down}
use tcvp.Player.Threads.{begin_wait, end_wait, must_wait, set_thread}
use tcvp.Player.Sound.{
  is_playing, is_waiting, has_list, is_sane, one, tally-pos, Sound, IsSound, replace-Sound,
  same-Sound,
}

pub note_if-IsSound : (b : Bool) (e : Effect) (p : Player) → IsSound p → IsSound (note_if b e p)
note_if-IsSound true e p h = h
note_if-IsSound false e p h = h

-- Both branches keep it.
pub if-IsSound :
    (b : Bool) (x y : Player)
    → (b ≡ true → IsSound x)
    → (b ≡ false → IsSound y)
    → IsSound (if b then x else y)
if-IsSound true x y f g = f refl
if-IsSound false x y f g = g refl

pub is_waiting-playing : (th : Thread) → is_playing th ≡ false → is_waiting th ≡ false
is_waiting-playing absent h = refl
is_waiting-playing idle h = ground (arith, h)
is_waiting-playing waiting h = ground (arith, h)
is_waiting-playing ready h = ground (arith, h)
is_waiting-playing over h = refl

-- What is so of a stream that plays.
pub record IsPlaying (str : SpStream) : Type 0 where
  pub is_open : str.opened ≡ true
  pub is_probed : is_ok str.probe ≡ true
  pub is_owned : str.owned ≡ true
  pub is_listed : has_list str.packets ≡ true

pub is_sane-IsPlaying :
    (str : SpStream) → is_sane str ≡ true → is_playing str.th ≡ true → IsPlaying str
is_sane-IsPlaying str sane t = record {
  is_open = ground (arith, sane, t);
  is_probed = ground (arith, sane, t);
  is_owned = ground (arith, sane, t);
  is_listed = ground (arith, sane, t);
}

recount :
    {st : ℕ → SpStream} {sm : ℕ → Option ℕ} {n ps qs w : ℕ}
    → ps ≡ qs
    → Sound st sm n ps w
    → Sound st sm n qs w
recount {st} {sm} {n} {ps} {qs} {w} e h = subst (λ (x : ℕ). Sound st sm n x w) e h

count_down-IsSound :
    (q : Player) (ps : ℕ)
    → Sound q.streams q.smap q.nstreams ps q.waiting
    → ps + 1 ≡ q.pstreams
    → IsSound (count_down q)
count_down-IsSound q ps h e = elim (Bool-cases (q.pstreams == 1)) [
  | inl o ↦ rw o (
      note_if-IsSound (same_int (down q.shared.players) (pos 0)) state_end
        (record q {
          pstreams = 0;
          state = stop;
          shared = record q.shared { players = down q.shared.players };
        })
        (recount (ground (arith, e, o)) h))
  | inr m ↦ rw m (recount (omega (arith, e)) h)
]

sane_of :
    (b : Bool) {str : SpStream}
    → IsPlaying str
    → (not b || (str.opened && is_ok str.probe))
        && (not str.opened || (str.owned && has_list str.packets))
      ≡ true
sane_of b now = ground (arith, now.is_open, now.is_probed, now.is_owned, now.is_listed)

module _ (p : Player) (sound : IsSound p) (s : ℕ) where
  -- A thread goes on to another place.
  pub thread-IsSound :
      (th : Thread) (w : ℕ)
      → is_playing (p.streams s).th ≡ true
      → w + one (is_waiting (p.streams s).th) ≡ p.waiting + one (is_waiting th)
      → IsSound (record (set_thread th s p) { waiting = w })
  thread-IsSound th w t hw =
      let now = is_sane-IsPlaying (p.streams s) (sound.sane s) t in
      replace-Sound sound s (record (p.streams s) { th = th }) p.pstreams w
        (sound.inside s now.is_open) (sane_of (is_playing th) now) refl hw

  pub begin_wait-IsSound : (p.streams s).th ≡ idle → IsSound (begin_wait s p)
  unfolding begin_wait
  begin_wait-IsSound e =
      let t : is_playing (p.streams s).th ≡ true = ap is_playing e in
      let n : one (is_waiting (p.streams s).th) ≡ 0 = ap (λ x. one (is_waiting x)) e in
      elim (Bool-cases (must_wait s p)) [
        | inl m ↦ rw m (thread-IsSound waiting (p.waiting + 1) t (omega (arith, n)))
        | inr m ↦ rw m (thread-IsSound ready p.waiting t (omega (arith, n)))
      ]

  pub end_wait-IsSound : (p.streams s).th ≡ waiting → IsSound (end_wait s p)
  unfolding end_wait
  end_wait-IsSound e =
      let t : is_playing (p.streams s).th ≡ true = ap is_playing e in
      let n : one (is_waiting (p.streams s).th) ≡ 1 = ap (λ x. one (is_waiting x)) e in
      let now = is_sane-IsPlaying (p.streams s) (sound.sane s) t in
      let some_wait : 1 ≤ p.waiting = omega (
        arith,
        sound.waiting_all,
        tally-pos (λ i. is_waiting (p.streams i).th) s p.nstreams (ap is_waiting e)
            (sound.inside s now.is_open),
      ) in
      elim (Bool-cases (must_wait s p)) [
        | inl m ↦ rw m sound
        | inr m ↦ rw m (thread-IsSound ready (p.waiting - 1) t (omega (arith, n, some_wait)))
      ]

  -- A stream is closed whose thread is not in its loop: it has a pipe, or never had a player.
  module _ (inside : s < p.nstreams) (still : is_playing (p.streams s).th ≡ false) where
    closed-Sound :
        (ps : ℕ)
        → ps + one (p.streams s).opened ≡ p.pstreams
        → IsSound (record (closed s p) { pstreams = ps })
    closed-Sound ps h =
        let quiet = ap one (is_waiting-playing (p.streams s).th still) in
        replace-Sound sound s (closed_stream (p.streams s)) ps p.waiting inside
          (ground (arith, still)) (omega (arith, h)) refl

    closed-counted :
        (b : Bool) (e : Effect)
        → (p.streams s).opened ≡ true
        → IsSound (count_down (note_if b e (closed s p)))
    closed-counted true e o =
        let c = ap one o in
        let some_open : 1 ≤ p.pstreams =
          omega
            (arith, sound.open_all, tally-pos (λ i. (p.streams i).opened) s p.nstreams o inside) in
        count_down-IsSound (note e (closed s p)) (p.pstreams - 1)
          (closed-Sound (p.pstreams - 1) (omega (arith, c, some_open))) (omega (arith, some_open))
    closed-counted false e o =
        let c = ap one o in
        let some_open : 1 ≤ p.pstreams =
          omega
            (arith, sound.open_all, tally-pos (λ i. (p.streams i).opened) s p.nstreams o inside) in
        count_down-IsSound (closed s p) (p.pstreams - 1)
          (closed-Sound (p.pstreams - 1) (omega (arith, c, some_open))) (omega (arith, some_open))

    -- The stream has a pipe just if it has a player.
    pub del_stream-IsSound :
        (env : Env) → (p.streams s).owned ≡ (p.streams s).opened → IsSound (del_stream env s p)
    unfolding del_stream
    del_stream-IsSound env same =
        let b = p.fail == env.n_streams in
        if-IsSound (p.streams s).owned (count_down (note_if b state_error (closed s p)))
          (note_if b state_error (closed s p)) (λ o. closed-counted b state_error (sym same ∙ o))
          (λ o.
            let shut = ap one (sym same ∙ o) in
            note_if-IsSound b state_error (closed s p)
              (closed-Sound p.pstreams (omega (arith, shut))))

-- Another list of packets, and other times.
pub relist-IsSound :
    (p : Player) (s : ℕ) (l : List (Option Packet)) (tail head : ℕ)
    → IsSound p
    → has_list (p.streams s).packets ≡ true
    → IsSound (
        set_stream s
          (record (p.streams s) { packets = some l; tailtime = tail; headtime = head })
          p)
relist-IsSound p s l tail head sound listed =
    let old = sound.sane s in
    same-Sound sound s (record (p.streams s) { packets = some l; tailtime = tail; headtime = head })
      (ground (arith, old, listed)) refl refl
