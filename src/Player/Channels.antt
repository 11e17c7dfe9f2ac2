-- ===== src/Player/Channels.antt =====
-- What the threads that play do to the channels.
use mathlib.Core.Path.{subst}
use mathlib.Core.List.{append-nil}
use tcvp.Prelude.{
  ℕ, ◌+◌, ◌-◌, ◌≡◌, refl, ap, sym, ◌∙◌, arith, Bool, Option, none, some, ◌==◌, Bool-cases, inl, inr,
  List, [], ◌∷◌, ◌++◌,
}
use tcvp.Prelude.Int.{pos}
use tcvp.Player.State.{
  down, same_int, Packet, Player, Env, Thread, idle, waiting, ready, over, state_end, state_error,
  started, flushed, fed, note, note_if, stop,
}
use tcvp.Player.Streams.{del_stream, closed, closed_stream, count_down, last_stream}
use tcvp.Player.Threads.{
  begin_wait, end_wait, must_wait, play_turn, end_stream, set_thread, input, play_list, shifted,
  shift_list, is_stop, tail_of,
}
use tcvp.Player.Invariant.{if-has}
use tcvp.Player.Channel.{
  Moves, stays, takes, takes_null, closes, fed_to, fed_to-append, Acts, Acts-refl, Acts-trans,
  set_stream-Acts, note-Acts, note_if-Acts, fed-Acts,
}

pub set_thread-Acts : (p : Player) (s : ℕ) (th : Thread) → Acts p (set_thread th s p)
set_thread-Acts p s th = set_stream-Acts p s (record (p.streams s) { th = th }) (λ o. stays)

count_down-Acts : (p : Player) → Acts p (count_down p)
count_down-Acts p =
    if-has (Acts p) (p.pstreams == 1) (last_stream p) (record p { pstreams = p.pstreams - 1 })
      (λ e.
        note_if-Acts (same_int (down p.shared.players) (pos 0))
          (record p {
            pstreams = 0;
            state = stop;
            shared = record p.shared { players = down p.shared.players };
          })
          state_end (λ i. refl))
      (λ e. Acts-refl p)

module _ (env : Env) (s : ℕ) where
  closed-Acts : (p : Player) → Acts p (closed s p)
  closed-Acts p = set_stream-Acts p s (closed_stream (p.streams s)) (λ o. closes stays)

  pub del_stream-Acts : (p : Player) → Acts p (del_stream env s p)
  unfolding del_stream
  del_stream-Acts p =
      let b = p.fail == env.n_streams in
      let q = note_if b state_error (closed s p) in
      let first : Acts p q =
        Acts-trans p (closed s p) q (closed-Acts p)
          (note_if-Acts b (closed s p) state_error (λ i. refl)) in
      if-has (Acts p) (p.streams s).owned (count_down q) q
        (λ o. Acts-trans p q (count_down q) first (count_down-Acts q)) (λ o. first)

  end_stream-Acts : (p : Player) → Acts p (end_stream env s p)
  unfolding end_stream
  end_stream-Acts p =
      let q = note_if (env.has_start s) (started s) p in
      let u = note (flushed s (is_stop q.state)) q in
      let r = note (fed s none) u in
      let v = set_thread over s r in
      Acts-trans p q (del_stream env s v) (note_if-Acts (env.has_start s) p (started s) (λ i. refl))
        (Acts-trans q u (del_stream env s v) (note-Acts q (flushed s (is_stop q.state)) (λ i. refl))
          (Acts-trans u r (del_stream env s v) (fed-Acts u s)
            (Acts-trans r v (del_stream env s v) (set_thread-Acts r s over) (del_stream-Acts v))))

  pub begin_wait-Acts : (p : Player) → Acts p (begin_wait s p)
  unfolding begin_wait
  begin_wait-Acts p =
      if-has (Acts p) (must_wait s p) (record (set_thread waiting s p) { waiting = p.waiting + 1 })
        (set_thread ready s p) (λ e. set_thread-Acts p s waiting) (λ e. set_thread-Acts p s ready)

  pub end_wait-Acts : (p : Player) → Acts p (end_wait s p)
  unfolding end_wait
  end_wait-Acts p =
      if-has (Acts p) (must_wait s p) p (record (set_thread ready s p) { waiting = p.waiting - 1 })
        (λ e. Acts-refl p) (λ e. set_thread-Acts p s ready)

  -- A packet goes from the list to the pipe.
  taken-Acts :
      (p : Player) (pk : Packet) (l : List (Option Packet))
      → (p.streams s).packets ≡ some (some pk ∷ l)
      → Acts p (note (fed s (some pk)) (shifted env s (some pk ∷ l) p))
  taken-Acts p pk l e i = rw (fed_to-append i p.log (fed s (some pk))) (elim (Bool-cases (i == s)) [
    | inl h ↦
        let q : s ≡ i = ground (arith, h) in
        let here : (p.streams i).packets ≡ some (some pk ∷ l) =
          ap (λ k. (p.streams k).packets) (sym q) ∙ e in
        let o = fed_to i p.log in
        let from : Moves ((p.streams i).packets, o) (some l, o ++ (some pk ∷ [])) =
          subst (λ (x : Option (List (Option Packet))). Moves (x, o) (some l, o ++ (some pk ∷ [])))
            (sym here) (takes pk stays) in
        rw h from
    | inr h ↦ rw (h, append-nil (fed_to i p.log)) stays
  ])

  dropped-Acts :
      (p : Player) (l : List (Option Packet))
      → ((o : List (Option Packet)) → Moves ((p.streams s).packets, o) (some (shift_list l).1, o))
      → Acts p (shifted env s l p)
  dropped-Acts p l h =
      set_stream-Acts p s
        (record (p.streams s) {
          packets = some (shift_list l).1;
          tailtime = tail_of (p.streams s).tailtime (shift_list l).0;
        })
        h

  ended-Acts :
      (p : Player) (l : List (Option Packet))
      → (p.streams s).packets ≡ some l
      → ((o : List (Option Packet)) → Moves (some l, o) (some (shift_list l).1, o))
      → Acts p (end_stream env s (shifted env s l p))
  ended-Acts p l e h =
      let q = shifted env s l p in
      Acts-trans p q (end_stream env s q)
        (dropped-Acts p l (λ o.
          subst (λ (x : Option (List (Option Packet))). Moves (x, o) (some (shift_list l).1, o))
            (sym e) (h o)))
        (end_stream-Acts q)

  played-Acts :
      (accepted : Bool) (p : Player) (l : List (Option Packet))
      → (p.streams s).packets ≡ some l
      → Acts p (input env s accepted (shift_list l).0 (shifted env s l p))
  played-Acts accepted p [] e = ended-Acts p [] e (λ o. stays)
  played-Acts accepted p (none ∷ l) e = ended-Acts p (none ∷ l) e (λ o. takes_null stays)
  played-Acts accepted p (some pk ∷ l) e =
      let q = note (fed s (some pk)) (shifted env s (some pk ∷ l) p) in
      if-has (Acts p) accepted (set_thread idle s q) (end_stream env s q)
        (λ a. Acts-trans p q (set_thread idle s q) (taken-Acts p pk l e) (set_thread-Acts q s idle))
        (λ a. Acts-trans p q (end_stream env s q) (taken-Acts p pk l e) (end_stream-Acts q))

  play_list-Acts :
      (accepted : Bool) (p : Player) (l : Option (List (Option Packet)))
      → (p.streams s).packets ≡ l
      → Acts p (play_list env s accepted l p)
  play_list-Acts accepted p none e = end_stream-Acts p
  play_list-Acts accepted p (some l) e = played-Acts accepted p l e

  pub play_turn-Acts : (accepted : Bool) (p : Player) → Acts p (play_turn env s accepted p)
  unfolding play_turn
  play_turn-Acts accepted p =
      if-has (Acts p) (is_stop p.state) (end_stream env s p)
        (play_list env s accepted (p.streams s).packets p) (λ e. end_stream-Acts p)
        (λ e. play_list-Acts accepted p (p.streams s).packets refl)
