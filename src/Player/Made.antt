-- ===== src/Player/Made.antt =====
-- The player that s_play makes, and what holds of all that are reached.
use mathlib.Core.Path.{subst}
use tcvp.Prelude.{
  ◌&&◌, leb, ℕ, zero, suc, ◌≤◌, ◌≡◌, refl, ap, sym, ◌∙◌, arith, Bool, true, false, not, ◌||◌,
  Option, none, some, ltb, leb, ◌==◌,
}
use tcvp.Prelude.Int.{pos}
use tcvp.Player.State.{
  down, same_int, SpStream, Player, Env, Outcome, undefined_behaviour, done, Shared, Effect,
  note_if, state_end, state_error,
}
use tcvp.Player.Streams.{
  any_thread, del_stream, add_stream, count_down, last_stream, closed, open_stream, grow_arrays,
  with_number, use_stream,
}
use tcvp.Player.Sound.{is_playing, tally, IsSound}
use tcvp.Player.Kept.{del_stream-IsSound}
use tcvp.Player.Invariant.{if-has, add_stream-IsAdded, IsAddedOutcome}
use tcvp.Player.Control.{
  s_play, add_streams, add_next, keep_added, counted, counted_outcome, empty_player,
}
use tcvp.Player.Reached.{Step-IsSound}
use tcvp.Player.Steps.{Reach, made, then_step}

note_if-nstreams : (b : Bool) (e : Effect) (p : Player) → (note_if b e p).nstreams ≡ p.nstreams
note_if-nstreams true e p = refl
note_if-nstreams false e p = refl

count_down-nstreams : (p : Player) → (count_down p).nstreams ≡ p.nstreams
count_down-nstreams p =
    if-has (λ (x : Player). x.nstreams ≡ p.nstreams) (p.pstreams == 1) (last_stream p) _
      (λ e. note_if-nstreams (same_int (down p.shared.players) (pos 0)) state_end _) (λ e. refl)

del_stream-nstreams : (env : Env) (s : ℕ) (p : Player) → (del_stream env s p).nstreams ≡ p.nstreams
unfolding del_stream
del_stream-nstreams env s p =
    let q = note_if (p.fail == env.n_streams) state_error (closed s p) in
    let same : q.nstreams ≡ p.nstreams =
      note_if-nstreams (p.fail == env.n_streams) state_error (closed s p) in
    if-has (λ (x : Player). x.nstreams ≡ p.nstreams) (p.streams s).owned (count_down q) q
      (λ e. count_down-nstreams q ∙ same) (λ e. same)

abbrev IsBelow : ℕ → Outcome (Player × Bool) → Type 0
IsBelow n undefined_behaviour = Unit
IsBelow n (done r) = r.0.nstreams ≤ n

add_stream-IsBelow :
    (env : Env) (n : ℕ) (p : Player) → p.nstreams ≤ n → IsBelow (suc n) (add_stream env n p)
unfolding add_stream
add_stream-IsBelow env n p h =
    let fits : (grow_arrays n p).nstreams ≤ suc n =
      if-has (λ (x : Player). x.nstreams ≤ suc n) (leb p.nstreams n) _ p (λ e. omega arith)
        (λ e. omega (arith, h)) in
    if-has (IsBelow (suc n))
      (ltb p.nstreams n || (leb p.nstreams n && any_thread p.streams p.nstreams) || not (ltb n 64))
      undefined_behaviour (done (open_stream env p.shared.sid n (with_number n (grow_arrays n p))))
      (λ e. _)
      (λ e.
        if-has (λ (r : Player × Bool). r.0.nstreams ≤ suc n)
          (use_stream env (with_number n (grow_arrays n p)).shared p.shared.sid n) _ _
          (λ u.
            if-has (λ (r : Player × Bool). r.0.nstreams ≤ suc n) (env.opens p.shared.sid) _ _
              (λ o. fits) (λ o. fits))
          (λ u. fits))

-- A player with at most `n` streams.
abbrev IsMade : ℕ → Outcome Player → Type 0
IsMade n undefined_behaviour = Unit
IsMade n (done p) = IsSound p × (p.nstreams ≤ n)

module _ (env : Env) where
  keep_added-IsMade :
      (n : ℕ) (r : Outcome (Player × Bool))
      → IsAddedOutcome env n r
      → IsBelow (suc n) r
      → IsMade (suc n) (keep_added env n r)
  keep_added-IsMade n undefined_behaviour h b = _
  keep_added-IsMade n (done (p, true)) h b = (h, b)
  keep_added-IsMade n (done (p, false)) h b =
      let same = del_stream-nstreams env n p in
      (
        del_stream-IsSound p h.0 n h.1 (ap (λ (x : SpStream). is_playing x.th) h.2) env
            (ap (λ (x : SpStream). x.owned) h.2 ∙ sym (ap (λ (x : SpStream). x.opened) h.2)),
        omega (arith, b, same),
      )

  add_next-IsMade : (n : ℕ) (r : Outcome Player) → IsMade n r → IsMade (suc n) (add_next env n r)
  add_next-IsMade n undefined_behaviour h = _
  add_next-IsMade n (done p) h =
      keep_added-IsMade n (add_stream env n p)
        (add_stream-IsAdded env n p h.0 (λ l. let m = h.1 in omega (arith, l, m)))
        (add_stream-IsBelow env n p h.1)

  add_streams-IsMade :
      (n : ℕ) (p : Player) → IsSound p → p.nstreams ≤ 0 → IsMade n (add_streams env n p)
  unfolding add_streams
  add_streams-IsMade zero p sound h = (sound, h)
  add_streams-IsMade (suc n) p sound h =
      add_next-IsMade n (add_streams env n p) (add_streams-IsMade n p sound h)

  empty-IsSound : (sh : Shared) → IsSound (empty_player sh)
  unfolding tally
  empty-IsSound sh = record {
    sane = λ i. refl;
    inside = λ i o. ground (arith, o);
    named = λ i l. absurd (omega (arith, l));
    open_all = refl;
    waiting_all = refl;
  }

  abbrev IsCounted : Outcome (Option Player) → Type 0
  IsCounted undefined_behaviour = Unit
  IsCounted (done none) = Unit
  IsCounted (done (some p)) = IsSound p

  counted-IsCounted : (p : Player) → IsSound p → IsCounted (done (counted p))
  counted-IsCounted p sound =
      if-has (λ (x : Option Player). IsCounted (done x)) (p.pstreams == 0) none _ (λ e. _)
        (λ e. sound)

  outcome-IsCounted : (n : ℕ) (r : Outcome Player) → IsMade n r → IsCounted (counted_outcome r)
  outcome-IsCounted n undefined_behaviour h = _
  outcome-IsCounted n (done p) h = counted-IsCounted p h.0

  s_play-IsCounted : (sh : Shared) → IsCounted (s_play env sh)
  unfolding s_play
  s_play-IsCounted sh =
      outcome-IsCounted env.n_streams (add_streams env env.n_streams (empty_player sh))
        (add_streams-IsMade env.n_streams (empty_player sh) (empty-IsSound sh) (omega arith))

  -- Whatever the threads do and in whatever order, short of undefined behaviour, from the player that
  -- s_play makes on: `pstreams` is the number of the streams that have a pipe, `waiting` that of the
  -- threads that wait in waitplay, every stream with a pipe has an element of the arrays, a list of
  -- packets and a player, every thread in its loop has a pipe that was probed, and every element of
  -- `smap` has a number.
  pub Reach-IsSound : {p : Player} → Reach env p → IsSound p
  Reach-IsSound (made p sh e) = subst IsCounted e (s_play-IsCounted sh)
  Reach-IsSound (then_step r t) = Step-IsSound env t (Reach-IsSound r)
