-- ===== src/Playlist/Control/Valid.antt =====
-- The handlers of playlist.c on a valid playlist: none leaves the arrays, and the result is valid.
use tcvp.Prelude.{
  ℕ, ◌+◌, ◌-◌, ◌≤◌, ◌<◌, ◌≡◌, refl, Bool, true, false, some, none, ltb, ◌==◌, if◌then◌else◌, arith,
  Option, IsOrder-lt, List, [], ◌∷◌, ◌++◌, ◌⊎◌, dec_lt, lt→ltb,
}
use tcvp.Prelude.Int.{ℤ, pos, negsuc, ◌+ℤ◌, ltb_ℤ}
use tcvp.Playlist.State.{
  Name, Playlist, PlayState, playing, stopped, end, Env, Out, Outcome, IsValid, has, list_repeat,
  is_end, fetch,
}
use tcvp.Playlist.Control.{
  start, step, next_state, preview, show_current, next, close, open_file, start_play, load,
  send_state, is_playing,
}

-- A result without a fault and with a valid playlist.
abbrev pub Succeeds : Outcome → Type 0
Succeeds r = (pl : Playlist) × (outs : List Out) × (r ≡ some (pl, outs)) × IsValid pl

-- The same playlist at another position and in another state.
pub moved-IsValid :
    {pl : Playlist} (c : ℕ) (s : PlayState)
    → IsValid pl
    → c ≤ pl.nf
    → IsValid (record pl { cur = pos c; state = s })
moved-IsValid c s v h = record {
  room = v.room;
  named = v.named;
  ordered = v.ordered;
  cur_pos = refl;
  cur_in = h;
  plain = v.plain;
}

-- At an index of the list the current file has a name.
pub fetch_lem :
    (c : ℕ) {pl : Playlist}
    → IsValid pl
    → pl.cur ≡ pos c
    → c < pl.nf
    → (name : Name) × (fetch pl ≡ some name)
unfolding fetch
fetch_lem c {pl} v e h = named (pl.files (pl.order c)) refl
  where
    inside : pl.order c < pl.nf
    inside = IsOrder-lt pl.order pl.nf c v.ordered h

    named : (o : Option Name) → pl.files (pl.order c) ≡ o → (name : Name) × (fetch pl ≡ some name)
    named none p = absurd (v.named (pl.order c) inside p)
    named (some x) p = (x, rw (e, lt→ltb c pl.nf h, lt→ltb (pl.order c) pl.nf inside) p)

fetched :
    (c : ℕ) (s : PlayState) {pl : Playlist}
    → IsValid pl
    → c < pl.nf
    → (name : Name) × (fetch (record pl { cur = pos c; state = s }) ≡ some name)
fetched c s v h = fetch_lem c (moved-IsValid c s v (omega arith)) refl h

-- `pl_start` from the position `c`: nothing for an empty list, and else the current file is
-- opened, from the first one if the position is the end.
pub start_lem :
    (c : ℕ) (s : PlayState) {pl : Playlist}
    → IsValid pl
    → c ≤ pl.nf
    → Succeeds (start (record pl { cur = pos c; state = s }))
unfolding start
start_lem c s {pl} v h = elim (dec_lt 0 pl.nf) [
  | no empty ↦
      let z : (pl.nf == 0) ≡ true = ground arith in
      (record pl { cur = pos c; state = s }, [], rw z, moved-IsValid c s v h)
  | yes some_file ↦
      let z : (pl.nf == 0) ≡ false = ground arith in
      elim (dec_lt c pl.nf) [
        | yes inside ↦
            let (name, e) = fetched c s v inside in
            let t : ltb_ℤ (pos c) (pos pl.nf) ≡ true = ground arith in
            (
              record pl { cur = pos c; state = s },
              close ∷ open_file name ∷ start_play ∷ [],
              rw (z, t, e),
              moved-IsValid c s v h,
            )
        | no outside ↦
            let (name, e) = fetched 0 s v some_file in
            let t : ltb_ℤ (pos c) (pos pl.nf) ≡ false = ground arith in
            (
              record pl { cur = pos 0; state = s },
              close ∷ open_file name ∷ start_play ∷ [],
              rw (z, t, e),
              moved-IsValid 0 s v (omega arith),
            )
      ]
]

pub show_current_lem :
    (env : Env) (c : ℕ) (s : PlayState) {pl : Playlist}
    → IsValid pl
    → c ≤ pl.nf
    → Succeeds (show_current env (record pl { cur = pos c; state = s }))
unfolding show_current preview
show_current_lem env c s {pl} v h = elim (dec_lt c pl.nf) [
  | no outside ↦
      let t : ltb_ℤ (pos c) (pos pl.nf) ≡ false = ground arith in
      (record pl { cur = pos c; state = s }, [], rw t, moved-IsValid c s v h)
  | yes inside ↦ let t : ltb_ℤ (pos c) (pos pl.nf) ≡ true = ground arith in rw t (shown s inside)
]
  where
    quiet :
        (s : PlayState) → c < pl.nf → Succeeds (preview env (record pl { cur = pos c; state = s }))
    quiet s lt =
        let (name, e) = fetched c s v lt in
        (
          record pl { cur = pos c; state = s },
          if env.opens name then load name ∷ [] else [],
          rw e,
          moved-IsValid c s v h,
        )

    shown :
        (s : PlayState)
        → c < pl.nf
        → Succeeds (
            if is_playing s
            then start (record pl { cur = pos c; state = stopped })
            else preview env (record pl { cur = pos c; state = s }))
    shown playing lt = start_lem c stopped v h
    shown stopped lt = quiet stopped lt
    shown end lt = quiet end lt

-- `pl_next` from the target `c`, given as the position that `step` makes of it.
pub next_from :
    (env : Env) (dir : ℤ) (c : ℕ) {pl : Playlist}
    → IsValid pl
    → step pl.nf (has pl.flags list_repeat) (pl.cur +ℤ dir) ≡ pos c
    → c ≤ pl.nf
    → Succeeds (next env dir pl)
unfolding next
next_from env dir c {pl} v e h =
    let s = next_state pl.nf (has pl.flags list_repeat) (pl.cur +ℤ dir) pl.state in
    let (pl', outs, r, ok) = show_current_lem env c s v h in
    (
      pl',
      outs ++ ((if is_end pl'.state then close ∷ [] else []) ++ (send_state pl' ∷ [])),
      rw (e, r),
      ok,
    )

-- Where `pl_next` goes by one forward, and by one back.
pub step_forward :
    (nf c : ℕ) (wrap : Bool)
    → c ≤ nf
    → (c' : ℕ) × (step nf wrap (pos c +ℤ pos 1) ≡ pos c') × (c' ≤ nf)
unfolding step ◌+ℤ◌
step_forward nf c wrap h =
    (if ltb (c + 1) nf then c + 1 else if wrap then 0 else nf, ground arith, ground arith)

pub step_back :
    (nf c : ℕ) (wrap : Bool)
    → c ≤ nf
    → ((wrap ≡ false) ⊎ (0 < nf))
    → (c' : ℕ) × (step nf wrap (pos c +ℤ negsuc 0) ≡ pos c') × (c' ≤ nf)
unfolding step ◌+ℤ◌
step_back nf c wrap h k =
    (if c == 0 then (if wrap then nf - 1 else 0) else c - 1, ground arith, ground arith)

pub step_here :
    (nf c : ℕ) (wrap : Bool)
    → c ≤ nf
    → (c' : ℕ) × (step nf wrap (pos c +ℤ pos 0) ≡ pos c') × (c' ≤ nf)
unfolding step ◌+ℤ◌
step_here nf c wrap h = (if ltb c nf then c else if wrap then 0 else nf, ground arith, ground arith)
