-- ===== src/Playlist/Control/Moves.antt =====
-- What `pl_next` sends, and where it goes.
use tcvp.Prelude.{
  ℕ, ◌+◌, ◌≤◌, ◌<◌, ◌≡◌, ◌≢◌, arith, Bool, true, false, ltb, ◌==◌, if◌then◌else◌, ◌⊎◌, inl, inr, [],
  ◌∷◌, none, some, lt→ltb, IsOrder-lt, Option-cases,
}
use mathlib.Core.Path.{subst, subst₂, sym}
use tcvp.Prelude.Int.{ℤ, pos, negsuc, pos_part, ◌+ℤ◌, ltb_ℤ}
use tcvp.Playlist.State.{
  Name, Playlist, PlayState, playing, stopped, Env, IsValid, has, list_repeat, fetch, close,
  open_file, start_play, pl_state,
}
use tcvp.Playlist.Edit.{send_state}
use tcvp.Playlist.Control.{next, step, next_state, show_current, start, preview}

-- The index that comes after `c`, round to the first at the end.
abbrev pub after : ℕ → ℕ → ℕ
after nf c = if ltb (c + 1) nf then c + 1 else 0

-- Where `pl_next` goes while there is a next entry or the list repeats, and in which state.
step-after :
    (nf c : ℕ) (wrap : Bool)
    → c ≤ nf
    → (c + 1 < nf) ⊎ (wrap ≡ true)
    → (step nf wrap (pos c +ℤ pos 1) ≡ pos (after nf c))
      × (next_state nf wrap (pos c +ℤ pos 1) playing ≡ playing)
unfolding step next_state ◌+ℤ◌
step-after nf c wrap le h = (ground arith, ground arith)

-- While a valid playlist plays and another entry follows, or the list repeats, `pl_next` goes on
-- to that entry, or to the first: it closes the player, opens that file, starts it, and reports
-- it in the state STOPPED.
pub next_plays :
    (env : Env) {pl : Playlist}
    → IsValid pl
    → pl.state ≡ playing
    → 0 < pl.nf
    → (pos_part pl.cur + 1 < pl.nf) ⊎ (has pl.flags list_repeat ≡ true)
    → let t = after pl.nf (pos_part pl.cur) in
      (name : Name) × (pl.files (pl.order t) ≡ some name)
      × (next env (pos 1) pl
          ≡ some (
            record pl { cur = pos t; state = stopped },
            close ∷ open_file name ∷ start_play ∷ pl_state (pos (pl.order t)) stopped pl.flags ∷ [],
          ))
unfolding next show_current start fetch send_state
next_plays env {pl} v p h k = elim (Option-cases (pl.files (pl.order t))) [
  | inl e ↦ absurd (v.named (pl.order t) inside e)
  | inr (name, e) ↦ (
    name,
    e,
    rw (
      goes,
      stays,
      nonempty,
      in_list,
      lt→ltb t pl.nf t_lt,
      lt→ltb _ _ inside,
      e,
      lt→ltb t pl.nf t_lt,
    ),
  )
]
  where
    c : ℕ
    c = pos_part pl.cur

    t : ℕ
    t = after pl.nf c

    t_lt : t < pl.nf
    t_lt = ground arith

    inside : pl.order t < pl.nf
    inside = IsOrder-lt pl.order pl.nf t v.ordered t_lt

    nonempty : (pl.nf == 0) ≡ false
    nonempty = ground arith

    in_list : ltb_ℤ (pos t) (pos pl.nf) ≡ true
    in_list = ground arith

    goes : step pl.nf (has pl.flags list_repeat) (pl.cur +ℤ pos 1) ≡ pos t
    goes =
        subst (λ (x : ℤ). step pl.nf (has pl.flags list_repeat) (x +ℤ pos 1) ≡ pos t)
          (sym v.cur_pos) (step-after pl.nf c (has pl.flags list_repeat) v.cur_in k).0

    stays : next_state pl.nf (has pl.flags list_repeat) (pl.cur +ℤ pos 1) pl.state ≡ playing
    stays =
        subst₂
          (λ (x : ℤ) (y : PlayState).
            next_state pl.nf (has pl.flags list_repeat) (x +ℤ pos 1) y ≡ playing)
          (sym v.cur_pos) (sym p) (step-after pl.nf c (has pl.flags list_repeat) v.cur_in k).1

-- Back from an empty list that repeats, in a state other than PLAYING, `pl_next` reads the play
-- order at the index -1.
pub next_back_empty :
    (env : Env) (pl : Playlist)
    → pl.nf ≡ 0
    → pl.cur ≡ pos 0
    → has pl.flags list_repeat ≡ true
    → pl.state ≢ playing
    → next env (negsuc 0) pl ≡ none
unfolding next show_current preview step next_state fetch ◌+ℤ◌
next_back_empty env pl e c f s = ground (arith, e, c, f)
