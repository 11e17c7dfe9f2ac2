-- ===== src/Playlist/Tests.antt =====
-- Concrete playlists and events, and the theorems at them.
use tcvp.Prelude.{
  ℕ, ◌+◌, ◌<◌, ◌≡◌, refl, arith, true, false, [], ◌∷◌, ◌++◌, none, some, if◌then◌else◌, ◌==◌,
  length, segment, count, Bool-cases, ◌⊎◌, inl, inr, All,
}
use tcvp.Prelude.Int.{pos, negsuc}
use tcvp.Prelude.Wire.{Bytes, big_endian}
use tcvp.Playlist.State.{
  Name, Playlist, playing, stopped, Env, IsValid, new_playlist, playlist_file, media, close,
  open_file, start_play, pl_state, fetch,
}
use tcvp.Playlist.Edit.{add, remove, position}
use tcvp.Playlist.Edit.Entries.{entries, entries-remove, entries-add, add_in_middle}
use tcvp.Playlist.Control.{next, seek_index, absolute}
use tcvp.Playlist.Control.Valid.{Succeeds}
use tcvp.Playlist.Control.Moves.{next_plays, next_back_empty}
use tcvp.Playlist.Control.Seek.{seek_absolute}
use tcvp.Playlist.Lines.{dir_of, slash, line_file}
use tcvp.Playlist.Lines.Laws.{line_file_lem}
use tcvp.Playlist.Auto.{add_auto}
use tcvp.Playlist.Auto.Valid.{Ranked, add_auto-IsValid}
use tcvp.Playlist.Machine.{handle, run, start_cmd, next_cmd, prev_cmd, remove_cmd}
use tcvp.Playlist.Machine.Safe.{handle-Succeeds, run-Succeeds}
use tcvp.Playlist.Serial.{
  AddEvent, add_ser_size, content_ser_size, list_size, add_ser, add_deser, content_ser,
  content_deser,
}
use tcvp.Playlist.Serial.RoundTrip.{add_deser-ser, content_deser-ser}

abbrev name_a : Name
name_a = b'a' ∷ b'b' ∷ []

abbrev name_l : Name
name_l = b'l' ∷ []

-- A file with a name of one byte is a playlist with the line `/ab`; others are media files.
abbrev env : Env
env = record {
  rand = λ seed k. seed + k;
  magic = λ f. if length f == 1 then playlist_file else media;
  lines = λ f. if length f == 1 then some ((slash ∷ name_a) ∷ []) else none;
  opens = λ f. true;
  stop_on_error = false;
}

abbrev rank : Name → ℕ
rank f = if length f == 1 then 1 else 0

absolute_line : (dir : Name) → line_file dir (slash ∷ name_a) ≡ some (slash ∷ name_a)
absolute_line dir = line_file_lem dir (b'a' ∷ []) slash b'b' [] refl refl tt

ranked : Ranked env rank
ranked f ls e = by_length (Bool-cases (length f == 1)) e
  where
    by_length :
        ((length f == 1) ≡ true) ⊎ ((length f == 1) ≡ false)
        → (if length f == 1 then some ((slash ∷ name_a) ∷ []) else none) ≡ some ls
        → All (λ l. (name : Name) → line_file (dir_of f) l ≡ some name → rank name < rank f) ls
    by_length (inr n) p = cc (rw n at p)
    by_length (inl y) p =
        let q : ls ≡ (slash ∷ name_a) ∷ [] = cc (rw y at p) in
        rw (q, y)
          (
            (λ name r.
                let n : name ≡ slash ∷ name_a = cc (r, absolute_line (dir_of f)) in
                rw n (omega arith)),
            tt,
          )

-- Three files, shuffled, with the second of the order playing.
abbrev three : Playlist
three = record {
  files = λ k. some (b'a' ∷ k ∷ []);
  order = λ k. if k == 0 then 2 else if k == 1 then 0 else if k == 2 then 1 else k;
  nf = 3;
  af = 16;
  state = playing;
  cur = pos 1;
  flags = 1;
  now = 0;
}

three-IsValid : IsValid three
unfolding count
three-IsValid = record {
  room = omega arith;
  named = λ k h e. cc;
  ordered = λ v. ground arith;
  cur_pos = refl;
  cur_in = omega arith;
  plain = λ e k h. cc;
}

-- An empty list that repeats.
abbrev empty : Playlist
empty = record new_playlist { flags = 4 }

-- A list of one entry that plays.
abbrev one : Playlist
one = record new_playlist { files = λ k. some name_a; nf = 1; order = λ k. k; cur = pos 1 }

one-IsValid : IsValid one
unfolding count
one-IsValid = record {
  room = omega arith;
  named = λ k h e. cc;
  ordered = λ v. ground arith;
  cur_pos = refl;
  cur_in = omega arith;
  plain = λ e k h. refl;
}

handle-Succeeds_example : Succeeds (handle env prev_cmd three)
handle-Succeeds_example = handle-Succeeds env rank ranked prev_cmd three-IsValid (inr (omega arith))

run-Succeeds_example :
    Succeeds (run env (next_cmd ∷ remove_cmd (pos 1) (pos 1) ∷ start_cmd ∷ []) three)
run-Succeeds_example =
    run-Succeeds env rank ranked (next_cmd ∷ remove_cmd (pos 1) (pos 1) ∷ start_cmd ∷ [])
      three-IsValid (tt, λ pl1 outs e. (tt, λ pl2 outs2 e2. (tt, λ pl3 outs3 e3. tt)))

next_plays_example :
    (name : Name) × (three.files 1 ≡ some name)
    × (next env (pos 1) three
        ≡ some (
          record three { cur = pos 2; state = stopped },
          close ∷ open_file name ∷ start_play ∷ pl_state (pos 1) stopped 1 ∷ [],
        ))
next_plays_example = next_plays env three-IsValid refl (omega arith) (inl (omega arith))

next_back_empty_example : next env (negsuc 0) empty ≡ none
next_back_empty_example = next_back_empty env empty refl refl refl (λ e. cc)

seek_absolute_example :
    (seek_index absolute three 2 < 3)
    × (three.order (seek_index absolute three 2) ≡ 2)
    × (fetch (record three { cur = pos (seek_index absolute three 2) }) ≡ some (b'a' ∷ 2 ∷ []))
seek_absolute_example = seek_absolute 2 three-IsValid (omega arith)

entries-remove_example :
    (entries (remove (pos 1) (pos 1) three) ≡ segment three.files 0 1 ++ segment three.files 2 1)
    × (remove (negsuc 1) (pos 1) three ≡ remove (pos 1) (pos 1) three)
entries-remove_example = entries-remove 1 1 three (omega arith) (omega arith)

entries-add_example :
    (pl' : Playlist) × (add env (name_a ∷ []) (pos 3) three ≡ some pl')
    × (entries pl' ≡ entries three ++ (some name_a ∷ []))
    × IsValid pl'
entries-add_example = entries-add env name_a three-IsValid

add_in_middle_example :
    (pl' : Playlist) × (add env (name_a ∷ []) (pos 0) three ≡ some pl')
    × (pl'.nf ≡ 4)
    × (pl'.files 0 ≡ some name_a)
    × (pl'.files 1 ≡ some (b'a' ∷ 0 ∷ []))
    × ((k : ℕ) → 1 < k → pl'.files k ≡ three.files k)
add_in_middle_example = add_in_middle env name_a 0 three-IsValid (omega arith)

add_auto-IsValid_example :
    (pl' : Playlist) × (k : ℕ) × (add_auto env 2 (name_l ∷ name_a ∷ []) (negsuc 0) three
      ≡ some (pl', k))
    × IsValid pl'
    × (pl'.nf ≡ 3 + k)
unfolding position
add_auto-IsValid_example =
    add_auto-IsValid env rank ranked 2 (name_l ∷ name_a ∷ []) (negsuc 0) three (omega arith)
      three-IsValid (omega arith)

abbrev added : AddEvent
added = record { names = name_a ∷ name_l ∷ []; pos_arg = negsuc 0 }

add_deser-ser_example :
    (bs : Bytes) × (add_ser big_endian name_l added ≡ some bs)
    × (length bs ≡ add_ser_size big_endian name_l added)
    × (add_deser big_endian bs ≡ some added)
unfolding add_ser_size list_size
add_deser-ser_example =
    add_deser-ser big_endian name_l added (omega arith) (omega arith) (omega arith) (omega arith)
      (omega arith)

content_deser-ser_example :
    (bs : Bytes) × (content_ser big_endian name_l (name_a ∷ []) ≡ some bs)
    × (length bs ≡ content_ser_size big_endian name_l (name_a ∷ []))
    × (content_deser big_endian bs ≡ some (name_a ∷ []))
unfolding content_ser_size list_size
content_deser-ser_example =
    content_deser-ser big_endian name_l (name_a ∷ []) (omega arith) (omega arith) (omega arith)
