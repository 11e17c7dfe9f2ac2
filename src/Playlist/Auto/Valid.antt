-- ===== src/Playlist/Auto/Valid.antt =====
-- Adding at the end keeps a valid playlist valid, with fuel for the depth of the playlists.
use tcvp.Prelude.{
  ℕ, zero, suc, ◌+◌, ◌≤◌, ◌<◌, ◌≡◌, refl, arith, List, [], ◌∷◌, Option, none, some, All, ◌⊎◌, inl,
  inr, Option-cases, ap, ◌∙◌,
}
use tcvp.Prelude.Int.{ℤ}
use tcvp.Playlist.State.{Name, Playlist, Env, IsValid, Magic, unknown, playlist_file, media}
use tcvp.Playlist.Edit.{position}
use tcvp.Playlist.Edit.Add.{grown, add-grown}
use tcvp.Playlist.Lines.{dir_of, line_file}
use tcvp.Playlist.Auto.{AddList, add_each, add_lines, add_list, add_auto}

-- At the end of the list, or before its last entry.
abbrev pub Fits : ℕ → Playlist → Type 0
Fits p pl = (p ≤ pl.nf) × (pl.nf ≤ p + 1)

-- A run of `add_each` that adds `k` entries to `pl`, counted on from `nadd`.
abbrev pub AddsSome : Option (Playlist × ℕ) → ℕ → Playlist → Type 0
AddsSome r nadd pl =
    (pl' : Playlist) × (k : ℕ) × (r ≡ some (pl', nadd + k)) × IsValid pl' × (pl'.nf ≡ pl.nf + k)

-- A run of `pl_addlist` that fails to open the file, or adds `k` entries.
abbrev pub AddsLines : Option (Playlist × Option ℕ) → ℕ → Playlist → Type 0
AddsLines r n pl =
    (r ≡ some (pl, none))
    ⊎ ((pl' : Playlist) × (k : ℕ) × (r ≡ some (pl', some (n + k)))
        × IsValid pl'
        × (pl'.nf ≡ pl.nf + k))

abbrev ListWorks : AddList → Name → Type 0
ListWorks al f = (p : ℕ) (pl : Playlist) → IsValid pl → Fits p pl → AddsLines (al f p pl) 0 pl

-- A later run, counted on from a first one.
AddsSome-after :
    {r : Option (Playlist × ℕ)} (nadd j : ℕ) (pl pl1 : Playlist)
    → pl1.nf ≡ pl.nf + j
    → AddsSome r (nadd + j) pl1
    → AddsSome r nadd pl
AddsSome-after nadd j pl pl1 e (pl', k, r, v, n) =
    let s : nadd + j + k ≡ nadd + (j + k) = omega arith in
    (pl', j + k, r ∙ ap (λ x. some (pl', x)) s, v, omega arith)

-- The rest of the loop works from wherever the first file leaves it.
abbrev RestWorks : Env → AddList → List Name → Type 0
RestWorks env al fs =
    (p nadd : ℕ) (pl : Playlist)
    → IsValid pl
    → Fits p pl
    → AddsSome (add_each env al fs p nadd pl) nadd pl

add_each-cons :
    (env : Env) (al : AddList) (f : Name) (fs : List Name) (p nadd : ℕ) (pl : Playlist)
    → ListWorks al f
    → RestWorks env al fs
    → IsValid pl
    → Fits p pl
    → (m : Magic) → env.magic f ≡ m
    → AddsSome (add_each env al (f ∷ fs) p nadd pl) nadd pl
unfolding add_each
add_each-cons env al f fs p nadd pl list rest v fit unknown e =
    rw (e, add_each) (rest p nadd pl v fit)
add_each-cons env al f fs p nadd pl list rest v fit playlist_file e = elim (list p pl v fit) [
  | inl r ↦ rw (e, add_each, r) (rest p nadd pl v fit)
  | inr (pl1, k, r, v1, n1) ↦
      let z : 0 + k ≡ k = omega arith in
      rw (e, add_each, r, z)
        (AddsSome-after nadd k pl pl1 n1
          (rest (p + k) (nadd + k) pl1 v1 (omega arith, omega arith)))
]
add_each-cons env al f fs p nadd pl list rest v fit media e =
    let (o, now, r, v1) = add-grown env f p v fit.0 fit.1 in
    let s : suc nadd ≡ nadd + 1 = omega arith in
    rw (e, add_each, r)
      (AddsSome-after nadd 1 pl (grown (f ∷ []) p pl o now) refl (
        rw (← s)
          (rest (suc p) (suc nadd) (grown (f ∷ []) p pl o now) v1 (omega arith, omega arith))))

add_each_lem :
    (env : Env) (al : AddList) (fs : List Name) → All (ListWorks al) fs → RestWorks env al fs
unfolding add_each
add_each_lem env al [] h p nadd pl v fit =
    let z : nadd ≡ nadd + 0 = omega arith in (pl, 0, ap (λ x. some (pl, x)) z, v, omega arith)
add_each_lem env al (f ∷ fs) h p nadd pl v fit =
    add_each-cons env al f fs p nadd pl h.0 (add_each_lem env al fs h.1) v fit (env.magic f) refl

AddsLines-after :
    {r : Option (Playlist × Option ℕ)} (n j : ℕ) (pl pl1 : Playlist)
    → pl1.nf ≡ pl.nf + j
    → (pl' : Playlist) × (k : ℕ) × (r ≡ some (pl', some (n + j + k)))
      × IsValid pl'
      × (pl'.nf ≡ pl1.nf + k)
    → (pl' : Playlist) × (k : ℕ) × (r ≡ some (pl', some (n + k)))
      × IsValid pl'
      × (pl'.nf ≡ pl.nf + k)
AddsLines-after n j pl pl1 e (pl', k, r, v, m) =
    let s : n + j + k ≡ n + (j + k) = omega arith in
    (pl', j + k, r ∙ ap (λ x. some (pl', some x)) s, v, omega arith)

-- Each file that a line names works.
abbrev LineWorks : AddList → Name → Name → Type 0
LineWorks al dir l = (name : Name) → line_file dir l ≡ some name → ListWorks al name

add_lines_lem :
    (env : Env) (al : AddList) (dir : Name) (ls : List Name)
    → All (LineWorks al dir) ls
    → (p n : ℕ) (pl : Playlist) → IsValid pl
    → Fits (p + n) pl
    → (pl' : Playlist) × (k : ℕ) × (add_lines env al dir ls p n pl ≡ some (pl', some (n + k)))
      × IsValid pl'
      × (pl'.nf ≡ pl.nf + k)
unfolding add_lines
add_lines_lem env al dir [] h p n pl v fit =
    let z : n ≡ n + 0 = omega arith in (pl, 0, ap (λ x. some (pl, some x)) z, v, omega arith)
add_lines_lem env al dir (l ∷ ls) h p n pl v fit = elim (Option-cases (line_file dir l)) [
  | inl e ↦ rw (e, add_lines) (add_lines_lem env al dir ls h.1 p n pl v fit)
  | inr (name, e) ↦
      let (pl1, k, r, v1, n1) =
        add_each_lem env al (name ∷ []) (h.0 name e, tt) (p + n) 0 pl v fit in
      let z : 0 + k ≡ k = omega arith in
      rw (e, add_lines, r, z)
        (AddsLines-after n k pl pl1 n1
          (add_lines_lem env al dir ls h.1 p (n + k) pl1 v1 (omega arith, omega arith)))
]

-- Playlists name one another in no circle: a rank falls from a playlist to the files of its lines.
abbrev pub Ranked : Env → (Name → ℕ) → Type 0
Ranked env rank =
    (f : Name) (ls : List Name)
    → env.lines f ≡ some ls
    → All (λ l. (name : Name) → line_file (dir_of f) l ≡ some name → rank name < rank f) ls

module _ (env : Env) (rank : Name → ℕ) (ranked : Ranked env rank) where
  lines_work :
      (fuel : ℕ)
      → ((f : Name) → rank f < fuel → ListWorks (add_list env fuel) f)
      → (dir : Name) (m : ℕ) → m ≤ fuel
      → (ls : List Name) → All (λ l. (name : Name) → line_file dir l ≡ some name → rank name < m) ls
      → All (LineWorks (add_list env fuel) dir) ls
  lines_work fuel ih dir m le [] h = tt
  lines_work fuel ih dir m le (l ∷ ls) h =
      (λ name e. ih name (omega (arith, h.0 name e)), lines_work fuel ih dir m le ls h.1)

  add_list_works : (fuel : ℕ) (f : Name) → rank f < fuel → ListWorks (add_list env fuel) f
  unfolding add_list
  add_list_works zero f h p pl v fit = absurd (omega arith)
  add_list_works (suc fuel) f h p pl v fit = elim (Option-cases (env.lines f)) [
    | inl e ↦ inl (rw (e, add_list))
    | inr (ls, e) ↦ inr (
        rw (e, add_list)
          (add_lines_lem env (add_list env fuel) (dir_of f) ls
            (lines_work fuel (add_list_works fuel) (dir_of f) (rank f) (omega arith) ls
              (ranked f ls e))
            p 0 pl v (omega arith, omega arith)))
  ]

  works-All :
      (fuel : ℕ) (fs : List Name)
      → All (λ f. rank f < fuel) fs
      → All (ListWorks (add_list env fuel)) fs
  works-All fuel [] h = tt
  works-All fuel (f ∷ fs) h = (add_list_works fuel f h.0, works-All fuel fs h.1)

  -- Adding files and playlists at the end, or before the last entry, of a valid playlist ends
  -- without a fault, with fuel for the ranks. The result is valid, and the count returned is the
  -- growth of the list.
  pub add_auto-IsValid :
      (fuel : ℕ) (fs : List Name) (p : ℤ) (pl : Playlist)
      → All (λ f. rank f < fuel) fs
      → IsValid pl
      → Fits (position p pl.nf) pl
      → (pl' : Playlist) × (k : ℕ) × (add_auto env fuel fs p pl ≡ some (pl', k))
        × IsValid pl'
        × (pl'.nf ≡ pl.nf + k)
  unfolding add_auto
  add_auto-IsValid fuel fs p pl h v fit =
      let (pl', k, r, v', n) =
        add_each_lem env (add_list env fuel) fs (works-All fuel fs h) (position p pl.nf) 0 pl v
          fit in
      let z : 0 + k ≡ k = omega arith in (pl', k, r ∙ ap (λ x. some (pl', x)) z, v', n)
