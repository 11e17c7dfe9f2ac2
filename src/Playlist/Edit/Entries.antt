-- ===== src/Playlist/Edit/Entries.antt =====
-- The entries of a playlist after adding and removing.
use tcvp.Prelude.{
  ◌%◌, ◌&&◌, ◌^◌, ℕ, ◌+◌, ◌-◌, ◌≤◌, ◌<◌, ◌≡◌, refl, arith, min, List, [], ◌∷◌, ◌++◌, Option, some,
  if◌then◌else◌, ltb, ◌==◌, segment, segment-eq, segment-split, memmove, ◌∙◌,
}
use tcvp.Prelude.Int.{pos, negsuc}
use tcvp.Playlist.State.{Name, Playlist, Env, IsValid}
use tcvp.Playlist.Edit.{store, add, remove, remove_at, start_of, to_u32, suc, ltb_ℤ, true}
use tcvp.Playlist.Edit.Add.{grown, add-grown, add-runs}
use mathlib.Core.Path.{ap₂, ap}

-- The entries in use.
abbrev pub entries : Playlist → List (Option Name)
entries pl = segment pl.files 0 pl.nf

pub entries-remove_at :
    (s un : ℕ) (pl : Playlist)
    → s ≤ pl.nf
    → let nr = min (pl.nf - s) un in
      entries (remove_at s un pl)
      ≡ segment pl.files 0 s ++ segment pl.files (s + nr) (pl.nf - s - nr)
unfolding remove_at
entries-remove_at s un pl h =
    segment-split (memmove pl.files s (s + nr) (pl.nf - s - nr)) 0 s (pl.nf - s - nr) (pl.nf - nr)
      (omega arith)
    ∙ ap₂ ◌++◌ (segment-eq _ pl.files 0 0 s (λ d lt. ground arith))
        (segment-eq _ pl.files (0 + s) (s + nr) (pl.nf - s - nr) (λ d lt. moved d lt))
  where
    nr : ℕ
    nr = min (pl.nf - s) un

    moved :
        (d : ℕ)
        → d < pl.nf - s - nr
        → memmove pl.files s (s + nr) (pl.nf - s - nr) (0 + s + d) ≡ pl.files (s + nr + d)
    moved d lt =
        let e : 0 + s + d - s + (s + nr) ≡ s + nr + d = omega arith in ground (arith, ap pl.files e)

-- `grown` puts the name at `p`, the entry of `p` behind it, and leaves the others.
pub grown_files :
    (f : Name) (p : ℕ) (pl : Playlist) (o : ℕ → ℕ) (now k : ℕ)
    → (grown (f ∷ []) p pl o now).files k
      ≡ (if k == p then some f else if ltb p pl.nf && (k == p + 1) then pl.files p else pl.files k)
unfolding store
grown_files f p pl o now k =
    let e : k ≡ p + 1 → k - (p + 1) + p ≡ p = λ h. omega arith in
    ground (arith, λ (h : k ≡ p + 1). ap pl.files (e h))

-- `pl_remove` of `n` entries from the index `s` on takes out these, up to the end of the list, and
-- keeps the others in their order. A negative `s` counts from the end of the list.
pub entries-remove :
    (s n : ℕ) (pl : Playlist)
    → s < pl.nf
    → n < 2 ^ 32
    → let nr = min (pl.nf - s) n in
      (entries (remove (pos s) (pos n) pl)
        ≡ segment pl.files 0 s ++ segment pl.files (s + nr) (pl.nf - s - nr))
      × (remove (negsuc (pl.nf - s - 1)) (pos n) pl ≡ remove (pos s) (pos n) pl)
unfolding remove start_of to_u32
entries-remove s n pl h w =
    let small : n % 2 ^ 32 ≡ n = omega arith in
    let back : pl.nf - suc (pl.nf - s - 1) ≡ s = omega arith in
    let lt : ltb_ℤ (pos s) (pos pl.nf) ≡ true = ground arith in
    let lt' : ltb_ℤ (negsuc (pl.nf - s - 1)) (pos pl.nf) ≡ true = ground arith in
    (rw (lt, small) (entries-remove_at s n pl (omega arith)), rw (lt, lt', back))

-- `pl_add` of one name at the end of a valid playlist puts it behind the other entries, and the
-- result is valid.
pub entries-add :
    (env : Env) (f : Name) {pl : Playlist}
    → IsValid pl
    → (pl' : Playlist) × (add env (f ∷ []) (pos pl.nf) pl ≡ some pl')
      × (entries pl' ≡ entries pl ++ (some f ∷ []))
      × IsValid pl'
entries-add env f {pl} v =
    let (o, now, e, ok) = add-grown env f pl.nf v (omega arith) (omega arith) in
    (grown (f ∷ []) pl.nf pl o now, e, appended o now, ok)
  where
    appended :
        (o : ℕ → ℕ) (now : ℕ)
        → entries (grown (f ∷ []) pl.nf pl o now) ≡ entries pl ++ (some f ∷ [])
    appended o now =
        let a = (grown (f ∷ []) pl.nf pl o now).files in
        segment-split a 0 pl.nf 1 (pl.nf + 1) refl
        ∙ ap₂ ◌++◌
            (segment-eq a pl.files 0 0 pl.nf
              (λ d lt. ground (arith, grown_files f pl.nf pl o now (0 + d))))
            (ap (λ x. x ∷ []) (ground (arith, grown_files f pl.nf pl o now (0 + pl.nf))))

-- `pl_add` of one name further in front moves only the entry of that place: it overwrites the next
-- entry, and what is counted as the last entry was not written.
pub add_in_middle :
    (env : Env) (f : Name) (p : ℕ) {pl : Playlist}
    → IsValid pl
    → p + 1 < pl.nf
    → (pl' : Playlist) × (add env (f ∷ []) (pos p) pl ≡ some pl')
      × (pl'.nf ≡ pl.nf + 1)
      × (pl'.files p ≡ some f)
      × (pl'.files (p + 1) ≡ pl.files p)
      × ((k : ℕ) → p + 1 < k → pl'.files k ≡ pl.files k)
add_in_middle env f p {pl} v h =
    let (o, now, e, _, _) = add-runs env f p v (omega arith) in
    (
      grown (f ∷ []) p pl o now,
      e,
      refl,
      ground (arith, grown_files f p pl o now p),
      ground (arith, grown_files f p pl o now (p + 1)),
      λ k lt. ground (arith, grown_files f p pl o now k),
    )
