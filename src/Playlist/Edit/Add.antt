-- ===== src/Playlist/Edit/Add.antt =====
-- `pl_add`: what is added where, and that a valid playlist stays valid.
use tcvp.Prelude.{
  ℕ, ◌+◌, ◌-◌, ◌≤◌, ◌<◌, ◌≡◌, ◌≢◌, refl, true, false, some, none, ltb, leb, ◌&&◌, ◌||◌,
  if◌then◌else◌, arith, memmove, count-id, length, Option, IsOrder, Bool-cases, inl, inr, List, [],
  ◌∷◌, lt→ltb, dec_lt, ◌⊎◌,
}
use tcvp.Prelude.Int.{pos, pos_part}
use tcvp.Playlist.State.{Name, Playlist, Env, IsValid, has, shuffle, is_end}
use tcvp.Playlist.Edit.{position, store, store_id, add, shuffle_in}
use tcvp.Playlist.Edit.Order.{store_id_lem, shuffle_in-IsOrder}
use tcvp.Playlist.Edit.Valid.{store_lem}

-- The arrays after `pl_add` of `fs` at index `p`, the order apart.
abbrev pub grown : List Name → ℕ → Playlist → (ℕ → ℕ) → ℕ → Playlist
grown fs p pl order now =
    let n = length fs in
    record pl {
      files = store (if ltb p pl.nf then memmove pl.files (p + n) p n else pl.files) p fs;
      order = order;
      nf = pl.nf + n;
      af = if ltb pl.af (pl.nf + n) then pl.nf + n + 16 else pl.af;
      now = now;
    }

-- Where the entries behind `p` are at most as many as the new ones, all find a place.
grown-named :
    (fs : List Name) (p : ℕ) (pl : Playlist) (k : ℕ)
    → ((k : ℕ) → k < pl.nf → pl.files k ≢ none)
    → p ≤ pl.nf
    → pl.nf ≤ p + length fs
    → k < pl.nf + length fs
    → store
        (if ltb p pl.nf then memmove pl.files (p + length fs) p (length fs) else pl.files)
        p
        fs
        k
      ≢ none
grown-named fs p pl k h le ge lt = elim (store_lem files p fs k) [
  | inl (a, b, c) ↦ c
  | inr (outside, e) ↦ rw e (moved outside)
]
  where
    n : ℕ
    n = length fs

    files : ℕ → Option Name
    files = if ltb p pl.nf then memmove pl.files (p + n) p n else pl.files

    moved : (k < p) ⊎ (p + n ≤ k) → files k ≢ none
    moved (inl x) = ground (arith, h k (omega arith))
    moved (inr x) =
        let b : leb (p + n) k && ltb k (p + n + n) ≡ true = ground arith in
        rw (lt→ltb p pl.nf (omega arith), b) (h (k - (p + n) + p) (omega arith))

pub grown-IsValid :
    (fs : List Name) (p : ℕ) {pl : Playlist} (order : ℕ → ℕ) (now : ℕ)
    → IsValid pl
    → p ≤ pl.nf
    → pl.nf ≤ p + length fs
    → IsOrder order (pl.nf + length fs)
    → (has pl.flags shuffle ≡ false → (k : ℕ) → k < pl.nf + length fs → order k ≡ k)
    → IsValid (grown fs p pl order now)
grown-IsValid fs p {pl} order now v le ge ordered plain = record {
  room = ground arith;
  named = λ k lt. grown-named fs p pl k v.named le ge lt;
  ordered = ordered;
  cur_pos = v.cur_pos;
  cur_in = omega (arith, v.cur_in);
  plain = plain;
}

-- The places that `pl_add` writes and moves to lie in the arrays.
room_enough :
    (p nf af : ℕ)
    → nf ≤ af
    → p ≤ nf
    → let af' = if ltb af (nf + 1) then nf + 1 + 16 else af in
      (ltb p nf && ltb af' (p + 1 + 1) || ltb af' (p + 1) && true) ≡ false
room_enough p nf af h le = ground arith

-- In a valid playlist, `pl_add` of one name at an index up to the length succeeds, and its play
-- order is again an order.
pub add-runs :
    (env : Env) (f : Name) (p : ℕ) {pl : Playlist}
    → IsValid pl
    → p ≤ pl.nf
    → (order : ℕ → ℕ) × (now : ℕ) × (add env (f ∷ []) (pos p) pl
        ≡ some (grown (f ∷ []) p pl order now))
      × IsOrder order (pl.nf + 1)
      × (has pl.flags shuffle ≡ false → (k : ℕ) → k < pl.nf + 1 → order k ≡ k)
unfolding add position
add-runs env f p {pl} v le = elim (Bool-cases (has pl.flags shuffle)) [
  | inl on ↦
      let (o, e, h) =
        shuffle_in-IsOrder pl.order (is_end pl.state) (pos_part pl.cur) pl.nf 1 (env.rand pl.now) 0
          pl.nf (pl.nf + 1) v.cur_in (omega arith) refl v.ordered in
      let e' : shuffle_in pl.order (is_end pl.state) pl.cur pl.nf 1 (env.rand pl.now) 0 pl.nf
          ≡ some o =
        rw v.cur_pos e in
      (o, pl.now + 1, rw (room, on, e'), h, λ off. cc)
  | inr off ↦
      (plain, pl.now, rw (room, off), λ x. count-id plain (pl.nf + 1) x (plain_lem off), plain_lem)
]
  where
    room :
        (ltb p pl.nf && ltb (if ltb pl.af (pl.nf + 1) then pl.nf + 1 + 16 else pl.af) (p + 1 + 1)
          || ltb (if ltb pl.af (pl.nf + 1) then pl.nf + 1 + 16 else pl.af) (p + 1) && true)
        ≡ false
    room = room_enough p pl.nf pl.af v.room le

    plain : ℕ → ℕ
    plain = store_id pl.order p (pl.nf + 1 - p)

    plain_lem : has pl.flags shuffle ≡ false → (k : ℕ) → k < pl.nf + 1 → plain k ≡ k
    plain_lem off k lt = elim (dec_lt k p) [
      | yes low ↦
          ground (arith, store_id_lem pl.order p (pl.nf + 1 - p) k, v.plain off k (omega arith))
      | no high ↦ ground (arith, store_id_lem pl.order p (pl.nf + 1 - p) k)
    ]

-- At the end, or before the last entry, the result is valid too.
pub add-grown :
    (env : Env) (f : Name) (p : ℕ) {pl : Playlist}
    → IsValid pl
    → p ≤ pl.nf
    → pl.nf ≤ p + 1
    → (order : ℕ → ℕ) × (now : ℕ) × (add env (f ∷ []) (pos p) pl
        ≡ some (grown (f ∷ []) p pl order now))
      × IsValid (grown (f ∷ []) p pl order now)
add-grown env f p v le ge =
    let (o, now, e, h, plain) = add-runs env f p v le in
    (o, now, e, grown-IsValid (f ∷ []) p o now v le ge h plain)
