-- ===== src/Playlist/Control/Seek.antt =====
-- Seeking to an entry plays that entry, shuffled or not.
use tcvp.Prelude.{
  ℕ, zero, suc, ◌+◌, ◌≤◌, ◌<◌, ◌≡◌, ◌≢◌, refl, arith, ◌==◌, ◌⊎◌, inl, inr, Bool-cases, count,
  IsOrder, lt→ltb,
}
use tcvp.Prelude.Int.{pos}
use tcvp.Playlist.State.{Playlist, IsValid, has, shuffle, fetch}
use tcvp.Playlist.Control.{SeekHow, absolute, relative, other_how, find_order, seek_index}

-- The search stops at an index that holds `x`, or none does.
find_order_lem :
    (o : ℕ → ℕ) (x i n : ℕ)
    → ((find_order o x i n < i + n) × (o (find_order o x i n) ≡ x))
      ⊎ ((k : ℕ) → i ≤ k → k < i + n → o k ≢ x)
unfolding find_order
find_order_lem o x i zero = inr (λ k h1 h2. absurd (omega arith))
find_order_lem o x i (suc n) = elim (Bool-cases (o i == x)) [
  | inl e ↦ inl (rw e (omega arith, ground arith))
  | inr e ↦ elim (find_order_lem o x (suc i) n) [
    | inl (a, b) ↦ inl (rw e (omega arith, b))
    | inr none_behind ↦ inr (λ k h1 h2. elim (Bool-cases (k == i)) [
      | inl here ↦ let e' : k ≡ i = ground arith in rw e' (λ q. ground arith)
      | inr there ↦ none_behind k (ground arith) (omega arith)
    ])
  ]
]

count_absent : (o : ℕ → ℕ) (n x : ℕ) → ((k : ℕ) → k < n → o k ≢ x) → count o n x ≡ 0
unfolding count
count_absent o zero x h = refl
count_absent o (suc n) x h =
    ground (arith, h n (omega arith), count_absent o n x (λ k lt. h k (omega arith)))

find_order-found :
    (o : ℕ → ℕ) (n x : ℕ)
    → IsOrder o n
    → x < n
    → (find_order o x 0 n < n) × (o (find_order o x 0 n) ≡ x)
find_order-found o n x h lt = elim (find_order_lem o x 0 n) [
  | inl (a, b) ↦ (omega arith, b)
  | inr out ↦
      absurd (ground (arith, h x, count_absent o n x (λ k l. out k (omega arith) (omega arith))))
]

pub seek_index-lt :
    (how : SeekHow) {pl : Playlist} (x : ℕ) → IsValid pl → x < pl.nf → seek_index how pl x < pl.nf
unfolding seek_index
seek_index-lt absolute {pl} x v h = elim (Bool-cases (has pl.flags shuffle)) [
  | inl e ↦ rw e (find_order-found pl.order pl.nf x v.ordered h).0
  | inr e ↦ rw e h
]
seek_index-lt relative x v h = h
seek_index-lt other_how x v h = h

-- In a valid playlist the position that an absolute seek to `x` goes to is that of the entry `x` in
-- the play order, also when the order is shuffled.
pub seek_absolute :
    {pl : Playlist} (x : ℕ)
    → IsValid pl
    → x < pl.nf
    → (seek_index absolute pl x < pl.nf)
      × (pl.order (seek_index absolute pl x) ≡ x)
      × (fetch (record pl { cur = pos (seek_index absolute pl x) }) ≡ pl.files x)
unfolding seek_index fetch
seek_absolute {pl} x v h = elim (Bool-cases (has pl.flags shuffle)) [
  | inl e ↦
      let (lt, at) = find_order-found pl.order pl.nf x v.ordered h in
      rw e (lt, at, rw (lt→ltb _ _ lt, at, lt→ltb _ _ h))
  | inr e ↦ rw e (h, v.plain e x h, rw (lt→ltb _ _ h, v.plain e x h, lt→ltb _ _ h))
]
