-- ===== src/Playlist/Edit/Valid.antt =====
-- The editing operations of playlist.c keep a valid playlist valid.

use tcvp.Prelude.{
  refl, ℕ, zero, suc, ◌+◌, ◌-◌, ◌≤◌, ◌<◌, ◌≡◌, ◌≢◌, true, some, none, ltb, leb, ◌&&◌, arith, update,
  memmove, min, length, Bool-cases, inl, inr, List, [], ◌∷◌, ◌⊎◌, dec_lt, lt→ltb, le→ltb_false,
  lt→leb_false, le→leb, IsOrder, ◌∙◌, count-id,
}
use tcvp.Prelude.Bits.{bit_xor-one}
use tcvp.Prelude.Int.{ℤ, pos, negsuc, pos_part, ◌-ℤ◌, ltb_ℤ}
use tcvp.Playlist.State.{Name, Playlist, IsValid}
use tcvp.Playlist.Edit.{
  store, to_u32, compact, close_gap, start_of, remove_at, remove, Option, shuffle_order, Env, Bool,
  has, set_flags, shuffle, bit_xor, false, shuffle_swaps, store_id,
}
use tcvp.Playlist.Edit.Order.{compact-IsOrder, shuffle_swaps-count, store_id_lem}

-- Writing the new names at `p` leaves every other element alone.
pub store_lem :
    (files : ℕ → Option Name) (p : ℕ) (fs : List Name) (k : ℕ)
    → ((p ≤ k) × (k < p + length fs) × (store files p fs k ≢ none))
      ⊎ ((k < p ⊎ p + length fs ≤ k) × (store files p fs k ≡ files k))
unfolding store
store_lem files p [] k = ground arith
store_lem files p (f ∷ fs) k = ground (arith, store_lem (update files p (some f)) (suc p) fs k)

close_gap_lem :
    (c s nr nf : ℕ)
    → c ≤ nf
    → s + nr ≤ nf
    → (close_gap (pos c) s nr ≡ pos (pos_part (close_gap (pos c) s nr)))
      × (pos_part (close_gap (pos c) s nr) ≤ nf - nr)
unfolding close_gap ◌-ℤ◌
close_gap_lem c s nr nf h k = ground arith

-- Compacting the identity gives the identity.
compact-plain :
    (o : ℕ → ℕ) (s nr i j n k : ℕ)
    → ((k : ℕ) → i ≤ k → k < i + n → o k ≡ k)
    → ((k : ℕ) → k < j → o k ≡ k)
    → ((i ≤ s) × (j ≡ i)) ⊎ ((s ≤ i) × (i ≤ s + nr) × (j ≡ s)) ⊎ ((s + nr ≤ i) × (j + nr ≡ i))
    → k + nr < i + n
    → compact o s nr i j n k ≡ k
unfolding compact
compact-plain o s nr i j zero k ho hb hj hk = hb k (omega arith)
compact-plain o s nr i j (suc n) k ho hb hj hk = elim (dec_lt i s) [
  | yes lo ↦
      rw (oi, lt→ltb i s lo)
        (compact-plain (update o j i) s nr (suc i) (suc j) n k
          (λ m h1 h2. ground (arith, ho m (omega arith) (omega arith)))
          (λ m h1. ground (arith, hb m)) (omega arith) (omega arith))
  | no hi ↦ elim (dec_lt i (s + nr)) [
    | yes p ↦
        rw (oi, le→ltb_false i s (omega arith), lt→leb_false (s + nr) i p)
          (compact-plain o s nr (suc i) j n k (λ m h1 h2. ho m (omega arith) (omega arith)) hb
            (omega arith) (omega arith))
    | no q ↦
        rw (oi, le→ltb_false i s (omega arith), le→leb (s + nr) i (omega arith))
          (compact-plain (update o j (i - nr)) s nr (suc i) (suc j) n k
            (λ m h1 h2. ground (arith, ho m (omega arith) (omega arith)))
            (λ m h1. ground (arith, hb m)) (omega arith) (omega arith))
  ]
]
  where
    oi : o i ≡ i
    oi = ho i (omega arith) (omega arith)

remove_at-named :
    (s nr nf k : ℕ) (files : ℕ → Option Name)
    → ((k : ℕ) → k < nf → files k ≢ none)
    → s + nr ≤ nf
    → k < nf - nr
    → memmove files s (s + nr) (nf - s - nr) k ≢ none
remove_at-named s nr nf k files h le lt = elim (Bool-cases (leb s k && ltb k (s + (nf - s - nr)))) [
  | inl e ↦ rw e (h (k - s + (s + nr)) (ground arith))
  | inr e ↦ rw e (h k (ground arith))
]

pub remove_at-IsValid :
    (s un : ℕ) {pl : Playlist} → s ≤ pl.nf → IsValid pl → IsValid (remove_at s un pl)
unfolding remove_at
remove_at-IsValid s un {pl} h v = record {
  room = ground (arith, v.room);
  named = λ k lt. remove_at-named s nr pl.nf k pl.files v.named (omega arith) lt;
  ordered = compact-IsOrder pl.order s nr pl.nf v.ordered (omega arith);
  cur_pos = gap.0;
  cur_in = gap.1;
  plain = λ e k lt.
      compact-plain pl.order s nr 0 0 pl.nf k (λ m h1 h2. v.plain e m (omega arith))
        (λ m h1. absurd (omega arith)) (omega arith) (omega arith);
}
  where
    nr : ℕ
    nr = min (pl.nf - s) un

    gap :
        (close_gap pl.cur s nr ≡ pos (pos_part (close_gap pl.cur s nr)))
        × (pos_part (close_gap pl.cur s nr) ≤ pl.nf - nr)
    gap = rw v.cur_pos (close_gap_lem (pos_part pl.cur) s nr pl.nf v.cur_in (omega arith))

-- `pl_remove` with any arguments keeps a valid playlist valid.
pub remove-IsValid : (s n : ℤ) {pl : Playlist} → IsValid pl → IsValid (remove s n pl)
unfolding remove start_of
remove-IsValid s n {pl} v = elim (Bool-cases (ltb_ℤ s (pos pl.nf))) [
  | inl e ↦ rw e (remove_at-IsValid (start_of s pl.nf) (to_u32 n) (start_of-le s pl.nf e) v)
  | inr e ↦ rw e v
]
  where
    start_of-le : (s : ℤ) (nf : ℕ) → ltb_ℤ s (pos nf) ≡ true → start_of s nf ≤ nf
    start_of-le (pos x) nf e = ground arith
    start_of-le (negsuc x) nf e = ground arith

with_order-IsValid :
    {pl : Playlist} (o : ℕ → ℕ) (now flags : ℕ)
    → IsValid pl
    → IsOrder o pl.nf
    → (has flags shuffle ≡ false → (k : ℕ) → k < pl.nf → o k ≡ k)
    → IsValid (record pl { order = o; flags = flags; now = now })
with_order-IsValid o now flags v ordered plain = record {
  room = v.room;
  named = v.named;
  ordered = ordered;
  cur_pos = v.cur_pos;
  cur_in = v.cur_in;
  plain = plain;
}

-- `pl_flags` with any flags keeps a valid playlist valid.
pub set_flags-IsValid :
    (env : Env) (flags : ℕ) {pl : Playlist} → IsValid pl → IsValid (set_flags env flags pl).0
unfolding set_flags
set_flags-IsValid env flags {pl} v = elim (Bool-cases (has (bit_xor pl.flags flags) shuffle)) [
  | inl e ↦ rw e (turned (has flags shuffle) refl)
  | inr e ↦ rw e (with_order-IsValid pl.order pl.now flags v v.ordered (λ f. v.plain (was_off e f)))
]
  where
    was_off :
        has (bit_xor pl.flags flags) shuffle ≡ false
        → has flags shuffle ≡ false
        → has pl.flags shuffle ≡ false
    was_off e f = ground (arith, bit_xor-one pl.flags flags)

    turned :
        (on : Bool)
        → has flags shuffle ≡ on
        → IsValid (record (shuffle_order env on pl) { flags = flags })
    turned true f =
        unfold shuffle_order in
        with_order-IsValid (shuffle_swaps (env.rand pl.now) pl.order 0 pl.nf) (pl.now + 1) flags v
          (λ x.
            shuffle_swaps-count (env.rand pl.now) pl.order 0 pl.nf pl.nf x (omega arith)
            ∙ v.ordered x)
          (λ e. cc)
    turned false f =
        unfold shuffle_order in
        with_order-IsValid (store_id pl.order 0 pl.nf) pl.now flags v
          (λ x. count-id (store_id pl.order 0 pl.nf) pl.nf x (λ k h. stored k h))
          (λ e k h. stored k h)
      where
        stored : (k : ℕ) → k < pl.nf → store_id pl.order 0 pl.nf k ≡ k
        stored k h = ground (arith, store_id_lem pl.order 0 pl.nf k)
