-- ===== src/Playlist/Edit/Order.antt =====
-- What the loops of playlist.c over `order` do to the play order.
use tcvp.Prelude.{
  ℕ, zero, suc, ◌+◌, ◌-◌, ◌%◌, ◌≤◌, ◌<◌, ◌≡◌, refl, Bool, some, ltb, leb, ◌==◌, ◌&&◌, if◌then◌else◌,
  arith, update, count, within, count-update, count-update_above, count-insert, IsOrder,
  IsOrder-within, dec_lt, Bool-cases, inl, inr, ◌∙◌, ◌⊎◌, lt→ltb, le→ltb_false, lt→leb_false,
  le→leb,
}
use tcvp.Prelude.Int.{pos, ◌+ℤ◌, ◌-ℤ◌}
use tcvp.Playlist.Edit.{store_id, compact, shuffle_swaps, shuffle_in, not, memmove, slot}

pub store_id_lem :
    (o : ℕ → ℕ) (i n k : ℕ) → store_id o i n k ≡ (if leb i k && ltb k (i + n) then k else o k)
unfolding store_id
store_id_lem o i zero k = ground arith
store_id_lem o i (suc n) k = ground (arith, store_id_lem (update o i i) (suc i) n k)

-- Exchanging two of the first `m` elements changes no count.
count-swap :
    (o : ℕ → ℕ) (m i j v : ℕ)
    → i < m
    → j < m
    → count (update (update o i (o j)) j (o i)) m v ≡ count o m v
count-swap o m i j v hi hj = elim (Bool-cases (j == i)) [
  | inl e ↦
      let e' : j ≡ i = ground arith in
      ground (arith, count-update (update o i (o j)) m j (o i) v, count-update o m i (o j) v, e')
  | inr e ↦ ground (arith, count-update (update o i (o j)) m j (o i) v, count-update o m i (o j) v)
]

pub shuffle_swaps-count :
    (r : ℕ → ℕ) (o : ℕ → ℕ) (i n m v : ℕ)
    → i + n ≤ m
    → count (shuffle_swaps r o i n) m v ≡ count o m v
unfolding shuffle_swaps
shuffle_swaps-count r o i zero m v h = refl
shuffle_swaps-count r o i (suc n) m v h =
    let j = r i % suc i in
    shuffle_swaps-count r (update (update o i (o j)) j (o i)) (suc i) n m v (omega arith)
    ∙ count-swap o m i j v (omega arith) (omega arith)

-- The loop of `pl_remove` from `i`, with `j` elements kept, leaves the elements from `i` on alone
-- until it reads them.
record Gap (o0 : ℕ → ℕ) (s nr i : ℕ) (o : ℕ → ℕ) (j : ℕ) : Type 0 where
  kept : j + within o0 i s nr ≡ i
  below : (v : ℕ) → count o j v ≡ count o0 i (if ltb v s then v else v + nr)
  above : (k : ℕ) → i ≤ k → o k ≡ o0 k

Gap-start : (o : ℕ → ℕ) (s nr : ℕ) → Gap o s nr 0 o 0
unfolding count within
Gap-start o s nr = record { kept = refl; below = λ v. refl; above = λ k h. refl }

Gap-drop :
    (o0 : ℕ → ℕ) (s nr i : ℕ) (o : ℕ → ℕ) (j : ℕ)
    → Gap o0 s nr i o j
    → s ≤ o i
    → o i < s + nr
    → Gap o0 s nr (suc i) o j
unfolding count within
Gap-drop o0 s nr i o j g lo hi = record {
  kept = ground (arith, g.kept, g.above i);
  below = λ v. ground (arith, g.below v, g.above i);
  above = λ k h. g.above k (omega arith);
}

Gap-keep :
    (o0 : ℕ → ℕ) (s nr i : ℕ) (o : ℕ → ℕ) (j y : ℕ)
    → Gap o0 s nr i o j
    → (((o i < s) × (y ≡ o i)) ⊎ ((s + nr ≤ o i) × (y ≡ o i - nr)))
    → Gap o0 s nr (suc i) (update o j y) (suc j)
unfolding count within
Gap-keep o0 s nr i o j y g c = record {
  kept = ground (arith, g.kept, g.above i);
  below = λ v. ground (arith, g.below v, g.above i, count-update_above o j j y v);
  above = λ k h. ground (arith, g.kept, g.above k);
}

compact-Gap :
    (o0 : ℕ → ℕ) (s nr i : ℕ) (o : ℕ → ℕ) (j n m : ℕ)
    → i + n ≡ m
    → Gap o0 s nr i o j
    → (j' : ℕ) × Gap o0 s nr m (compact o s nr i j n) j'
unfolding compact
compact-Gap o0 s nr i o j zero m e g = let e' : i ≡ m = omega arith in (j, rw (← e') g)
compact-Gap o0 s nr i o j (suc n) m e g = elim (dec_lt (o i) s) [
  | yes lo ↦ rw (lt→ltb _ _ lo) (
      compact-Gap o0 s nr (suc i) _ _ n m (omega arith)
        (Gap-keep o0 s nr i o j (o i) g (inl (lo, refl))))
  | no hi ↦ elim (dec_lt (o i) (s + nr)) [
    | yes p ↦
        rw (le→ltb_false (o i) s (omega arith), lt→leb_false _ _ p)
          (compact-Gap o0 s nr (suc i) o j n m (omega arith)
            (Gap-drop o0 s nr i o j g (omega arith) p))
    | no q ↦
        rw (le→ltb_false (o i) s (omega arith), le→leb (s + nr) (o i) (omega arith))
          (compact-Gap o0 s nr (suc i) _ _ n m (omega arith)
            (Gap-keep o0 s nr i o j (o i - nr) g (inr (omega arith, refl))))
  ]
]

-- Closing the gap of the values from `s` to `s + nr` in an order of `n` leaves one of `n - nr`.
pub compact-IsOrder :
    (o : ℕ → ℕ) (s nr n : ℕ) → IsOrder o n → s + nr ≤ n → IsOrder (compact o s nr 0 0 n) (n - nr)
compact-IsOrder o s nr n h le v =
    let (j, g) = compact-Gap o s nr 0 o 0 n n (omega arith) (Gap-start o s nr) in
    let e : j ≡ n - nr = omega (arith, g.kept, IsOrder-within o n s nr h le) in
    rw (← e) (g.below v ∙ (h (if ltb v s then v else v + nr) ∙ ground arith))

count-insert_IsOrder :
    (o : ℕ → ℕ) (q nf : ℕ)
    → IsOrder o nf
    → q ≤ nf
    → IsOrder (update (memmove o (q + 1) q (nf - q)) q nf) (suc nf)
count-insert_IsOrder o q nf h le v = ground (arith, h v, count-insert o nf q nf nf v)

-- From a valid position `slot` is an index of the order or its end.
slot_lem :
    (at_end : Bool) (c nf0 nf x : ℕ)
    → c ≤ nf0
    → nf0 ≤ nf
    → (q : ℕ) × (slot at_end (pos c) nf0 nf x ≡ pos q) × (q ≤ nf)
unfolding slot ◌+ℤ◌ ◌-ℤ◌
slot_lem at_end c nf0 nf x h k = elim (dec_lt c nf) [
  | yes p ↦
      let m : x % (nf - c) < nf - c = omega arith in
      let j = x % (nf - c) in
      (c + (if ltb c nf0 && not at_end then j + 1 else j), ground arith, ground arith)
  | no p ↦ (c, ground arith, ground arith)
]

-- From a valid position the new entries are put in, each in a place of its own.
pub shuffle_in-IsOrder :
    (o : ℕ → ℕ) (at_end : Bool) (c nf0 n : ℕ) (r : ℕ → ℕ) (k nf m : ℕ)
    → c ≤ nf0
    → nf0 ≤ nf
    → nf + n ≡ m
    → IsOrder o nf
    → (o' : ℕ → ℕ) × (shuffle_in o at_end (pos c) nf0 n r k nf ≡ some o') × IsOrder o' m
unfolding shuffle_in
shuffle_in-IsOrder o at_end c nf0 zero r k nf m hc hn e h =
    let e' : nf ≡ m = omega arith in (o, refl, rw (← e') h)
shuffle_in-IsOrder o at_end c nf0 (suc n) r k nf m hc hn e h =
    let (q, eq, le) = slot_lem at_end c nf0 nf (r k) hc hn in
    rw (eq, shuffle_in, le→ltb_false nf q le)
      (shuffle_in-IsOrder (update (memmove o (q + 1) q (nf - q)) q nf) at_end c nf0 n r
        (if ltb (c + 0) (nf + 0) then k + 1 else k) (suc nf) m hc (omega arith) (omega arith)
        (count-insert_IsOrder o q nf h le))
