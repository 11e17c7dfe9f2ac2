-- ===== src/Threads/Choice.antt =====
-- The choice of the thread that gets the next packet.
use tcvp.Prelude.{
  ℕ, zero, suc, ◌+◌, ◌-◌, ◌^◌, ◌≤◌, ◌<◌, ◌≡◌, ◌⊎◌, inl, inr, refl, arith, ltb, ◌==◌, Bool-cases,
  some, not, true, Option, ◌&&◌, Bool, none,
}
use tcvp.Threads.Queue.{same_thread, shortest, choose, Chooser}

-- A thread from `i` on, before `j`, with fewer than `m` packets, and no thread there has less.
abbrev IsShortest : (ℕ → ℕ) → ℕ → ℕ → ℕ → ℕ → Type 0
IsShortest nq m i j k = (i ≤ k) × (k < j) × (nq k < m) × ((l : ℕ) → i ≤ l → l < j → nq k ≤ nq l)

shortest-loop :
    (nq : ℕ → ℕ) (m t i n j : ℕ)
    → i + n ≡ j
    → IsShortest nq m i j (shortest nq m t i n)
      ⊎ ((shortest nq m t i n ≡ t) × ((l : ℕ) → i ≤ l → l < j → m ≤ nq l))
unfolding shortest
shortest-loop nq m t i zero j e = inr (refl, λ l h1 h2. absurd (omega arith))
shortest-loop nq m t i (suc n) j e = elim (Bool-cases (ltb (nq i) m)) [
  | inl b ↦ rw b (elim (shortest-loop nq (nq i) i (suc i) n j (omega arith)) [
    | inl h ↦ inl (
      omega (arith, h.0),
      h.1,
      ground (arith, h.2),
      λ l h1 h2. elim (Bool-cases (l == i)) [
        | inl here ↦ let q : l ≡ i = ground arith in rw q (omega (arith, h.2))
        | inr there ↦ h.3 l (ground arith) h2
      ],
    )
    | inr (r, h) ↦ inl (
        rw r (
          omega arith,
          omega arith,
          ground arith,
          λ l h1 h2. elim (Bool-cases (l == i)) [
            | inl here ↦ let q : l ≡ i = ground arith in rw q (omega arith)
            | inr there ↦ h l (ground arith) h2
          ],
        ))
  ])
  | inr b ↦ rw b (elim (shortest-loop nq m t (suc i) n j (omega arith)) [
    | inl h ↦ inl (
      omega (arith, h.0),
      h.1,
      h.2,
      λ l h1 h2. elim (Bool-cases (l == i)) [
        | inl here ↦ let q : l ≡ i = ground arith in rw q (ground (arith, h.2))
        | inr there ↦ h.3 l (ground arith) h2
      ],
    )
    | inr (r, h) ↦ inr (
      r,
      λ l h1 h2. elim (Bool-cases (l == i)) [
        | inl here ↦ let q : l ≡ i = ground arith in rw q (ground arith)
        | inr there ↦ h l (ground arith) h2
      ],
    )
  ])
]

shortest_lem :
    (nq : ℕ → ℕ) (n : ℕ)
    → 0 < n
    → ((l : ℕ) → l < n → nq l < 2 ^ 32 - 1)
    → IsShortest nq (2 ^ 32 - 1) 0 n (shortest nq (2 ^ 32 - 1) 0 0 n)
shortest_lem nq n h small = elim (shortest-loop nq (2 ^ 32 - 1) 0 0 n n (omega arith)) [
  | inl x ↦ x
  | inr (r, all) ↦ absurd (omega (arith, all 0 (omega arith) h, small 0 h))
]

-- What the choice promises of its result.
abbrev pub IsChoice : ℕ → (ℕ → ℕ) → Option ℕ → Chooser × ℕ × Bool → Type 0
IsChoice nthreads nq cur r =
    (r.0.cur ≡ some r.1)
    × (r.2 ≡ not (same_thread cur r.1))
    × ((same_thread cur r.1 ≡ true) ⊎ ((l : ℕ) → l < nthreads → nq r.1 ≤ nq l))

choose-fields :
    (nthreads npk : ℕ) (nq : ℕ → ℕ) (cur : Option ℕ) (k : ℕ)
    → 0 < nthreads
    → ((l : ℕ) → l < nthreads → nq l < 2 ^ 32 - 1)
    → IsChoice nthreads nq cur (choose nthreads npk nq (record { cur = cur; pkc = k }))
unfolding choose
choose-fields n npk nq none k h small =
    (refl, refl, inr (λ l lt. (shortest_lem nq n h small).3 l (omega arith) lt))
choose-fields n npk nq (some u) k h small = elim (Bool-cases (not (nq u == 0) && ltb npk (k + 1))) [
  | inl b ↦ rw b (elim (Bool-cases (u == shortest nq (2 ^ 32 - 1) 0 0 n)) [
    | inl e ↦ rw e (refl, ground arith, inl (ground arith))
    | inr e ↦
        rw e (refl, ground arith, inr (λ l lt. (shortest_lem nq n h small).3 l (omega arith) lt))
  ])
  | inr b ↦ rw b (refl, ground arith, inl (ground arith))
]

-- The next packet goes to the current thread, or to one with the fewest packets; it is marked just
-- where the thread changes.
pub choose_lem :
    (nthreads npk : ℕ) (nq : ℕ → ℕ) (c : Chooser)
    → 0 < nthreads
    → ((l : ℕ) → l < nthreads → nq l < 2 ^ 32 - 1)
    → ((choose nthreads npk nq c).0.cur ≡ some (choose nthreads npk nq c).1)
      × ((choose nthreads npk nq c).2 ≡ not (same_thread c.cur (choose nthreads npk nq c).1))
      × ((same_thread c.cur (choose nthreads npk nq c).1 ≡ true)
          ⊎ ((l : ℕ) → l < nthreads → nq (choose nthreads npk nq c).1 ≤ nq l))
choose_lem n npk nq c h small = choose-fields n npk nq c.cur c.pkc h small
