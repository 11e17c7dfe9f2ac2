-- ===== src/Mux/Order.antt =====
-- The packet that passes is the earliest.
use tcvp.Prelude.{
  ℕ, zero, suc, ◌+◌, ◌≤◌, ◌<◌, ◌≡◌, ◌⊎◌, inl, inr, refl, arith, true, ◌&&◌, Option, none, some, ltb,
  ◌==◌, Bool-cases,
}
use tcvp.Mux.Defs.{Stream, Mux, never, least, next_stream, Packet, data_packet, ready}

-- The result of the loop: a used stream whose time no used stream undercuts, the first of these,
-- or none below `t`.
abbrev pub IsLeast : (ℕ → Stream) → ℕ → ℕ → ℕ → ℕ → Type 0
IsLeast ss t i j k =
    (i ≤ k)
    × (k < j)
    × ((ss k).used ≡ true)
    × ((ss k).time < t)
    × ((l : ℕ) → i ≤ l → l < j → (ss l).used ≡ true → (ss k).time ≤ (ss l).time)

least_lem :
    (ss : ℕ → Stream) (t : ℕ) (s : Option ℕ) (i n j : ℕ)
    → i + n ≡ j
    → ((k : ℕ) × (least ss t s i n ≡ some k) × IsLeast ss t i j k)
      ⊎ ((least ss t s i n ≡ s) × ((l : ℕ) → i ≤ l → l < j → (ss l).used ≡ true → t ≤ (ss l).time))
unfolding least
least_lem ss t s i zero j e = inr (refl, λ l h1 h2 u. absurd (omega arith))
least_lem ss t s i (suc n) j e = elim (Bool-cases ((ss i).used && ltb (ss i).time t)) [
  | inl b ↦ rw b (elim (least_lem ss (ss i).time (some i) (suc i) n j (omega arith)) [
    | inl (k, r, h) ↦ inl (
      k,
      r,
      (
        omega arith,
        h.1,
        h.2,
        ground (arith, h.3),
        λ l h1 h2 u. elim (Bool-cases (l == i)) [
          | inl here ↦ let q : l ≡ i = ground arith in rw q (omega (arith, h.3))
          | inr there ↦ h.4 l (ground arith) h2 u
        ],
      ),
    )
    | inr (r, h) ↦ inl (
      i,
      r,
      (
        omega arith,
        omega arith,
        ground arith,
        ground arith,
        λ l h1 h2 u. elim (Bool-cases (l == i)) [
          | inl here ↦ let q : l ≡ i = ground arith in rw q (omega arith)
          | inr there ↦ h l (ground arith) h2 u
        ],
      ),
    )
  ])
  | inr b ↦ rw b (elim (least_lem ss t s (suc i) n j (omega arith)) [
    | inl (k, r, h) ↦ inl (
      k,
      r,
      (
        omega (arith, h.0),
        h.1,
        h.2,
        h.3,
        λ l h1 h2 u. elim (Bool-cases (l == i)) [
          | inl here ↦
              let q : l ≡ i = ground arith in
              let u' : (ss i).used ≡ true = rw q at u in rw q (ground (arith, h.3))
          | inr there ↦ h.4 l (ground arith) h2 u
        ],
      ),
    )
    | inr (r, h) ↦ inr (
      r,
      λ l h1 h2 u. elim (Bool-cases (l == i)) [
        | inl here ↦
            let q : l ≡ i = ground arith in
            let u' : (ss i).used ≡ true = rw q at u in rw q (ground arith)
        | inr there ↦ h l (ground arith) h2 u
      ],
    )
  ])
]

-- `next_stream` gives a used stream whose time is the least of the used ones; it gives none just
-- where no used stream has a time below the greatest.
pub next_stream_lem :
    (m : Mux)
    → ((k : ℕ) × (next_stream m ≡ some k) × IsLeast m.streams never 0 m.tstreams k)
      ⊎ ((next_stream m ≡ none)
          × ((l : ℕ) → l < m.tstreams → (m.streams l).used ≡ true → never ≤ (m.streams l).time))
unfolding next_stream
next_stream_lem m = elim (least_lem m.streams never none 0 m.tstreams m.tstreams (omega arith)) [
  | inl x ↦ inl x
  | inr (r, h) ↦ inr (r, λ l lt u. h l (omega arith) lt u)
]

-- A data packet that may pass is of a used stream, and no used stream has an earlier time; as many
-- packets wait as there are streams in use.
pub ready_earliest :
    (m : Mux) (s : ℕ) (dts pts size : Option ℕ)
    → ready (data_packet s dts pts size) m ≡ true
    → (m.nstreams ≤ m.waiting)
      × (s < m.tstreams)
      × ((m.streams s).used ≡ true)
      × ((l : ℕ)
          → l < m.tstreams
          → (m.streams l).used ≡ true
          → (m.streams s).time ≤ (m.streams l).time)
unfolding ready
ready_earliest m s dts pts size e = elim (next_stream_lem m) [
  | inr (r, h) ↦ absurd (ground (arith, r))
  | inl (k, r, h) ↦
      let q : k ≡ s = ground (arith, r) in
      (ground arith, rw q at h.1, rw q at h.2, λ l lt u. rw q at (h.4 l (omega arith) lt u))
]

-- Where at least as many packets wait as there are streams in use, one of each used stream, and some
-- used stream has a time below the greatest, one of these packets may pass.
pub some_ready :
    (m : Mux) (packets : ℕ → Packet)
    → m.nstreams ≤ m.waiting
    → ((l : ℕ)
        → l < m.tstreams
        → (m.streams l).used ≡ true
        → (dts : Option ℕ) × (pts : Option ℕ) × (size : Option ℕ) × (packets l
            ≡ data_packet l dts pts size))
    → (l : ℕ) → l < m.tstreams
    → (m.streams l).used ≡ true
    → (m.streams l).time < never
    → (k : ℕ) × (k < m.tstreams) × (ready (packets k) m ≡ true)
unfolding ready
some_ready m packets w ps l lt u small = elim (next_stream_lem m) [
  | inr (r, h) ↦ absurd (omega (arith, h l lt u))
  | inl (k, r, h) ↦ let (dts, pts, size, e) = ps k h.1 h.2 in (k, h.1, rw e (ground (arith, r)))
]
