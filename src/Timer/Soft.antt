-- ===== src/Timer/Soft.antt =====
-- The clock of swtimer.c: the next time at which its thread wakes.
use tcvp.Prelude.{
  Option, none, some, not, true, false, refl, ◌<◌, ◌^◌, Bool-cases, inl, inr, ℕ, ◌+◌, ◌-◌, ◌*◌, ◌/◌,
  ◌≤◌, ◌≡◌, arith, ltb, if◌then◌else◌,
}

-- `struct timespec`
pub record Timespec : Type 0 where
  pub sec : ℕ
  pub nsec : ℕ

abbrev pub billion : ℕ
billion = 1000000000

-- `res` is the resolution in ticks of 27 MHz. Its product with 1000 is an `int`: `none` where that
-- overflows.
pub next_wake : ℕ → Timespec → Option Timespec
next_wake res t =
    let n = t.nsec + 1000 * res / 27 in
    if not (ltb (1000 * res) (2 ^ 31))
    then none
    else if ltb billion n
    then some (record { sec = t.sec + 1; nsec = n - billion })
    else some (record { sec = t.sec; nsec = n })

-- With a resolution whose product with 1000 is an `int`, which is one of less than 80 milliseconds, the
-- clock goes on by just that much, and the nanoseconds stay at most a billion.
pub next_wake_lem :
    (res : ℕ) (t : Timespec)
    → t.nsec ≤ billion
    → 1000 * res < 2 ^ 31
    → (w : Timespec) × (next_wake res t ≡ some w)
      × (w.sec * billion + w.nsec ≡ t.sec * billion + t.nsec + 1000 * res / 27)
      × (w.nsec ≤ billion)
unfolding next_wake
next_wake_lem res t h k =
    let small : ltb (1000 * res) (2 ^ 31) ≡ true = ground (arith, k) in
    elim (Bool-cases (ltb billion (t.nsec + 1000 * res / 27))) [
      | inl e ↦ (
        record { sec = t.sec + 1; nsec = t.nsec + 1000 * res / 27 - billion },
        rw (small, e) refl,
        ground (arith, e),
        ground (arith, e, h, k),
      )
      | inr e ↦ (
        record { sec = t.sec; nsec = t.nsec + 1000 * res / 27 },
        rw (small, e) refl,
        ground (arith, e),
        ground (arith, e, h, k),
      )
    ]

-- The test leaves a full billion standing, which is no valid number of nanoseconds.
pub next_wake_invalid :
    (res : ℕ) (t : Timespec)
    → 1000 * res < 2 ^ 31
    → t.nsec + 1000 * res / 27 ≡ billion
    → next_wake res t ≡ some (record { sec = t.sec; nsec = billion })
unfolding next_wake
next_wake_invalid res t k h =
    let small : ltb (1000 * res) (2 ^ 31) ≡ true = ground (arith, k) in
    let fits : ltb billion (t.nsec + 1000 * res / 27) ≡ false = ground (arith, h) in
    rw (small, fits, h) refl
