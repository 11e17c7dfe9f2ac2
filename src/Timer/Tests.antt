-- ===== src/Timer/Tests.antt =====
-- Concrete clocks, and the theorems at them.
use tcvp.Prelude.{
  ℕ, ◌+◌, ◌*◌, ◌/◌, ◌≤◌, ◌<◌, ◌≡◌, ◌≢◌, ◌⊎◌, arith, false, [], ◌∷◌, none, some, ◌==◌,
}
use tcvp.Prelude.Int.{pos, negsuc}
use tcvp.Timer.Clock.{
  run, stop, pause, Real, Timer, Waiter, enter_wait, check_wait, interrupt, tick_op, start_op,
  apply_all,
}
use tcvp.Timer.Waiting.{interrupt_releases, wait_uninterrupted}
use tcvp.Timer.Soft.{Timespec, next_wake, next_wake_lem}

-- No modulation but that of a whole number of ticks.
abbrev whole : Real
whole = record {
  Double = ℕ;
  is_zero = λ d. d == 0;
  too_low = λ d. false;
  modulated = λ m left n. (n + n * m, left);
  zero_value = 0;
}

abbrev clock : Timer whole
clock = record {
  time = 5;
  intr = 0;
  wait = 2;
  mode = pause;
  driven = false;
  mod_by = 0;
  mticks = 0;
}

abbrev waiter : Waiter
waiter = record { ticket = 1; until = 100 }

interrupt_releases_example :
    check_wait waiter (apply_all {real = whole} (tick_op 3 ∷ start_op ∷ []) (interrupt clock))
    ≢ none
interrupt_releases_example =
    interrupt_releases waiter clock (tick_op 3 ∷ start_op ∷ []) (omega arith) (omega arith)

wait_uninterrupted_example :
    let (t1, w) = enter_wait 20 clock in
    let t2 = apply_all {real = whole} (start_op ∷ tick_op 30 ∷ []) t1 in
    ((check_wait w t2 ≡ none) × (t2.time < 20) × (t2.mode ≢ stop))
    ⊎ ((check_wait w t2 ≡ some (pos 0)) × (20 ≤ t2.time) × (t2.mode ≡ run))
    ⊎ ((check_wait w t2 ≡ some (negsuc 0)) × ((20 ≤ t2.time) ⊎ (t2.mode ≡ stop)) × (t2.mode ≢ run))
wait_uninterrupted_example =
    wait_uninterrupted 20 clock (start_op ∷ tick_op 30 ∷ []) (omega arith) tt

abbrev late : Timespec
late = record { sec = 7; nsec = 999000000 }

next_wake_lem_example :
    (w : Timespec) × (next_wake 27000 late ≡ some w)
    × (w.sec * 1000000000 + w.nsec ≡ 7 * 1000000000 + 999000000 + 1000 * 27000 / 27)
    × (w.nsec ≤ 1000000000)
next_wake_lem_example = next_wake_lem 27000 late (omega arith) (omega arith)
