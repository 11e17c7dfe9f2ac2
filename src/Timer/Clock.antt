-- ===== src/Timer/Clock.antt =====
-- The timer of timer.c (`atimer_t`), its operations, and the threads that wait on it.
use tcvp.Prelude.{
  ℕ, ◌+◌, ◌%◌, ◌^◌, Bool, true, false, not, ◌&&◌, List, [], ◌∷◌, Option, none, some, ltb,
  if◌then◌else◌, ◌-◌, ◌++◌,
}
use tcvp.Prelude.Int.{ℤ, pos, negsuc}

-- RUN, STOP, PAUSE.
pub data Mode : Type 0 where
  run stop pause : Mode

-- What the timer calls of its driver.
pub data DriverCall : Type 0 where
  unset_timer set_timer start_driver stop_driver release_driver : DriverCall

-- The arithmetic on `double`: is it 0, is it at most -1, and for `mod`, `mticks` and a number of
-- ticks the ticks with the whole part of the modulation, and the fraction that is left.
pub record Real : Type 1 where
  pub Double : Type 0
  pub is_zero : Double → Bool
  pub too_low : Double → Bool
  pub modulated : Double → Double → ℕ → ℕ × Double
  pub zero_value : Double

module _ (real : Real) where
  open real use {Double, is_zero, too_low, modulated, zero_value}

  pub record Timer : Type 0 where
    pub time : ℕ
    pub intr : ℕ
    pub wait : ℕ
    pub mode : Mode
    pub driven : Bool
    pub mod_by : Double
    pub mticks : Double

-- A call of `tm_wait` that has taken its number: `ticket` is the local `wait`.
pub record Waiter : Type 0 where
  pub ticket : ℕ
  pub until : ℕ

abbrev pub is_stop : Mode → Bool
is_stop stop = true
is_stop _ = false

abbrev pub is_run : Mode → Bool
is_run run = true
is_run _ = false

abbrev pub if_driven : Bool → List DriverCall → List DriverCall
if_driven true calls = calls
if_driven false calls = []

module _ {real : Real} where
  open real use {Double, is_zero, too_low, modulated, zero_value}

  -- `tm_new`, with the configured modulation
  unfoldable pub new_timer : Double → Timer real
  new_timer m = record {
    time = 0;
    intr = 0;
    wait = 0;
    mode = pause;
    driven = false;
    mod_by = m;
    mticks = zero_value;
  }

  -- The start of `tm_wait`: `wait = ++at->wait`.
  unfoldable pub enter_wait : ℕ → Timer real → Timer real × Waiter
  enter_wait until t =
      (record t { wait = t.wait + 1 }, record { ticket = t.wait + 1; until = until })

  -- The loop of `tm_wait` at a time when the thread looks: `none` if it goes on waiting, and else
  -- the result. `intr` is set only where the other two tests hold.
  unfoldable pub check_wait : Waiter → Timer real → Option ℤ
  check_wait w t =
      if ltb t.time w.until && not (is_stop t.mode)
      then (if ltb t.intr w.ticket then none else some (negsuc 0))
      else some (if is_run t.mode then pos 0 else negsuc 0)

  unfoldable pub read_time : Timer real → ℕ
  read_time t = t.time

  unfoldable pub reset : ℕ → Timer real → Timer real
  reset time t = record t { time = time }

  unfoldable pub interrupt : Timer real → Timer real
  interrupt t = record t { intr = t.wait }

  unfoldable pub start : Timer real → Timer real × List DriverCall
  start t = (record t { mode = run }, if_driven t.driven (start_driver ∷ []))

  unfoldable pub stop_timer : Timer real → Timer real × List DriverCall
  stop_timer t = (record t { mode = pause }, if_driven t.driven (stop_driver ∷ []))

  -- `at->time += ticks` of 64 bits, while the timer runs.
  unfoldable pub advance : ℕ → Timer real → Timer real
  advance ticks t = if is_run t.mode then record t { time = (t.time + ticks) % 2 ^ 64 } else t

  unfoldable pub tick : ℕ → Timer real → Timer real
  unfolding advance
  tick ticks t =
      if is_zero t.mod_by
      then advance ticks t
      else let (ticks', left) = modulated t.mod_by t.mticks ticks in
        advance ticks' (record t { mticks = left })

  unfoldable pub modulate : Double → Timer real → Timer real × ℤ
  modulate m t = if too_low m then (t, negsuc 0) else (record t { mod_by = m }, pos 0)

  -- The new driver, if there is one, is started while the timer runs.
  unfoldable pub set_driver : Bool → Timer real → Timer real × List DriverCall
  set_driver there t =
      let old = if_driven t.driven (unset_timer ∷ stop_driver ∷ release_driver ∷ []) in
      (
        record t { driven = there },
        old ++ if_driven there (set_timer ∷ if_driven (is_run t.mode) (start_driver ∷ [])),
      )

  -- `free_timer`, as far as the threads see it that still wait.
  unfoldable pub free_timer : Timer real → Timer real × List DriverCall
  free_timer t = (
    record t { mode = stop; time = 2 ^ 64 - 1 },
    if_driven t.driven (unset_timer ∷ release_driver ∷ []),
  )

-- The operations that other threads call, and the entering of `tm_wait`.
pub data Op (real : Real) : Type 0 where
  tick_op reset_op wait_op : ℕ → Op real
  interrupt_op start_op stop_op : Op real
  modulate_op : real.Double → Op real
  driver_op : Bool → Op real

module _ {real : Real} where
  unfoldable pub apply : Op real → Timer real → Timer real
  unfolding tick reset enter_wait interrupt start stop_timer modulate set_driver
  apply (tick_op n) t = tick n t
  apply (reset_op n) t = reset n t
  apply (wait_op n) t = (enter_wait n t).0
  apply interrupt_op t = interrupt t
  apply start_op t = (start t).0
  apply stop_op t = (stop_timer t).0
  apply (modulate_op m) t = (modulate m t).0
  apply (driver_op b) t = (set_driver b t).0

  unfoldable pub apply_all : List (Op real) → Timer real → Timer real
  apply_all [] t = t
  apply_all (o ∷ os) t = apply_all os (apply o t)
