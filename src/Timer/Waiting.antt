-- ===== src/Timer/Waiting.antt =====
-- When a thread that waits on the timer goes on, and with what result.
use tcvp.Prelude.{
  ℕ, ◌+◌, ◌≤◌, ◌<◌, ◌≡◌, ◌≢◌, ◌⊎◌, inl, inr, refl, arith, List, [], ◌∷◌, none, some, dec_lt,
}
use tcvp.Prelude.Int.{pos, negsuc}
use tcvp.Timer.Clock.{
  Mode, run, stop, pause, Real, Timer, Waiter, enter_wait, check_wait, interrupt, Op, tick_op,
  reset_op, wait_op, interrupt_op, start_op, stop_op, modulate_op, driver_op, apply, apply_all,
}

-- The numbers of the interrupted calls of `tm_wait` are taken.
abbrev pub IsCounted : {real : Real} → Timer real → Type 0
IsCounted t = t.intr ≤ t.wait

module _ {real : Real} where
  -- No operation takes an interrupt or a number back.
  pub apply_counts :
      (o : Op real) (t : Timer real)
      → IsCounted t
      → IsCounted (apply o t) × (t.intr ≤ (apply o t).intr) × (t.wait ≤ (apply o t).wait)
  unfolding apply
  apply_counts (tick_op n) t h = ground arith
  apply_counts (reset_op n) t h = ground arith
  apply_counts (wait_op n) t h = ground arith
  apply_counts interrupt_op t h = ground arith
  apply_counts start_op t h = ground arith
  apply_counts stop_op t h = ground arith
  apply_counts (modulate_op m) t h = ground arith
  apply_counts (driver_op b) t h = ground arith

  apply_all_counts :
      (os : List (Op real)) (t : Timer real) → IsCounted t → (t.intr ≤ (apply_all os t).intr)
  unfolding apply_all
  apply_all_counts [] t h = omega arith
  apply_all_counts (o ∷ os) t h =
      let (c, i, w) = apply_counts o t h in omega (arith, apply_all_counts os (apply o t) c)

  check_wait-released : (w : Waiter) (t : Timer real) → w.ticket ≤ t.intr → check_wait w t ≢ none
  unfolding check_wait
  check_wait-released w t h e = ground arith

  -- `tm_intr` ends every `tm_wait` that was entered before it, whatever happens until the waiting
  -- thread looks.
  pub interrupt_releases :
      (w : Waiter) (t : Timer real) (os : List (Op real))
      → IsCounted t
      → w.ticket ≤ t.wait
      → check_wait w (apply_all os (interrupt t)) ≢ none
  unfolding interrupt
  interrupt_releases w t os h k =
      check_wait-released w (apply_all os (interrupt t))
        (omega (arith, apply_all_counts os (interrupt t) (omega arith)))

  abbrev pub NoInterrupt : List (Op real) → Type 0
  NoInterrupt [] = Unit
  NoInterrupt (interrupt_op ∷ os) = ⊥
  NoInterrupt (o ∷ os) = NoInterrupt os

  apply_all-intr :
      (os : List (Op real)) (t : Timer real) → NoInterrupt os → (apply_all os t).intr ≡ t.intr
  unfolding apply_all apply
  apply_all-intr [] t h = refl
  apply_all-intr (tick_op n ∷ os) t h = ground (arith, apply_all-intr os (apply (tick_op n) t) h)
  apply_all-intr (reset_op n ∷ os) t h = apply_all-intr os (apply (reset_op n) t) h
  apply_all-intr (wait_op n ∷ os) t h = apply_all-intr os (apply (wait_op n) t) h
  apply_all-intr (interrupt_op ∷ os) t h = absurd h
  apply_all-intr (start_op ∷ os) t h = apply_all-intr os (apply start_op t) h
  apply_all-intr (stop_op ∷ os) t h = apply_all-intr os (apply stop_op t) h
  apply_all-intr (modulate_op m ∷ os) t h =
      ground (arith, apply_all-intr os (apply (modulate_op m) t) h)
  apply_all-intr (driver_op b ∷ os) t h = apply_all-intr os (apply (driver_op b) t) h

  check_wait-cases :
      (w : Waiter) (t : Timer real) (m : Mode)
      → t.mode ≡ m
      → t.intr < w.ticket
      → ((check_wait w t ≡ none) × (t.time < w.until) × (t.mode ≢ stop))
        ⊎ ((check_wait w t ≡ some (pos 0)) × (w.until ≤ t.time) × (t.mode ≡ run))
        ⊎ ((check_wait w t ≡ some (negsuc 0))
            × ((w.until ≤ t.time) ⊎ (t.mode ≡ stop))
            × (t.mode ≢ run))
  unfolding check_wait
  check_wait-cases w t run e h = elim (dec_lt t.time w.until) [
    | yes p ↦ inl (ground arith, p, λ x. ground arith)
    | no p ↦ inr (inl (ground arith, omega arith, e))
  ]
  check_wait-cases w t stop e h = inr (inr (ground arith, inr e, λ x. ground arith))
  check_wait-cases w t pause e h = elim (dec_lt t.time w.until) [
    | yes p ↦ inl (ground arith, p, λ x. ground arith)
    | no p ↦ inr (inr (ground arith, inl (omega arith), λ x. ground arith))
  ]

  -- Without an interrupt after its entry, `tm_wait` goes on waiting just as long as the time is not
  -- reached and the timer is not freed; then it returns 0 if the timer runs, and else -1.
  pub wait_uninterrupted :
      (until : ℕ) (t : Timer real) (os : List (Op real))
      → IsCounted t
      → NoInterrupt os
      → let (t1, w) = enter_wait until t in
        let t2 = apply_all os t1 in
        ((check_wait w t2 ≡ none) × (t2.time < until) × (t2.mode ≢ stop))
        ⊎ ((check_wait w t2 ≡ some (pos 0)) × (until ≤ t2.time) × (t2.mode ≡ run))
        ⊎ ((check_wait w t2 ≡ some (negsuc 0))
            × ((until ≤ t2.time) ⊎ (t2.mode ≡ stop))
            × (t2.mode ≢ run))
  unfolding enter_wait
  wait_uninterrupted until t os h k =
      let t1 = record t { wait = t.wait + 1 } in
      check_wait-cases (record { ticket = t.wait + 1; until = until }) (apply_all os t1)
        (apply_all os t1).mode refl (omega (arith, apply_all-intr os t1 k))
