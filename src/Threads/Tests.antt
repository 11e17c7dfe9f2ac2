-- ===== src/Threads/Tests.antt =====
-- An output queue of two places, in which the second packet comes in before the first, and two threads.
use tcvp.Prelude.{
  ℕ, ◌+◌, ◌≡◌, refl, arith, List, [], ◌∷◌, none, some, update, segment, if◌then◌else◌, ◌==◌, ap,
}
use tcvp.Threads.Reorder.{Output, place, emit, out_index, comes, goes, here, next, fresh}
use tcvp.Threads.Queue.{Queue, enqueue, dequeue}
use tcvp.Threads.Fifo.{IsFifo, enqueue-IsFifo, dequeue-IsFifo}
use tcvp.Threads.InOrder.{sent_in_order}

abbrev source : ℕ → ℕ
source k = k + 10

abbrev early : Output ℕ
early = record { outq = update (λ i. none) 1 (some (11, 1)); tail = 0; oseq = 0 }

abbrev both : Output ℕ
both = record { outq = update early.outq 0 (some (10, 0)); tail = 0; oseq = 0 }

abbrev first_sent : Output ℕ
first_sent = record { outq = update both.outq 0 none; tail = 1; oseq = 1 }

abbrev both_sent : Output ℕ
both_sent = record { outq = update first_sent.outq 1 none; tail = 0; oseq = 2 }

sent_in_order_example : ◌≡◌ {A = List ℕ} (10 ∷ 11 ∷ []) (segment source 0 2)
unfolding place emit out_index
sent_in_order_example = sent_in_order 2 source {o = both_sent} {sent = 10 ∷ 11 ∷ []} (omega arith) (
    next
      (next
        (next (next here (comes (fresh 2) early [] 1 (omega arith) refl))
          (comes early both [] 0 (omega arith) refl))
        (goes both first_sent [] 10 refl))
      (goes first_sent both_sent (10 ∷ []) 11 refl))

-- The first thread has three packets left, the second none.
abbrev left : ℕ → ℕ
left k = if k == 0 then 3 else 0

abbrev numbered_source : ℕ → ℕ × ℕ
numbered_source k = (k + 10, k)

-- A queue of two places with one packet, the one with the number 0.
abbrev one_packet : Queue ℕ
one_packet = record { slots = λ k. some 10; seqs = λ k. 0; head = 0; tail = 1; nq = 1 }

one_packet-IsFifo : IsFifo 2 numbered_source 0 one_packet
one_packet-IsFifo = record {
  tail_in = omega arith;
  few = omega arith;
  head_at = refl;
  held = λ k lt. let e : 10 ≡ 0 + k + 10 = omega arith in ap some e;
  numbered = λ k lt. omega arith;
}

enqueue-IsFifo_example :
    (q : Queue ℕ) × (enqueue 2 11 1 one_packet ≡ some q) × IsFifo 2 numbered_source 0 q
enqueue-IsFifo_example =
    enqueue-IsFifo 2 numbered_source 0 one_packet (omega arith) one_packet-IsFifo

dequeue-IsFifo_example :
    (q : Queue ℕ) × (dequeue 2 one_packet ≡ some (q, some 10, 0)) × IsFifo 2 numbered_source 1 q
dequeue-IsFifo_example =
    dequeue-IsFifo 2 numbered_source 0 one_packet (omega arith) one_packet-IsFifo
