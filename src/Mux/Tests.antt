-- ===== src/Mux/Tests.antt =====
-- A multiplexer of two streams, and the theorems at it.
use tcvp.Prelude.{ℕ, ◌≤◌, ◌<◌, ◌≡◌, refl, arith, true, none, some, if◌then◌else◌, ◌==◌}
use tcvp.Mux.Defs.{Mux, Packet, data_packet, ready, next_stream, least}
use tcvp.Mux.Order.{ready_earliest, some_ready}

abbrev two : Mux
two = record {
  streams = λ k. record { used = true; rate = 3; time = if k == 0 then 50 else 40 };
  nstreams = 2;
  tstreams = 2;
  waiting = 2;
}

abbrev packet : ℕ → Packet
packet k = data_packet k none none (some 100)

ready_earliest_example :
    (2 ≤ 2)
    × (1 < 2)
    × ((two.streams 1).used ≡ true)
    × ((l : ℕ) → l < 2 → (two.streams l).used ≡ true → 40 ≤ (two.streams l).time)
unfolding ready next_stream least
ready_earliest_example = ready_earliest two 1 none none (some 100) refl

some_ready_example : (k : ℕ) × (k < 2) × (ready (packet k) two ≡ true)
some_ready_example =
    some_ready two packet (omega arith) (λ l lt u. (none, none, some 100, refl)) 1 (omega arith)
      refl (omega arith)
