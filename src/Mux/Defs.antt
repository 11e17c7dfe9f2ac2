-- ===== src/Mux/Defs.antt =====
-- The multiplexer (`mux_t`), `mux_packet` at its two halves before and after the wait, and
-- `mux_probe`.
use tcvp.Prelude.{
  ℕ, zero, suc, ◌+◌, ◌-◌, ◌*◌, ◌/◌, ◌%◌, ◌^◌, Bool, false, not, ◌&&◌, ◌||◌, Option, none, some, ltb,
  ◌==◌, if◌then◌else◌, update,
}

-- An element of `streams`.
pub record Stream : Type 0 where
  pub used : Bool
  pub rate : ℕ
  pub time : ℕ

-- `streams` is an array of `tstreams` elements, of which `nstreams` are in use.
pub record Mux : Type 0 where
  pub streams : ℕ → Stream
  pub nstreams : ℕ
  pub tstreams : ℕ
  pub waiting : ℕ

-- `-1LL` as a `uint64_t`
abbrev pub never : ℕ
never = 2 ^ 64 - 1

-- The loop of `next_stream` over `n` streams from `i` on, with the least time `t` so far and its
-- stream.
unfoldable pub least : (ℕ → Stream) → ℕ → Option ℕ → ℕ → ℕ → Option ℕ
least ss t s i zero = s
least ss t s i (suc n) =
    let better = (ss i).used && ltb (ss i).time t in
    least ss (if better then (ss i).time else t) (if better then some i else s) (suc i) n

-- `none` is -1.
unfoldable pub next_stream : Mux → Option ℕ
next_stream m = least m.streams never none 0 m.tstreams

-- A packet: of data of a stream, with its times as far as its flags say that they are set, and the
-- size of its first plane, `none` for the packet without data that ends a stream; or another one.
pub data Packet : Type 0 where
  data_packet : ℕ → Option ℕ → Option ℕ → Option ℕ → Packet
  other_packet : Packet

abbrev pub set_time : ℕ → ℕ → Mux → Mux
set_time s t m =
    let old = m.streams s in
    record m {
      streams = update m.streams s (record { used = old.used; rate = old.rate; time = t });
    }

-- `mux_packet` up to the wait.
unfoldable pub arrive : Packet → Mux → Mux
arrive (data_packet s (some dts) pts size) m =
    let m1 = set_time s dts m in record m1 { waiting = m1.waiting + 1 }
arrive (data_packet s none (some pts) size) m =
    let m1 = set_time s pts m in record m1 { waiting = m1.waiting + 1 }
arrive (data_packet s none none size) m = record m { waiting = m.waiting + 1 }
arrive other_packet m = record m { waiting = m.waiting + 1 }

abbrev pub is_stream : Option ℕ → ℕ → Bool
is_stream none s = false
is_stream (some k) s = k == s

-- The condition of the wait, denied: the packet may pass.
unfoldable pub ready : Packet → Mux → Bool
ready (data_packet s dts pts size) m = not (ltb m.waiting m.nstreams) && is_stream (next_stream m) s
ready other_packet m = not (ltb m.waiting m.nstreams)

-- An `int` product, which wraps, as a `uint64_t`.
abbrev pub int_product : ℕ → ℕ → ℕ
int_product a b = let w = a * b % 2 ^ 32 in if ltb w (2 ^ 31) then w else w + 2 ^ 64 - 2 ^ 32

-- `mux_packet` after the wait.
unfoldable pub depart : Packet → Mux → Mux
depart (data_packet s dts pts (some size)) m =
    let m1 = set_time s (((m.streams s).time + int_product size (m.streams s).rate) % 2 ^ 64) m in
    record m1 { waiting = m1.waiting - 1 }
depart (data_packet s dts pts none) m =
    let m1 = set_time s never m in
    record m1 { nstreams = m1.nstreams - 1; waiting = m1.waiting - 1 }
depart other_packet m = record m { waiting = m.waiting - 1 }

-- A stream that was not there before.
abbrev pub no_stream : Stream
no_stream = record { used = false; rate = 0; time = 0 }

-- `realloc` and `memset` for the index `idx`.
unfoldable pub grow : ℕ → Mux → Mux
grow idx m = if ltb idx m.tstreams then m else record m {
  streams = λ k.
      if ltb k m.tstreams then m.streams k else if ltb k (idx + 1) then no_stream else m.streams k;
  tstreams = idx + 1;
}

-- `mux_probe` of the stream `idx`, with its bit rate and the answer of the next pipe.
unfoldable pub probe : ℕ → ℕ → Bool → Mux → Mux
unfolding grow
probe idx bit_rate accepted m =
    let g = grow idx m in
    let old = g.streams idx in
    let rate = if bit_rate == 0 then old.rate else 27000000 * 8 / bit_rate in
    record g {
      streams =
          update g.streams idx
            (record { used = accepted || old.used; rate = rate; time = old.time });
      nstreams = if accepted then g.nstreams + 1 else g.nstreams;
    }
