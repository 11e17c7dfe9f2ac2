-- ===== src/Player/State.antt =====
-- The state of `stream_player_t` and `tcvp_player`, and what is called while it changes.
use tcvp.Prelude.Int.{ℤ, pos, negsuc}
use tcvp.Prelude.{
  zero, suc, ◌==◌, ℕ, ◌^◌, ◌-◌, Bool, true, false, List, [], ◌∷◌, ◌++◌, Option, none, update,
}

-- The types of a stream.
pub data Kind : Type 0 where
  video audio subtitle other : Kind

-- What a setting names: a stream by its number, or by its language.
pub data Choice : Type 0 where
  by_number by_language : ℕ → Choice

-- A packet of data, with `pts` where `TCVP_PKT_FLAG_PTS` is set.
pub record Packet : Type 0 where
  pub pts : Option ℕ
  pub content : ℕ

-- `probe`: 0 before anything was probed, then a result of a pipe.
pub data Probe : Type 0 where
  probe_none probe_ok probe_fail probe_again probe_discard : Probe

-- `state`
pub data State : Type 0 where
  run pause stop : State

-- The places of a thread in `play_stream`: there is none; at the call of `waitplay`; in its loop; behind
-- it; over.
pub data Thread : Type 0 where
  absent idle waiting ready over : Thread

-- `struct sp_stream`, where `opened` says that `pipe` and `end` are not NULL, `owned` that `sp` is not.
-- A packet that is NULL is `none`.
pub record SpStream : Type 0 where
  pub opened : Bool
  pub packets : Option (List (Option Packet))
  pub starttime : ℕ
  pub headtime : ℕ
  pub tailtime : ℕ
  pub probe : Probe
  pub nprobe : ℕ
  pub th : Thread
  pub running : Bool
  pub owned : Bool

-- What the threads do outside the state. `fed s none` is the packet without data that ends a stream.
pub data Effect : Type 0 where
  state_end state_error load : Effect
  timer_reset : ℕ → Effect
  timer_start timer_stop : Effect
  started stopped : ℕ → Effect
  flushed : ℕ → Bool → Effect
  fed : ℕ → Option Packet → Effect

-- `struct tcvp_player`; `players` is its `nstreams`, and -1 is `none`.
pub record Shared : Type 0 where
  pub sid : ℕ
  pub vs : Option ℕ
  pub au : Option ℕ
  pub ss : Option ℕ
  pub starttime : ℕ
  pub endtime : ℕ
  pub playtime : ℕ
  pub players : ℤ
  pub nready : ℤ

-- `stream_player_t`; `used` is `used_streams` of its file, `nbuf` the bits of the field, and `reading`
-- says that `read_stream` has not ended.
pub record Player : Type 0 where
  pub streams : ℕ → SpStream
  pub smap : ℕ → Option ℕ
  pub nstreams : ℕ
  pub pstreams : ℕ
  pub fail : ℕ
  pub waiting : ℕ
  pub nbuf : ℕ → Bool
  pub used : ℕ → Bool
  pub state : State
  pub reading : Bool
  pub shared : Shared
  pub log : List Effect

-- The file, the settings and the pipes, as far as play.c asks them. `setting` is `none` where
-- tcconf_getvalue does not answer 0 for the type of stream. `opens sid` says that `new_pipe`
-- makes a pipe, `has_start` and `has_stop` that its end has these functions.
pub record Env : Type 0 where
  pub n_streams : ℕ
  pub kind : ℕ → Kind
  pub language : ℕ → Option ℕ
  pub program : ℕ → ℕ
  pub no_buffer : ℕ → Bool
  pub setting : Kind → Option (List Choice)
  pub setting_program : Option ℕ
  pub opens : ℕ → Bool
  pub has_start : ℕ → Bool
  pub has_stop : ℕ → Bool
  pub buffertime : ℕ
  pub min_packets : ℕ
  pub max_packets : ℕ
  pub max_probe : ℕ
  pub synctime : Bool

-- `-1LL` as a `uint64_t`
abbrev pub never : ℕ
never = 2 ^ 64 - 1

-- `++` and `--` on an `int`.
abbrev pub up : ℤ → ℤ
up (pos n) = pos (suc n)
up (negsuc zero) = pos 0
up (negsuc (suc n)) = negsuc n

abbrev pub down : ℤ → ℤ
down (pos zero) = negsuc 0
down (pos (suc n)) = pos n
down (negsuc n) = negsuc (suc n)

abbrev pub same_int : ℤ → ℤ → Bool
same_int (pos a) (pos b) = a == b
same_int (negsuc a) (negsuc b) = a == b
same_int (pos a) (negsuc b) = false
same_int (negsuc a) (pos b) = false

-- What `memset` leaves of a stream.
abbrev pub zeroed : SpStream
zeroed = record {
  opened = false;
  packets = none;
  starttime = 0;
  headtime = 0;
  tailtime = 0;
  probe = probe_none;
  nprobe = 0;
  th = absent;
  running = false;
  owned = false;
}

abbrev pub set_stream : ℕ → SpStream → Player → Player
set_stream s str p = record p { streams = update p.streams s str }

abbrev pub note : Effect → Player → Player
note e p = record p { log = p.log ++ (e ∷ []) }

abbrev pub note_if : Bool → Effect → Player → Player
note_if true e p = note e p
note_if false e p = p

-- What a function does: it ends with a value, or there is a read or write outside an array, a use of
-- NULL, or an undefined shift.
pub data Outcome (A : Type 0) : Type 0 where
  undefined_behaviour : Outcome A
  done : A → Outcome A
