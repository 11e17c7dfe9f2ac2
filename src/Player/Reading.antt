-- ===== src/Player/Reading.antt =====
-- The thread of read_stream: packets of data, flushes, and the end of the file.
use tcvp.Prelude.{
  ℕ, zero, suc, ◌+◌, ◌-◌, ◌%◌, ◌^◌, Bool, true, false, not, ◌||◌, ◌&&◌, List, [], ◌∷◌, ◌++◌, Option,
  none, some, ltb, leb, ◌==◌, if◌then◌else◌, update, length,
}
use tcvp.Player.State.{
  Packet, Probe, probe_none, probe_ok, probe_fail, probe_again, probe_discard, idle, SpStream, load,
  timer_reset, started, Shared, Player, Env, set_stream, note, note_if, never, Outcome,
  undefined_behaviour, done,
}
use tcvp.Player.Streams.{add_stream, del_stream, flush_stream, is_ok, is_none}

-- The clock starts with the first packet that has a time.
abbrev pub with_start : ℕ → Shared → Shared
with_start pts sh = record sh {
  starttime = pts;
  endtime = if sh.playtime == never then sh.endtime else (pts + sh.playtime) % 2 ^ 64;
}

unfoldable pub start_clock : ℕ → Player → Player
start_clock pts p =
    if p.shared.starttime == never
    then note (timer_reset pts) (record p { shared = with_start pts p.shared })
    else p

-- Behind the end time the packet is dropped, and the stream is no longer read. Else the first time is
-- the stream's.
abbrev pub timed : ℕ → ℕ → Packet → Player → Option Packet × Player
timed s pts pk p =
    if ltb p.shared.endtime pts
    then (none, record p { used = update p.used s false; nbuf = update p.nbuf s false })
    else if (p.streams s).starttime == never
    then (some pk, set_stream s (record (p.streams s) { starttime = pts }) p)
    else (some pk, p)

abbrev pub with_time : ℕ → Packet → Option ℕ → Player → Option Packet × Player
with_time s pk none p = (some pk, p)
with_time s pk (some pts) p = timed s pts pk (start_clock pts p)

unfoldable pub check_time : ℕ → Packet → Player → Option Packet × Player
unfolding start_clock
check_time s pk p = with_time s pk pk.pts p

abbrev pub head_of : ℕ → Option Packet → ℕ
head_of t none = t
head_of t (some pk) = elim pk.pts [ none ↦ t | some pts ↦ pts ]

-- `np > max_packets || (headtime - tailtime > buffertime && np > min_packets)`
abbrev pub is_full : Env → SpStream → ℕ → Bool
is_full env str np =
    ltb env.max_packets np
    || (ltb env.buffertime ((str.headtime + 2 ^ 64 - str.tailtime) % 2 ^ 64)
        && ltb env.min_packets np)

-- `case PROBE_OK`.
abbrev pub pushed_stream : Option Packet → List (Option Packet) → SpStream → SpStream
pushed_stream pk pks str = record str {
  packets = some (pks ++ (pk ∷ []));
  headtime = head_of str.headtime pk;
}

abbrev pub push_list : Env → ℕ → Option Packet → Option (List (Option Packet)) → Player → Player
push_list env s pk none p = p
push_list env s pk (some pks) p =
    let str = pushed_stream pk pks (p.streams s) in
    let full = is_ok str.probe && is_full env str (length pks + 1) in
    record p { streams = update p.streams s str; nbuf = update p.nbuf s (p.nbuf s && not full) }

unfoldable pub push_packet : Env → ℕ → Option Packet → Player → Player
push_packet env s pk p = push_list env s pk (p.streams s).packets p

-- `if(str->probe == PROBE_OK)`: the thread of the stream starts.
abbrev pub begin_playing : Env → ℕ → Player → Player
begin_playing env s p =
    let q = set_stream s (record (p.streams s) { th = idle }) (note load p) in
    note_if (env.has_start s && (p.streams s).running) (started s) q

abbrev pub probed : ℕ → Probe → Player → Player
probed s answer p =
    set_stream s (record (p.streams s) { probe = answer; nprobe = (p.streams s).nprobe + 1 }) p

abbrev pub given_up : Env → ℕ → Player → Player
given_up env s p = del_stream env s (record p { fail = p.fail + 1 })

-- What follows the call of `probe`; `nprobe` is not raised by a failure.
abbrev pub after_probe : Env → ℕ → Packet → Probe → Player → Player
after_probe env s pk probe_fail p =
    given_up env s (set_stream s (record (p.streams s) { probe = probe_fail }) p)
after_probe env s pk probe_ok p =
    if ltb env.max_probe (p.streams s).nprobe
    then given_up env s (probed s probe_ok p)
    else push_packet env s (some pk) (begin_playing env s (probed s probe_ok p))
after_probe env s pk probe_discard p =
    if ltb env.max_probe (p.streams s).nprobe
    then given_up env s (probed s probe_discard p)
    else flush_stream env s true (probed s probe_discard p)
after_probe env s pk probe_again p =
    if ltb env.max_probe (p.streams s).nprobe
    then given_up env s (probed s probe_again p)
    else push_packet env s (some pk) (probed s probe_again p)
after_probe env s pk probe_none p =
    if ltb env.max_probe (p.streams s).nprobe
    then given_up env s (probed s probe_none p)
    else push_packet env s (some pk) (probed s probe_none p)

-- A packet that was dropped, or a pipe that was closed, cannot be probed.
abbrev pub probe_packet : Env → ℕ → Probe → Option Packet → Player → Outcome Player
probe_packet env s answer none p = undefined_behaviour
probe_packet env s answer (some pk) p =
    if (p.streams s).opened then done (after_probe env s pk answer p) else undefined_behaviour

-- `switch(str->probe)`.
abbrev pub handle_probe : Env → ℕ → Probe → Probe → Option Packet → Player → Outcome Player
handle_probe env s answer probe_again pk p = probe_packet env s answer pk p
handle_probe env s answer probe_discard pk p = probe_packet env s answer pk p
handle_probe env s answer probe_ok pk p = done (push_packet env s pk p)
handle_probe env s answer probe_fail pk p = done p
handle_probe env s answer probe_none pk p = done p

unfoldable pub packet_of : Env → ℕ → Probe → Packet → Player → Outcome Player
unfolding check_time push_packet
packet_of env s answer pk p =
    let t = check_time s pk p in handle_probe env s answer ((t.1).streams s).probe (t.0) (t.1)

-- `if(pk->stream >= sp->nstreams || sp->smap[ps] < 0)`
abbrev pub is_new : ℕ → Player → Bool
is_new s p = leb p.nstreams s || is_none (p.smap s)

abbrev pub after_add : Env → ℕ → Probe → Packet → Outcome (Player × Bool) → Outcome Player
after_add env s answer pk undefined_behaviour = undefined_behaviour
after_add env s answer pk (done (p, true)) = packet_of env s answer pk p
after_add env s answer pk (done (p, false)) = done (del_stream env s p)

-- `do_data_packet` for the stream `s`, with what the pipe answers if it is probed.
unfoldable pub do_data_packet : Env → ℕ → Probe → Packet → Player → Outcome Player
unfolding add_stream packet_of
do_data_packet env s answer pk p =
    if is_new s p
    then after_add env s answer pk (add_stream env s p)
    else packet_of env s answer pk p

-- `tclist_push(sp->streams[i].packets, NULL)`, for the streams that have packets.
abbrev pub ended_list : Option (List (Option Packet)) → Option (List (Option Packet))
ended_list none = none
ended_list (some pks) = some (pks ++ (none ∷ []))

abbrev pub ended_stream : SpStream → SpStream
ended_stream str = record str { packets = ended_list str.packets }

abbrev pub end_all : ℕ → (ℕ → SpStream) → ℕ → SpStream
end_all n streams i = if ltb i n then ended_stream (streams i) else streams i

abbrev pub no_bits : ℕ → Bool
no_bits i = false

-- The end of `read_stream`: at the end of the file, and once the player was stopped.
unfoldable pub end_of_file : Player → Player
end_of_file p = record p { streams = end_all p.nstreams p.streams; nbuf = no_bits; reading = false }

unfoldable pub stop_reading : Player → Player
stop_reading p = record p { nbuf = no_bits; reading = false }

-- A flush of all streams, and of one of them; a flush of another one reads behind the array.
unfoldable pub flush_all : Env → ℕ → Bool → Player → Player
unfolding flush_stream
flush_all env zero drop p = p
flush_all env (suc n) drop p = flush_stream env n drop (flush_all env n drop p)
