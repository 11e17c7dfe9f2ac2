-- ===== src/Player/Streams.antt =====
-- Streams are added, deleted and flushed.
use tcvp.Prelude.{
  zero, suc, ℕ, ◌+◌, ◌-◌, Bool, true, false, not, ◌||◌, ◌&&◌, List, [], ◌∷◌, Option, none, some,
  ltb, leb, ◌==◌, if◌then◌else◌, update, suc,
}
use tcvp.Prelude.Int.{pos}
use tcvp.Player.State.{
  Thread, absent, over, idle, waiting, ready, down, same_int, Kind, video, audio, subtitle, other,
  Choice, by_number, by_language, Packet, Probe, probe_none, probe_ok, probe_fail, probe_again,
  probe_discard, stop, SpStream, state_end, state_error, flushed, Shared, Player, Env, never,
  zeroed, set_stream, note_if, Outcome, undefined_behaviour, done,
}

abbrev pub is_none : Option ℕ → Bool
is_none none = true
is_none (some n) = false

-- Two identifiers, or -1, are the same.
abbrev pub same_id : Option ℕ → Option ℕ → Bool
same_id none none = true
same_id none (some b) = false
same_id (some a) none = false
same_id (some a) (some b) = a == b

-- A step of the loop in `use_stream`: `u`, with the stream's language and the stream of its type.
abbrev pub choose_stream : ℕ → Option ℕ → Option ℕ → Choice → Bool → Bool
choose_stream sid lang shs (by_number n) u = n == sid
choose_stream sid none shs (by_language l) u = u
choose_stream sid (some lang) shs (by_language l) u = if is_none shs then lang == l else u

unfoldable pub choose_all : ℕ → Option ℕ → Option ℕ → List Choice → Bool → Bool
choose_all sid lang shs [] u = u
choose_all sid lang shs (c ∷ cs) u = choose_all sid lang shs cs (choose_stream sid lang shs c u)

-- The stream of a type that is played, -1 where there is none.
abbrev pub played : Shared → Kind → Option ℕ
played sh video = sh.vs
played sh audio = sh.au
played sh subtitle = sh.ss
played sh other = none

-- The language that is looked at.
abbrev pub spoken : Env → ℕ → Kind → Option ℕ
spoken env s video = none
spoken env s audio = env.language s
spoken env s subtitle = env.language s
spoken env s other = none

-- Without a setting.
abbrev pub by_default : Shared → Kind → Bool
by_default sh video = is_none sh.vs
by_default sh audio = is_none sh.au
by_default sh subtitle = false
by_default sh other = false

abbrev pub in_program : Option ℕ → ℕ → Bool
in_program none n = true
in_program (some m) n = m == n

abbrev pub by_setting : Env → Shared → ℕ → ℕ → Option (List Choice) → Bool
by_setting env sh sid s none =
    in_program env.setting_program (env.program s) && by_default sh (env.kind s)
by_setting env sh sid s (some cs) =
    choose_all sid (spoken env s (env.kind s)) (played sh (env.kind s)) cs false

abbrev pub is_other : Kind → Bool
is_other video = false
is_other audio = false
is_other subtitle = false
is_other other = true

-- `use_stream`, called with the identifier `sid` for the stream `s` of the file.
unfoldable pub use_stream : Env → Shared → ℕ → ℕ → Bool
unfolding choose_all
use_stream env sh sid s =
    if is_other (env.kind s) then false else by_setting env sh sid s (env.setting (env.kind s))

-- `sh->vs = sid` and the like.
abbrev pub set_played : Kind → ℕ → Shared → Shared
set_played video sid sh = record sh { vs = some sid }
set_played audio sid sh = record sh { au = some sid }
set_played subtitle sid sh = record sh { ss = some sid }
set_played other sid sh = sh

-- A stream with a pipe.
abbrev pub fresh_stream : SpStream → SpStream
fresh_stream str = record str {
  opened = true;
  packets = some [];
  probe = probe_again;
  owned = true;
  starttime = never;
}

-- What `add_stream` does once the arrays have an element for the stream: the player, and whether 0 is
-- returned.
abbrev pub open_stream : Env → ℕ → ℕ → Player → Player × Bool
open_stream env sid s p =
    if use_stream env p.shared sid s
    then (let q = record p { shared = set_played (env.kind s) sid p.shared } in
        if env.opens sid
        then (
          record q {
            pstreams = q.pstreams + 1;
            streams = update q.streams s (fresh_stream (q.streams s));
            used = update q.used s true;
            nbuf = update q.nbuf s (q.nbuf s || not (env.no_buffer s));
          },
          true,
        )
        else (record q { fail = q.fail + 1 }, false))
    else (record p { fail = p.fail + 1 }, false)

-- `sid++`, and `realloc` with `memset` for a stream that is the next one of the arrays.
abbrev pub grow_arrays : ℕ → Player → Player
grow_arrays s p =
    if leb p.nstreams s
    then record p { streams = update p.streams s zeroed; nstreams = suc s }
    else p

abbrev pub with_number : ℕ → Player → Player
with_number s p = record p {
  smap = update p.smap s (some p.shared.sid);
  used = update p.used s false;
  shared = record p.shared { sid = p.shared.sid + 1 };
}

-- The threads of play_stream keep a pointer to their element of the array until they are over.
abbrev pub has_thread : Thread → Bool
has_thread absent = false
has_thread over = false
has_thread idle = true
has_thread waiting = true
has_thread ready = true

unfoldable pub any_thread : (ℕ → SpStream) → ℕ → Bool
any_thread streams zero = false
any_thread streams (suc n) = has_thread (streams n).th || any_thread streams n

-- `add_stream`. For a stream behind the next one `memset` writes behind the arrays, and for one from
-- the 64th on there is no bit in `nbuf`, neither here nor when it is deleted. Where `realloc` is called
-- while a thread plays, that thread may go on in memory that is freed.
unfoldable pub add_stream : Env → ℕ → Player → Outcome (Player × Bool)
unfolding use_stream any_thread
add_stream env s p =
    if ltb p.nstreams s || (leb p.nstreams s && any_thread p.streams p.nstreams) || not (ltb s 64)
    then undefined_behaviour
    else done (open_stream env p.shared.sid s (with_number s (grow_arrays s p)))

-- `sh->vs = -1` and `sh->as = -1`.
abbrev pub unset_played : Option ℕ → Shared → Shared
unset_played i sh =
    if same_id i sh.vs
    then record sh { vs = none }
    else if same_id i sh.au
    then record sh { au = none }
    else sh

-- `if(str->sp)`: the last stream of a file ends it, and the last file the whole.
abbrev pub last_stream : Player → Player
last_stream p =
    let q = record p {
      pstreams = 0;
      state = stop;
      shared = record p.shared { players = down p.shared.players };
    } in
    note_if (same_int (down p.shared.players) (pos 0)) state_end q

abbrev pub count_down : Player → Player
count_down p = if p.pstreams == 1 then last_stream p else record p { pstreams = p.pstreams - 1 }

abbrev pub closed_stream : SpStream → SpStream
closed_stream str = record str { opened = false; packets = none }

abbrev pub closed : ℕ → Player → Player
closed s p = record p {
  streams = update p.streams s (closed_stream (p.streams s));
  used = update p.used s false;
  nbuf = update p.nbuf s false;
  shared = unset_played (p.smap s) p.shared;
}

-- `del_stream`.
unfoldable pub del_stream : Env → ℕ → Player → Player
del_stream env s p =
    let q = note_if (p.fail == env.n_streams) state_error (closed s p) in
    if (p.streams s).owned then count_down q else q

abbrev pub is_ok : Probe → Bool
is_ok probe_ok = true
is_ok probe_none = false
is_ok probe_fail = false
is_ok probe_again = false
is_ok probe_discard = false

-- `flush_stream`, for a stream that has a list of packets.
abbrev pub flushed_stream : Env → ℕ → Bool → List (Option Packet) → Player → Player
flushed_stream env s drop pks p =
    let str = p.streams s in
    let q =
      note_if str.opened (flushed s drop)
        (set_stream s (record str { packets = some (if drop then [] else pks) }) p) in
    record q { nbuf = update q.nbuf s (q.nbuf s || (is_ok str.probe && not (env.no_buffer s))) }

abbrev pub flush_list : Env → ℕ → Bool → Option (List (Option Packet)) → Player → Player
flush_list env s drop none p = p
flush_list env s drop (some pks) p = flushed_stream env s drop pks p

unfoldable pub flush_stream : Env → ℕ → Bool → Player → Player
flush_stream env s drop p = flush_list env s drop (p.streams s).packets p
