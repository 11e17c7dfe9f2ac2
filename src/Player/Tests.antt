-- ===== src/Player/Tests.antt =====
-- A file with one audio stream, played to its end.
use tcvp.Prelude.{◌≡◌, refl, true, false, [], ◌∷◌, ◌++◌, Option, none, some}
use tcvp.Prelude.Int.{pos}
use tcvp.Player.State.{
  ready, audio, Packet, probe_ok, idle, state_end, load, timer_reset, flushed, fed, Shared, Player,
  Env, never, Outcome, undefined_behaviour, done,
}
use tcvp.Player.Streams.{add_stream}
use tcvp.Player.Threads.{begin_wait, play_turn}
use tcvp.Player.Reading.{start_clock, do_data_packet, end_of_file}
use tcvp.Player.Control.{s_play, s_start, empty_player}
use tcvp.Player.Sound.{IsSound}
use tcvp.Player.Steps.{turns, Reach, waits, reads, ends, starts, made, then_step}
use mathlib.Core.List.{Sublist}
use tcvp.Player.Channel.{channel, fed_to}
use tcvp.Player.Content.{content, data_of}
use tcvp.Player.Comes.{do_data_packet-comes}
use tcvp.Player.InOrder.{Reach-InOrder, read_for}
use tcvp.Player.Made.{Reach-IsSound}

abbrev song : Env
song = record {
  n_streams = 1;
  kind = λ s. audio;
  language = λ s. none;
  program = λ s. 0;
  no_buffer = λ s. false;
  setting = λ k. none;
  setting_program = none;
  opens = λ s. true;
  has_start = λ s. false;
  has_stop = λ s. false;
  buffertime = 1000;
  min_packets = 2;
  max_packets = 10;
  max_probe = 5;
  synctime = false;
}

abbrev nothing_yet : Shared
nothing_yet = record {
  sid = 0;
  vs = none;
  au = none;
  ss = none;
  starttime = never;
  endtime = never;
  playtime = never;
  players = pos 0;
  nready = pos 0;
}

abbrev player_of : Outcome Player → Player
player_of undefined_behaviour = empty_player nothing_yet
player_of (done p) = p

abbrev made_of : Outcome (Option Player) → Player
made_of undefined_behaviour = empty_player nothing_yet
made_of (done none) = empty_player nothing_yet
made_of (done (some p)) = p

abbrev sound_packet : Packet
sound_packet = record { pts = some 500; content = 7 }

unfoldable at_first : Player
unfolding s_play
at_first = made_of (s_play song nothing_yet)

unfoldable read_one : Player
unfolding do_data_packet
read_one = player_of (do_data_packet song 0 probe_ok sound_packet at_first)

unfoldable about_to_play : Player
unfolding begin_wait
about_to_play = begin_wait 0 (s_start (end_of_file read_one))

unfoldable played_one : Player
unfolding play_turn
played_one = play_turn song 0 true about_to_play

unfoldable at_end : Player
unfolding play_turn begin_wait
at_end = play_turn song 0 true (begin_wait 0 played_one)

-- The packet is played, then the stream is flushed and ended, and its end is that of all.
log_at_end :
    at_end.log
    ≡ timer_reset 500
      ∷ load
      ∷ fed 0 (some sound_packet)
      ∷ flushed 0 false
      ∷ fed 0 none
      ∷ state_end
      ∷ []
unfolding at_end played_one about_to_play read_one at_first s_start end_of_file
log_at_end = refl

-- A stream behind the next one.
far_stream : add_stream song 3 (empty_player nothing_yet) ≡ undefined_behaviour
unfolding add_stream
far_stream = refl

-- Once the end time is over a stream that is still probed gets a packet that is NULL.
late_packet :
    do_data_packet song 0 probe_ok sound_packet
      (record at_first { shared = record at_first.shared { starttime = 1; endtime = 100 } })
    ≡ undefined_behaviour
unfolding do_data_packet at_first
late_packet = refl

first_made : s_play song nothing_yet ≡ done (some at_first)
unfolding at_first s_play
first_made = refl

first_reading : at_first.reading ≡ true
unfolding at_first s_play
first_reading = refl

one_read : do_data_packet song 0 probe_ok sound_packet at_first ≡ done read_one
unfolding read_one at_first do_data_packet
one_read = refl

one_reading : read_one.reading ≡ true
unfolding read_one at_first
one_reading = refl

begins_idle : ((s_start (end_of_file read_one)).streams 0).th ≡ idle
unfolding read_one at_first s_start end_of_file
begins_idle = refl

reach_read : Reach song read_one
reach_read =
    then_step (made at_first nothing_yet first_made)
      (reads at_first read_one 0 probe_ok sound_packet first_reading one_read)

reach_about : Reach song about_to_play
unfolding about_to_play
reach_about =
    then_step
      (then_step (then_step reach_read (ends read_one one_reading)) (starts (end_of_file read_one)))
      (waits (s_start (end_of_file read_one)) 0 begins_idle)

Reach-IsSound_example : IsSound about_to_play
Reach-IsSound_example = Reach-IsSound song reach_about

ready_now : (about_to_play.streams 0).th ≡ ready
unfolding about_to_play read_one at_first s_start end_of_file
ready_now = refl

reach_played : Reach song played_one
unfolding played_one
reach_played = then_step reach_about (turns about_to_play 0 true ready_now)

-- The packet that was read is in the pipe.
played_content : content (channel 0 played_one) ≡ sound_packet ∷ []
unfolding played_one about_to_play read_one at_first s_start end_of_file data_of fed_to
played_content = refl

Reach-InOrder_example : Sublist (content (channel 0 played_one)) (read_for song 0 reach_played)
Reach-InOrder_example = Reach-InOrder song 0 reach_played

abbrev next_packet : Packet
next_packet = record { pts = some 600; content = 8 }

do_data_packet-comes_example :
    (q : Player) × (do_data_packet song 0 probe_ok next_packet read_one ≡ done q)
    × (content (channel 0 q) ≡ content (channel 0 read_one) ++ (next_packet ∷ []))
unfolding read_one at_first start_clock
do_data_packet-comes_example =
    do_data_packet-comes song 0 probe_ok next_packet read_one (some sound_packet ∷ []) refl refl
      refl refl
