-- ===== src/Lib.antt =====
-- The verification library of TCVP, a modular media player in C. Its modules talk by events and packets:
-- the event types are registered by name, the playlist answers events and tells the player what to open
-- and start, a demuxer splits a file into packets, which filters and the multiplexer pass on, and the
-- timer tells the outputs when a packet is due.
--
-- Playlist.antt and below model src/playlist/playlist.c: `State` has the struct, `Edit` the functions
-- that change the entries and the play order (pl_add, pl_remove, pl_shuffle, pl_flags), `Control` those
-- that move in it (pl_start, pl_next) and the event handlers epl_*, `Lines` and `Auto` the adding of
-- playlists in playlists (pl_addlist, pl_addauto), `Machine` the dispatch of events, and `Serial` the
-- byte strings of the events TCVP_PL_ADD and TCVP_PL_CONTENT. The fuel of `add_list` is how deep
-- playlists name one another; a rank of the files, which falls from a playlist to what it names, is
-- enough. Positions and counts are integers without bound, but for those that the source converts
-- to 32 bits. The random numbers, the clock, and the functions that open streams are parameters.
--
-- Events.antt and below model src/event/event.c: `Registry` has the table of event types and the calls on
-- it, with the hash table of libtc as an interface and its laws, and `Loop` is event_loop over the
-- events that are received. A pointer to an event type stands as its number.
--
-- Timer.antt and below: `Clock` is src/timer/frontend/timer.c, where a waiting thread is the number it
-- took and the time it waits for, and `Soft` the wake-up times of src/timer/backends/soft/swtimer.c.
-- The arithmetic on `double` is a parameter.
--
-- Mux.antt and below model src/demuxer/mux/mux.c: mux_packet is cut at its wait into `arrive`, `ready`
-- and `depart`.
--
-- Threads.antt and below model src/filters/threads/threads.c: `Queue` has the queues of the threads and
-- the choice of a thread, `Choice` a lemma on it, `Reorder` the queue in which the packets are put in order again, with the
-- interleaving of the threads as a step relation. The waits are the cases in which a step is not
-- possible.
--
-- Mp3.antt and below model frame headers of src/demuxer/mp3: `Mpeg1` is mpeg1.c and `Ac3` is ac3.c with
-- the reading of bits of include/tcvp_bits.h, whose fuel is the number of bits. What stands in memory
-- behind the table of the AC-3 frame sizes is an argument, since the reserved rate reads it.
--
-- Mpeg.antt and below model the packets of MPEG streams in src/demuxer/mpeg: `Pes` has write_pes_header
-- and mpegpes_header of mpeg.c, `Ts` the writing of packets in mpegtsmux.c, `TsRead` a round of the loop
-- in mpegts_read_packet of mpegts.c, `Clock` the packets with the clock. A buffer that is read is a
-- function of the index, and what a field held before is an argument. `Crc` is crc32.c, `PsiWrite` the
-- tables of programs that mpegtsmux.c writes, `Psi` the loop of mpegts_do_psi that puts sections together,
-- whose fuel is the number of bytes, `Tables` what mpegts.c reads from them, and `DoPsi` the whole of
-- mpegts_do_psi. `Es` has mpegts_do_es and the loop of mpegts_input over the data of a packet, whose fuel
-- is the number of bytes. An access outside of what is allocated is an outcome of its own.
--
-- Id3.antt and below model the tags of src/demuxer/mp3/id3.c: `Tag` has id3v2_write_tag and `Read`
-- id3v2_tag, on the bytes that lie ahead of the position in the file, where a seek forward drops bytes, and
-- `Old` id3v1_tag, on the last 128 bytes. The conversion of texts by iconv is a parameter.
--
-- Matroska.antt and below model src/demuxer/matroska on the bytes that lie ahead in the file: `Ebml`
-- has ebml_get_int, ebml_get_vint, ebml_element and ebml_read_elements of ebml.c, the last with a fuel
-- for its turns (as many as bytes lie ahead, and one, are enough), and `Block` has xiph_int, msk_block and what
-- msk_packet does with the frames of a block. The forms of numbers, elements and laces that Vint,
-- Elements, Laced and RoundTrip define are the format, not code. Where a read or write outside an
-- array or another undefined operation would happen, the readers answer `overrun`.
--
-- Player.antt and below model src/player/play.c. `State` is stream_player_t with the shared tcvp_player
-- and a log of what is called outside (the pipes, the timer, events), and an Env with what play.c asks
-- of the file, the settings and the pipes; the answer of a pipe is an argument. `Streams` has
-- use_stream, add_stream, del_stream and flush_stream, `Threads` waitplay and play_stream, `Reading`
-- do_data_packet and read_stream, `Control` s_play and the functions of its pipe, and `Steps` the
-- relation of the steps that the threads take. What runs under the lock is one step; do_data_packet is
-- one too, although it takes the lock in parts, and a packet is input in the step that takes it from
-- its list. A NULL packet is `none`, and a use of NULL, of memory behind an array or of an undefined
-- shift is `undefined_behaviour`. The call of realloc while a
-- thread keeps a pointer into the array is such a use. `Channel` has what is seen of a stream from
-- outside, its list and what the log says its pipe was given, and `Content` the packets of both.
-- stream_time and new_pipe are not modelled: they ask the filters.
--
-- Database.antt and below model db_query of src/database/db.c, with the hash table of libtc as an
-- interface (`Hash`) and strings without their final zero. A read at NULL is the reply `null_read`,
-- and one behind the end of the query `read_past`.
--
-- Load.antt and below model load_ser and load_deser of src/tcvp/event.c, which send what is known of an
-- opened file to another process. A read past the bytes of the event is a result of its own.
--
-- Cdxa.antt and below model the seeking in src/demuxer/mpeg/cdxa.c, and Crop.antt and below
-- src/filters/crop/crop.c, with tcreduce of libtc as a parameter.
--
-- Prelude.antt and below have what these share: tests, lists, arrays, integers, bits and bytes.
--
-- Not modelled are the wrappers of codec, device and window libraries, the user interfaces, the inputs,
-- the table of the databases, and the other demuxers, of the MPEG demuxers the descriptors and the search for a sync
-- byte; memory that is freed, locks, and messages that are printed are
-- left out of what is modelled.
pub mod Prelude
pub mod Playlist
pub mod Timer
pub mod Cdxa
pub mod Crop
pub mod Database
pub mod Events
pub mod Id3
pub mod Load
pub mod Matroska
pub mod Player
pub mod Mp3
pub mod Mpeg
pub mod Mux
pub mod Threads
