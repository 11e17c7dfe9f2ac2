-- ===== src/Load/Tests.antt =====
-- A stream with a video and an audio stream, its bytes, and the theorems at it.
use tcvp.Prelude.{
  ℕ, ◌≡◌, refl, arith, List, [], ◌∷◌, Option, none, some, length, ◌==◌, if◌then◌else◌, map,
}
use tcvp.Prelude.Wire.{Bytes, big_endian}
use tcvp.Load.Serial.{
  audio, video, Stream, load_ser, load_deser, load_size, get_attributes, attribute_names, ok, null,
  overrun,
}
use tcvp.Load.Trip.{named, load_deser-ser}

abbrev movie : List Stream
movie =
    record {
      used = 1;
      codec = some (b'v' ∷ b'1' ∷ []);
      bit_rate = 3000000;
      format = video 25 1 720 576;
    }
    ∷ record { used = 0; codec = none; bit_rate = 128000; format = audio 44100 2 0 }
    ∷ []

-- Only the title is set.
abbrev titled : Bytes → Option Bytes
titled n = if length n == 5 then some (b'N' ∷ b'o' ∷ []) else none

abbrev event_name : Bytes
event_name = b'L' ∷ []

load_deser-ser_example :
    load_deser big_endian (load_ser big_endian event_name 100000000000 movie titled)
    ≡ ok (record {
      time = 100000000000;
      streams = map named movie;
      attributes = get_attributes titled attribute_names;
    })
load_deser-ser_example =
    load_deser-ser big_endian event_name 100000000000 movie titled (omega arith) (omega arith)
      (omega arith) (omega arith) (omega arith)

-- The reader takes a short header for no event, and reads past the end of a stream's numbers.
short_headers :
    (load_deser big_endian (b'L' ∷ 0 ∷ 0 ∷ []) ≡ null)
    × (load_deser big_endian (b'L' ∷ 0 ∷ 0 ∷ 0 ∷ 0 ∷ 0 ∷ 0 ∷ 0 ∷ 0 ∷ 7 ∷ 1 ∷ 1 ∷ 2 ∷ b'v' ∷ 0 ∷ [])
        ≡ overrun)
unfolding load_deser tcvp.Prelude.Wire.split_zero tcvp.Load.Serial.get_stream
short_headers = (refl, refl)
