-- ===== src/Mp3/Tests.antt =====
-- An AC-3 header, and a header of an MPEG-1 Layer III frame of 128 kbit/s at 44100 Hz.
use tcvp.Prelude.{refl, arith, ◌*◌, ◌^◌, ◌+◌}
use tcvp.Mp3.Mpeg1.{
  Frame, mp3_header, fill, second_fits, third_fits, version_of, layer_of, table_rate, frame,
  measures, nth,
}
use tcvp.Mp3.Ac3.{
  frame_size_at, ac3_header, ac3_fields, bits_init, bits_get, get_rounds, refill, mix_levels,
}
use tcvp.Mp3.Ac3Accepted.{IsAc3, ac3_header-IsAc3}
use tcvp.Mp3.Accepted.{IsMeasured, mp3_header-IsMeasured}

abbrev empty_frame : Frame
empty_frame = record {
  version = 0;
  layer = 0;
  bitrate = 0;
  sample_rate = 0;
  size = 0;
  samples = 0;
  channels = 0;
}

abbrev song_frame : Frame
song_frame = record {
  version = 3;
  layer = 2;
  bitrate = 128000;
  sample_rate = 44100;
  size = 417;
  samples = 1152;
  channels = 2;
}

mp3_header-IsMeasured_example : IsMeasured song_frame
unfolding mp3_header fill second_fits third_fits version_of layer_of table_rate frame measures nth
mp3_header-IsMeasured_example =
    mp3_header-IsMeasured 255 251 144 0 empty_frame song_frame (omega arith) (omega arith) refl

-- 384 kbit/s at 48000 Hz. The bit that the format has for the sixth channel is not the one read.
abbrev film_frame : Frame
film_frame = record {
  version = 0;
  layer = 4;
  bitrate = 384000;
  sample_rate = 48000;
  size = 1536;
  samples = 1536;
  channels = 5;
}

ac3_header-IsAc3_example : IsAc3 film_frame
unfolding ac3_header frame_size_at ac3_fields bits_init bits_get get_rounds refill mix_levels nth
ac3_header-IsAc3_example =
    ac3_header-IsAc3 77 (2935 * 2 ^ 16) (28 * 2 ^ 24 + 8 * 2 ^ 19 + 7 * 2 ^ 13 + 1 * 2 ^ 8)
      empty_frame film_frame refl
