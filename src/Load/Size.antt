-- ===== src/Load/Size.antt =====
-- The size that `load_ser` computes, and what it writes.
use tcvp.Prelude.{ℕ, ◌+◌, ◌≡◌, arith, List, [], ◌∷◌, ◌++◌, Option, length, length-append, ◌%◌}
use tcvp.Prelude.Wire.{Wire, Bytes, put32}
use tcvp.Load.Serial.{
  Format, audio, video, other, Stream, codec_name, put_format, format_size, put_stream, put_streams,
  streams_size, put_attributes, attributes_size, load_ser, load_size, get_attributes,
  attribute_names, put64,
}

length-put_format :
    (wire : Wire) (f : Format) (rest : Bytes)
    → length (put_format wire f rest) ≡ format_size f + length rest
unfolding put_format format_size
length-put_format wire (audio a b c) rest = omega arith
length-put_format wire (video a b c d) rest = omega arith
length-put_format wire (other t) rest = omega arith

length-put_streams :
    (wire : Wire) (ss : List Stream) (rest : Bytes)
    → length (put_streams wire ss rest) ≡ streams_size ss + length rest
unfolding put_streams put_stream streams_size
length-put_streams wire [] rest = omega arith
length-put_streams wire (s ∷ ss) rest = omega (
  arith,
  length-append (codec_name s.codec)
      (0 ∷ put32 wire s.bit_rate (put_format wire s.format (put_streams wire ss rest))),
  length-put_format wire s.format (put_streams wire ss rest),
  length-put_streams wire ss rest,
)

attributes_size_lem :
    (more : List (Bytes × Bytes)) → length (put_attributes more) ≡ attributes_size more
unfolding put_attributes attributes_size
attributes_size_lem [] = omega arith
attributes_size_lem ((n, v) ∷ more) = omega (
  arith,
  length-append n (0 ∷ (v ++ (0 ∷ put_attributes more))),
  length-append v (0 ∷ put_attributes more),
  attributes_size_lem more,
)

-- `load_ser` writes as many bytes before its final zero as it computes for the size that it reports.
pub length-load_ser :
    (wire : Wire) (name : Bytes) (time : ℕ) (streams : List Stream) (attr : Bytes → Option Bytes)
    → length (load_ser wire name time streams attr) ≡ load_size name streams attr
unfolding load_ser load_size
length-load_ser wire name time streams attr =
    let put = put_attributes (get_attributes attr attribute_names) in
    omega (
      arith,
      length-append name
          (0 ∷ put64 wire time (length streams % 256 ∷ put_streams wire streams put)),
      length-put_streams wire streams put,
      attributes_size_lem (get_attributes attr attribute_names),
    )
