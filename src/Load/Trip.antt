-- ===== src/Load/Trip.antt =====
-- The event TCVP_LOAD read back from its bytes.
use tcvp.Prelude.{
  ℕ, zero, suc, ◌%◌, ◌^◌, ◌≤◌, ◌<◌, ◌≡◌, ◌≢◌, refl, arith, false, List, [], ◌∷◌, ◌++◌, none, some,
  length, ltb, All, ◌==◌, ap, map, length-append, Option, ◌/◌, ◌*◌, ◌+◌,
}
use tcvp.Prelude.Wire.{Wire, Bytes, IsText, put32, split_zero, split_zero-append}
use tcvp.Load.Serial.{
  Format, audio, video, other, stream_type, Stream, codec_name, put_format, put_stream, put_streams,
  put_attributes, ok, get_format, get_stream, get_streams, load_attributes, cons_stream, load_deser,
  get_attributes, load_ser, attribute, attribute_names, put64,
}

-- The numbers fit 32 bits, and another type is none of those that have fields.
abbrev pub FitsFormat : Format → Type 0
FitsFormat (audio a b c) = (a < 2 ^ 32) × (b < 2 ^ 32) × (c < 2 ^ 32)
FitsFormat (video a b c d) = (a < 2 ^ 32) × (b < 2 ^ 32) × (c < 2 ^ 32) × (d < 2 ^ 32)
FitsFormat (other t) = (t < 256) × (t ≢ 1) × (t ≢ 2)

abbrev pub FitsStream : Stream → Type 0
FitsStream s =
    (s.used < 256) × IsText (codec_name s.codec) × (s.bit_rate < 2 ^ 32) × FitsFormat s.format

-- The stream with the name that is written for its codec.
abbrev pub named : Stream → Stream
named s = record {
  used = s.used;
  codec = some (codec_name s.codec);
  bit_rate = s.bit_rate;
  format = s.format;
}

module _ (wire : Wire) where
  get-put_format :
      (f : Format) (rest : Bytes)
      → FitsFormat f
      → get_format wire (stream_type f % 256) (put_format wire f rest) ≡ ok (f, rest)
  unfolding get_format put_format
  get-put_format (audio a b c) rest h =
      rw (wire.load-store a h.0, wire.load-store b h.1, wire.load-store c h.2)
  get-put_format (video a b c d) rest h =
      rw
        (wire.load-store a h.0, wire.load-store b h.1, wire.load-store c h.2, wire.load-store d h.3)
  get-put_format (other t) rest h =
      let small : t % 256 ≡ t = omega (arith, h.0) in
      let one : (t == 1) ≡ false = ground (arith, h.1) in
      let two : (t == 2) ≡ false = ground (arith, h.2) in rw (small, one, two)

  get-put_stream :
      (s : Stream) (rest : Bytes)
      → FitsStream s
      → get_stream wire (put_stream wire s rest) ≡ ok (named s, rest)
  unfolding get_stream put_stream
  get-put_stream s rest h =
      let used : s.used % 256 ≡ s.used = omega (arith, h.0) in
      rw (
        split_zero-append (codec_name s.codec)
            (put32 wire s.bit_rate (put_format wire s.format rest)) h.1,
        wire.load-store s.bit_rate h.2,
        get-put_format s.format rest h.3,
        used,
      )

  get-put_streams :
      (ss : List Stream) (rest : Bytes)
      → All FitsStream ss
      → get_streams wire (length ss) (put_streams wire ss rest) ≡ ok (map named ss, rest)
  unfolding get_streams put_streams put_stream
  get-put_streams [] rest h = refl
  get-put_streams (s ∷ ss) rest h =
      rw (get-put_stream s (put_streams wire ss rest) h.0, get_streams)
        (ap (cons_stream (named s)) (get-put_streams ss rest h.1))

-- A name that is not empty, and a value.
abbrev IsAttribute : Bytes × Bytes → Type 0
IsAttribute a = IsText a.0 × (0 < length a.0) × IsText a.1

attributes-nil : (n : ℕ) → load_attributes n [] ≡ []
unfolding load_attributes split_zero
attributes-nil zero = refl
attributes-nil (suc n) = refl

attributes-put :
    (n : ℕ) (more : List (Bytes × Bytes))
    → All IsAttribute more
    → length more ≤ n
    → load_attributes n (put_attributes more) ≡ more
unfolding load_attributes put_attributes
attributes-put zero [] h few = refl
attributes-put (suc n) [] h few = attributes-nil (suc n)
attributes-put zero (a ∷ more) h few = absurd (omega arith)
attributes-put (suc n) (([], v) ∷ more) h few = absurd (omega (arith, h.0.1))
attributes-put (suc n) ((c ∷ cs, v) ∷ more) h few = rw (
  split_zero-append (c ∷ cs) (v ++ (0 ∷ put_attributes more)) h.0.0,
  load_attributes,
  split_zero-append v (put_attributes more) h.0.2,
  attributes-put n more h.1 (omega arith),
)

abbrev pub FitsValue : Option Bytes → Type 0
FitsValue none = Unit
FitsValue (some v) = IsText v

-- The values of the attributes are C strings.
abbrev pub FitsAttributes : (Bytes → Option Bytes) → List Bytes → Type 0
FitsAttributes attr [] = Unit
FitsAttributes attr (n ∷ ns) = FitsValue (attr n) × FitsAttributes attr ns

attributes-IsAttribute :
    (attr : Bytes → Option Bytes) (names : List Bytes)
    → FitsAttributes attr names
    → All (λ n. IsText n × (0 < length n)) names
    → All IsAttribute (get_attributes attr names)
unfolding get_attributes
attributes-IsAttribute attr [] h k = tt
attributes-IsAttribute attr (n ∷ ns) h k = go (attr n) h.0 (attributes-IsAttribute attr ns h.1 k.1)
  where
    go :
        (v : Option Bytes)
        → FitsValue v
        → All IsAttribute (get_attributes attr ns)
        → All IsAttribute (attribute n v (get_attributes attr ns))
    go none f all = all
    go (some v) f all = ((k.0.0, k.0.1, f), all)

length-put_attributes : (more : List (Bytes × Bytes)) → length more ≤ length (put_attributes more)
unfolding put_attributes
length-put_attributes [] = omega arith
length-put_attributes ((n, v) ∷ more) = omega (
  arith,
  length-append n (0 ∷ (v ++ (0 ∷ put_attributes more))),
  length-append v (0 ∷ put_attributes more),
  length-put_attributes more,
)

names_fit : All (λ n. IsText n × (0 < length n)) attribute_names
names_fit = omega arith

module _ (wire : Wire) where
  -- A stream whose numbers fit their fields, with fewer than 256 streams in it and C strings for the
  -- codecs and the attributes, is read back from its bytes, behind any name of the event: its time, its
  -- streams, where a codec that is not known has the name "unknown", and its attributes.
  pub load_deser-ser :
      (name : Bytes) (time : ℕ) (streams : List Stream) (attr : Bytes → Option Bytes)
      → IsText name
      → time < 2 ^ 64
      → length streams < 256
      → All FitsStream streams
      → FitsAttributes attr attribute_names
      → load_deser wire (load_ser wire name time streams attr)
        ≡ ok (record {
          time = time;
          streams = map named streams;
          attributes = get_attributes attr attribute_names;
        })
  unfolding load_deser load_ser
  load_deser-ser name time streams attr hn ht few hs ha =
      let as' = get_attributes attr attribute_names in
      let tail : Bytes = put_streams wire streams (put_attributes as') in
      let n : length streams % 256 ≡ length streams = omega arith in
      let whole : time / 2 ^ 32 % 2 ^ 32 * 2 ^ 32 + time % 2 ^ 32 ≡ time = omega arith in
      let long : ltb (length (put64 wire time (length streams % 256 ∷ tail))) 9 ≡ false =
        ground arith in
      rw (
        split_zero-append name (put64 wire time (length streams % 256 ∷ tail)) hn,
        long,
        wire.load-store (time / 2 ^ 32 % 2 ^ 32) (omega arith),
        wire.load-store (time % 2 ^ 32) (omega arith),
        n,
        get-put_streams wire streams (put_attributes as') hs,
        attributes-put (length (put_attributes as')) as'
            (attributes-IsAttribute attr attribute_names ha names_fit) (length-put_attributes as'),
        whole,
      )
