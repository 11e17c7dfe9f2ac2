-- ===== src/Load/Serial.antt =====
-- `load_ser` and `load_deser`, on what they write and read of a stream.

use tcvp.Prelude.{
  ℕ, zero, suc, ◌+◌, ◌*◌, ◌/◌, ◌%◌, ◌^◌, List, [], ◌∷◌, ◌++◌, Option, none, some, ltb, ◌==◌,
  if◌then◌else◌, length,
}
use tcvp.Prelude.Wire.{Wire, Bytes, put32, get32, split_zero}

-- What a stream has besides its codec and bit rate, by its type: STREAM_TYPE_AUDIO is 2 and
-- STREAM_TYPE_VIDEO is 1.
pub data Format : Type 0 where
  audio : ℕ → ℕ → ℕ → Format
  video : ℕ → ℕ → ℕ → ℕ → Format
  other : ℕ → Format

abbrev pub stream_type : Format → ℕ
stream_type (audio rate channels samples) = 2
stream_type (video num den width height) = 1
stream_type (other t) = t

-- `stream_t` with its element of `used_streams`.
pub record Stream : Type 0 where
  pub used : ℕ
  pub codec : Option Bytes
  pub bit_rate : ℕ
  pub format : Format

abbrev pub unknown : Bytes
unknown = b'u' ∷ b'n' ∷ b'k' ∷ b'n' ∷ b'o' ∷ b'w' ∷ b'n' ∷ []

abbrev pub codec_name : Option Bytes → Bytes
codec_name none = unknown
codec_name (some c) = c

-- `muxed_stream_t`; the attributes are those of its names that are set, in the order of the names.
pub record Loaded : Type 0 where
  pub time : ℕ
  pub streams : List Stream
  pub attributes : List (Bytes × Bytes)

-- The names whose attributes are written.
abbrev pub attribute_names : List Bytes
attribute_names =
    (b'f' ∷ b'i' ∷ b'l' ∷ b'e' ∷ [])
    ∷ (b't' ∷ b'i' ∷ b't' ∷ b'l' ∷ b'e' ∷ [])
    ∷ (b'a' ∷ b'r' ∷ b't' ∷ b'i' ∷ b's' ∷ b't' ∷ [])
    ∷ (b'p' ∷ b'e' ∷ b'r' ∷ b'f' ∷ b'o' ∷ b'r' ∷ b'm' ∷ b'e' ∷ b'r' ∷ [])
    ∷ (b'a' ∷ b'l' ∷ b'b' ∷ b'u' ∷ b'm' ∷ [])
    ∷ []

-- `tcattr_get` of each name.
abbrev pub attribute : Bytes → Option Bytes → List (Bytes × Bytes) → List (Bytes × Bytes)
attribute name none rest = rest
attribute name (some v) rest = (name, v) ∷ rest

unfoldable pub get_attributes : (Bytes → Option Bytes) → List Bytes → List (Bytes × Bytes)
get_attributes attr [] = []
get_attributes attr (n ∷ ns) = attribute n (attr n) (get_attributes attr ns)

-- `write_attr`
unfoldable pub put_attributes : List (Bytes × Bytes) → Bytes
put_attributes [] = []
put_attributes ((n, v) ∷ more) = n ++ (0 ∷ v ++ (0 ∷ put_attributes more))

module _ (wire : Wire) where
  -- `st_unaligned64(htob_64(v), p)`, most significant word first.
  abbrev pub put64 : ℕ → Bytes → Bytes
  put64 v rest = put32 wire (v / 2 ^ 32 % 2 ^ 32) (put32 wire (v % 2 ^ 32) rest)

  unfoldable pub put_format : Format → Bytes → Bytes
  put_format (audio rate channels samples) rest =
      put32 wire rate (put32 wire channels (put32 wire samples rest))
  put_format (video num den width height) rest =
      put32 wire num (put32 wire den (put32 wire width (put32 wire height rest)))
  put_format (other t) rest = rest

  unfoldable pub put_stream : Stream → Bytes → Bytes
  unfolding put_format
  put_stream s rest =
      s.used % 256
      ∷ stream_type s.format % 256
      ∷ (codec_name s.codec ++ (0 ∷ put32 wire s.bit_rate (put_format s.format rest)))

  unfoldable pub put_streams : List Stream → Bytes → Bytes
  put_streams [] rest = rest
  put_streams (s ∷ ss) rest = put_stream s (put_streams ss rest)

  -- The bytes that `load_ser` reports; a zero follows them.
  unfoldable pub load_ser : Bytes → ℕ → List Stream → (Bytes → Option Bytes) → Bytes
  unfolding get_attributes put_streams
  load_ser name time streams attr =
      name
      ++ (0
          ∷ put64 time (
              length streams % 256
              ∷ put_streams streams (put_attributes (get_attributes attr attribute_names))))

-- The size that `load_ser` computes and reports.
unfoldable pub format_size : Format → ℕ
format_size (audio rate channels samples) = 12
format_size (video num den width height) = 16
format_size (other t) = 0

unfoldable pub streams_size : List Stream → ℕ
unfolding format_size
streams_size [] = 0
streams_size (s ∷ ss) =
    1 + 1 + 4 + (length (codec_name s.codec) + 1) + format_size s.format + streams_size ss

unfoldable pub attributes_size : List (Bytes × Bytes) → ℕ
attributes_size [] = 0
attributes_size ((n, v) ∷ more) = length n + length v + 2 + attributes_size more

unfoldable pub load_size : Bytes → List Stream → (Bytes → Option Bytes) → ℕ
unfolding get_attributes streams_size attributes_size
load_size name streams attr =
    length name
    + 1
    + 8
    + 1
    + attributes_size (get_attributes attr attribute_names)
    + streams_size streams

-- `load_deser` gives NULL, or reads past the bytes, or gives the stream.
pub data Result {ℓ} (A : Type ℓ) : Type ℓ where
  null overrun : Result A
  ok : A → Result A

infixl 15 ◌>>=◌
abbrev pub ◌>>=◌ {ℓ κ} : {A : Type ℓ} {B : Type κ} → Result A → (A → Result B) → Result B
null >>= f = null
overrun >>= f = overrun
ok x >>= f = f x

-- `memchr(n, 0, size)`: NULL is returned if there is none.
abbrev pub string_or_null : Option (Bytes × Bytes) → Result (Bytes × Bytes)
string_or_null none = null
string_or_null (some p) = ok p

-- A read that does not look at the size.
abbrev pub or_overrun {ℓ} : {A : Type ℓ} → Option A → Result A
or_overrun none = overrun
or_overrun (some p) = ok p

abbrev pub get_byte : Bytes → Option (ℕ × Bytes)
get_byte [] = none
get_byte (b ∷ bs) = some (b, bs)

abbrev pub cons_stream : Stream → Result (List Stream × Bytes) → Result (List Stream × Bytes)
cons_stream s null = null
cons_stream s overrun = overrun
cons_stream s (ok (ss, rest)) = ok (s ∷ ss, rest)

-- The streams that are missing where the bytes end are empty.
abbrev pub empty_stream : Stream
empty_stream = record { used = 0; codec = none; bit_rate = 0; format = other 0 }

-- The loop over the attributes, which ends at a zero or where a string has no end; each round reads
-- two bytes or more, so the number of bytes is fuel enough.
unfoldable pub load_attributes : ℕ → Bytes → List (Bytes × Bytes)
load_attributes zero bs = []
load_attributes (suc n) bs = elim (split_zero bs) [
  | none ↦ []
  | some ([], rest) ↦ []
  | some (c ∷ cs, rest) ↦ elim (split_zero rest) [
    | none ↦ []
    | some (v, behind) ↦ (c ∷ cs, v) ∷ load_attributes n behind
  ]
]

module _ (wire : Wire) where
  unfoldable pub get_format : ℕ → Bytes → Result (Format × Bytes)
  get_format t bs =
      if t == 2
      then (do
        (rate, bs1) ← or_overrun (get32 wire bs)
        (channels, bs2) ← or_overrun (get32 wire bs1)
        (samples, bs3) ← or_overrun (get32 wire bs2)
        ok (audio rate channels samples, bs3))
      else if t == 1
      then (do
        (num, bs1) ← or_overrun (get32 wire bs)
        (den, bs2) ← or_overrun (get32 wire bs1)
        (width, bs3) ← or_overrun (get32 wire bs2)
        (height, bs4) ← or_overrun (get32 wire bs3)
        ok (video num den width height, bs4))
      else ok (other t, bs)

  unfoldable pub get_stream : Bytes → Result (Stream × Bytes)
  unfolding get_format
  get_stream bs = do
    (used, bs1) ← or_overrun (get_byte bs)
    (t, bs2) ← or_overrun (get_byte bs1)
    (codec, bs3) ← string_or_null (split_zero bs2)
    (rate, bs4) ← or_overrun (get32 wire bs3)
    (format, bs5) ← get_format t bs4
    ok (record { used = used; codec = some codec; bit_rate = rate; format = format }, bs5)

  unfoldable pub get_streams : ℕ → Bytes → Result (List Stream × Bytes)
  get_streams zero bs = ok ([], bs)
  get_streams (suc n) [] = cons_stream empty_stream (get_streams n [])
  get_streams (suc n) (b ∷ bs) = elim (get_stream (b ∷ bs)) [
    | null ↦ null
    | overrun ↦ overrun
    | ok (s, rest) ↦ cons_stream s (get_streams n rest)
  ]

  unfoldable pub load_deser : Bytes → Result Loaded
  unfolding get_streams load_attributes
  load_deser bs = do
    (_, bs1) ← string_or_null (split_zero bs)
    (high, bs2) ← (if ltb (length bs1) 9 then null else or_overrun (get32 wire bs1))
    (low, bs3) ← or_overrun (get32 wire bs2)
    (n, bs4) ← or_overrun (get_byte bs3)
    (streams, bs5) ← get_streams n bs4
    ok (record {
      time = high * 2 ^ 32 + low;
      streams = streams;
      attributes = load_attributes (length bs5) bs5;
    })
