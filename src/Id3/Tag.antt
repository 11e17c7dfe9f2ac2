-- ===== src/Id3/Tag.antt =====
-- The tag as `id3v2_write_tag` writes it.
use tcvp.Prelude.{
  ℕ, ◌+◌, ◌-◌, ◌*◌, ◌/◌, ◌%◌, ◌^◌, List, [], ◌∷◌, ◌++◌, Option, none, some, length, ltb,
  if◌then◌else◌,
}
use tcvp.Prelude.Wire.{Bytes}
use tcvp.Mpeg.Crc.{be32}

-- The number that `st_ss32` stores, in its three steps on `uint32_t`: the bits from 8, from 16 and from 24
-- on are moved up by one.
unfoldable pub moved_up : ℕ → ℕ → ℕ
moved_up at v = v % at + v * 2 % 2 ^ 32 / at * at

unfoldable pub st_ss32 : ℕ → ℕ
st_ss32 v = moved_up (2 ^ 24) (moved_up (2 ^ 16) (moved_up (2 ^ 8) v))

-- The first rows of `id3v2_tags`, whose names have four characters.
abbrev pub long_tags : List (Bytes × Bytes)
long_tags =
    (b'T' ∷ b'P' ∷ b'E' ∷ b'1' ∷ [], b'a' ∷ b'r' ∷ b't' ∷ b'i' ∷ b's' ∷ b't' ∷ [])
    ∷ (b'T' ∷ b'I' ∷ b'T' ∷ b'2' ∷ [], b't' ∷ b'i' ∷ b't' ∷ b'l' ∷ b'e' ∷ [])
    ∷ (b'T' ∷ b'A' ∷ b'L' ∷ b'B' ∷ [], b'a' ∷ b'l' ∷ b'b' ∷ b'u' ∷ b'm' ∷ [])
    ∷ (b'T' ∷ b'C' ∷ b'O' ∷ b'N' ∷ [], b'g' ∷ b'e' ∷ b'n' ∷ b'r' ∷ b'e' ∷ [])
    ∷ (b'T' ∷ b'Y' ∷ b'E' ∷ b'R' ∷ [], b'y' ∷ b'e' ∷ b'a' ∷ b'r' ∷ [])
    ∷ (b'T' ∷ b'R' ∷ b'C' ∷ b'K' ∷ [], b't' ∷ b'r' ∷ b'a' ∷ b'c' ∷ b'k' ∷ [])
    ∷ []

-- `id3v2_text_frame`
unfoldable pub text_frame : Bytes → Bytes → Bytes
text_frame id text = id ++ (be32 (st_ss32 (length text + 1)) ++ (0 ∷ 0 ∷ 3 ∷ text))

-- `tcattr_get` of the names, and the frame of each that is set.
abbrev pub frame_of : Bytes → Option Bytes → Bytes → Bytes
frame_of id none rest = rest
frame_of id (some text) rest = text_frame id text ++ rest

unfoldable pub frames : List (Bytes × Bytes) → (Bytes → Option Bytes) → Bytes
unfolding text_frame
frames [] attr = []
frames ((id, name) ∷ more) attr = frame_of id (attr name) (frames more attr)

-- What the frames add to `tagsize`.
abbrev pub size_of : Option Bytes → ℕ
size_of none = 0
size_of (some text) = 11 + length text

unfoldable pub frames_size : List (Bytes × Bytes) → (Bytes → Option Bytes) → ℕ
frames_size [] attr = 0
frames_size ((id, name) ∷ more) attr = size_of (attr name) + frames_size more attr

-- `id3v2_write_tag`: nothing if there are no frames.
unfoldable pub write_tag : (Bytes → Option Bytes) → Bytes
unfolding frames frames_size
write_tag attr =
    let tagsize = 10 + frames_size long_tags attr in
    if ltb 10 tagsize
    then b'I' ∷ b'D' ∷ b'3' ∷ 4 ∷ 0 ∷ 0 ∷ (be32 (st_ss32 (tagsize - 10)) ++ frames long_tags attr)
    else []
