-- ===== src/Id3/Tests.antt =====
-- A tag with a title and a track number.
use tcvp.Prelude.{
  ℕ, ◌≡◌, refl, arith, [], ◌∷◌, Option, none, some, length, ◌==◌, if◌then◌else◌, false, ◌+◌,
}
use tcvp.Prelude.Wire.{Bytes}
use tcvp.Id3.Tag.{st_ss32, moved_up, frames_size, long_tags, write_tag}
use tcvp.Id3.Read.{read_tag, read_frames}
use tcvp.Id3.Trip.{texts, read_tag-write_tag}

-- The names of five letters are title, album, genre and track.
abbrev attr : Bytes → Option Bytes
attr name = if length name == 5 then some (b'x' ∷ name) else none

abbrev as_it_is : Option ℕ → Bytes → Option Bytes
as_it_is enc text = some text

read_tag-write_tag_example :
    read_tag as_it_is false (write_tag attr)
    ≡ some (frames_size long_tags attr + 10, texts (as_it_is (some 3)) long_tags attr)
unfolding frames_size
read_tag-write_tag_example = read_tag-write_tag as_it_is attr (omega arith) (omega arith)

-- Bit 7 stays where it is besides moving up: the lowest byte of a stored size can be 128 and more.
not_safe : st_ss32 128 ≡ 0x180
unfolding st_ss32 moved_up
not_safe = refl

-- A tag of version 2.2 with two frames of 8 bytes: the second one is not read, as 12 and not 8 are taken
-- from the size for the first.
second_left_out :
    read_frames as_it_is false 20 2 16
      (b'T' ∷ b'T' ∷ b'2' ∷ 0 ∷ 0 ∷ 2 ∷ 3 ∷ b'x' ∷ b'T' ∷ b'P' ∷ b'1' ∷ 0 ∷ 0 ∷ 2 ∷ 3 ∷ b'y' ∷ [])
    ≡ (b't' ∷ b'i' ∷ b't' ∷ b'l' ∷ b'e' ∷ [], some (b'x' ∷ [])) ∷ []
unfolding read_frames
second_left_out = refl
