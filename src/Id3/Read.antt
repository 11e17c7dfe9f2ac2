-- ===== src/Id3/Read.antt =====
-- The tag as `id3v2_tag` reads it. The file is what lies ahead of the position in it.
use tcvp.Prelude.{
  ℕ, zero, suc, ◌+◌, ◌*◌, ◌/◌, ◌%◌, ◌^◌, Bool, true, false, ◌&&◌, List, [], ◌∷◌, ◌++◌, Option, none,
  some, ltb, ◌==◌, if◌then◌else◌, take, drop, suc, get_or, ◌-◌, not, ◌||◌, length,
}
use tcvp.Prelude.Wire.{Bytes}
use tcvp.Id3.Tag.{long_tags}

-- The bits from `at` on are moved down by one, over the one below.
unfoldable pub moved_down : ℕ → ℕ → ℕ
moved_down at v = v % (at / 2) + v / at * (at / 2)

-- `getss32`, of the number that is read.
unfoldable pub getss32 : ℕ → ℕ → ℕ
unfolding moved_down
getss32 version v =
    if ltb 3 version then moved_down (2 ^ 8) (moved_down (2 ^ 16) (moved_down (2 ^ 24) v)) else v

-- `id3v2_tags`
abbrev pub tags : List (Bytes × Bytes)
tags =
    long_tags
    ++ ((b'T' ∷ b'P' ∷ b'1' ∷ [], b'a' ∷ b'r' ∷ b't' ∷ b'i' ∷ b's' ∷ b't' ∷ [])
        ∷ (b'T' ∷ b'T' ∷ b'2' ∷ [], b't' ∷ b'i' ∷ b't' ∷ b'l' ∷ b'e' ∷ [])
        ∷ (b'T' ∷ b'A' ∷ b'L' ∷ [], b'a' ∷ b'l' ∷ b'b' ∷ b'u' ∷ b'm' ∷ [])
        ∷ (b'T' ∷ b'C' ∷ b'O' ∷ [], b'g' ∷ b'e' ∷ b'n' ∷ b'r' ∷ b'e' ∷ [])
        ∷ (b'T' ∷ b'Y' ∷ b'E' ∷ [], b'y' ∷ b'e' ∷ b'a' ∷ b'r' ∷ [])
        ∷ (b'T' ∷ b'R' ∷ b'K' ∷ [], b't' ∷ b'r' ∷ b'a' ∷ b'c' ∷ b'k' ∷ [])
        ∷ [])

unfoldable pub same : Bytes → Bytes → Bool
same [] [] = true
same [] (b ∷ bs) = false
same (a ∷ as1) [] = false
same (a ∷ as1) (b ∷ bs) = a == b && same as1 bs

unfoldable pub find_tag : List (Bytes × Bytes) → Bytes → Option Bytes
unfolding same
find_tag [] tag = none
find_tag ((id, name) ∷ more) tag =
    let later = find_tag more tag in if same tag id then some name else later

-- The bytes behind 0xff that are 0 are taken out, where the flag says so.
unfoldable pub unsync : Bytes → Bytes
unsync [] = []
unsync (a ∷ []) = a ∷ []
unsync (a ∷ b ∷ bs) =
    let skipped = a ∷ unsync bs in
    let on = a ∷ unsync (b ∷ bs) in if a == 255 && b == 0 then skipped else on

-- What `conv_str` makes of a text in the encoding of a number, or in the one of the configuration.
module _ (conv : Option ℕ → Bytes → Option Bytes) (override : Bool) where
  -- `id3v2_gettext`. Of a frame without bytes the source reads one all the same.
  unfoldable pub gettext : Bytes → Option Bytes
  gettext [] = none
  gettext (enc ∷ text) =
      if override then conv none text else if ltb enc 4 then conv (some enc) text else none

  -- The attribute that a frame sets: `pos` is what lies ahead behind its header.
  unfoldable pub set_attribute : Option Bytes → ℕ → ℕ → Bytes → List (Bytes × Option Bytes)
  unfolding gettext unsync
  set_attribute none fsize fflags pos = []
  set_attribute (some name) fsize fflags pos =
      let extra = fflags / 64 % 2 + fflags / 4 % 2 + (if fflags % 2 == 1 then 4 else 0) in
      let bytes = take fsize (drop extra pos) in
      (name, gettext (if fflags / 2 % 2 == 1 then unsync bytes else bytes)) ∷ []

-- Numbers at an index, most significant byte first. Where the file ends before, url_getu32b and the like
-- leave what the variables held, and zeros stand here.
abbrev pub number16 : Bytes → ℕ → ℕ
number16 b i = get_or b i 0 * 256 + get_or b (i + 1) 0

abbrev pub number32 : Bytes → ℕ → ℕ
number32 b i = number16 b i * 2 ^ 16 + number16 b (i + 2)

-- `size > minsize`, of an `int32_t`.
abbrev pub is_more : ℕ → ℕ → Bool
is_more size minsize = ltb size (2 ^ 31) && ltb minsize size

-- The length of the name, the size and the flags of the frame whose header lies ahead, and the length of
-- that header.
unfoldable pub frame_header : ℕ → Bytes → ℕ × ℕ × ℕ × ℕ
unfolding getss32
frame_header version b =
    if ltb 2 version
    then (4, getss32 version (number32 b 4), number16 b 8, 10)
    else (3, get_or b 3 0 * 2 ^ 16 + number16 b 4, 0, 6)

module _ (conv : Option ℕ → Bytes → Option Bytes) (override : Bool) where
  -- The loop over the frames. Each round takes a header off what lies ahead, so the number of bytes is
  -- fuel enough.
  unfoldable pub read_frames : ℕ → ℕ → ℕ → Bytes → List (Bytes × Option Bytes)
  unfolding frame_header find_tag set_attribute
  read_frames zero version size b = []
  read_frames (suc n) version size b =
      let (name_length, fsize, fflags, head) = frame_header version b in
      let set_here =
        set_attribute conv override (find_tag tags (take name_length b)) fsize fflags
          (drop head b) in
      let rest =
        read_frames n version ((size + 2 ^ 33 - (fsize + 10)) % 2 ^ 32) (drop (head + fsize) b) in
      if not (is_more size (if ltb 2 version then 10 else 6)) || ltb (length b) name_length
      then []
      else set_here ++ rest

  -- -1, or the size of the tag and the attributes that are set.
  unfoldable pub read_tag : Bytes → Option (ℕ × List (Bytes × Option Bytes))
  unfolding same getss32
  read_tag b =
      let version = number16 b 3 in
      let flags = get_or b 5 0 in
      let size = getss32 4 (number32 b 6) in
      let tsize = size + (if flags / 16 % 2 == 1 then 20 else 10) in
      let esize = getss32 (version / 256) (number32 b 10) in
      let extended = flags / 64 % 2 == 1 in
      let left = if extended then (size + 2 ^ 32 - esize) % 2 ^ 32 else size in
      let ahead = if extended then drop (14 + (esize + 2 ^ 32 - 4) % 2 ^ 32) b else drop 10 b in
      if not (same (take 3 b) (b'I' ∷ b'D' ∷ b'3' ∷ []))
        || not (ltb version 0x500)
        || ltb version 0x200
        || not (flags % 16 == 0)
      then none
      else some (tsize, read_frames (length b) (version / 256) left ahead)
