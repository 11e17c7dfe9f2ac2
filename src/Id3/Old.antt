-- ===== src/Id3/Old.antt =====
-- The tag of version 1, in the last 128 bytes of a file: `id3v1_tag`.
use tcvp.Prelude.{
  ℕ, ◌+◌, ◌/◌, ◌%◌, Bool, true, false, not, ◌&&◌, ◌||◌, [], ◌∷◌, Option, none, some, ltb, ◌==◌,
  if◌then◌else◌, take, drop, get_or, List,
}
use tcvp.Prelude.Wire.{Bytes}
use tcvp.Id3.Read.{same}

-- `!(*e & ~0x20)`
abbrev pub is_blank : ℕ → Bool
is_blank c = c == 0 || c == 0x20

abbrev pub before : ℕ → Bytes → Bytes
before c [] = if is_blank c then [] else c ∷ []
before c (b ∷ bs) = c ∷ b ∷ bs

-- The bytes without the blanks at their end.
unfoldable pub trim : Bytes → Bytes
trim [] = []
trim (c ∷ cs) = before c (trim cs)

abbrev pub Attributes : Type 0
Attributes = Bytes → Option Bytes

abbrev pub put : Bytes → Option Bytes → Attributes → Attributes
put name value attr n = if same n name then value else attr n

abbrev pub put_some : Bytes → Option Bytes → Attributes → Attributes
put_some name none attr = attr
put_some name (some v) attr = put name (some v) attr

-- `%i` of a number below 100.
abbrev pub decimal : ℕ → Bytes
decimal n = if ltb n 10 then (48 + n) ∷ [] else (48 + n / 10) ∷ (48 + n % 10) ∷ []

abbrev pub track_name : Bytes
track_name = b't' ∷ b'r' ∷ b'a' ∷ b'c' ∷ b'k' ∷ []

abbrev pub no_track : Option Bytes → Bool
no_track none = true
no_track (some v) = false

unfoldable pub set_track : Bytes → Attributes → Attributes
set_track buf attr =
    let trk = get_or buf 126 0 in
    if ltb 0 trk
      && ltb trk 100
      && not (trk == 32 && get_or buf 125 0 == 32)
      && no_track (attr track_name)
    then put track_name (some (decimal trk)) attr
    else attr

-- The names of the attributes in the tag, with where they are and how long.
abbrev pub old_fields : List (Bytes × ℕ × ℕ)
old_fields =
    (b't' ∷ b'i' ∷ b't' ∷ b'l' ∷ b'e' ∷ [], 3, 30)
    ∷ (b'a' ∷ b'r' ∷ b't' ∷ b'i' ∷ b's' ∷ b't' ∷ [], 33, 30)
    ∷ (b'a' ∷ b'l' ∷ b'b' ∷ b'u' ∷ b'm' ∷ [], 63, 30)
    ∷ (b'y' ∷ b'e' ∷ b'a' ∷ b'r' ∷ [], 93, 4)
    ∷ (b'c' ∷ b'o' ∷ b'm' ∷ b'm' ∷ b'e' ∷ b'n' ∷ b't' ∷ [], 97, 29)
    ∷ []

-- `conv_str` from the encoding of the configuration to UTF-8.
module _ (conv : Bytes → Option Bytes) where
  abbrev pub text_or_null : Bytes → Option Bytes
  text_or_null [] = none
  text_or_null (c ∷ cs) = conv (c ∷ cs)

  -- `id3v1_strdup`
  unfoldable pub strdup : Bytes → Option Bytes
  unfolding trim
  strdup s = text_or_null (trim s)

  abbrev pub unless_set : Option Bytes → Bytes → Bytes → Attributes → Attributes
  unless_set (some v) name s attr = attr
  unless_set none name s attr = put_some name (strdup s) attr

  -- `id3v1_setattr`
  unfoldable pub setattr : Bytes → Bytes → Attributes → Attributes
  unfolding strdup
  setattr name s attr = unless_set (attr name) name s attr

  unfoldable pub set_fields : List (Bytes × ℕ × ℕ) → Bytes → Attributes → Attributes
  unfolding setattr
  set_fields [] buf attr = attr
  set_fields ((name, at, n) ∷ more) buf attr =
      set_fields more buf (setattr name (take n (drop at buf)) attr)

  -- `id3v1_tag` of the last 128 bytes: the size, and the attributes.
  unfoldable pub id3v1_tag : Bytes → Attributes → ℕ × Attributes
  unfolding set_fields set_track same
  id3v1_tag buf attr =
      if same (take 3 buf) (b'T' ∷ b'A' ∷ b'G' ∷ [])
      then (128, set_track buf (set_fields old_fields buf attr))
      else (0, attr)
