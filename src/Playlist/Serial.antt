-- ===== src/Playlist/Serial.antt =====
-- The events TCVP_PL_ADD and TCVP_PL_CONTENT as byte strings.
pub mod Sizes
pub mod RoundTrip
use tcvp.Prelude.{
  ℕ, zero, suc, ◌+◌, ◌-◌, ◌^◌, ◌%◌, Bool, List, [], ◌∷◌, ◌++◌, Option, none, some, ltb,
  if◌then◌else◌, length,
}
use tcvp.Prelude.Int.{ℤ, pos, negsuc}
use tcvp.Prelude.Wire.{Wire, Bytes, put32, get32, split_zero}
use tcvp.Playlist.State.{Name, ◌>>=◌}
use tcvp.Playlist.Edit.{to_u32}

-- An `int` by its bit pattern.
abbrev pub signed32 : ℕ → ℤ
signed32 w = if ltb w (2 ^ 31) then pos w else negsuc (2 ^ 32 - w - 1)

-- `tcvp_pl_add_event_t`; `n` is the length of the list.
pub record AddEvent : Type 0 where
  pub names : List Name
  pub pos_arg : ℤ

module _ (wire : Wire) where
  -- The strings behind one another, each with its zero.
  pub store_strings : List Name → Bytes → Bytes
  store_strings [] rest = rest
  store_strings (s ∷ ss) rest = s ++ (0 ∷ store_strings ss rest)

  -- The size that `serialize_list` allocates for a head of `size` bytes and the strings.
  unfoldable pub list_size : List Name → ℕ → ℕ
  list_size [] size = size + 4
  list_size (s ∷ ss) size = list_size ss size + (length s + 1)

  -- What `serialize_list` writes behind the room for the head; `none` where the size is more than an
  -- `int` holds, and what is allocated is not what is written.
  pub serialize_list : List Name → ℕ → Option Bytes
  serialize_list ss size =
      if ltb (list_size ss size) (2 ^ 31)
      then some (put32 wire (length ss) (store_strings ss []))
      else none

  -- The loop of `deserialize_list`: at most `n` strings, while bytes and zeros are left.
  pub load_strings : ℕ → Bytes → List Name
  load_strings zero bs = []
  load_strings (suc n) bs = elim (split_zero bs) [
    | none ↦ []
    | some (s, rest) ↦ s ∷ load_strings n rest
  ]

  -- A count with the top bit set is negative: `calloc` of that size fails.
  pub deserialize_list : Bytes → Option (List Name)
  deserialize_list bs = do
    (n, rest) ← get32 wire bs
    if ltb n (2 ^ 31) then some (load_strings n rest) else none

  pub add_ser : Bytes → AddEvent → Option Bytes
  add_ser name e = do
    list ← serialize_list e.names (length name + 1 + 4)
    some (name ++ (0 ∷ put32 wire (to_u32 e.pos_arg) list))

  -- The size that `pl_add_ser` returns.
  unfoldable pub add_ser_size : Bytes → AddEvent → ℕ
  add_ser_size name e = list_size e.names (length name + 1 + 4)

  pub add_deser : Bytes → Option AddEvent
  add_deser bs = do
    (_, behind) ← split_zero bs
    (p, rest) ← get32 wire behind
    names ← deserialize_list rest
    some (record { names = names; pos_arg = signed32 p })

  pub content_ser : Bytes → List Name → Option Bytes
  content_ser name names = do
    list ← serialize_list names (length name + 1)
    some (name ++ (0 ∷ list))

  unfoldable pub content_ser_size : Bytes → List Name → ℕ
  content_ser_size name names = list_size names (length name + 1)

  pub content_deser : Bytes → Option (List Name)
  content_deser bs = do (_, rest) ← split_zero bs; deserialize_list rest
