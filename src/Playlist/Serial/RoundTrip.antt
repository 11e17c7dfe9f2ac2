-- ===== src/Playlist/Serial/RoundTrip.antt =====
-- Events read back from their byte strings.
use tcvp.Prelude.{
  ℕ, zero, suc, ◌+◌, ◌-◌, ◌^◌, ◌≤◌, ◌<◌, ◌≡◌, refl, arith, List, [], ◌∷◌, Option, none, some,
  length, All, length-append, lt→ltb,
}
use tcvp.Prelude.Int.{ℤ, pos, negsuc, ◌≤ℤ◌}
use tcvp.Prelude.Wire.{
  Wire, Bytes, put32, IsText, split_zero, split_zero-append, Splits, split_zero-Splits,
}
use tcvp.Playlist.State.{Name}
use tcvp.Playlist.Edit.{to_u32}
use tcvp.Playlist.Serial.Sizes.{length-list_size, length-add_ser, length-content_ser}
use tcvp.Playlist.Serial.{
  list_size, add_ser_size, content_ser_size, AddEvent, signed32, store_strings, load_strings,
  serialize_list, deserialize_list, add_ser, add_deser, content_ser, content_deser,
}

module _ (wire : Wire) where
  load_strings-store :
      (ss : List Name) (rest : Bytes)
      → All IsText ss
      → load_strings wire (length ss) (store_strings wire ss rest) ≡ ss
  unfolding load_strings store_strings
  load_strings-store [] rest h = refl
  load_strings-store (s ∷ ss) rest h = rw (
    split_zero-append s (store_strings wire ss rest) h.0,
    load_strings,
    load_strings-store ss rest h.1,
  )

  deserialize-store :
      (ss : List Name)
      → All IsText ss
      → length ss < 2 ^ 31
      → deserialize_list wire (put32 wire (length ss) (store_strings wire ss [])) ≡ some ss
  unfolding deserialize_list
  deserialize-store ss h lt = rw (
    wire.load-store (length ss) (omega arith),
    lt→ltb (length ss) (2 ^ 31) lt,
    load_strings-store ss [] h,
  )

  signed32-to_u32 :
      (p : ℤ)
      → negsuc (2 ^ 31 - 1) ≤ℤ p
      → p ≤ℤ pos (2 ^ 31 - 1)
      → (to_u32 p < 2 ^ 32) × (signed32 (to_u32 p) ≡ p)
  unfolding to_u32
  signed32-to_u32 (pos n) lo hi = ground arith
  signed32-to_u32 (negsuc n) lo hi = ground arith

  -- An event TCVP_PL_ADD whose names are C strings and whose position is an `int` is written, as
  -- long as its size is an `int`: just the bytes that are allocated and reported, and it is read back
  -- from them.
  pub add_deser-ser :
      (name : Bytes) (e : AddEvent)
      → IsText name
      → All IsText e.names
      → add_ser_size wire name e < 2 ^ 31
      → negsuc (2 ^ 31 - 1) ≤ℤ e.pos_arg
      → e.pos_arg ≤ℤ pos (2 ^ 31 - 1)
      → (bs : Bytes) × (add_ser wire name e ≡ some bs)
        × (length bs ≡ add_ser_size wire name e)
        × (add_deser wire bs ≡ some e)
  unfolding add_deser add_ser add_ser_size serialize_list
  add_deser-ser name e t ts n lo hi =
      let (small, back) = signed32-to_u32 e.pos_arg lo hi in
      let few = length-list_size wire e.names (length name + 1 + 4) in
      (
        _,
        rw (lt→ltb (list_size wire e.names (length name + 1 + 4)) (2 ^ 31) n) refl,
        length-add_ser wire name e,
        rw (
          split_zero-append name _ t,
          wire.load-store (to_u32 e.pos_arg) small,
          deserialize-store e.names ts (omega (arith, few, n)),
          back,
        ),
      )

  -- The list of an event TCVP_PL_CONTENT, of names that are C strings, is written, as long as the
  -- size is an `int`: just the bytes that are allocated and reported, and it is read back from them.
  pub content_deser-ser :
      (name : Bytes) (names : List Name)
      → IsText name
      → All IsText names
      → content_ser_size wire name names < 2 ^ 31
      → (bs : Bytes) × (content_ser wire name names ≡ some bs)
        × (length bs ≡ content_ser_size wire name names)
        × (content_deser wire bs ≡ some names)
  unfolding content_deser content_ser content_ser_size serialize_list
  content_deser-ser name names t ts n =
      let few = length-list_size wire names (length name + 1) in
      (
        _,
        rw (lt→ltb (list_size wire names (length name + 1)) (2 ^ 31) n) refl,
        length-content_ser wire name names,
        rw (split_zero-append name _ t, deserialize-store names ts (omega (arith, few, n))),
      )

  -- Whatever the bytes, the names that are read are C strings, no more than the count says, and
  -- with their zeros no longer than the bytes that follow the count.
  pub load_strings-fits :
      (n : ℕ) (bs : Bytes)
      → All IsText (load_strings wire n bs)
        × (length (load_strings wire n bs) ≤ n)
        × (length (store_strings wire (load_strings wire n bs) []) ≤ length bs)
  unfolding load_strings store_strings
  load_strings-fits zero bs = (tt, omega arith, omega arith)
  load_strings-fits (suc n) bs = from_split (split_zero bs) refl (load_strings-fits n)
    where
      Fits : Bytes → ℕ → List Name → Type 0
      Fits cs m ss =
          All IsText ss × (length ss ≤ m) × (length (store_strings wire ss []) ≤ length cs)

      from_split :
          (r : Option (Bytes × Bytes))
          → split_zero bs ≡ r
          → ((cs : Bytes) → Fits cs n (load_strings wire n cs))
          → Fits bs (suc n) (load_strings wire (suc n) bs)
      from_split none e ih = rw (e, load_strings) (tt, omega arith, omega arith)
      from_split (some (s, rest)) e ih =
          let f : Splits bs (some (s, rest)) = rw e at (split_zero-Splits bs) in
          let g = ih rest in
          rw (e, load_strings)
            (
              (f.0, g.0),
              omega (arith, g.1),
              rw (length-append s (0 ∷ store_strings wire (load_strings wire n rest) []))
                  (omega (arith, g.2, f.1)),
            )
