-- ===== src/Playlist/Serial/Sizes.antt =====
-- The size that the serializers allocate is what they write.
use tcvp.Prelude.{ℕ, ◌+◌, ◌≤◌, ◌≡◌, arith, List, [], ◌∷◌, ◌++◌, length, length-append}
use tcvp.Prelude.Wire.{Wire, Bytes, put32}
use tcvp.Playlist.State.{Name}
use tcvp.Playlist.Edit.{to_u32}
use tcvp.Playlist.Serial.{AddEvent, store_strings, list_size, add_ser_size, content_ser_size}

module _ (wire : Wire) where
  list_size-store :
      (ss : List Name) (size : ℕ)
      → size + (4 + length (store_strings wire ss [])) ≡ list_size wire ss size
  unfolding store_strings list_size
  list_size-store [] size = omega arith
  list_size-store (s ∷ ss) size =
      omega (arith, list_size-store ss size, length-append s (0 ∷ store_strings wire ss []))

  pub length-list_size : (ss : List Name) (size : ℕ) → length ss ≤ list_size wire ss size
  unfolding list_size
  length-list_size [] size = omega arith
  length-list_size (s ∷ ss) size = omega (arith, length-list_size ss size)

  pub length-add_ser :
      (name : Bytes) (e : AddEvent)
      → length (
          name
          ++ (0
              ∷ put32 wire
                  (to_u32 e.pos_arg)
                  (put32 wire (length e.names) (store_strings wire e.names []))))
        ≡ add_ser_size wire name e
  unfolding add_ser_size
  length-add_ser name e =
      rw (length-append name _) (omega (arith, list_size-store e.names (length name + 1 + 4)))

  pub length-content_ser :
      (name : Bytes) (names : List Name)
      → length (name ++ (0 ∷ put32 wire (length names) (store_strings wire names [])))
        ≡ content_ser_size wire name names
  unfolding content_ser_size
  length-content_ser name names =
      rw (length-append name _) (omega (arith, list_size-store names (length name + 1)))
