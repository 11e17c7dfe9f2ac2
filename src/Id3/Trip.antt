-- ===== src/Id3/Trip.antt =====
-- A tag read back from its bytes.
use tcvp.Prelude.{
  ℕ, zero, suc, suc, ◌+◌, ◌-◌, ◌/◌, ◌%◌, ◌^◌, ◌<◌, ◌≡◌, refl, ap, arith, true, false, List, [], ◌∷◌,
  ◌++◌, Option, none, some, length, ltb, take, All, ◌≤◌, length-append, ◌∙◌,
}
use tcvp.Prelude.Wire.{Bytes}
use tcvp.Mpeg.Unit.{drop-append}
use tcvp.Id3.Tag.{st_ss32, text_frame, size_of, frames, frames_size, frame_of, long_tags, write_tag}
use tcvp.Id3.Sizes.{store-small, getss32-st_ss32, number32-be32}
use tcvp.Id3.Read.{
  tags, find_tag, gettext, set_attribute, is_more, frame_header, read_frames, read_tag, same,
}

take-append : (xs ys : Bytes) → take (length xs) (xs ++ ys) ≡ xs
take-append [] ys = refl
take-append (x ∷ xs) ys = ap (◌∷◌ x) (take-append xs ys)

-- What is set by the attributes of a table.
abbrev pub text_of : (Bytes → Option Bytes) → Bytes → Option Bytes → List (Bytes × Option Bytes)
text_of conv name none = []
text_of conv name (some text) = (name, conv text) ∷ []

unfoldable pub texts :
    (Bytes → Option Bytes)
    → List (Bytes × Bytes)
    → (Bytes → Option Bytes)
    → List (Bytes × Option Bytes)
texts conv [] attr = []
texts conv ((id, name) ∷ more) attr = text_of conv name (attr name) ++ texts conv more attr

module _ (conv : Option ℕ → Bytes → Option Bytes) where
  read-frame :
      (n a b c d : ℕ) (name text rest : Bytes) (size : ℕ)
      → find_tag tags (a ∷ b ∷ c ∷ d ∷ []) ≡ some name
      → length text + 1 < 2 ^ 28
      → is_more size 10 ≡ true
      → read_frames conv false (suc n) 4 size (text_frame (a ∷ b ∷ c ∷ d ∷ []) text ++ rest)
        ≡ (name, conv (some 3) text)
          ∷ read_frames conv false n 4 ((size + 2 ^ 33 - (length text + 1 + 10)) % 2 ^ 32) rest
  unfolding read_frames text_frame frame_header set_attribute gettext
  read-frame n a b c d name text rest size found small more =
      let v = st_ss32 (length text + 1) in
      let one : length text + 1 ≡ suc (length text) = omega arith in
      let long : ltb (length (text_frame (a ∷ b ∷ c ∷ d ∷ []) text ++ rest)) 4 ≡ false =
        ground arith in
      rw
        (
          number32-be32 v (store-small (length text + 1) small),
          getss32-st_ss32 (length text + 1) small,
          more,
          found,
          long,
          one,
          take-append text rest,
        )
        (ap
          (λ x.
            (name, conv (some 3) text)
            ∷ read_frames conv false n 4 ((size + 2 ^ 33 - (suc (length text) + 10)) % 2 ^ 32) x)
          (drop-append
            (a
              ∷ b
              ∷ c
              ∷ d
              ∷ (st_ss32 (suc (length text)) / 2 ^ 16 / 256 % 256)
              ∷ (st_ss32 (suc (length text)) / 2 ^ 16 % 256)
              ∷ (st_ss32 (suc (length text)) / 256 % 256)
              ∷ (st_ss32 (suc (length text)) % 256)
              ∷ 0
              ∷ 0
              ∷ 3
              ∷ text)
            rest (10 + suc (length text)) (omega arith)))

  frame_long : (a b c d : ℕ) (text : Bytes) → 11 ≤ length (text_frame (a ∷ b ∷ c ∷ d ∷ []) text)
  unfolding text_frame
  frame_long a b c d text = omega arith

  -- The rows of a table whose names have four characters and are found as they stand there.
  abbrev IsRow : Bytes × Bytes → Type 0
  IsRow r = (length r.0 ≡ 4) × (find_tag tags r.0 ≡ some r.1)

  read_frames-cons :
      (n : ℕ) (id name : Bytes) (value : Option Bytes) (size : ℕ) (rest : Bytes)
      (out : List (Bytes × Option Bytes))
      → IsRow (id, name)
      → size_of value + size < 2 ^ 28
      → length (frame_of id value rest) ≤ n
      → ((m : ℕ) → length rest ≤ m → read_frames conv false m 4 size rest ≡ out)
      → read_frames conv false n 4 (size_of value + size) (frame_of id value rest)
        ≡ text_of (conv (some 3)) name value ++ out
  read_frames-cons n id name none size rest out row small fuel ih =
      let z : 0 + size ≡ size = omega arith in rw z (ih n fuel)
  read_frames-cons n (a ∷ b ∷ c ∷ d ∷ []) name (some text) size rest out row small fuel ih =
      go n fuel
    where
      go :
          (n : ℕ)
          → length (text_frame (a ∷ b ∷ c ∷ d ∷ []) text ++ rest) ≤ n
          → read_frames conv false n 4
              (11 + length text + size)
              (text_frame (a ∷ b ∷ c ∷ d ∷ []) text ++ rest)
            ≡ (name, conv (some 3) text) ∷ out
      go zero fuel = absurd (
          omega (
            arith,
            fuel,
            frame_long a b c d text,
            length-append (text_frame (a ∷ b ∷ c ∷ d ∷ []) text) rest,
          ))
      go (suc n) fuel =
          let left : (11 + length text + size + 2 ^ 33 - (length text + 1 + 10)) % 2 ^ 32 ≡ size =
            omega (arith, small) in
          read-frame n a b c d name text rest (11 + length text + size) row.1 (omega (arith, small))
            (ground (arith, small))
          ∙ rw left (
              ap (λ x. (name, conv (some 3) text) ∷ x)
                (ih n (
                  omega (
                    arith,
                    fuel,
                    frame_long a b c d text,
                    length-append (text_frame (a ∷ b ∷ c ∷ d ∷ []) text) rest,
                  ))))
  read_frames-cons n [] name (some text) size rest out row small fuel ih =
      absurd (omega (arith, row.0))
  read_frames-cons n (a ∷ []) name (some text) size rest out row small fuel ih =
      absurd (omega (arith, row.0))
  read_frames-cons n (a ∷ b ∷ []) name (some text) size rest out row small fuel ih =
      absurd (omega (arith, row.0))
  read_frames-cons n (a ∷ b ∷ c ∷ []) name (some text) size rest out row small fuel ih =
      absurd (omega (arith, row.0))
  read_frames-cons n (a ∷ b ∷ c ∷ d ∷ e ∷ id) name (some text) size rest out row small fuel ih =
      absurd (omega (arith, row.0))

  read-nothing : (n : ℕ) → read_frames conv false n 4 0 [] ≡ []
  unfolding read_frames
  read-nothing zero = refl
  read-nothing (suc n) = refl

  read_frames-frames :
      (n : ℕ) (l : List (Bytes × Bytes)) (attr : Bytes → Option Bytes)
      → All IsRow l
      → frames_size l attr < 2 ^ 28
      → length (frames l attr) ≤ n
      → read_frames conv false n 4 (frames_size l attr) (frames l attr)
        ≡ texts (conv (some 3)) l attr
  unfolding frames frames_size texts
  read_frames-frames n [] attr rows small fuel = read-nothing n
  read_frames-frames n ((id, name) ∷ l) attr rows small fuel =
      read_frames-cons n id name (attr name) (frames_size l attr) (frames l attr)
        (texts (conv (some 3)) l attr) rows.0 small fuel
        (λ m h. read_frames-frames m l attr rows.1 (omega (arith, small)) h)

  rows : All IsRow long_tags
  unfolding find_tag same
  rows = (
    (refl, refl),
    ((refl, refl), ((refl, refl), ((refl, refl), ((refl, refl), ((refl, refl), tt))))),
  )

  -- A tag of fewer than 2 ^ 28 bytes behind its header, with at least one attribute in it, is read back
  -- where no encoding is forced: its size with the header, and the attributes that were set, in the order
  -- of the table, each as what is converted from UTF-8.
  pub read_tag-write_tag :
      (attr : Bytes → Option Bytes)
      → 0 < frames_size long_tags attr
      → frames_size long_tags attr < 2 ^ 28
      → read_tag conv false (write_tag attr)
        ≡ some (frames_size long_tags attr + 10, texts (conv (some 3)) long_tags attr)
  unfolding read_tag write_tag same
  read_tag-write_tag attr some_frames small =
      let n = frames_size long_tags attr in
      let any : ltb 10 (10 + n) ≡ true = ground (arith, some_frames) in
      let less : 10 + n - 10 ≡ n = omega arith in
      rw (any, less, number32-be32 (st_ss32 n) (store-small n small), getss32-st_ss32 n small)
        (ap (λ x. some (n + 10, x)) (read_frames-frames _ long_tags attr rows small (omega arith)))
