-- ===== src/Matroska/Tests.antt =====
-- Runs of the readers of elements and blocks.
use tcvp.Prelude.{
  ℕ, ◌<◌, ◌≤◌, ◌≡◌, refl, arith, true, List, [], ◌∷◌, ◌++◌, length, inl, inr, drop, length-drop,
  take, Bool-cases, ◌==◌, if◌then◌else◌, ◌^◌,
}
use tcvp.Prelude.Int.{pos, negsuc}
use tcvp.Prelude.Wire.{Bytes}
use tcvp.Matroska.Ebml.{overrun, got, get_int, Answer, success, unknown, ended, read_elements}
use tcvp.Matroska.Vint.{bytes_of, drop-append, take-append, vint_bytes}
use tcvp.Matroska.Laced.{size_bytes, contents}
use tcvp.Matroska.Frames.{restored}
use tcvp.Matroska.RoundTrip.{block_bytes, read_block, read_block-block_bytes}
use tcvp.Matroska.Elements.{
  Number, IsNumber, Element, AreElements, elements_bytes, element_bytes, Follows, fold_elements,
  read_elements-elements_bytes,
}
use tcvp.Matroska.Progress.{IsOver, read_elements-IsOver}

-- A size of 9 bytes is read behind the end of the buffer.
get_int_overruns : get_int 9 (1 ∷ 2 ∷ 3 ∷ 4 ∷ 5 ∷ 6 ∷ 7 ∷ 8 ∷ 9 ∷ []) ≡ overrun
unfolding get_int
get_int_overruns = refl

abbrev two_frames : List Bytes
two_frames = (1 ∷ 2 ∷ []) ∷ (3 ∷ []) ∷ []

abbrev last_frame : Bytes
last_frame = 4 ∷ 5 ∷ []

laced_bytes :
    block_bytes 1 0 10 2 two_frames last_frame
    ≡ 129 ∷ 0 ∷ 10 ∷ 2 ∷ 2 ∷ 2 ∷ 1 ∷ 1 ∷ 2 ∷ 3 ∷ 4 ∷ 5 ∷ []
unfolding block_bytes tcvp.Matroska.Laced.size_bytes tcvp.Matroska.Laced.contents
laced_bytes = refl

laced_read :
    read_block [] 2 12 (129 ∷ 0 ∷ 10 ∷ 2 ∷ 2 ∷ 2 ∷ 1 ∷ 1 ∷ 2 ∷ 3 ∷ 4 ∷ 5 ∷ 99 ∷ [])
    ≡ got (1, pos 10, two_frames ++ (last_frame ∷ [])) (99 ∷ [])
unfolding read_block
laced_read = refl

two_frames_small : length (block_bytes 1 255 246 2 two_frames last_frame) < 2 ^ 31
unfolding block_bytes size_bytes contents
two_frames_small = omega arith

read_block-block_bytes_example :
    read_block
      (8 ∷ [])
      2
      (length (block_bytes 1 255 246 2 two_frames last_frame))
      (block_bytes 1 255 246 2 two_frames last_frame ++ (99 ∷ []))
    ≡ got (1, negsuc 9, (8 ∷ 1 ∷ 2 ∷ []) ∷ (8 ∷ 3 ∷ []) ∷ (8 ∷ 4 ∷ 5 ∷ []) ∷ []) (99 ∷ [])
unfolding restored
read_block-block_bytes_example =
    read_block-block_bytes (8 ∷ []) 1 (negsuc 9) 2 two_frames last_frame (99 ∷ []) 2 (omega arith)
      (omega arith) (omega arith) (omega arith) refl refl two_frames_small

-- A callback that notes the first byte of the elements with identifier 5.
abbrev note : ℕ → ℕ → List ℕ → Bytes → Answer × List ℕ × Bytes
note id size s b =
    if id == 5 then (success, s ++ take 1 (take size b), drop size b) else (unknown, s, b)

abbrev noted : ℕ → Bytes → List ℕ → List ℕ
noted id content s = if id == 5 then s ++ take 1 content else s

note-Follows : Follows note noted
unfolding Follows
note-Follows id content b s = elim (Bool-cases (id == 5)) [
  | inl e ↦ inl (rw (e, drop-append content b, take-append content b) refl)
  | inr e ↦ inr (rw e refl)
]

note_forward : (id size : ℕ) (s : List ℕ) (b : Bytes) → length (note id size s b).2 ≤ length b
note_forward id size s b = elim (Bool-cases (id == 5)) [
  | inl e ↦ rw e omega (arith, length-drop size b)
  | inr e ↦ rw e omega arith
]

abbrev number : ℕ → Number
number n = record { more = 0; top = n; low = 0 }

number-IsNumber : (n : ℕ) → n < 128 → IsNumber (number n)
number-IsNumber n h = record { more_lt = omega arith; top_lt = h; low_lt = omega arith }

abbrev one_element : Element
one_element = record { id = number 5; size = number 2; content = 30 ∷ 40 ∷ [] }

abbrev unknown_element : Element
unknown_element = record { id = number 6; size = number 1; content = 50 ∷ [] }

abbrev both_elements : List Element
both_elements = one_element ∷ unknown_element ∷ []

both-AreElements : AreElements both_elements
unfolding AreElements
both-AreElements = (
  record {
    id-IsNumber = number-IsNumber 5 (omega arith);
    size-IsNumber = number-IsNumber 2 (omega arith);
    size-is = omega arith;
  },
  (
    record {
      id-IsNumber = number-IsNumber 6 (omega arith);
      size-IsNumber = number-IsNumber 1 (omega arith);
      size-is = omega arith;
    },
    _,
  ),
)

both_bytes : elements_bytes both_elements ≡ 133 ∷ 130 ∷ 30 ∷ 40 ∷ 134 ∷ 129 ∷ 50 ∷ []
unfolding elements_bytes element_bytes vint_bytes bytes_of
both_bytes = refl

both_small : length (elements_bytes both_elements) < 2 ^ 64
both_small = rw both_bytes omega arith

read_elements-elements_bytes_example :
    read_elements note 3
      (length (elements_bytes both_elements))
      []
      (elements_bytes both_elements ++ (1 ∷ []))
    ≡ ended true (fold_elements note noted both_elements []) (1 ∷ [])
read_elements-elements_bytes_example =
    read_elements-elements_bytes note noted note-Follows both_elements [] (1 ∷ []) both-AreElements
      both_small

read_elements-IsOver_example : IsOver (read_elements note 4 100 [] (0x85 ∷ 0x81 ∷ 7 ∷ []))
read_elements-IsOver_example =
    read_elements-IsOver note note_forward 4 100 [] (0x85 ∷ 0x81 ∷ 7 ∷ []) (omega arith)
