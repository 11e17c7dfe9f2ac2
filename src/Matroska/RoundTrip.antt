-- ===== src/Matroska/RoundTrip.antt =====
-- Blocks with a lace, written and read.
use tcvp.Prelude.{
  ◌/◌, ◌%◌, ℕ, ◌+◌, ◌-◌, ◌*◌, ◌%◌, ◌^◌, ◌<◌, ◌≡◌, refl, ap, ◌∙◌, sym, arith, true, false, List, [],
  ◌∷◌, ◌++◌, none, length, ltb, length-append,
}
use mathlib.Core.List.{append_assoc, append-nil}
use tcvp.Prelude.Int.{ℤ, pos, negsuc, ◌≤ℤ◌}
use tcvp.Prelude.Wire.{Bytes}
use tcvp.Matroska.Ebml.{Got, got, ◌>>=◌}
use tcvp.Matroska.Vint.{get_vint-one_byte}
use tcvp.Matroska.Block.{
  signed16, Block, block, msk_block, head, lacing, frame_sizes, has_bit, minus_u,
}
use tcvp.Matroska.Laced.{lengths, contents, size_bytes, laced-size_bytes}
use tcvp.Matroska.Frames.{frames_from, restored, frames_from-behind}

-- The track, the time and the packets of a block.
unfoldable pub read_block : Bytes → ℕ → ℕ → Bytes → Got (ℕ × ℤ × List Bytes)
unfolding msk_block frames_from
read_block compr mapsize size b = do
  (mb, b1) ← msk_block mapsize size b
  (packets, b2) ← frames_from mb.frames compr mb b1
  got (mb.track, mb.time, packets) b2

-- A block whose sizes are in the form of Xiph.
unfoldable pub block_bytes : ℕ → ℕ → ℕ → ℕ → List Bytes → Bytes → Bytes
block_bytes track t1 t2 flags fs last =
    (128 + track) ∷ t1 ∷ t2 ∷ flags ∷ length fs ∷ (size_bytes fs ++ (contents fs ++ last))

lengths-append :
    (fs : List Bytes) (l : Bytes) → lengths (fs ++ (l ∷ [])) ≡ lengths fs ++ (length l ∷ [])
unfolding lengths
lengths-append [] l = refl
lengths-append (f ∷ fs) l = ap (λ x. length f ∷ x) (lengths-append fs l)

contents-append : (fs : List Bytes) (l : Bytes) → contents (fs ++ (l ∷ [])) ≡ contents fs ++ l
unfolding contents
contents-append [] l = append-nil l
contents-append (f ∷ fs) l =
    ap (λ (x : Bytes). f ++ x) (contents-append fs l) ∙ sym (append_assoc f (contents fs) l)

module _ (fs : List Bytes) (last : Bytes) where
  abbrev all_frames : List Bytes
  all_frames = fs ++ (last ∷ [])

  frame_sizes-written :
      (size : ℕ) (rest : Bytes)
      → size ≡ length (size_bytes fs) + length (contents fs) + length last
      → size < 2 ^ 31
      → frame_sizes true false (length fs + 1) size (size_bytes fs ++ rest)
        ≡ got (size - length (size_bytes fs), lengths all_frames) rest
  unfolding frame_sizes
  frame_sizes-written size rest h small =
      let loop =
        laced-size_bytes fs none 0 size rest (omega (arith, h, small)) (omega (arith, h))
          (omega (arith, small)) in
      let one : length fs + 1 - 1 ≡ length fs = omega arith in
      let remains : minus_u (size - length (size_bytes fs)) (0 + length (contents fs))
          ≡ length last =
        omega (arith, h, small) in
      rw (one, loop, remains, lengths-append fs last) refl

module _ (compr : Bytes) (t : ℕ) (i : ℤ) (f s : ℕ) (rest : Bytes) where
  frames_from-start :
      (gs : List Bytes)
      → 0 < length gs
      → length (contents gs) < 2 ^ 31
      → frames_from
          (length gs)
          compr
          (block t i f (length gs) s (lengths gs) 0)
          (contents gs ++ rest)
        ≡ got (restored compr gs) rest
  frames_from-start [] some_frame h = absurd (omega (arith, some_frame))
  frames_from-start (g ∷ gs) some_frame h =
      let start : (n : ℕ) → Got (List Bytes) = λ n.
        frames_from (length (g ∷ gs)) compr (block t i f n s (lengths (g ∷ gs)) 0)
          (contents (g ∷ gs) ++ rest) in
      ap start (omega arith) ∙ frames_from-behind compr t i f s rest gs [] g h

length-all_frames : (fs : List Bytes) (last : Bytes) → length (all_frames fs last) ≡ length fs + 1
length-all_frames fs last = length-append fs (last ∷ [])

module _ (track : ℕ) (time : ℤ) (flags : ℕ) (fs : List Bytes) (last : Bytes) where
  abbrev laced_block : Block
  laced_block =
      block track time flags (length fs + 1) (length (contents fs) + length last)
        (lengths (all_frames fs last)) 0

  lacing-written :
      (size : ℕ) (b : Bytes)
      → has_bit 2 flags ≡ true
      → has_bit 4 flags ≡ false
      → size ≡ 1 + length (size_bytes fs) + length (contents fs) + length last
      → size < 2 ^ 31
      → lacing track time flags size (length fs ∷ (size_bytes fs ++ b)) ≡ got laced_block b
  unfolding lacing
  lacing-written size b laces xiph h small =
      let sizes =
        frame_sizes-written fs last (size - 1) b (omega (arith, h)) (omega (arith, small)) in
      let one : minus_u size 1 ≡ size - 1 = omega (arith, h, small) in
      let left : size - 1 - length (size_bytes fs) ≡ length (contents fs) + length last =
        omega (arith, h) in
      let result : (n : ℕ) → Got Block =
        λ n. got (block track time flags (length fs + 1) n (lengths (all_frames fs last)) 0) b in
      rw (laces, xiph, one, sizes) (ap result left)

  -- What the head of the block leaves.
  msk_block-written :
      (mapsize t1 t2 : ℕ) (size : ℕ) (b : Bytes)
      → time ≡ signed16 (t1 * 256 + t2)
      → track < 128
      → track < mapsize
      → has_bit 2 flags ≡ true
      → has_bit 4 flags ≡ false
      → size ≡ 5 + length (size_bytes fs) + length (contents fs) + length last
      → size < 2 ^ 31
      → msk_block mapsize size ((128 + track) ∷ t1 ∷ t2 ∷ flags ∷ length fs ∷ (size_bytes fs ++ b))
        ≡ got laced_block b
  unfolding msk_block head
  msk_block-written mapsize t1 t2 size b at low known laces xiph h small =
      let on_map : ltb track mapsize ≡ true = ground (arith, known) in
      let four : minus_u (minus_u (size % 2 ^ 32) 1) 3 ≡ size - 4 = omega (arith, h, small) in
      rw
        (
          get_vint-one_byte track (t1 ∷ t2 ∷ flags ∷ length fs ∷ (size_bytes fs ++ b)) low,
          on_map,
          four,
          sym at,
        )
        (lacing-written (size - 4) b laces xiph (omega (arith, h)) (omega (arith, small)))

-- The bit pattern of an `int16_t`, and back from its bytes.
abbrev to_u16 : ℤ → ℕ
to_u16 (pos n) = n
to_u16 (negsuc n) = 2 ^ 16 - 1 - n

signed16-to_u16 :
    (time : ℤ)
    → negsuc (2 ^ 15 - 1) ≤ℤ time
    → time ≤ℤ pos (2 ^ 15 - 1)
    → time ≡ signed16 (to_u16 time / 256 * 256 + to_u16 time % 256)
signed16-to_u16 (pos n) lo hi =
    let whole : n / 256 * 256 + n % 256 ≡ n = omega arith in rw whole (ground (arith, hi))
signed16-to_u16 (negsuc n) lo hi =
    let u = 2 ^ 16 - 1 - n in
    let whole : u / 256 * 256 + u % 256 ≡ u = omega arith in rw whole (ground (arith, lo))

module _ (compr : Bytes) (track : ℕ) (time : ℤ) (flags : ℕ) (fs : List Bytes)
    (last rest : Bytes) where
  abbrev written : Bytes
  written = block_bytes track (to_u16 time / 256) (to_u16 time % 256) flags fs last

  length-written : length written ≡ 5 + length (size_bytes fs) + length (contents fs) + length last
  unfolding block_bytes
  length-written =
      let one = length-append (size_bytes fs) (contents fs ++ last) in
      let two = length-append (contents fs) last in omega (arith, one, two)

  length-contents : length (contents (all_frames fs last)) ≡ length (contents fs) + length last
  length-contents = ap length (contents-append fs last) ∙ length-append (contents fs) last

  frames_from-laced :
      length written < 2 ^ 31
      → frames_from
          (length fs + 1)
          compr
          (laced_block track time flags fs last)
          (contents (all_frames fs last) ++ rest)
        ≡ got (restored compr (all_frames fs last)) rest
  frames_from-laced small =
      let n = length-all_frames fs last in
      let calls : (n : ℕ) → Got (List Bytes) = λ n.
        frames_from n compr
          (block track time flags n (length (contents fs) + length last)
            (lengths (all_frames fs last)) 0)
          (contents (all_frames fs last) ++ rest) in
      ap calls (sym n)
      ∙ frames_from-start compr track time flags (length (contents fs) + length last) rest
          (all_frames fs last) (omega (arith, n))
          (omega (arith, small, length-written, length-contents))

  -- A block with a number of frames laced in the form of Xiph (the flag 2 and not 4), of a track below 128
  -- for which there is an entry of the map, with a time that is an `int16_t`, and of fewer than 2 ^ 31 bytes, is read as its track, its
  -- time and all of its frames in their order, each with the stripped bytes before it. The position
  -- is then behind the block.
  pub read_block-block_bytes :
      (mapsize : ℕ)
      → negsuc (2 ^ 15 - 1) ≤ℤ time
      → time ≤ℤ pos (2 ^ 15 - 1)
      → track < 128
      → track < mapsize
      → has_bit 2 flags ≡ true
      → has_bit 4 flags ≡ false
      → length written < 2 ^ 31
      → read_block compr mapsize (length written) (written ++ rest)
        ≡ got (track, time, restored compr (fs ++ (last ∷ []))) rest
  unfolding read_block block_bytes
  read_block-block_bytes mapsize lo hi low known laces xiph small =
      let head =
        msk_block-written track time flags fs last mapsize (to_u16 time / 256) (to_u16 time % 256)
          (length written) (contents (all_frames fs last) ++ rest) (signed16-to_u16 time lo hi) low
          known laces xiph length-written small in
      let tail = ap (λ (x : Bytes). x ++ rest) (sym (contents-append fs last)) in
      rw
        (
          append_assoc (size_bytes fs) (contents fs ++ last) rest,
          tail,
          head,
          frames_from-laced small,
        )
        refl
