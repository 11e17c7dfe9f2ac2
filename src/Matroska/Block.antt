-- ===== src/Matroska/Block.antt =====
-- Blocks of a Matroska file and their frames, as msk_block and msk_packet of matroska.c read them.
use tcvp.Prelude.{
  ℕ, zero, suc, ◌+◌, ◌-◌, ◌*◌, ◌/◌, ◌%◌, ◌^◌, Bool, not, ◌||◌, List, [], ◌∷◌, ◌++◌, Option, none,
  some, ltb, ◌==◌, if◌then◌else◌, take, drop, replicate, get_elem?,
}
use tcvp.Prelude.Int.{ℤ, pos, negsuc}
use tcvp.Prelude.Wire.{Bytes}
use tcvp.Matroska.Ebml.{Got, failed, overrun, got, ◌>>=◌, get_vint}

-- `xiph_int`: the value, and the number of bytes.
unfoldable pub xiph_int : Bytes → Got (ℕ × ℕ)
xiph_int [] = failed
xiph_int (v ∷ b) =
    let more = xiph_int b >>= (λ p. got (v + p.0.0, p.0.1 + 1) p.1) in
    if v == 255 then more else got (v, 1) b

-- A difference of two `u_int`.
abbrev pub minus_u : ℕ → ℕ → ℕ
minus_u a b = (a + 2 ^ 32 - b) % 2 ^ 32

-- The size of a frame and of its bytes, for a lace of EBML: the first one is written, the others as
-- differences. A shift by 32 and more is undefined.
abbrev pub ebml_difference : ℕ → ℕ × ℕ → Bytes → Got (ℕ × ℕ)
ebml_difference before val b =
    if ltb (val.1) 5
    then got ((minus_u (val.0 % 2 ^ 32) (2 ^ (7 * val.1 - 1) - 1) + before) % 2 ^ 32, val.1) b
    else overrun

unfoldable pub ebml_size : Option ℕ → Bytes → Got (ℕ × ℕ)
unfolding get_vint
ebml_size none b = do (val, rest) ← get_vint b; got (val.0 % 2 ^ 32, val.1) rest
ebml_size (some before) b = do (val, rest) ← get_vint b; ebml_difference before val rest

-- The loop over all frames but the last: their sizes, the sum `ts`, and what is left of the block.
unfoldable pub laced : Bool → ℕ → Option ℕ → ℕ → ℕ → Bytes → Got (List ℕ × ℕ × ℕ)
unfolding xiph_int ebml_size
laced ebml zero before ts size b = got ([], ts, size) b
laced ebml (suc n) before ts size b = do
  (fs, b1) ← if ebml then ebml_size before b else xiph_int b
  (more, b2) ← laced ebml n (some fs.0) ((ts + fs.0) % 2 ^ 32) (minus_u size fs.1) b1
  got (fs.0 ∷ more.0, more.1, more.2) b2

-- `matroska_block_t`, but for `duration`, which a block does not set.
pub record Block : Type 0 where
  pub track : ℕ
  pub time : ℤ
  pub flags : ℕ
  pub frames : ℕ
  pub size : ℕ
  pub fsizes : List ℕ
  pub frame : ℕ

abbrev pub block : ℕ → ℤ → ℕ → ℕ → ℕ → List ℕ → ℕ → Block
block t i f n s l k = record {
  track = t;
  time = i;
  flags = f;
  frames = n;
  size = s;
  fsizes = l;
  frame = k;
}

abbrev pub has_bit : ℕ → ℕ → Bool
has_bit bit flags = not (flags / bit % 2 == 0)

-- The last frame takes what is left.
abbrev pub with_last : List ℕ × ℕ × ℕ → ℕ × List ℕ
with_last l = (l.2, l.0 ++ (minus_u (l.2) (l.1) ∷ []))

-- The sizes of the frames, with `flags & 0x2` and `flags & 0x4`.
unfoldable pub frame_sizes : Bool → Bool → ℕ → ℕ → Bytes → Got (ℕ × List ℕ)
unfolding laced
frame_sizes variable ebml frames size b =
    if variable
    then laced ebml (frames - 1) none 0 size b >>= (λ p. got (with_last p.0) p.1)
    else got (size, replicate frames (size / frames)) b

-- `if(mb->flags & 0x6)`, with what lies behind the flags.
unfoldable pub lacing : ℕ → ℤ → ℕ → ℕ → Bytes → Got Block
unfolding frame_sizes
lacing track time flags size b =
    if not (has_bit 2 flags || has_bit 4 flags)
    then got (block track time flags 1 size (size ∷ []) 0) b
    else elim b [
      | [] ↦ failed
      | n ∷ b1 ↦
          frame_sizes (has_bit 2 flags) (has_bit 4 flags) (n + 1) (minus_u size 1) b1
          >>= (λ p. got (block track time flags (n + 1) (p.0.0) (p.0.1) 0) p.1)
    ]

-- An `int16_t` by its bit pattern.
abbrev pub signed16 : ℕ → ℤ
signed16 w = if ltb w (2 ^ 15) then pos w else negsuc (2 ^ 16 - w - 1)

-- `mb->time` and `mb->flags`, where they lie in the file.
unfoldable pub head : ℕ → ℕ → Bytes → Got Block
unfolding lacing
head track size (t1 ∷ t2 ∷ flags ∷ b) =
    lacing track (signed16 (t1 * 256 + t2)) flags (minus_u size 3) b
head track size b = failed

-- `msk_block`, for the `mapsize` entries of `map`. Where the file ends the code goes on with a value
-- that was never read, which is not followed.
unfoldable pub msk_block : ℕ → ℕ → Bytes → Got Block
unfolding head get_vint
msk_block mapsize size b = do
  (track, b1) ← get_vint b
  if ltb (track.0) mapsize then head (track.0) (minus_u (size % 2 ^ 32) (track.1)) b1 else overrun

-- `frame++`, and `msk_free_block` once all frames are taken.
abbrev pub next_frame : Block → Option Block
next_frame mb =
    if mb.frame + 1 == mb.frames
    then none
    else some (block mb.track mb.time mb.flags mb.frames mb.size mb.fsizes (mb.frame + 1))

-- The frame that `msk_packet` takes from a block, behind the bytes `compr` that were stripped from it,
-- and the block then. A size is an `int` there.
unfoldable pub msk_packet_frame : Bytes → Block → Bytes → Got (Bytes × Option Block)
msk_packet_frame compr mb b = elim (get_elem? mb.fsizes mb.frame) [
  | none ↦ overrun
  | some data_size ↦
      if ltb data_size (2 ^ 31)
      then got (compr ++ take data_size b, next_frame mb) (drop data_size b)
      else overrun
]
