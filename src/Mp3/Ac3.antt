-- ===== src/Mp3/Ac3.antt =====
-- ac3.c: the header of an AC-3 frame, with the reading of bits of tcvp_bits.h.
use tcvp.Prelude.{
  ℕ, zero, suc, ◌+◌, ◌-◌, ◌*◌, ◌/◌, ◌%◌, ◌^◌, true, false, ◌&&◌, ◌||◌, not, List, [], ◌∷◌, Option,
  none, some, ltb, ◌==◌, if◌then◌else◌, min,
}
use tcvp.Mp3.Mpeg1.{nth, Frame}

abbrev pub ac3_sample_rates : List ℕ
ac3_sample_rates = 48000 ∷ 44100 ∷ 32000 ∷ 0 ∷ []

-- The rows that the source leaves out are zeros.
abbrev pub ac3_frame_sizes : List (List ℕ)
ac3_frame_sizes =
    (64 ∷ 69 ∷ 96 ∷ [])
    ∷ (64 ∷ 70 ∷ 96 ∷ [])
    ∷ (80 ∷ 87 ∷ 120 ∷ [])
    ∷ (80 ∷ 88 ∷ 120 ∷ [])
    ∷ (96 ∷ 104 ∷ 144 ∷ [])
    ∷ (96 ∷ 105 ∷ 144 ∷ [])
    ∷ (112 ∷ 121 ∷ 168 ∷ [])
    ∷ (112 ∷ 122 ∷ 168 ∷ [])
    ∷ (128 ∷ 139 ∷ 192 ∷ [])
    ∷ (128 ∷ 140 ∷ 192 ∷ [])
    ∷ (160 ∷ 174 ∷ 240 ∷ [])
    ∷ (160 ∷ 175 ∷ 240 ∷ [])
    ∷ (192 ∷ 208 ∷ 288 ∷ [])
    ∷ (192 ∷ 209 ∷ 288 ∷ [])
    ∷ (224 ∷ 243 ∷ 336 ∷ [])
    ∷ (224 ∷ 244 ∷ 336 ∷ [])
    ∷ (256 ∷ 278 ∷ 384 ∷ [])
    ∷ (256 ∷ 279 ∷ 384 ∷ [])
    ∷ (320 ∷ 348 ∷ 480 ∷ [])
    ∷ (320 ∷ 349 ∷ 480 ∷ [])
    ∷ (384 ∷ 417 ∷ 576 ∷ [])
    ∷ (384 ∷ 418 ∷ 576 ∷ [])
    ∷ (448 ∷ 487 ∷ 672 ∷ [])
    ∷ (448 ∷ 488 ∷ 672 ∷ [])
    ∷ (512 ∷ 557 ∷ 768 ∷ [])
    ∷ (512 ∷ 558 ∷ 768 ∷ [])
    ∷ (640 ∷ 696 ∷ 960 ∷ [])
    ∷ (640 ∷ 697 ∷ 960 ∷ [])
    ∷ (768 ∷ 835 ∷ 1152 ∷ [])
    ∷ (768 ∷ 836 ∷ 1152 ∷ [])
    ∷ (896 ∷ 975 ∷ 1344 ∷ [])
    ∷ (896 ∷ 976 ∷ 1344 ∷ [])
    ∷ (1024 ∷ 1114 ∷ 1536 ∷ [])
    ∷ (1024 ∷ 1115 ∷ 1536 ∷ [])
    ∷ (1152 ∷ 1253 ∷ 1728 ∷ [])
    ∷ (1152 ∷ 1254 ∷ 1728 ∷ [])
    ∷ (1280 ∷ 1393 ∷ 1920 ∷ [])
    ∷ (1280 ∷ 1394 ∷ 1920 ∷ [])
    ∷ []

abbrev pub ac3_bitrates : List ℕ
ac3_bitrates =
    32 ∷ 32 ∷ 40 ∷ 40 ∷ 48 ∷ 48 ∷ 56 ∷ 56 ∷ 64 ∷ 64 ∷ 80 ∷ 80 ∷ 96 ∷ 96 ∷ 112 ∷ 112 ∷ 128 ∷ 128
    ∷ 160 ∷ 160 ∷ 192 ∷ 192 ∷ 224 ∷ 224 ∷ 256 ∷ 256 ∷ 320 ∷ 320 ∷ 384 ∷ 384 ∷ 448 ∷ 448 ∷ 512 ∷ 512
    ∷ 576 ∷ 576 ∷ 640 ∷ 640 ∷ []

abbrev pub ac3_channels : List ℕ
ac3_channels = 2 ∷ 1 ∷ 2 ∷ 3 ∷ 3 ∷ 4 ∷ 4 ∷ 5 ∷ []

-- `tcvp_bits_t`: `words` are the 32-bit numbers of the data from the position on, each with its
-- most significant byte first; `bits` are the ones not yet read, from the top on, and `bs` is how many.
pub record BitReader : Type 0 where
  pub words : List ℕ
  pub size : ℕ
  pub bits : ℕ
  pub bs : ℕ

-- `tcvp_bits_init`
unfoldable pub bits_init : List ℕ → ℕ → BitReader
bits_init words size = record { words = words; size = size; bits = 0; bs = 0 }

-- The next word, when all bits are read; `none` if the data do not suffice for `n` bits.
unfoldable pub refill : ℕ → BitReader → Option BitReader
unfolding nth
refill n s =
    if s.bs == 0
    then (if ltb (s.size * 8) n
        then none
        else some
            (record { words = rest s.words; size = s.size - 4; bits = nth 0 s.words 0; bs = 32 }))
    else some s
  where
    rest : List ℕ → List ℕ
    rest [] = []
    rest (w ∷ ws) = ws

-- The loop of `tcvp_bits_get` for `n` bits, each round of which reads at least one, so that `n` of fuel
-- are enough; `v` is the value so far.
unfoldable pub get_rounds : ℕ → ℕ → ℕ → BitReader → ℕ × BitReader
unfolding refill
get_rounds zero n v s = (v, s)
get_rounds (suc fuel) n v s = elim (n == 0) [
  | true ↦ (v, s)
  | false ↦ elim (refill n s) [
    | none ↦ (2 ^ 32 - 1, s)
    | some t ↦
        let b = min n t.bs in
        get_rounds fuel (n - b) (v * 2 ^ b % 2 ^ 32 + t.bits / 2 ^ (32 - b) % 2 ^ b)
          (record t { bits = t.bits * 2 ^ b % 2 ^ 32; bs = t.bs - b })
  ]
]

unfoldable pub bits_get : ℕ → BitReader → ℕ × BitReader
unfolding get_rounds
bits_get n s = get_rounds n n 0 s

-- The optional fields behind `acmod`.
unfoldable pub mix_levels : ℕ → BitReader → BitReader
unfolding bits_get
mix_levels acmod s =
    let s1 = if not (acmod % 2 == 0) && not (acmod == 1) then (bits_get 2 s).1 else s in
    let s2 = if not (acmod / 4 % 2 == 0) then (bits_get 2 s1).1 else s1 in
    if not (acmod / 2 % 2 == 0) then (bits_get 2 s2).1 else s2

-- `ac3_frame_sizes[frmsizecod][fscod]`, for an `fscod` of at most 3: behind the three numbers of a row
-- stands the next one, and behind the last row whatever follows the array, `behind`.
unfoldable pub frame_size_at : ℕ → ℕ → ℕ → ℕ
unfolding nth
frame_size_at behind frmsizecod fscod =
    if ltb fscod 3
    then nth 0 (nth [] ac3_frame_sizes frmsizecod) fscod
    else if ltb frmsizecod 63
    then nth 0 (nth [] ac3_frame_sizes (suc frmsizecod)) 0
    else behind

-- `ac3_header` behind `frmsizecod`.
unfoldable pub ac3_fields : ℕ → ℕ → ℕ → BitReader → Frame → Option Frame
unfolding bits_get mix_levels nth frame_size_at
ac3_fields behind fscod frmsizecod s f =
    let (bsid, s1) = bits_get 5 s in
    let (bsmod, s2) = bits_get 3 s1 in
    let (acmod, s3) = bits_get 3 s2 in
    let (lfeon, s4) = bits_get 1 (mix_levels acmod s3) in
    if frame_size_at behind frmsizecod fscod == 0 || nth 0 ac3_sample_rates fscod == 0
    then none
    else if ltb 8 bsid
    then none
    else some (record f {
      sample_rate = nth 0 ac3_sample_rates fscod;
      bitrate = nth 0 ac3_bitrates frmsizecod * 1000;
      size = frame_size_at behind frmsizecod fscod * 2;
      samples = 6 * 256;
      channels = nth 0 ac3_channels acmod + lfeon;
      layer = 4;
    })

-- What stands in memory behind the table of sizes, the two words of a header, and the frame to fill in;
-- `none` is -1.
unfoldable pub ac3_header : ℕ → ℕ → ℕ → Frame → Option Frame
unfolding bits_init bits_get ac3_fields
ac3_header behind w0 w1 f =
    let (sync, s1) = bits_get 16 (bits_init (w0 ∷ w1 ∷ []) 8) in
    let (crc, s2) = bits_get 16 s1 in
    let (fscod, s3) = bits_get 2 s2 in
    let (frmsizecod, s4) = bits_get 6 s3 in
    if sync == 2935 then ac3_fields behind fscod frmsizecod s4 f else none
