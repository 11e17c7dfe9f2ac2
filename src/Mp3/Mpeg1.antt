-- ===== src/Mp3/Mpeg1.antt =====
-- mpeg1.c: the header of an MPEG audio frame.
use Prim.Native.Nat.{bit_and}
use tcvp.Prelude.{
  ℕ, zero, suc, ◌+◌, ◌-◌, ◌*◌, ◌/◌, ◌%◌, ◌^◌, Bool, true, false, ◌&&◌, ◌||◌, not, List, [], ◌∷◌,
  Option, none, some, ltb, ◌==◌, if◌then◌else◌,
}

-- An element of a table, `d` behind its end: zeros at the end of a C table are left out.
unfoldable pub nth : {A : Type 0} → A → List A → ℕ → A
nth d [] k = d
nth d (x ∷ xs) zero = x
nth d (x ∷ xs) (suc k) = nth d xs k

-- `mp3_frame_t`
pub record Frame : Type 0 where
  pub version : ℕ
  pub layer : ℕ
  pub bitrate : ℕ
  pub sample_rate : ℕ
  pub size : ℕ
  pub samples : ℕ
  pub channels : ℕ

abbrev pub bitrates : List (List ℕ)
bitrates =
    (0 ∷ 0 ∷ 0 ∷ 0 ∷ 0 ∷ [])
    ∷ (32 ∷ 32 ∷ 32 ∷ 32 ∷ 8 ∷ [])
    ∷ (64 ∷ 48 ∷ 40 ∷ 48 ∷ 16 ∷ [])
    ∷ (96 ∷ 56 ∷ 48 ∷ 56 ∷ 24 ∷ [])
    ∷ (128 ∷ 64 ∷ 56 ∷ 64 ∷ 32 ∷ [])
    ∷ (160 ∷ 80 ∷ 64 ∷ 80 ∷ 40 ∷ [])
    ∷ (192 ∷ 96 ∷ 80 ∷ 96 ∷ 48 ∷ [])
    ∷ (224 ∷ 112 ∷ 96 ∷ 112 ∷ 56 ∷ [])
    ∷ (256 ∷ 128 ∷ 112 ∷ 128 ∷ 64 ∷ [])
    ∷ (288 ∷ 160 ∷ 128 ∷ 144 ∷ 80 ∷ [])
    ∷ (320 ∷ 192 ∷ 160 ∷ 160 ∷ 96 ∷ [])
    ∷ (352 ∷ 224 ∷ 192 ∷ 176 ∷ 112 ∷ [])
    ∷ (384 ∷ 256 ∷ 224 ∷ 192 ∷ 128 ∷ [])
    ∷ (416 ∷ 320 ∷ 256 ∷ 224 ∷ 144 ∷ [])
    ∷ (448 ∷ 384 ∷ 320 ∷ 256 ∷ 160 ∷ [])
    ∷ (0 ∷ 0 ∷ 0 ∷ 0 ∷ 0 ∷ [])
    ∷ []

abbrev pub mpeg_sample_rates : List (List ℕ)
mpeg_sample_rates =
    (11025 ∷ 0 ∷ 22050 ∷ 44100 ∷ [])
    ∷ (12000 ∷ 0 ∷ 24000 ∷ 48000 ∷ [])
    ∷ (8000 ∷ 0 ∷ 16000 ∷ 32000 ∷ [])
    ∷ []

-- The tests of the second byte.
unfoldable pub second_fits : ℕ → Bool
second_fits c = bit_and c 224 == 224 && not (bit_and c 24 == 8) && not (bit_and c 6 == 0)

-- The tests of the third byte.
unfoldable pub third_fits : ℕ → Bool
third_fits d = not (bit_and d 240 == 240) && not (bit_and d 12 == 12)

unfoldable pub version_of : ℕ → ℕ
version_of c = bit_and (c / 8) 3

unfoldable pub layer_of : ℕ → ℕ
layer_of c = 3 - bit_and (c / 2) 3

-- The entry of `bitrates`, with `br` and `bx`.
unfoldable pub table_rate : ℕ → ℕ → ℕ → ℕ
unfolding nth
table_rate version layer br =
    nth 0 (nth [] bitrates br) (if version == 3 then layer else 3 + (if ltb 1 layer then 1 else 0))

-- `size` and `samples`, by the layer.
unfoldable pub measures : ℕ → ℕ → ℕ → ℕ → ℕ → ℕ × ℕ
measures version layer bitrate rate pad =
    let lsf = if layer == 2 then 1 - version % 2 else 0 in
    if layer == 0
    then ((12 * bitrate / rate + pad) * 4, 384)
    else (144 * bitrate / (rate * 2 ^ lsf) + pad, 1152)

-- The frame, where the header names a bit rate.
unfoldable pub frame : ℕ → ℕ → ℕ → ℕ → ℕ → ℕ → Frame
unfolding table_rate measures nth
frame version layer br sr pad head3 =
    let bitrate = table_rate version layer br * 1000 in
    let rate = nth 0 (nth [] mpeg_sample_rates sr) version in
    let m = measures version layer bitrate rate pad in
    record {
      version = version;
      layer = layer;
      bitrate = bitrate;
      sample_rate = rate;
      size = m.0;
      samples = m.1;
      channels = if head3 / 64 == 3 then 1 else 2;
    }

-- `mp3_header` behind the tests of the bytes.
unfoldable pub fill : ℕ → ℕ → ℕ → Option Frame → Option Frame × Bool
unfolding version_of layer_of table_rate frame
fill c d h3 none = (none, true)
fill c d h3 (some f) =
    let version = version_of c in
    let layer = layer_of c in
    let br = bit_and (d / 16) 15 in
    if table_rate version layer br == 0
    then (some (record f { version = version; layer = layer }), false)
    else (some (frame version layer br (bit_and (d / 4) 3) (bit_and (d / 2) 1) h3), true)

-- The four bytes of a header, and the frame to fill in, `none` for NULL; whether the header is
-- accepted.
unfoldable pub mp3_header : ℕ → ℕ → ℕ → ℕ → Option Frame → Option Frame × Bool
unfolding second_fits third_fits fill
mp3_header h0 c d h3 mf =
    if not (h0 == 255) || not (second_fits c) || not (third_fits d)
    then (mf, false)
    else fill c d h3 mf
