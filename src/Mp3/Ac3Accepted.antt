-- ===== src/Mp3/Ac3Accepted.antt =====
-- What holds of the frame of every header that ac3.c accepts.
use mathlib.Core.Path.{subst}
use tcvp.Prelude.{
  ap, ◌<◌, all_below, all_below-at, ℕ, zero, suc, ◌*◌, ◌≤◌, ◌≡◌, refl, arith, Bool, true, false,
  ◌&&◌, ◌||◌, Option, none, some, List, [], ◌∷◌, leb, ◌==◌, if◌then◌else◌, length, dec_lt, ltb, ◌+◌,
}
use tcvp.Mp3.Mpeg1.{nth, Frame}
use tcvp.Mp3.Ac3.{
  frame_size_at, ac3_header, ac3_fields, ac3_channels, BitReader, bits_get, bits_init, mix_levels,
  ac3_frame_sizes, ac3_sample_rates, ac3_bitrates,
}
use tcvp.Mp3.Accepted.{some_inj}

nth-out : {A : Type 0} (d : A) (xs : List A) (k : ℕ) → length xs ≤ k → nth d xs k ≡ d
unfolding nth
nth-out d [] k h = refl
nth-out d (x ∷ xs) zero h = absurd (omega arith)
nth-out d (x ∷ xs) (suc k) h = nth-out d xs k (omega arith)

abbrev ac3_test : ℕ → ℕ → Bool
ac3_test f c =
    nth 0 (nth [] ac3_frame_sizes f) c == 0
    || nth 0 ac3_sample_rates c == 0
    || leb 32000 (nth 0 ac3_sample_rates c)
      && leb (nth 0 ac3_sample_rates c) 48000
      && leb 32 (nth 0 ac3_bitrates f)
      && leb (nth 0 ac3_bitrates f) 640
      && leb 64 (nth 0 (nth [] ac3_frame_sizes f) c)
      && leb (nth 0 (nth [] ac3_frame_sizes f) c) 1920

ac3_all : all_below 64 (λ f. all_below 3 (ac3_test f)) ≡ true
unfolding all_below nth
ac3_all = refl

-- Behind the three sample rates there is none.
no_rate : (c : ℕ) → 3 ≤ c → nth 0 ac3_sample_rates c ≡ 0
unfolding nth
no_rate c h = elim (dec_lt c 4) [
  | yes l ↦ let q : c ≡ 3 = omega (arith, h, l) in ap (nth 0 ac3_sample_rates) q
  | no g ↦ nth-out 0 ac3_sample_rates c (omega arith)
]

-- The bounds of a frame.
pub record IsAc3 (f : Frame) : Type 0 where
  pub rate_from : 32000 ≤ f.sample_rate
  pub rate_to : f.sample_rate ≤ 48000
  pub bitrate_from : 32000 ≤ f.bitrate
  pub bitrate_to : f.bitrate ≤ 640000
  pub size_from : 128 ≤ f.size
  pub size_to : f.size ≤ 3840

ac3_ok : (f c : ℕ) → c < 3 → ac3_test f c ≡ true
unfolding nth
ac3_ok f c q = elim (dec_lt f 64) [
  | yes p ↦
      all_below-at 3 (ac3_test f) c (all_below-at 64 (λ x. all_below 3 (ac3_test x)) f ac3_all p) q
  | no p ↦ rw (nth-out [] ac3_frame_sizes f (omega arith))
]

-- The frame that `ac3_header` fills in.
abbrev filled : ℕ → ℕ → ℕ → ℕ → Frame → Frame
filled g c k n f = record f {
  sample_rate = nth 0 ac3_sample_rates c;
  bitrate = nth 0 ac3_bitrates k * 1000;
  size = frame_size_at g k c * 2;
  samples = 6 * 256;
  channels = n;
  layer = 4;
}

-- What is accepted is in the table.
in_table :
    (g c k : ℕ)
    → (nth 0 ac3_sample_rates c == 0) ≡ false
    → (c < 3) × (frame_size_at g k c ≡ nth 0 (nth [] ac3_frame_sizes k) c)
unfolding frame_size_at
in_table g c k e = elim (dec_lt c 3) [
  | yes l ↦ let t : ltb c 3 ≡ true = ground (arith, l) in (l, rw t refl)
  | no h ↦ let z = no_rate c (omega arith) in absurd (ground (arith, e, z))
]

filled-IsAc3 :
    (b b' : Bool) (g c k n : ℕ) (f f' : Frame)
    → b ≡ (frame_size_at g k c == 0 || nth 0 ac3_sample_rates c == 0)
    → (if b then none else if b' then none else some (filled g c k n f)) ≡ some f'
    → IsAc3 f'
filled-IsAc3 true b' g c k n f f' q e = absurd (ground arith)
filled-IsAc3 false true g c k n f f' q e = absurd (ground arith)
filled-IsAc3 false false g c k n f f' q e =
    let (low, same) = in_table g c k (ground (arith, q)) in
    let t = ac3_ok k c low in
    subst IsAc3 (some_inj e) (record {
      rate_from = ground (arith, t, q, same);
      rate_to = ground (arith, t, q, same);
      bitrate_from = ground (arith, t, q, same);
      bitrate_to = ground (arith, t, q, same);
      size_from = ground (arith, t, q, same);
      size_to = ground (arith, t, q, same);
    })

ac3_fields-IsAc3 :
    (g c k : ℕ) (s : BitReader) (f f' : Frame) → ac3_fields g c k s f ≡ some f' → IsAc3 f'
unfolding ac3_fields
ac3_fields-IsAc3 g c k s f f' e =
    let (bsid, s1) = bits_get 5 s in
    let (bsmod, s2) = bits_get 3 s1 in
    let (acmod, s3) = bits_get 3 s2 in
    let (lfeon, s4) = bits_get 1 (mix_levels acmod s3) in
    filled-IsAc3 (frame_size_at g k c == 0 || nth 0 ac3_sample_rates c == 0) (ltb 8 bsid) g c k
      (nth 0 ac3_channels acmod + lfeon) f f' refl e

if_some :
    {A : Type 0} {y : A} (b : Bool) (m : Option A) → (if b then m else none) ≡ some y → m ≡ some y
if_some true m e = e
if_some false m e = absurd (ground arith)

-- A header that is accepted gives a frame with a sample rate of 32000 to 48000, a bit rate of 32000 to
-- 640000, and a size of 128 to 3840 bytes, whatever stands in memory behind the table
-- of sizes.
pub ac3_header-IsAc3 : (g w0 w1 : ℕ) (f f' : Frame) → ac3_header g w0 w1 f ≡ some f' → IsAc3 f'
unfolding ac3_header
ac3_header-IsAc3 g w0 w1 f f' e =
    let (sync, s1) = bits_get 16 (bits_init (w0 ∷ w1 ∷ []) 8) in
    let (crc, s2) = bits_get 16 s1 in
    let (fscod, s3) = bits_get 2 s2 in
    let (frmsizecod, s4) = bits_get 6 s3 in
    ac3_fields-IsAc3 g fscod frmsizecod s4 f f'
      (if_some (sync == 2935) (ac3_fields g fscod frmsizecod s4 f) e)
