-- ===== src/Mp3/Accepted.antt =====
-- What holds of the frame of every header that mpeg1.c accepts.
use Prim.Native.Nat.{bit_and}
use mathlib.Core.Path.{subst, ap}
use tcvp.Prelude.{
  all_below, all_below-at, ℕ, ◌/◌, ◌≤◌, ◌<◌, ◌≡◌, refl, arith, Bool, true, false, ◌&&◌, ◌||◌, not,
  some, ltb, leb, ◌==◌, if◌then◌else◌,
}
use tcvp.Mp3.Mpeg1.{
  Frame, mp3_header, fill, second_fits, third_fits, version_of, layer_of, table_rate, frame,
  measures, nth,
}

abbrev second_test : ℕ → Bool
second_test c =
    not (second_fits c) || ltb (version_of c) 4 && not (version_of c == 1) && ltb (layer_of c) 3

abbrev third_test : ℕ → Bool
third_test d =
    not (third_fits d)
    || ltb (bit_and (d / 16) 15) 15 && ltb (bit_and (d / 4) 3) 3 && ltb (bit_and (d / 2) 1) 2

second_all : all_below 256 second_test ≡ true
unfolding all_below second_fits version_of layer_of
second_all = refl

third_all : all_below 256 third_test ≡ true
unfolding all_below third_fits
third_all = refl

-- The bounds of a frame, as a test.
abbrev measured : Frame → Bool
measured f =
    leb 8000 f.bitrate
    && leb f.bitrate 448000
    && leb 8000 f.sample_rate
    && leb f.sample_rate 48000
    && leb 24 f.size
    && leb f.size 4609

abbrev frame_test : ℕ → ℕ → ℕ → ℕ → ℕ → Bool
frame_test version layer br sr pad =
    version == 1 || table_rate version layer br == 0 || measured (frame version layer br sr pad 0)

frame_all :
    all_below 4 (λ v.
      all_below 3 (λ l. all_below 15 (λ b. all_below 3 (λ s. all_below 2 (frame_test v l b s)))))
    ≡ true
unfolding all_below table_rate frame measures nth
frame_all = refl

-- The bounds of a frame.
pub record IsMeasured (f : Frame) : Type 0 where
  pub bitrate_from : 8000 ≤ f.bitrate
  pub bitrate_to : f.bitrate ≤ 448000
  pub rate_from : 8000 ≤ f.sample_rate
  pub rate_to : f.sample_rate ≤ 48000
  pub size_from : 24 ≤ f.size
  pub size_to : f.size ≤ 4609

measured-IsMeasured : (f : Frame) → measured f ≡ true → IsMeasured f
measured-IsMeasured f e = record {
  bitrate_from = ground arith;
  bitrate_to = ground arith;
  rate_from = ground arith;
  rate_to = ground arith;
  size_from = ground arith;
  size_to = ground arith;
}

last_of : (a b c : Bool) → (a || b || c) ≡ true → a ≡ false → b ≡ false → c ≡ true
last_of a b c e f g = ground arith

-- The frame of fields that the tests let pass.
frame-IsMeasured :
    (v l b s p h : ℕ)
    → v < 4
    → (v == 1) ≡ false
    → l < 3
    → b < 15
    → s < 3
    → p < 2
    → (table_rate v l b == 0) ≡ false
    → IsMeasured (frame v l b s p h)
unfolding frame
frame-IsMeasured v l b s p h hv nv hl hb hs hp nb =
    let at_v = all_below-at 4 _ v frame_all hv in
    let at_l = all_below-at 3 _ l at_v hl in
    let at_b = all_below-at 15 _ b at_l hb in
    let at_s = all_below-at 3 _ s at_b hs in
    let at_p : frame_test v l b s p ≡ true = all_below-at 2 _ p at_s hp in
    let m = measured-IsMeasured (frame v l b s p 0) (last_of _ _ _ at_p nv nb) in
    record {
      bitrate_from = m.bitrate_from;
      bitrate_to = m.bitrate_to;
      rate_from = m.rate_from;
      rate_to = m.rate_to;
      size_from = m.size_from;
      size_to = m.size_to;
    }

pub some_inj : {A : Type 0} {x y : A} → some x ≡ some y → x ≡ y
some_inj e = cc

accepted_if :
    {A : Type 0} {y : A} (b : Bool) (x : A) (z : A × Bool)
    → (if b then (x, false) else z) ≡ (y, true)
    → (b ≡ false) × (z ≡ (y, true))
accepted_if true x z e = absurd (ground (arith, ap (λ t. t.1) e))
accepted_if false x z e = (refl, e)

fill-IsMeasured :
    (c d h3 : ℕ) (f f' : Frame)
    → c < 256
    → d < 256
    → second_fits c ≡ true
    → third_fits d ≡ true
    → fill c d h3 (some f) ≡ (some f', true)
    → IsMeasured f'
unfolding fill
fill-IsMeasured c d h3 f f' hc hd ec ed e =
    let second = all_below-at 256 second_test c second_all hc in
    let third = all_below-at 256 third_test d third_all hd in
    let q = accepted_if _ _ _ e in
    subst IsMeasured (some_inj (ap (λ t. t.0) q.1)) (
      frame-IsMeasured (version_of c) (layer_of c) (bit_and (d / 16) 15) (bit_and (d / 4) 3)
        (bit_and (d / 2) 1) h3 (ground arith) (ground arith) (ground arith) (ground arith)
        (ground arith) (ground arith) q.0)

-- A header that is accepted, with a frame to fill in, gives a frame with a bit rate of 8000 to
-- 448000, a sample rate of 8000 to 48000, and a size of 24 to 4609 bytes.
pub mp3_header-IsMeasured :
    (h0 c d h3 : ℕ) (f f' : Frame)
    → c < 256
    → d < 256
    → mp3_header h0 c d h3 (some f) ≡ (some f', true)
    → IsMeasured f'
unfolding mp3_header
mp3_header-IsMeasured h0 c d h3 f f' hc hd e =
    let q =
      accepted_if (not (h0 == 255) || not (second_fits c) || not (third_fits d)) (some f) _ e in
    fill-IsMeasured c d h3 f f' hc hd (ground (arith, q.0)) (ground (arith, q.0)) q.1
