-- ===== src/Crop/Inside.antt =====
-- The part of the picture that is kept lies in the picture.
use tcvp.Prelude.{ℕ, ◌+◌, ◌≤◌, ◌<◌, ◌≡◌, refl, arith, Bool, true, false, ◌||◌, ◌==◌}
use tcvp.Prelude.Int.{ℤ, pos, negsuc}
use tcvp.Crop.Probe.{Fraction, Crop, Video, offset, extent, crop_probe}

offset-fits :
    (a : ℤ) (size : ℕ)
    → 0 < size
    → ((offset a size).0 + (offset a size).1 ≤ size) × (0 < (offset a size).1)
unfolding offset
offset-fits (pos a) size h = ground arith
offset-fits (negsuc a) size h = ground arith

extent-fits : (w : ℤ) (size : ℕ) → 0 < size → (extent w size ≤ size) × (0 < extent w size)
unfolding extent
extent-fits (pos w) size h = ground arith
extent-fits (negsuc w) size h = ground arith

-- What the crop and the picture say after the probe.
pub record IsInside (v : Video) (r : Crop × Video × Bool) : Type 0 where
  pub x_at : ℕ
  pub y_at : ℕ
  pub crop_is : r.0 ≡ record { x = pos x_at; y = pos y_at; w = pos r.1.width; h = pos r.1.height }
  pub wide : 0 < r.1.width
  pub high : 0 < r.1.height
  pub x_in : x_at + r.1.width ≤ v.width
  pub y_in : y_at + r.1.height ≤ v.height
  pub succeeds : r.2 ≡ true

-- Whatever the settings, the probe of a picture that is not empty succeeds: the crop takes at least a
-- pixel in each direction, its size is that of the new picture, and it lies in the old picture.
pub crop_probe-IsInside :
    (tcreduce : Fraction → Fraction) (c : Crop) (v : Video)
    → 0 < v.width
    → 0 < v.height
    → IsInside v (crop_probe tcreduce c v)
unfolding crop_probe
crop_probe-IsInside tcreduce c v hw hh =
    let x = offset-fits c.x v.width hw in
    let y = offset-fits c.y v.height hh in
    let w = extent-fits c.w (offset c.x v.width).1 x.1 in
    let h = extent-fits c.h (offset c.y v.height).1 y.1 in
    let filled : (extent c.w (offset c.x v.width).1 == 0 || extent c.h (offset c.y v.height).1 == 0)
        ≡ false =
      ground (arith, w.1, h.1) in
    rw (filled) (record {
      x_at = (offset c.x v.width).0;
      y_at = (offset c.y v.height).0;
      crop_is = refl;
      wide = w.1;
      high = h.1;
      x_in = omega (arith, x.0, w.0);
      y_in = omega (arith, y.0, h.0);
      succeeds = refl;
    })
