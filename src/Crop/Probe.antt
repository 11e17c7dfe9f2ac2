-- ===== src/Crop/Probe.antt =====
-- `crop_t`, the size of the picture that `crop_probe` settles, and the offsets of `crop_input`.
use tcvp.Prelude.{
  ℕ, suc, ◌+◌, ◌-◌, ◌*◌, ◌/◌, Bool, true, false, ◌||◌, ltb, leb, ◌==◌, if◌then◌else◌,
}
use tcvp.Prelude.Int.{ℤ, pos, negsuc}

-- `tcfraction_t`
pub record Fraction : Type 0 where
  pub num : ℕ
  pub den : ℕ

pub record Crop : Type 0 where
  pub x : ℤ
  pub y : ℤ
  pub w : ℤ
  pub h : ℤ

-- What the probe uses of `video_stream_t`.
pub record Video : Type 0 where
  pub width : ℕ
  pub height : ℕ
  pub aspect : Fraction

-- An offset, `c->x` or `c->y`, and the size of the picture in its direction: both afterwards. A
-- negative one counts from the far side.
unfoldable pub offset : ℤ → ℕ → ℕ × ℕ
offset (pos a) size = if ltb a size then (a, size - a) else (0, size)
offset (negsuc a) size = if ltb (suc a) size then (size - suc a, suc a) else (0, size)

-- A size that is asked for, `c->w` or `c->h`: the size afterwards, of the picture and of the crop.
-- Where it is not above 0 it is what to leave out.
unfoldable pub extent : ℤ → ℕ → ℕ
extent (pos w) size = if w == 0 then size else if leb w size then w else size
extent (negsuc w) size = if ltb (suc w) size then size - suc w else size

-- The shape of a pixel, as far as the stream tells. `tcreduce` is a function of libtc.
unfoldable pub pixel : (Fraction → Fraction) → Video → Fraction
pixel tcreduce v =
    if v.aspect.num == 0
    then record { num = 1; den = 1 }
    else tcreduce (record { num = v.height * v.aspect.num; den = v.width * v.aspect.den })

-- The crop, the picture, and whether the result is PROBE_OK.
unfoldable pub crop_probe : (Fraction → Fraction) → Crop → Video → Crop × Video × Bool
unfolding offset extent pixel
crop_probe tcreduce c v =
    let sar = pixel tcreduce v in
    let (x, width) = offset c.x v.width in
    let (y, height) = offset c.y v.height in
    let w = extent c.w width in
    let h = extent c.h height in
    let c' : Crop = record { x = pos x; y = pos y; w = pos w; h = pos h } in
    if w == 0 || h == 0 then (c', record v { width = w; height = h }, false) else (
      c',
      record {
        width = w;
        height = h;
        aspect = tcreduce (record { num = w * sar.num; den = h * sar.den });
      },
      true,
    )

-- `crop_input`: how far the start of the plane `i` moves; `size` is `pk->sizes[i]`.
unfoldable pub plane_offset : ℕ → ℕ → ℕ → ℕ → ℕ
plane_offset i size x y = let d = if i == 0 then 1 else 2 in size * y / d + x / d
