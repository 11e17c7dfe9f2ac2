-- ===== src/Crop/Tests.antt =====
-- A picture of 720 by 576 pixels, cropped to the right half of its lower 100 rows.
use tcvp.Prelude.{arith, true}
use tcvp.Prelude.Int.{pos, negsuc}
use tcvp.Crop.Probe.{Fraction, Crop, Video, offset, extent, pixel, crop_probe}
use tcvp.Crop.Inside.{IsInside, crop_probe-IsInside}

abbrev square : Fraction
square = record { num = 1; den = 1 }

abbrev half : Crop
half = record { x = pos 360; y = negsuc 99; w = pos 1000; h = pos 0 }

abbrev picture : Video
picture = record { width = 720; height = 576; aspect = record { num = 4; den = 3 } }

crop_probe-IsInside_example : IsInside picture (
  record { x = pos 360; y = pos 476; w = pos 360; h = pos 100 },
  record { width = 360; height = 100; aspect = square },
  true,
)
unfolding crop_probe offset extent pixel
crop_probe-IsInside_example =
    crop_probe-IsInside (λ f. square) half picture (omega arith) (omega arith)
