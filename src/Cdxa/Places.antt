-- ===== src/Cdxa/Places.antt =====
-- Where the seek leads to.
use tcvp.Prelude.{ℕ, ◌-◌, ◌%◌, ◌≤◌, ◌<◌, ◌≡◌, arith, ap, sym, ◌∙◌, Bool, true, Option, some}
use tcvp.Prelude.Int.{pos, ◌+ℤ◌}
use tcvp.Cdxa.Seek.{
  Cdxa, seek_set, seek_cur, cdxa_seek, seek_to, target, cdxa_tell, sector_size, sector_data,
}

-- A seek to a position inside the stream, if the file takes it, leads there: it is what `cdxa_tell`
-- tells, and the file stands in the data of a sector, before its padding, at `sector_pos`.
pub tell-seek :
    (takes : ℕ → Bool) (negative : ℕ → Option Cdxa) (p : ℕ) (c c' : Cdxa)
    → cdxa_seek takes negative true (pos p) seek_set c ≡ some c'
    → (cdxa_tell true c' ≡ p)
      × (p ≤ c.size)
      × (c'.sector_pos < sector_data)
      × ((c'.raw - c.data_start) % sector_size ≡ c'.sector_pos)
unfolding cdxa_seek seek_to target cdxa_tell
tell-seek takes negative p c c' e = ground arith

+ℤ_zero : (a : ℕ) → pos a +ℤ pos 0 ≡ pos a
unfolding ◌+ℤ◌
+ℤ_zero a = ground arith

-- A seek by 0 relative to the current position that succeeds leads to the position in the stream whose
-- number is that of the position in the file.
pub seek_cur_raw :
    (negative : ℕ → Option Cdxa) (c c' : Cdxa)
    → cdxa_seek (λ k. true) negative true (pos 0) seek_cur c ≡ some c'
    → cdxa_tell true c' ≡ c.raw
unfolding cdxa_seek seek_to target cdxa_tell
seek_cur_raw negative c c' e =
    tell-raw (sym (ap (λ t. seek_to (λ k. true) negative c (some t)) (+ℤ_zero c.raw)) ∙ e)
  where
    tell-raw :
        seek_to (λ k. true) negative c (some (pos c.raw)) ≡ some c' → cdxa_tell true c' ≡ c.raw
    tell-raw h = ground (arith, h)
