-- ===== src/Cdxa/Seek.antt =====
-- `struct cdxa` with `cdxa_seek` and `cdxa_tell`.
use tcvp.Prelude.{ℕ, ◌+◌, ◌-◌, ◌*◌, ◌/◌, Bool, true, false, Option, none, some, ltb, if◌then◌else◌}
use tcvp.Prelude.Int.{ℤ, pos, negsuc, ◌+ℤ◌}

-- SECTOR_SIZE and SECTOR_DATA.
abbrev pub sector_size : ℕ
sector_size = 2352

abbrev pub sector_data : ℕ
sector_data = 2324

-- The state with the position `raw` of the file below, whose length is `length`; `size` is the one
-- of the stream inside.
pub record Cdxa : Type 0 where
  pub data_start : ℕ
  pub sector_pos : ℕ
  pub raw : ℕ
  pub size : ℕ

-- SEEK_SET, SEEK_CUR, SEEK_END, and anything else.
pub data Whence : Type 0 where
  seek_set seek_cur seek_end bad_whence : Whence

-- The position that is asked for; `can_tell` is whether the file below has a `tell`.
unfoldable pub target : Bool → ℤ → Whence → Cdxa → Option ℤ
target can_tell off seek_set c = some off
target true off seek_cur c = some (pos c.raw +ℤ off)
target false off seek_cur c = none
target can_tell off seek_end c = some (pos c.size +ℤ off)
target can_tell off bad_whence c = none

-- The seek to a position. What becomes of a negative one depends on the type of `size` in `url_t`,
-- which is not of this repository: `negative` stands for it. The file below refuses some positions.
unfoldable pub seek_to : (ℕ → Bool) → (ℕ → Option Cdxa) → Cdxa → Option ℤ → Option Cdxa
seek_to takes negative c none = none
seek_to takes negative c (some (negsuc p)) = negative p
seek_to takes negative c (some (pos p)) =
    let sector = p / sector_data in
    let rest = p - sector * sector_data in
    let raw = c.data_start + sector * sector_size + rest in
    if ltb c.size p
    then none
    else if takes raw
    then some (record { data_start = c.data_start; sector_pos = rest; raw = raw; size = c.size })
    else none

-- `none` is -1.
unfoldable pub cdxa_seek : (ℕ → Bool) → (ℕ → Option Cdxa) → Bool → ℤ → Whence → Cdxa → Option Cdxa
unfolding target seek_to
cdxa_seek takes negative can_tell off how c = seek_to takes negative c (target can_tell off how c)

unfoldable pub cdxa_tell : Bool → Cdxa → ℕ
cdxa_tell can_tell c =
    let p = c.raw - c.data_start in
    let sector = p / sector_size in
    let rest = p - sector * sector_size in if can_tell then sector * sector_data + rest else 0

-- `cu->size`, in `cdxa_open`.
unfoldable pub inner_size : ℕ → ℕ → ℕ
inner_size length data_start = (length - data_start) / sector_size * sector_data
