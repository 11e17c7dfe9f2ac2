-- ===== src/Id3/Sizes.antt =====
-- The sizes in a tag, of 28 bits.
use tcvp.Prelude.{ℕ, ◌+◌, ◌*◌, ◌/◌, ◌%◌, ◌^◌, ◌<◌, ◌≡◌, arith}
use tcvp.Id3.Tag.{moved_up, st_ss32}
use tcvp.Id3.Read.{moved_down, getss32}

pub store-small : (v : ℕ) → v < 2 ^ 28 → st_ss32 v < 2 ^ 32
unfolding st_ss32 moved_up
store-small v h = omega arith

down-up_24 : (v : ℕ) → v < 2 ^ 31 → moved_down (2 ^ 24) (moved_up (2 ^ 24) v) ≡ v
unfolding moved_up moved_down
down-up_24 v h = omega arith

down-up_16 : (v : ℕ) → v < 2 ^ 31 → moved_down (2 ^ 16) (moved_up (2 ^ 16) v) ≡ v
unfolding moved_up moved_down
down-up_16 v h = omega arith

down-up_8 : (v : ℕ) → v < 2 ^ 31 → moved_down (2 ^ 8) (moved_up (2 ^ 8) v) ≡ v
unfolding moved_up moved_down
down-up_8 v h = omega arith

up_8-small : (v : ℕ) → v < 2 ^ 28 → moved_up (2 ^ 8) v < 2 ^ 30
unfolding moved_up
up_8-small v h = omega arith

up_16-small : (v : ℕ) → v < 2 ^ 30 → moved_up (2 ^ 16) v < 2 ^ 31
unfolding moved_up
up_16-small v h = omega arith

-- A number of 28 bits is read as it was stored.
pub getss32-st_ss32 : (v : ℕ) → v < 2 ^ 28 → getss32 4 (st_ss32 v) ≡ v
unfolding getss32 st_ss32
getss32-st_ss32 v h =
    let one = up_8-small v h in
    let two = up_16-small (moved_up (2 ^ 8) v) one in
    rw (
      down-up_24 (moved_up (2 ^ 16) (moved_up (2 ^ 8) v)) two,
      down-up_16 (moved_up (2 ^ 8) v) (omega (arith, one)),
      down-up_8 v (omega arith),
    )

pub number32-be32 :
    (v : ℕ)
    → v < 2 ^ 32
    → (v / 2 ^ 16 / 256 % 256 * 256 + v / 2 ^ 16 % 256) * 2 ^ 16 + (v / 256 % 256 * 256 + v % 256)
      ≡ v
number32-be32 v h = omega arith
