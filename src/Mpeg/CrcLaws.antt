-- ===== src/Mpeg/CrcLaws.antt =====
-- What stands behind the data makes their checksum 0.
use Prim.Native.Nat.{bit_xor, digits, differ, bit_xor-bitwise}
use tcvp.Prelude.{
  ℕ, zero, suc, ◌*◌, ◌/◌, ◌%◌, ◌^◌, ◌<◌, ◌≤◌, ◌≡◌, refl, arith, [], ◌∷◌, ◌++◌, true, ◌==◌, ==_iff,
  all_below, all_below-at, ◌∙◌,
}
use tcvp.Prelude.Wire.{Bytes}
use tcvp.Mpeg.Crc.{crc_table, crc_step, crc_bytes, mpeg_crc32, be32}

differ-zero : (a : ℕ) → differ a 0 ≡ a
differ-zero zero = refl
differ-zero (suc a) = refl

digits-zero : (n a : ℕ) → a ≤ n → digits (λ b. b) differ n a 0 ≡ a
digits-zero zero a h = omega arith
digits-zero (suc n) zero h = refl
digits-zero (suc n) (suc a) h =
    omega (arith, digits-zero n (suc a / 2) (omega arith), differ-zero (suc a % 2))

bit_xor-zero : (a : ℕ) → bit_xor a 0 ≡ a
bit_xor-zero a = bit_xor-bitwise a 0 ∙ digits-zero a a (omega arith)

selves : all_below 256 (λ x. bit_xor x x == 0) ≡ true
unfolding all_below
selves = refl

bit_xor_self : (x : ℕ) → x < 256 → bit_xor x x ≡ 0
bit_xor_self x h = (==_iff _ _).0 (all_below-at 256 (λ x. bit_xor x x == 0) x selves h)

-- A byte that is the upper one of the checksum shifts it out.
shift_out : (crc b : ℕ) → crc < 2 ^ 32 → b ≡ crc / 2 ^ 24 → crc_step crc b ≡ crc * 2 ^ 8 % 2 ^ 32
unfolding crc_step crc_table
shift_out crc b h e =
    rw (e, bit_xor_self (crc / 2 ^ 24) (omega arith), bit_xor-zero (crc * 2 ^ 8 % 2 ^ 32))
      (omega arith)

crc_bytes-append :
    (crc : ℕ) (xs ys : Bytes) → crc_bytes crc (xs ++ ys) ≡ crc_bytes (crc_bytes crc xs) ys
unfolding crc_bytes
crc_bytes-append crc [] ys = refl
crc_bytes-append crc (x ∷ xs) ys = crc_bytes-append (crc_step crc x) xs ys

crc_bytes-small : (crc : ℕ) (bs : Bytes) → crc < 2 ^ 32 → crc_bytes crc bs < 2 ^ 32
unfolding crc_bytes crc_step
crc_bytes-small crc [] h = h
crc_bytes-small crc (b ∷ bs) h = crc_bytes-small (crc_step crc b) bs (omega arith)

residue : (crc : ℕ) → crc < 2 ^ 32 → crc_bytes crc (be32 crc) ≡ 0
unfolding crc_bytes
residue crc h =
    rw
      (
        shift_out crc (crc / 2 ^ 16 / 256 % 256) h (omega arith),
        shift_out (crc * 2 ^ 8 % 2 ^ 32) (crc / 2 ^ 16 % 256) (omega arith) (omega arith),
        shift_out (crc * 2 ^ 8 % 2 ^ 32 * 2 ^ 8 % 2 ^ 32) (crc / 256 % 256) (omega arith)
            (omega arith),
        shift_out (crc * 2 ^ 8 % 2 ^ 32 * 2 ^ 8 % 2 ^ 32 * 2 ^ 8 % 2 ^ 32) (crc % 256) (omega arith)
            (omega arith),
      )
      (omega arith)

-- The checksum of bytes behind which their own checksum stands is 0, as the reader of a table wants it.
pub mpeg_crc32-append : (bs : Bytes) → mpeg_crc32 (bs ++ be32 (mpeg_crc32 bs)) ≡ 0
unfolding mpeg_crc32
mpeg_crc32-append bs =
    crc_bytes-append 0xffffffff bs (be32 (mpeg_crc32 bs))
    ∙ residue (crc_bytes 0xffffffff bs) (crc_bytes-small 0xffffffff bs (omega arith))
