-- ===== src/Prelude/Bits.antt =====
-- Single bits of the results of the bit operations.
use Prim.Native.Nat.{
  ℕ, zero, suc, ◌+◌, ◌/◌, ◌%◌, ◌<◌, min, bit_and, bit_xor, digits, differ, bit_and-bitwise,
  bit_xor-bitwise,
}
use mathlib.Core.Path.{◌≡◌, refl}
use native.Mathlib.Omega.{arith}
use tcvp.Prelude.Tests.{◌==◌}

-- No digit of 0 survives.
and_digits-zero : (n a : ℕ) → digits (λ b. zero) min n a 0 ≡ 0
and_digits-zero zero a = refl
and_digits-zero (suc n) zero = refl
and_digits-zero (suc n) (suc a) = omega (arith, and_digits-zero n (suc a / 2))

pub bit_and-one : (a : ℕ) → bit_and a 1 ≡ a % 2
bit_and-one zero = bit_and-bitwise 0 1
bit_and-one (suc a) = omega (arith, bit_and-bitwise (suc a) 1, and_digits-zero a (suc a / 2))

differ_bits : (x y : ℕ) → x < 2 → y < 2 → differ x y ≡ (x + y) % 2
differ_bits zero y h k = omega arith
differ_bits (suc zero) zero h k = refl
differ_bits (suc zero) (suc zero) h k = refl
differ_bits (suc zero) (suc (suc y)) h k = absurd (omega arith)
differ_bits (suc (suc x)) y h k = absurd (omega arith)

pub bit_xor_parity : (a b : ℕ) → bit_xor a b % 2 ≡ (a + b) % 2
bit_xor_parity zero b = omega (arith, bit_xor-bitwise 0 b)
bit_xor_parity (suc a) b =
    omega (
      arith,
      bit_xor-bitwise (suc a) b,
      differ_bits (suc a % 2) (b % 2) (omega arith) (omega arith),
    )

-- The lowest bit of an exclusive or tells whether the lowest bits differ.
pub bit_xor-one : (a b : ℕ) → (bit_and (bit_xor a b) 1 == 0) ≡ (bit_and a 1 == bit_and b 1)
bit_xor-one a b =
    ground (arith, bit_and-one (bit_xor a b), bit_and-one a, bit_and-one b, bit_xor_parity a b)
