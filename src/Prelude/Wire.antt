-- ===== src/Prelude/Wire.antt =====
-- Byte buffers: C strings, and the numbers that tcendian.h stores in them.
use Prim.Native.Nat.{ℕ, ◌+◌, ◌*◌, ◌/◌, ◌%◌, ◌^◌, ◌<◌}
use mathlib.Core.Path.{◌≡◌, refl}
use mathlib.Core.Logic.{◌≢◌, inl, inr}
use mathlib.Core.Bool.{false}
use mathlib.Core.Option.{Option, none, some}
use mathlib.Core.List.{List, [], ◌∷◌, ◌++◌}
use native.Mathlib.Omega.{arith}
use tcvp.Prelude.Tests.{◌==◌, if◌then◌else◌, Bool-cases}
use tcvp.Prelude.Lists.{length, All}

abbrev pub Bytes : Type 0
Bytes = List ℕ

-- `st_unaligned32(htob_32(v), p)` and `htob_32(unaligned32(p))`, which tcendian.h defines: what is
-- read back is what was stored.
pub record Wire : Type 0 where
  pub byte3 : ℕ → ℕ
  pub byte2 : ℕ → ℕ
  pub byte1 : ℕ → ℕ
  pub byte0 : ℕ → ℕ
  pub load32 : ℕ → ℕ → ℕ → ℕ → ℕ
  pub load-store : (v : ℕ) → v < 2 ^ 32 → load32 (byte3 v) (byte2 v) (byte1 v) (byte0 v) ≡ v

pub load_big_endian :
    (v : ℕ)
    → v < 2 ^ 32
    → ((v / 2 ^ 24 * 256 + v / 2 ^ 16 % 256) * 256 + v / 2 ^ 8 % 256) * 256 + v % 256 ≡ v
load_big_endian v h = omega arith

-- The bytes most significant first.
abbrev pub big_endian : Wire
big_endian = record {
  byte3 = λ v. v / 2 ^ 24;
  byte2 = λ v. v / 2 ^ 16 % 256;
  byte1 = λ v. v / 2 ^ 8 % 256;
  byte0 = λ v. v % 256;
  load32 = λ a b c d. ((a * 256 + b) * 256 + c) * 256 + d;
  load-store = load_big_endian;
}

module _ (wire : Wire) where
  abbrev pub put32 : ℕ → Bytes → Bytes
  put32 v rest = wire.byte3 v ∷ wire.byte2 v ∷ wire.byte1 v ∷ wire.byte0 v ∷ rest

  abbrev pub get32 : Bytes → Option (ℕ × Bytes)
  get32 (a ∷ b ∷ c ∷ d ∷ rest) = some (wire.load32 a b c d, rest)
  get32 _ = none

abbrev cons_first : ℕ → Option (Bytes × Bytes) → Option (Bytes × Bytes)
cons_first c none = none
cons_first c (some (s, rest)) = some (c ∷ s, rest)

-- The bytes before the first zero, as `memchr` finds it, and those behind it.
unfoldable pub split_zero : Bytes → Option (Bytes × Bytes)
split_zero [] = none
split_zero (c ∷ cs) = let r = cons_first c (split_zero cs) in if c == 0 then some ([], cs) else r

-- A C string holds no zero.
abbrev pub IsText : Bytes → Type 0
IsText = All (λ c. c ≢ 0)

pub split_zero-append : (s rest : Bytes) → IsText s → split_zero (s ++ (0 ∷ rest)) ≡ some (s, rest)
unfolding split_zero
split_zero-append [] rest h = refl
split_zero-append (c ∷ s) rest h =
    let n : (c == 0) ≡ false = ground (arith, h.0) in rw (split_zero-append s rest h.1, n)

-- A string, which with its zero and the rest makes up the buffer.
abbrev pub Splits : Bytes → Option (Bytes × Bytes) → Type 0
Splits bs none = Unit
Splits bs (some (s, rest)) = IsText s × (length s + 1 + length rest ≡ length bs)

Splits-cons :
    (c : ℕ) (cs : Bytes) (r : Option (Bytes × Bytes))
    → (c == 0) ≡ false
    → Splits cs r
    → Splits (c ∷ cs) (cons_first c r)
Splits-cons c cs none n h = tt
Splits-cons c cs (some (s, rest)) n h = ((λ e. ground arith, h.0), omega (arith, h.1))

pub split_zero-Splits : (bs : Bytes) → Splits bs (split_zero bs)
unfolding split_zero
split_zero-Splits [] = tt
split_zero-Splits (c ∷ cs) = elim (Bool-cases (c == 0)) [
  | inl e ↦ rw e (tt, omega arith)
  | inr e ↦ rw e (Splits-cons c cs (split_zero cs) e (split_zero-Splits cs))
]
