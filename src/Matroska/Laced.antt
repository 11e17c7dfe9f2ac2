-- ===== src/Matroska/Laced.antt =====
-- Blocks against the format of their laces.
use tcvp.Prelude.{
  ℕ, zero, suc, ◌+◌, ◌-◌, ◌*◌, ◌/◌, ◌%◌, ◌^◌, ◌<◌, ◌≤◌, ◌≡◌, refl, ap, ◌∙◌, sym, arith, false, List,
  [], ◌∷◌, ◌++◌, Option, some, length, ◌==◌, replicate, length-append, length-replicate,
}
use mathlib.Core.List.{append_assoc}
use tcvp.Prelude.Wire.{Bytes}
use tcvp.Matroska.Ebml.{Got, got}
use tcvp.Matroska.Block.{xiph_int, minus_u, laced}

-- A size in the form of Xiph: bytes of 255, and one of less.
unfoldable pub xiph_bytes : ℕ → Bytes
xiph_bytes s = replicate (s / 255) 255 ++ (s % 255 ∷ [])

read_as :
    {a b c d : ℕ} (rest : Bytes)
    → a ≡ c
    → b ≡ d
    → ◌≡◌ {A = Got (ℕ × ℕ)} (got (a, b) rest) (got (c, d) rest)
read_as rest p q = cc (p, q)

xiph_int-bytes :
    (q r : ℕ) (rest : Bytes)
    → r < 255
    → xiph_int ((replicate q 255 ++ (r ∷ [])) ++ rest) ≡ got (q * 255 + r, q + 1) rest
unfolding xiph_int
xiph_int-bytes zero r rest h =
    let small : (r == 255) ≡ false = ground (arith, h) in
    let value : got (r, 1) rest ≡ got (0 + r, 1) rest =
      ap (λ (x : ℕ). got (x, 1) rest) (omega arith) in
    rw (small) value
xiph_int-bytes (suc q) r rest h =
    rw (xiph_int-bytes q r rest h) (read_as rest (omega arith) (omega arith))

pub length-xiph_bytes : (s : ℕ) → length (xiph_bytes s) ≡ s / 255 + 1
unfolding xiph_bytes
length-xiph_bytes s =
    rw
      (
        length-append (replicate (s / 255) 255) (s % 255 ∷ []),
        length-replicate {A = ℕ} (s / 255) 255,
      )
      refl

xiph_int-written :
    (s : ℕ) (rest : Bytes)
    → xiph_int (xiph_bytes s ++ rest) ≡ got (s / 255 * 255 + s % 255, s / 255 + 1) rest
unfolding xiph_bytes
xiph_int-written s rest = xiph_int-bytes (s / 255) (s % 255) rest (omega arith)

xiph_int-xiph_bytes :
    (s : ℕ) (rest : Bytes) → xiph_int (xiph_bytes s ++ rest) ≡ got (s, length (xiph_bytes s)) rest
xiph_int-xiph_bytes s rest =
    let read : xiph_int (xiph_bytes s ++ rest) ≡ got (s / 255 * 255 + s % 255, s / 255 + 1) rest =
      xiph_int-written s rest in
    read ∙ read_as rest (omega arith) (sym (length-xiph_bytes s))

-- The sizes of frames, and all that their frames have.
unfoldable pub size_bytes : List Bytes → Bytes
unfolding xiph_bytes
size_bytes [] = []
size_bytes (f ∷ fs) = xiph_bytes (length f) ++ size_bytes fs

unfoldable pub lengths : List Bytes → List ℕ
lengths [] = []
lengths (f ∷ fs) = length f ∷ lengths fs

unfoldable pub contents : List Bytes → Bytes
contents [] = []
contents (f ∷ fs) = f ++ contents fs

packed :
    {a b c d : ℕ} (l : List ℕ) (rest : Bytes)
    → a ≡ c
    → b ≡ d
    → ◌≡◌ {A = Got (List ℕ × ℕ × ℕ)} (got (l, a, b) rest) (got (l, c, d) rest)
packed l rest p q = cc (p, q)

pub laced-size_bytes :
    (fs : List Bytes) (before : Option ℕ) (ts size : ℕ) (rest : Bytes)
    → ts + length (contents fs) < 2 ^ 32
    → length (size_bytes fs) ≤ size
    → size < 2 ^ 32
    → laced false (length fs) before ts size (size_bytes fs ++ rest)
      ≡ got (lengths fs, ts + length (contents fs), size - length (size_bytes fs)) rest
unfolding laced size_bytes lengths contents
laced-size_bytes [] before ts size rest ht hs h = packed [] rest (omega arith) (omega arith)
laced-size_bytes (f ∷ fs) before ts size rest ht hs h =
    let here = length-append f (contents fs) in
    let there = length-append (xiph_bytes (length f)) (size_bytes fs) in
    let sum : (ts + length f) % 2 ^ 32 ≡ ts + length f = omega (arith, ht, here) in
    let less : minus_u size (length (xiph_bytes (length f)))
        ≡ size - length (xiph_bytes (length f)) =
      omega (arith, h, hs, there) in
    let tail =
      laced-size_bytes fs (some (length f)) (ts + length f) (size - length (xiph_bytes (length f)))
        rest (omega (arith, ht, here)) (omega (arith, hs, there)) (omega (arith, h)) in
    let same = packed (length f ∷ lengths fs) rest (omega (arith, here)) (omega (arith, there)) in
    rw
      (
        append_assoc (xiph_bytes (length f)) (size_bytes fs) rest,
        xiph_int-xiph_bytes (length f) (size_bytes fs ++ rest),
        sum,
        less,
        tail,
      )
      same
