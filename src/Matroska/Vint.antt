-- ===== src/Matroska/Vint.antt =====
-- Numbers of variable length, against their format.
use tcvp.Prelude.{
  ℕ, zero, suc, ◌+◌, ◌*◌, ◌/◌, ◌%◌, ◌^◌, ◌<◌, ◌≤◌, ◌≡◌, refl, ap, ◌∙◌, arith, true, false, [], ◌∷◌,
  ◌++◌, length, ltb, take, drop, length-append, sym, Bool, ◌-◌, all_below, ◌==◌, ◌&&◌, not,
  all_below-at,
}
use tcvp.Prelude.Wire.{Bytes}
use tcvp.Matroska.Ebml.{got, int_value, get_int, leading, get_vint, more_bytes}

-- `n` bytes less.
unfoldable pub shift : ℕ → ℕ → ℕ
shift zero v = v
shift (suc n) v = shift n v / 256

-- The lower `n` bytes of a number, most significant first.
unfoldable pub bytes_of : ℕ → ℕ → Bytes
unfolding shift
bytes_of zero v = []
bytes_of (suc n) v = (shift n v % 256) ∷ bytes_of n v

length-bytes_of : (n v : ℕ) → length (bytes_of n v) ≡ n
unfolding bytes_of
length-bytes_of zero v = refl
length-bytes_of (suc n) v = omega (arith, length-bytes_of n v)

shift-le : (n v : ℕ) → shift n v ≤ v
unfolding shift
shift-le zero v = omega arith
shift-le (suc n) v = omega (arith, shift-le n v)

int_value-bytes_of : (n v : ℕ) → v < 2 ^ 64 → int_value (shift n v) (bytes_of n v) ≡ v
unfolding int_value bytes_of shift
int_value-bytes_of zero v h = refl
int_value-bytes_of (suc n) v h =
    let whole : (shift n v / 256 * 256 + shift n v % 256) % 2 ^ 64 ≡ shift n v =
      omega (arith, shift-le n v) in
    rw (int_value, whole) (int_value-bytes_of n v h)

pub take-append : (xs ys : Bytes) → take (length xs) (xs ++ ys) ≡ xs
take-append [] ys = refl
take-append (x ∷ xs) ys = ap (◌∷◌ x) (take-append xs ys)

pub drop-append : (xs ys : Bytes) → drop (length xs) (xs ++ ys) ≡ ys
drop-append [] ys = refl
drop-append (x ∷ xs) ys = drop-append xs ys

int_value-from_0 : (n v : ℕ) → v < 2 ^ 64 → shift n v ≡ 0 → int_value 0 (bytes_of n v) ≡ v
int_value-from_0 n v h top =
    let from : int_value (shift n v) (bytes_of n v) ≡ v = int_value-bytes_of n v h in
    ap (λ (x : ℕ). int_value x (bytes_of n v)) (sym top) ∙ from

take-bytes_of : (n v : ℕ) (rest : Bytes) → take n (bytes_of n v ++ rest) ≡ bytes_of n v
take-bytes_of n v rest =
    ap (λ (k : ℕ). take k (bytes_of n v ++ rest)) (sym (length-bytes_of n v))
    ∙ take-append (bytes_of n v) rest

drop-bytes_of : (n v : ℕ) (rest : Bytes) → drop n (bytes_of n v ++ rest) ≡ rest
drop-bytes_of n v rest =
    ap (λ (k : ℕ). drop k (bytes_of n v ++ rest)) (sym (length-bytes_of n v))
    ∙ drop-append (bytes_of n v) rest

-- A number of at most 8 bytes is read from these.
pub get_int-bytes_of :
    (n v : ℕ) (rest : Bytes)
    → n < 9
    → v < 2 ^ 64
    → shift n v ≡ 0
    → get_int n (bytes_of n v ++ rest) ≡ got v rest
unfolding get_int
get_int-bytes_of n v rest hn hv top =
    let small : ltb n (2 ^ 31) ≡ true = ground (arith, hn) in
    let there : ltb (length (bytes_of n v ++ rest)) n ≡ false =
      rw (length-append (bytes_of n v) rest, length-bytes_of n v) ground arith in
    let fits : ltb 8 n ≡ false = ground (arith, hn) in
    rw
      (
        small,
        there,
        fits,
        take-bytes_of n v rest,
        drop-bytes_of n v rest,
        int_value-from_0 n v hv top,
      )
      refl

-- The shapes of the first byte: the marker bit tells how many bytes follow.
abbrev marker_test : ℕ → ℕ → Bool
marker_test n top =
    leading 7 (2 ^ (7 - n) + top) == n
    && (2 ^ (7 - n) + top) % 2 ^ (7 - n) == top
    && not (2 ^ (7 - n) + top == 0)

markers : all_below 8 (λ n. all_below (2 ^ (7 - n)) (marker_test n)) ≡ true
unfolding leading all_below
markers = refl

-- What the sizes give: no more than the bytes of the rest, and no overflow.
unfoldable pub IsSmall : ℕ → ℕ → ℕ → Type 0
IsSmall n top low = (shift n low ≡ 0) × (low < 2 ^ 64 - 1) × (top * 256 ^ n + low < 2 ^ 63)

pub sizes-IsSmall : (n top low : ℕ) → n < 8 → top < 2 ^ (7 - n) → low < 256 ^ n → IsSmall n top low
unfolding shift IsSmall
sizes-IsSmall zero top low hn ht h = (omega (arith, h), omega (arith, h), omega (arith, h, ht))
sizes-IsSmall (suc zero) top low hn ht h =
    (omega (arith, h), omega (arith, h), omega (arith, h, ht))
sizes-IsSmall (suc (suc zero)) top low hn ht h =
    (omega (arith, h), omega (arith, h), omega (arith, h, ht))
sizes-IsSmall (suc (suc (suc zero))) top low hn ht h =
    (omega (arith, h), omega (arith, h), omega (arith, h, ht))
sizes-IsSmall (suc (suc (suc (suc zero)))) top low hn ht h =
    (omega (arith, h), omega (arith, h), omega (arith, h, ht))
sizes-IsSmall (suc (suc (suc (suc (suc zero))))) top low hn ht h =
    (omega (arith, h), omega (arith, h), omega (arith, h, ht))
sizes-IsSmall (suc (suc (suc (suc (suc (suc zero)))))) top low hn ht h =
    (omega (arith, h), omega (arith, h), omega (arith, h, ht))
sizes-IsSmall (suc (suc (suc (suc (suc (suc (suc zero))))))) top low hn ht h =
    (omega (arith, h), omega (arith, h), omega (arith, h, ht))
sizes-IsSmall (suc (suc (suc (suc (suc (suc (suc (suc n)))))))) top low hn ht h =
    absurd (omega (arith, hn))

more_bytes-written :
    (n top low : ℕ) (rest : Bytes)
    → n < 8
    → low < 256 ^ n
    → IsSmall n top low
    → more_bytes n top (bytes_of n low ++ rest) ≡ got (top * 256 ^ n + low, n + 1) rest
unfolding more_bytes bytes_of IsSmall
more_bytes-written zero top low rest hn h s = ap (λ (x : ℕ). got (x, 1) rest) (omega (arith, h))
more_bytes-written (suc n) top low rest hn h s =
    let number = get_int-bytes_of (suc n) low rest (omega (arith, hn)) (omega (arith, s.1)) s.0 in
    let proper : (low == 2 ^ 64 - 1) ≡ false = ground (arith, s.1) in
    let whole : (top * 256 ^ suc n + low) % 2 ^ 64 ≡ top * 256 ^ suc n + low = omega (arith, s.2) in
    rw (number, proper) (ap (λ (x : ℕ). got (x, suc n + 1) rest) whole)

module _ (n top : ℕ) (hn : n < 8) (ht : top < 2 ^ (7 - n)) where
  marker-parts : marker_test n top ≡ true
  marker-parts =
      let here : all_below (2 ^ (7 - n)) (marker_test n) ≡ true =
        all_below-at 8 (λ x. all_below (2 ^ (7 - x)) (marker_test x)) n markers hn in
      all_below-at (2 ^ (7 - n)) (marker_test n) top here ht

  -- A number whose first byte has the marker bit for `n` more bytes, for `n` below 8, and the bits `top`,
  -- with `low` in the bytes that follow, is read with its value and its size, and the position is then
  -- behind it. This is so for every form of the number, also a longer one than it needs.
  pub get_vint-written :
      (low : ℕ) (rest : Bytes)
      → low < 256 ^ n
      → get_vint ((2 ^ (7 - n) + top) ∷ (bytes_of n low ++ rest))
        ≡ got (top * 256 ^ n + low, n + 1) rest
  unfolding get_vint
  get_vint-written low rest h =
      let size : leading 7 (2 ^ (7 - n) + top) ≡ n = ground (arith, marker-parts) in
      let value : (2 ^ (7 - n) + top) % 2 ^ (7 - n) ≡ top = ground (arith, marker-parts) in
      let marked : (2 ^ (7 - n) + top == 0) ≡ false = ground (arith, marker-parts) in
      let more = more_bytes-written n top low rest hn h (sizes-IsSmall n top low hn ht h) in
      rw (size, marked, value) more

-- A number in the form with `n` bytes behind the first one, with `top` the bits in that one.
unfoldable pub vint_bytes : ℕ → ℕ → ℕ → Bytes
unfolding bytes_of
vint_bytes n top low = (2 ^ (7 - n) + top) ∷ bytes_of n low

pub length-vint_bytes : (n top low : ℕ) → length (vint_bytes n top low) ≡ n + 1
unfolding vint_bytes
length-vint_bytes n top low = omega (arith, length-bytes_of n low)

-- A number in one byte.
pub get_vint-one_byte :
    (track : ℕ) (b : Bytes) → track < 128 → get_vint ((128 + track) ∷ b) ≡ got (track, 1) b
unfolding bytes_of
get_vint-one_byte track b h =
    let read : get_vint ((128 + track) ∷ b) ≡ got (track * 256 ^ 0 + 0, 0 + 1) b =
      get_vint-written 0 track (omega arith) h 0 b (omega arith) in
    read ∙ ap (λ (x : ℕ). got (x, 1) b) (omega arith)
