-- ===== src/Prelude/Arrays.antt =====
-- C arrays as functions of the index, with `memmove`, and how often a value stands in a prefix.
use Prim.Native.Nat.{ℕ, zero, suc, ◌+◌, ◌-◌, ◌≤◌, ◌<◌}
use mathlib.Core.Path.{◌≡◌, refl, ap, ◌∙◌}
use mathlib.Core.Bool.{Bool, true, ◌&&◌}
use mathlib.Core.List.{List, [], ◌∷◌, ◌++◌}
use native.Mathlib.Decide.{dec_lt}
use native.Mathlib.Omega.{arith}
use tcvp.Prelude.Tests.{ltb, leb, ◌==◌, if◌then◌else◌}

module _ {ℓ} {A : Type ℓ} where
  -- `a[i] = x`
  abbrev pub update : (ℕ → A) → ℕ → A → ℕ → A
  update a i x k = if k == i then x else a k

  -- `memmove(a + to, a + from, n * sizeof(*a))`
  abbrev pub memmove : (ℕ → A) → ℕ → ℕ → ℕ → ℕ → A
  memmove a to from n k = if leb to k && ltb k (to + n) then a (k - to + from) else a k

  -- the `n` elements from index `i` on
  abbrev pub segment : (ℕ → A) → ℕ → ℕ → List A
  segment a i zero = []
  segment a i (suc n) = a i ∷ segment a (suc i) n

-- 1 where the two are equal, and 0 elsewhere
abbrev pub ind : ℕ → ℕ → ℕ
ind a b = if a == b then 1 else 0

-- how many of the first `n` elements are `v`
unfoldable pub count : (ℕ → ℕ) → ℕ → ℕ → ℕ
count a zero v = 0
count a (suc n) v = count a n v + ind (a n) v

-- how many of the first `n` elements lie in the range of `r` values from `s` on
unfoldable pub within : (ℕ → ℕ) → ℕ → ℕ → ℕ → ℕ
within a zero s r = 0
within a (suc n) s r = within a n s r + (if leb s (a n) && ltb (a n) (s + r) then 1 else 0)

module _ (a : ℕ → ℕ) where
  pub count_pos : (n k : ℕ) → k < n → 1 ≤ count a n (a k)
  unfolding count
  count_pos zero k h = absurd (omega arith)
  count_pos (suc n) k h = ground (arith, count_pos n k)

  pub within-zero : (n s : ℕ) → within a n s 0 ≡ 0
  unfolding within
  within-zero zero s = refl
  within-zero (suc n) s = ground (arith, within-zero n s)

  pub within-suc : (n s r : ℕ) → within a n s (suc r) ≡ within a n s r + count a n (s + r)
  unfolding within count
  within-suc zero s r = refl
  within-suc (suc n) s r = ground (arith, within-suc n s r)

  -- A write at or above `n` does not show below `n`.
  pub count-update_above : (n i x v : ℕ) → n ≤ i → count (update a i x) n v ≡ count a n v
  unfolding count
  count-update_above zero i x v h = refl
  count-update_above (suc n) i x v h = ground (arith, count-update_above n i x v)

  -- A write below `n` takes away one element and adds another.
  pub count-update :
      (n i x v : ℕ) → i < n → count (update a i x) n v + ind (a i) v ≡ count a n v + ind x v
  unfolding count
  count-update zero i x v h = absurd (omega arith)
  count-update (suc n) i x v h = ground (arith, count-update n i x v, count-update_above n i x v)

  -- An element put in at `q`, the ones behind it moved up.
  abbrev pub insert_at : ℕ → ℕ → ℕ → ℕ → ℕ
  insert_at q n x = update (memmove a (q + 1) q (n - q)) q x

  count-insert_below : (m q n x v : ℕ) → m ≤ q → count (insert_at q n x) m v ≡ count a m v
  unfolding count
  count-insert_below zero q n x v h = refl
  count-insert_below (suc m) q n x v h = ground (arith, count-insert_below m q n x v)

  insert_at_self : (q n x : ℕ) → insert_at q n x q ≡ x
  insert_at_self q n x = ground arith

  insert_at_above : (q n x m : ℕ) → q ≤ m → m < n → insert_at q n x (suc m) ≡ a m
  insert_at_above q n x m h k = ground (arith, eq_at (suc m - (q + 1) + q) m)
    where
      eq_at : (i j : ℕ) → i ≡ j → a i ≡ a j
      eq_at i j e = ap a e

  pub count-insert :
      (m q n x v : ℕ) → q ≤ m → m ≤ n → count (insert_at q n x) (suc m) v ≡ count a m v + ind x v
  unfolding count
  count-insert zero q n x v h k = ground arith
  count-insert (suc m) q n x v h k = elim (dec_lt m q) [
    | yes p ↦
        let e : suc m ≡ q = omega arith in
        ground
          (arith, count-insert_below (suc m) q n x v, ap (insert_at q n x) e, insert_at_self q n x)
    | no p ↦ ground (arith, count-insert m q n x v, insert_at_above q n x m)
  ]

-- An array that holds each of 0, 1, …, n - 1 once among its first `n` elements.
abbrev pub IsOrder : (ℕ → ℕ) → ℕ → Type 0
IsOrder a n = (v : ℕ) → count a n v ≡ (if ltb v n then 1 else 0)

pub IsOrder-lt : (a : ℕ → ℕ) (n k : ℕ) → IsOrder a n → k < n → a k < n
IsOrder-lt a n k o h = ground (arith, o (a k), count_pos a n k)

-- A range of values below `n` holds as many elements as values.
pub IsOrder-within : (a : ℕ → ℕ) (n s r : ℕ) → IsOrder a n → s + r ≤ n → within a n s r ≡ r
IsOrder-within a n s zero o h = within-zero a n s
IsOrder-within a n s (suc r) o h =
    ground (arith, within-suc a n s r, o (s + r), IsOrder-within a n s r o)

pub count-id :
    (a : ℕ → ℕ) (n v : ℕ) → ((k : ℕ) → k < n → a k ≡ k) → count a n v ≡ (if ltb v n then 1 else 0)
unfolding count
count-id a zero v h = ground arith
count-id a (suc n) v h =
    ground (arith, h n (omega arith), count-id a n v (λ k lt. h k (omega arith)))

module _ {ℓ} {A : Type ℓ} where
  -- Two stretches of arrays with the same elements.
  pub segment-eq :
      (a b : ℕ → A) (i j n : ℕ)
      → ((d : ℕ) → d < n → a (i + d) ≡ b (j + d))
      → segment a i n ≡ segment b j n
  segment-eq a b i j zero h = refl
  segment-eq a b i j (suc n) h = ground (
    arith,
    segment-eq a b (suc i) (suc j) n (λ d lt.
        shift a (i + suc d) (suc i + d) (omega arith)
        ∙ h (suc d) (omega arith)
        ∙ shift b (suc j + d) (j + suc d) (omega arith)),
    h 0 (omega arith),
    shift a (i + 0) i (omega arith),
    shift b (j + 0) j (omega arith),
  )
    where
      shift : (c : ℕ → A) (x y : ℕ) → y ≡ x → c y ≡ c x
      shift c x y e = ap c e

  pub segment-split :
      (a : ℕ → A) (i m n k : ℕ) → m + n ≡ k → segment a i k ≡ segment a i m ++ segment a (i + m) n
  segment-split a i zero n k e =
      let e' : n ≡ k = omega arith in let z : i + 0 ≡ i = omega arith in rw (z, e')
  segment-split a i (suc m) n zero e = absurd (omega arith)
  segment-split a i (suc m) n (suc k) e =
      let z : i + suc m ≡ suc i + m = omega arith in
      rw (z, segment-split a (suc i) m n k (omega arith))

-- A test at every number below a bound.
unfoldable pub all_below : ℕ → (ℕ → Bool) → Bool
all_below zero p = true
all_below (suc n) p = p n && all_below n p

pub all_below-at : (n : ℕ) (p : ℕ → Bool) (k : ℕ) → all_below n p ≡ true → k < n → p k ≡ true
unfolding all_below
all_below-at zero p k e h = absurd (omega arith)
all_below-at (suc n) p k e h = elim (dec_lt k n) [
  | yes lt ↦ all_below-at n p k (ground arith) lt
  | no ge ↦ let q : k ≡ n = omega arith in rw q (ground arith)
]
