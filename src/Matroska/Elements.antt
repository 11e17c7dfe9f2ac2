-- ===== src/Matroska/Elements.antt =====
-- The elements of a parent, against their format.
use tcvp.Prelude.{
  ℕ, suc, ◌+◌, ◌-◌, ◌*◌, ◌%◌, ◌^◌, ◌<◌, ◌≤◌, ◌≡◌, refl, arith, true, false, List, [], ◌∷◌, ◌++◌,
  some, length, ltb, ◌==◌, length-append, inl, inr, ◌⊎◌,
}
use mathlib.Core.List.{append_assoc}
use tcvp.Prelude.Wire.{Bytes}
use tcvp.Matroska.Ebml.{
  got, get_vint, element, checked, Answer, success, unknown, go_on, taken, after, ended,
  read_elements,
}
use tcvp.Matroska.Vint.{
  drop-append, vint_bytes, length-vint_bytes, get_vint-written, IsSmall, sizes-IsSmall,
}

-- A number and the form in which it is written.
pub record Number : Type 0 where
  pub more : ℕ
  pub top : ℕ
  pub low : ℕ

pub record IsNumber (v : Number) : Type 0 where
  pub more_lt : v.more < 8
  pub top_lt : v.top < 2 ^ (7 - v.more)
  pub low_lt : v.low < 256 ^ v.more

abbrev pub value : Number → ℕ
value v = v.top * 256 ^ v.more + v.low

abbrev pub number_bytes : Number → Bytes
number_bytes v = vint_bytes v.more v.top v.low

get_vint-number :
    (v : Number) (rest : Bytes)
    → IsNumber v
    → get_vint (number_bytes v ++ rest) ≡ got (value v, v.more + 1) rest
unfolding vint_bytes
get_vint-number v rest h = get_vint-written v.more v.top h.more_lt h.top_lt v.low rest h.low_lt

value-lt : (v : Number) → IsNumber v → value v < 2 ^ 63
unfolding IsSmall
value-lt v h = (sizes-IsSmall v.more v.top v.low h.more_lt h.top_lt h.low_lt).2

-- An element: its identifier, its size and what it has.
pub record Element : Type 0 where
  pub id : Number
  pub size : Number
  pub content : Bytes

pub record IsElement (e : Element) : Type 0 where
  pub id-IsNumber : IsNumber e.id
  pub size-IsNumber : IsNumber e.size
  pub size-is : value e.size ≡ length e.content

abbrev pub header : Element → ℕ
header e = e.id.more + 1 + (e.size.more + 1)

unfoldable pub element_bytes : Element → Bytes
element_bytes e = number_bytes e.id ++ (number_bytes e.size ++ e.content)

length-element_bytes : (e : Element) → length (element_bytes e) ≡ header e + length e.content
unfolding element_bytes
length-element_bytes e =
    let a = length-append (number_bytes e.id) (number_bytes e.size ++ e.content) in
    let b = length-append (number_bytes e.size) e.content in
    let c = length-vint_bytes e.id.more e.id.top e.id.low in
    let d = length-vint_bytes e.size.more e.size.top e.size.low in omega (arith, a, b, c, d)

checked-fits :
    (id size l left : ℕ) (b : Bytes)
    → id < 2 ^ 63
    → size < 2 ^ 63
    → size ≤ left
    → size ≡ l
    → checked id size (some left) b ≡ got (id, l, some left) b
checked-fits id size l left b hid hsize fits same =
    let proper_id : (id == 2 ^ 64 - 1) ≡ false = ground (arith, hid) in
    let proper_size : (size == 2 ^ 64 - 1) ≡ false = ground (arith, hsize) in
    let inside : ltb left size ≡ false = ground (arith, fits) in
    rw (proper_id, proper_size, inside, same) refl

element-element_bytes :
    (e : Element) (p : ℕ) (b : Bytes)
    → IsElement e
    → length (element_bytes e) ≤ p
    → p < 2 ^ 64
    → element (some p) (element_bytes e ++ b)
      ≡ got (value e.id, length e.content, some (p - header e)) (e.content ++ b)
unfolding element element_bytes
element-element_bytes e p b h fits small =
    let id = get_vint-number e.id (number_bytes e.size ++ (e.content ++ b)) h.id-IsNumber in
    let size = get_vint-number e.size (e.content ++ b) h.size-IsNumber in
    let all = length-element_bytes e in
    let left : (((p + 2 ^ 64 - (e.id.more + 1)) % 2 ^ 64) + 2 ^ 64 - (e.size.more + 1)) % 2 ^ 64
        ≡ p - header e =
      omega (arith, fits, small, all) in
    let inside : value e.size ≤ p - header e = omega (arith, fits, all, h.size-is) in
    let check =
      checked-fits (value e.id) (value e.size) (length e.content) (p - header e) (e.content ++ b)
        (value-lt e.id h.id-IsNumber) (value-lt e.size h.size-IsNumber) inside h.size-is in
    rw
      (
        append_assoc (number_bytes e.id) (number_bytes e.size ++ e.content) b,
        append_assoc (number_bytes e.size) e.content b,
        id,
        size,
        left,
      )
      check

unfoldable pub elements_bytes : List Element → Bytes
elements_bytes [] = []
elements_bytes (e ∷ es) = element_bytes e ++ elements_bytes es

unfoldable pub AreElements : List Element → Type 0
AreElements [] = Unit
AreElements (e ∷ es) = IsElement e × AreElements es

module _ {S : Type 0} (cb : ℕ → ℕ → S → Bytes → Answer × S × Bytes) (f : ℕ → Bytes → S → S) where
  -- What a callback does with an element: it takes its content, or answers that it does not know it.
  unfoldable pub Follows : Type 0
  Follows =
      (id : ℕ) (content b : Bytes) (s : S)
      → (cb id (length content) s (content ++ b) ≡ (success, f id content s, b))
        ⊎ (cb id (length content) s (content ++ b) ≡ (unknown, f id content s, content ++ b))

  unfoldable pub fold_elements : List Element → S → S
  fold_elements [] s = s
  fold_elements (e ∷ es) s = fold_elements es (f (value e.id) e.content s)

  module _ (follows : Follows) where
    after-follows :
        (id : ℕ) (content b : Bytes) (s : S)
        → after (length content) (cb id (length content) s (content ++ b))
          ≡ go_on (f id content s) b
    unfolding Follows
    after-follows id content b s = elim (follows id content b s) [
      | inl e ↦ rw e refl
      | inr e ↦ rw (e, drop-append content b) refl
    ]

    -- With a callback that takes the content of an element or answers that it does not know it, elements
    -- written one after the other, of fewer than 2 ^ 64 bytes in all, are read as the callback's effects
    -- in their order: the loop returns 0, and the position is behind the last of them.
    pub read_elements-elements_bytes :
        (es : List Element) (s : S) (rest : Bytes)
        → AreElements es
        → length (elements_bytes es) < 2 ^ 64
        → read_elements cb
            (suc (length es))
            (length (elements_bytes es))
            s
            (elements_bytes es ++ rest)
          ≡ ended true (fold_elements es s) rest
    unfolding read_elements elements_bytes AreElements fold_elements
    read_elements-elements_bytes [] s rest h small = refl
    read_elements-elements_bytes (e ∷ es) s rest h small =
        let both = length-append (element_bytes e) (elements_bytes es) in
        let size = length-element_bytes e in
        let more : (length (elements_bytes (e ∷ es)) == 0) ≡ false = ground (arith, both, size) in
        let one =
          element-element_bytes e (length (elements_bytes (e ∷ es))) (elements_bytes es ++ rest) h.0
            (omega (arith, both)) small in
        let left : taken (some (length (elements_bytes (e ∷ es)) - header e)) (length e.content)
            ≡ length (elements_bytes es) =
          omega (arith, both, size, small) in
        let tail =
          read_elements-elements_bytes es (f (value e.id) e.content s) rest h.1
            (omega (arith, both, small)) in
        rw
          (
            append_assoc (element_bytes e) (elements_bytes es) rest,
            more,
            one,
            after-follows (value e.id) e.content (elements_bytes es ++ rest) s,
            left,
            tail,
          )
          refl
