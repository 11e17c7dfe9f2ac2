-- ===== src/Matroska/Ebml.antt =====
-- Elements of EBML, as ebml.c reads them. The file is the bytes that lie ahead of the position in it.
use tcvp.Prelude.{
  ℕ, zero, suc, ◌+◌, ◌-◌, ◌*◌, ◌%◌, ◌^◌, Bool, true, false, not, ◌||◌, [], ◌∷◌, Option, none, some,
  length, ltb, ◌==◌, if◌then◌else◌, take, drop,
}
use tcvp.Prelude.Wire.{Bytes}

-- The value -1, a write behind a buffer, or a value and what lies ahead then.
pub data Got {ℓ} (A : Type ℓ) : Type ℓ where
  failed overrun : Got A
  got : A → Bytes → Got A

infixl 15 ◌>>=◌
abbrev pub ◌>>=◌ {ℓ κ} : {A : Type ℓ} {B : Type κ} → Got A → (A × Bytes → Got B) → Got B
failed >>= f = failed
overrun >>= f = overrun
got x b >>= f = f (x, b)

-- `val <<= 8; val += *bp++`, on `uint64_t`.
unfoldable pub int_value : ℕ → Bytes → ℕ
int_value val [] = val
int_value val (b ∷ bs) = int_value ((val * 256 + b) % 2 ^ 64) bs

-- `ebml_get_int`, whose buffer has 8 bytes, whatever `int` it is called with.
unfoldable pub get_int : ℕ → Bytes → Got ℕ
unfolding int_value
get_int size b =
    if not (ltb size (2 ^ 31))
    then overrun
    else if ltb (length b) size
    then (if ltb 8 (length b) then overrun else failed)
    else if ltb 8 size
    then overrun
    else got (int_value 0 (take size b)) (drop size b)

-- `while(a < 0x80){ size++; a <<= 1; }`, which goes on seven times at most for a byte that is not 0.
unfoldable pub leading : ℕ → ℕ → ℕ
leading zero a = 0
leading (suc n) a = let more = suc (leading n (a * 2)) in if ltb a 0x80 then more else 0

-- The last bytes of a number whose first one gave `val`.
unfoldable pub more_bytes : ℕ → ℕ → Bytes → Got (ℕ × ℕ)
unfolding get_int
more_bytes zero val b = got (val, 1) b
more_bytes (suc n) val b = do
  (tv, rest) ← get_int (suc n) b
  if tv == 2 ^ 64 - 1 then failed else got ((val * 256 ^ suc n + tv) % 2 ^ 64, suc n + 1) rest

-- `ebml_get_vint`: the value, and the number of bytes.
unfoldable pub get_vint : Bytes → Got (ℕ × ℕ)
unfolding leading more_bytes
get_vint [] = failed
get_vint (a ∷ b) =
    let size = leading 7 a in if a == 0 then failed else more_bytes size (a % 2 ^ (7 - size)) b

-- `*psize -= ss`, where there is a `psize`.
abbrev pub less : Option ℕ → ℕ → Option ℕ
less none ss = none
less (some psize) ss = some ((psize + 2 ^ 64 - ss) % 2 ^ 64)

abbrev pub exceeds : ℕ → Option ℕ → Bool
exceeds size none = false
exceeds size (some psize) = ltb psize size

abbrev pub checked : ℕ → ℕ → Option ℕ → Bytes → Got (ℕ × ℕ × Option ℕ)
checked id size left b =
    if id == 2 ^ 64 - 1 || size == 2 ^ 64 - 1 || exceeds size left
    then failed
    else got (id, size, left) b

-- `ebml_element`: the identifier, the size, and what is left of the parent. The value -1 is an error.
unfoldable pub element : Option ℕ → Bytes → Got (ℕ × ℕ × Option ℕ)
unfolding get_vint
element psize b = do
  (id, b1) ← get_vint b
  (size, b2) ← get_vint b1
  checked id.0 size.0 (less (less psize id.1) size.1) b2

-- What a callback answers.
pub data Answer : Type 0 where
  success unknown break error : Answer

-- What becomes of a round: the end of the loop, with whether 0 is returned, or the next round.
pub data Round (S : Type 0) : Type 0 where
  stop : Bool → S → Bytes → Round S
  go_on : S → Bytes → Round S

abbrev pub taken : Option ℕ → ℕ → ℕ
taken none size = 0
taken (some left) size = (left + 2 ^ 64 - size) % 2 ^ 64

module _ {S : Type 0} where
  abbrev pub after : ℕ → Answer × S × Bytes → Round S
  after size (success, s, b) = go_on s b
  after size (unknown, s, b) = go_on s (drop size b)
  after size (break, s, b) = stop true s b
  after size (error, s, b) = stop false s b

-- The result of a loop: what it returns, with the state and what lies ahead. An element that cannot be
-- read ends it with 0 too; the position in the file is not followed then.
pub data Ended (S : Type 0) : Type 0 where
  out_of_fuel overrun : Ended S
  cut_short : S → Ended S
  ended : Bool → S → Bytes → Ended S

-- The next turn of the loop, or its end.
module _ {S : Type 0} (next : ℕ → S → Bytes → Ended S) where
  abbrev pub turned : Option ℕ → ℕ → Round S → Ended S
  turned left size (stop r t b) = ended r t b
  turned left size (go_on t b) = next (taken left size) t b

  abbrev pub turn : (ℕ → ℕ → S → Bytes → Answer × S × Bytes) → S → Got (ℕ × ℕ × Option ℕ) → Ended S
  turn cb s failed = cut_short s
  turn cb s overrun = Ended.overrun
  turn cb s (got (id, size, left) b) = turned left size (after size (cb id size s b))

module _ {S : Type 0} (cb : ℕ → ℕ → S → Bytes → Answer × S × Bytes) where
  -- `ebml_read_elements`, with a callback that is called on the file.
  unfoldable pub read_elements : ℕ → ℕ → S → Bytes → Ended S
  unfolding element
  read_elements zero psize s b = out_of_fuel
  read_elements (suc n) psize s b =
      if psize == 0
      then ended true s b
      else turn (λ left t b1. read_elements n left t b1) cb s (element (some psize) b)
