-- ===== src/Matroska/Progress.antt =====
-- The loop over elements ends, whatever the file holds.
use tcvp.Prelude.{
  ℕ, zero, suc, ◌+◌, ◌-◌, ◌*◌, ◌%◌, ◌^◌, ◌<◌, ◌≤◌, arith, Bool, true, false, [], ◌∷◌, Option, some,
  length, ltb, ◌==◌, if◌then◌else◌, not, drop, inl, inr, Bool-cases, length-drop,
}
use tcvp.Prelude.Wire.{Bytes}
use tcvp.Matroska.Ebml.{
  Got, failed, overrun, got, ◌>>=◌, get_vint, element, Answer, success, unknown, break, error,
  taken, after, Ended, ended, cut_short, out_of_fuel, read_elements, get_int, more_bytes, leading,
  turn, turned,
}

-- Fewer than `n` bytes lie ahead.
unfoldable pub Within {ℓ} : {A : Type ℓ} → ℕ → Got A → Type 0
Within n failed = Unit
Within n overrun = Unit
Within n (got x b) = length b < n

bind-Within :
    {A B : Type 0} (n m : ℕ) (g : Got A) (f : A × Bytes → Got B)
    → Within n g
    → ((x : A) (b : Bytes) → length b < n → Within m (f (x, b)))
    → Within m (g >>= f)
unfolding Within
bind-Within n m failed f h k = _
bind-Within n m overrun f h k = _
bind-Within n m (got x b) f h k = k x b h

get_int-Within : (size : ℕ) (b : Bytes) → Within (suc (length b)) (get_int size b)
unfolding get_int Within
get_int-Within size b = elim (Bool-cases (not (ltb size (2 ^ 31)))) [
  | inl e ↦ rw e _
  | inr e ↦ elim (Bool-cases (ltb (length b) size)) [
    | inl o ↦ elim (Bool-cases (ltb 8 (length b))) [
      | inl c ↦ rw (e, o, c) _
      | inr c ↦ rw (e, o, c) _
    ]
    | inr o ↦ elim (Bool-cases (ltb 8 size)) [
      | inl c ↦ rw (e, o, c) _
      | inr c ↦ rw (e, o, c) omega (arith, length-drop size b)
    ]
  ]
]

chosen-Within :
    {A : Type 0} (n : ℕ) (bad : Bool) (x : A) (b : Bytes)
    → length b < n
    → Within n (if bad then failed else got x b)
unfolding Within
chosen-Within n true x b h = _
chosen-Within n false x b h = h

more_bytes-Within : (n val : ℕ) (b : Bytes) → Within (suc (length b)) (more_bytes n val b)
unfolding more_bytes
more_bytes-Within zero val b = chosen-Within (suc (length b)) false (val, 1) b (omega arith)
more_bytes-Within (suc n) val b =
    bind-Within (suc (length b)) (suc (length b)) (get_int (suc n) b) _ (get_int-Within (suc n) b)
      (λ tv rest h.
        chosen-Within (suc (length b)) (tv == 2 ^ 64 - 1)
          ((val * 256 ^ suc n + tv) % 2 ^ 64, suc n + 1) rest h)

get_vint-Within : (b : Bytes) → Within (length b) (get_vint b)
unfolding get_vint Within
get_vint-Within [] = _
get_vint-Within (a ∷ b) = elim (Bool-cases (a == 0)) [
  | inl e ↦ rw e _
  | inr e ↦ rw e (more_bytes-Within (leading 7 a) (a % 2 ^ (7 - leading 7 a)) b)
]

weaken-Within : {A : Type 0} (n m : ℕ) (g : Got A) → n ≤ m → Within n g → Within m g
unfolding Within
weaken-Within n m failed h w = _
weaken-Within n m overrun h w = _
weaken-Within n m (got x b) h w = omega (arith, h, w)

element-Within : (p : Option ℕ) (b : Bytes) → Within (length b) (element p b)
unfolding element
element-Within p b =
    bind-Within (length b) (length b) (get_vint b) _ (get_vint-Within b) (λ id b1 h1.
      bind-Within (length b) (length b) (get_vint b1) _
        (weaken-Within (length b1) (length b) (get_vint b1) (omega (arith, h1))
          (get_vint-Within b1))
        (λ size b2 h2. chosen-Within (length b) _ _ b2 h2))

-- The loop came to an end.
unfoldable pub IsOver : {S : Type 0} → Ended S → Type 0
IsOver out_of_fuel = ⊥
IsOver overrun = Unit
IsOver (cut_short s) = Unit
IsOver (ended r s b) = Unit

module _ {S : Type 0} (next : ℕ → S → Bytes → Ended S) (n : ℕ)
    (over : (p : ℕ) (s : S) (b : Bytes) → length b < n → IsOver (next p s b)) where
  turned-IsOver :
      (left : Option ℕ) (size : ℕ) (r : Answer × S × Bytes)
      → length r.2 < n
      → IsOver (turned next left size (after size r))
  unfolding IsOver
  turned-IsOver left size (success, s, b) h = over (taken left size) s b h
  turned-IsOver left size (unknown, s, b) h =
      over (taken left size) s (drop size b) (omega (arith, h, length-drop size b))
  turned-IsOver left size (break, s, b) h = _
  turned-IsOver left size (error, s, b) h = _

  turn-IsOver :
      (cb : ℕ → ℕ → S → Bytes → Answer × S × Bytes)
      → ((id size : ℕ) (s : S) (b : Bytes) → length (cb id size s b).2 ≤ length b)
      → (s : S) (g : Got (ℕ × ℕ × Option ℕ)) → Within n g
      → IsOver (turn next cb s g)
  unfolding IsOver Within
  turn-IsOver cb forward s failed w = _
  turn-IsOver cb forward s overrun w = _
  turn-IsOver cb forward s (got (id, size, left) b) w =
      turned-IsOver left size (cb id size s b) (omega (arith, w, forward id size s b))

module _ {S : Type 0} (cb : ℕ → ℕ → S → Bytes → Answer × S × Bytes)
    (forward : (id size : ℕ) (s : S) (b : Bytes) → length (cb id size s b).2 ≤ length b) where
  -- With a callback that does not go back in the file, the loop of `ebml_read_elements` comes to an end
  -- within as many turns as the file has bytes ahead, and one: whatever these bytes are and whatever
  -- size the parent claims to have.
  pub read_elements-IsOver :
      (n p : ℕ) (s : S) (b : Bytes) → length b < n → IsOver (read_elements cb n p s b)
  unfolding read_elements IsOver
  read_elements-IsOver zero p s b h = absurd (omega (arith, h))
  read_elements-IsOver (suc n) p s b h = elim (Bool-cases (p == 0)) [
    | inl e ↦ rw e _
    | inr e ↦
        let read =
          weaken-Within (length b) n (element (some p) b) (omega (arith, h))
            (element-Within (some p) b) in
        rw e (
          turn-IsOver (read_elements cb n) n (read_elements-IsOver n) cb forward s
            (element (some p) b) read)
  ]
