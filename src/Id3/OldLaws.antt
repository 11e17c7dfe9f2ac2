-- ===== src/Id3/OldLaws.antt =====
-- What the tag of version 1 leaves, and how a text is padded.
use tcvp.Prelude.{
  ℕ, zero, suc, ◌≡◌, refl, arith, Bool, true, false, not, ◌&&◌, List, [], ◌∷◌, ◌++◌, Option, none,
  some, replicate, Bool-cases, Option-cases, inl, inr, if◌then◌else◌, take, drop, get_or, ltb, ◌==◌,
}
use tcvp.Prelude.Wire.{Bytes}
use tcvp.Id3.Read.{same}
use tcvp.Id3.Old.{
  is_blank, trim, Attributes, put, decimal, strdup, setattr, track_name, no_track, set_track,
  id3v1_tag, set_fields, old_fields,
}

blanks : (n : ℕ) (c : ℕ) → is_blank c ≡ true → trim (replicate n c) ≡ []
unfolding trim
blanks zero c e = refl
blanks (suc n) c e = rw (blanks n c e, e)

-- A text that ends in a character other than a blank stays when it is padded.
trim-padded :
    (text : Bytes) (last n c : ℕ)
    → is_blank last ≡ false
    → is_blank c ≡ true
    → trim (text ++ (last ∷ replicate n c)) ≡ text ++ (last ∷ [])
unfolding trim
trim-padded [] last n c l e = rw (blanks n c e, l)
trim-padded (b ∷ []) last n c l e = rw (trim-padded [] last n c l e)
trim-padded (b ∷ d ∷ text) last n c l e = rw (trim-padded (d ∷ text) last n c l e)

same_eq : (a b : Bytes) → same a b ≡ true → a ≡ b
unfolding same
same_eq [] [] e = refl
same_eq [] (b ∷ bs) e = absurd (ground (arith, e))
same_eq (a ∷ as1) [] e = absurd (ground (arith, e))
same_eq (a ∷ as1) (b ∷ bs) e =
    let rest = same_eq as1 bs (ground (arith, e)) in let first : a ≡ b = ground (arith, e) in cc

put-kept :
    (name n : Bytes) (value : Option Bytes) (v : Bytes) (attr : Attributes)
    → attr name ≡ none
    → attr n ≡ some v
    → put name value attr n ≡ some v
put-kept name n value v attr free h = elim (Bool-cases (same n name)) [
  | inl e ↦ absurd (let same_name = same_eq n name e in cc)
  | inr e ↦ rw e h
]

no_track_lem : (o : Option Bytes) → no_track o ≡ true → o ≡ none
no_track_lem none e = refl
no_track_lem (some v) e = absurd (ground (arith, e))

all_last : (a b c d : Bool) → (a && b && c && d) ≡ true → d ≡ true
all_last a b c d e = ground (arith, e)

set_track-kept :
    (buf n v : Bytes) (attr : Attributes) → attr n ≡ some v → set_track buf attr n ≡ some v
unfolding set_track
set_track-kept buf n v attr h =
    go (ltb 0 (get_or buf 126 0)) (ltb (get_or buf 126 0) 100)
      (not (get_or buf 126 0 == 32 && get_or buf 125 0 == 32))
  where
    value : Option Bytes
    value = some (decimal (get_or buf 126 0))

    go :
        (a b c : Bool)
        → (if a && b && c && no_track (attr track_name) then put track_name value attr else attr) n
          ≡ some v
    go a b c = elim (Bool-cases (a && b && c && no_track (attr track_name))) [
      | inl e ↦ rw e (
          put-kept track_name n value v attr
            (no_track_lem (attr track_name) (all_last a b c (no_track (attr track_name)) e)) h)
      | inr e ↦ rw e h
    ]

module _ (conv : Bytes → Option Bytes) where
  setattr-kept :
      (name n s v : Bytes) (attr : Attributes)
      → attr n ≡ some v
      → setattr conv name s attr n ≡ some v
  unfolding setattr
  setattr-kept name n s v attr h = elim (Option-cases (attr name)) [
    | inr (old, e) ↦ rw e h
    | inl e ↦ elim (Option-cases (strdup conv s)) [
      | inl f ↦ rw (e, f) h
      | inr (new, f) ↦ rw (e, f) (put-kept name n (some new) v attr e h)
    ]
  ]

  set_fields-kept :
      (fields : List (Bytes × ℕ × ℕ)) (buf n v : Bytes) (attr : Attributes)
      → attr n ≡ some v
      → set_fields conv fields buf attr n ≡ some v
  unfolding set_fields
  set_fields-kept [] buf n v attr h = h
  set_fields-kept ((name, at, k) ∷ more) buf n v attr h =
      set_fields-kept more buf n v (setattr conv name (take k (drop at buf)) attr)
        (setattr-kept name n (take k (drop at buf)) v attr h)

  -- The attributes that were set before the tag of version 1 is read keep their values.
  pub id3v1_tag-kept :
      (buf n v : Bytes) (attr : Attributes)
      → attr n ≡ some v
      → (id3v1_tag conv buf attr).1 n ≡ some v
  unfolding id3v1_tag
  id3v1_tag-kept buf n v attr h = elim (Bool-cases (same (take 3 buf) (b'T' ∷ b'A' ∷ b'G' ∷ []))) [
    | inl e ↦ rw e (
        set_track-kept buf n v (set_fields conv old_fields buf attr)
          (set_fields-kept old_fields buf n v attr h))
    | inr e ↦ rw e h
  ]
