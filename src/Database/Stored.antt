-- ===== src/Database/Stored.antt =====
-- What is added is found.
use tcvp.Prelude.{
  ℕ, ◌≡◌, refl, ap, ◌∙◌, arith, Bool, true, false, not, ◌&&◌, [], ◌∷◌, ◌++◌, Option, some, ◌==◌,
  if◌then◌else◌, Bool-cases, inl, inr, sym,
}
use tcvp.Prelude.Wire.{Bytes}
use tcvp.Database.Query.{
  Hash, Reply, reply, tcdb_ok, tcdb_string, quote, backslash, behind_quote, add_char, up_to_quote,
  unescape, starts_with, value_before, add_word, find_word, value_of, store_value, found, db_query,
}

-- A string in a query: a backslash before each quote.
unfoldable pub escape : Bytes → Bytes
escape [] = []
escape (c ∷ s) = let rest = escape s in if c == quote then backslash ∷ c ∷ rest else c ∷ rest

-- The last character is no backslash, with `prev` for that before the string.
unfoldable pub ends_well : ℕ → Bytes → Bool
ends_well prev [] = not (prev == backslash)
ends_well prev (c ∷ s) = ends_well c s

escape_plain : (c : ℕ) (s : Bytes) → (c == quote) ≡ false → escape (c ∷ s) ≡ c ∷ escape s
unfolding escape
escape_plain c s e = rw e refl

escape-quote : (c : ℕ) (s : Bytes) → (c == quote) ≡ true → escape (c ∷ s) ≡ backslash ∷ c ∷ escape s
unfolding escape
escape-quote c s e = rw e refl

up_to_quote_plain :
    (prev c : ℕ) (q : Bytes)
    → (c == quote) ≡ false
    → up_to_quote prev (c ∷ q) ≡ add_char c (up_to_quote c q)
unfolding up_to_quote
up_to_quote_plain prev c q e = rw e refl

up_to_quote_skips :
    (prev c : ℕ) (q : Bytes)
    → (c == quote) ≡ true
    → up_to_quote prev (backslash ∷ c ∷ q) ≡ add_char backslash (add_char c (up_to_quote c q))
unfolding up_to_quote
up_to_quote_skips prev c q e = rw e refl

up_to_quote-end :
    (prev : ℕ) (rest : Bytes)
    → ends_well prev [] ≡ true
    → up_to_quote prev (quote ∷ rest) ≡ some ([], rest)
unfolding up_to_quote ends_well
up_to_quote-end prev rest h = rw h refl

-- A string in quotes ends where its writer ended it.
up_to_quote-escape :
    (prev : ℕ) (s rest : Bytes)
    → ends_well prev s ≡ true
    → up_to_quote prev (escape s ++ (quote ∷ rest)) ≡ some (escape s, rest)
unfolding ends_well escape
up_to_quote-escape prev [] rest h = up_to_quote-end prev rest h
up_to_quote-escape prev (c ∷ s) rest h = elim (Bool-cases (c == quote)) [
  | inl e ↦
      rw
        (
          escape-quote c s e,
          up_to_quote_skips prev c (escape s ++ (quote ∷ rest)) e,
          up_to_quote-escape c s rest h,
        )
        refl
  | inr e ↦
      rw
        (
          escape_plain c s e,
          up_to_quote_plain prev c (escape s ++ (quote ∷ rest)) e,
          up_to_quote-escape c s rest h,
        )
        refl
]

-- No quote stands first.
abbrev starts_plain : Bytes → Bool
starts_plain [] = true
starts_plain (c ∷ s) = not (c == quote)

starts_plain-escape : (s : Bytes) → starts_plain (escape s) ≡ true
unfolding escape
starts_plain-escape [] = refl
starts_plain-escape (c ∷ s) = elim (Bool-cases (c == quote)) [
  | inl e ↦ rw e refl
  | inr e ↦ rw e (rw e refl)
]

unescape_plain : (c : ℕ) (s : Bytes) → starts_plain s ≡ true → unescape (c ∷ s) ≡ c ∷ unescape s
unfolding unescape
unescape_plain c [] h = refl
unescape_plain c (d ∷ s) h =
    let keeps : (c == backslash && d == quote) ≡ false = ground (arith, h) in rw keeps refl

unescape-quote :
    (c : ℕ) (s : Bytes) → (c == quote) ≡ true → unescape (backslash ∷ c ∷ s) ≡ c ∷ unescape s
unfolding unescape
unescape-quote c s e = rw e refl

unescape-escape : (s : Bytes) → unescape (escape s) ≡ s
unfolding unescape escape
unescape-escape [] = refl
unescape-escape (c ∷ s) = elim (Bool-cases (c == quote)) [
  | inl e ↦
      ap unescape (escape-quote c s e)
      ∙ unescape-quote c (escape s) e
      ∙ ap (λ (x : Bytes). c ∷ x) (unescape-escape s)
  | inr e ↦
      ap unescape (escape_plain c s e)
      ∙ unescape_plain c (escape s) (starts_plain-escape s)
      ∙ ap (λ (x : Bytes). c ∷ x) (unescape-escape s)
]

-- The texts of the two queries.
unfoldable pub add_query : Bytes → Bytes → Bytes
unfolding escape
add_query k v =
    add_word ++ (32 ∷ quote ∷ (escape k ++ (quote ∷ 32 ∷ quote ∷ (escape v ++ (quote ∷ [])))))

unfoldable pub find_query : Bytes → Bytes
unfolding escape
find_query k = find_word ++ (32 ∷ quote ∷ (escape k ++ (quote ∷ [])))

abbrev is_empty : Bytes → Bool
is_empty [] = true
is_empty (c ∷ s) = false

is_empty-escape : (c : ℕ) (s : Bytes) → is_empty (escape (c ∷ s)) ≡ false
is_empty-escape c s = elim (Bool-cases (c == quote)) [
  | inl e ↦ ap is_empty (escape-quote c s e)
  | inr e ↦ ap is_empty (escape_plain c s e)
]

-- Where the first character is no quote, it does not matter that it is not looked at.
value_of_plain :
    (s rest : Bytes)
    → starts_plain s ≡ true
    → is_empty s ≡ false
    → value_of (s ++ rest) ≡ some (value_before (s ++ rest) (up_to_quote quote (s ++ rest)))
value_of_plain [] rest h n = absurd (ground (arith, n))
value_of_plain (c ∷ s) rest h n =
    let plain : (c == quote) ≡ false = ground (arith, h) in
    ap (λ (x : Option (Bytes × Bytes)). some (value_before (c ∷ (s ++ rest)) x))
      (sym (up_to_quote_plain quote c (s ++ rest) plain))

value_of-escape :
    (c : ℕ) (v : Bytes)
    → ends_well quote (c ∷ v) ≡ true
    → value_of (escape (c ∷ v) ++ (quote ∷ [])) ≡ some (escape (c ∷ v))
value_of-escape c v hv =
    value_of_plain (escape (c ∷ v)) (quote ∷ []) (starts_plain-escape (c ∷ v)) (is_empty-escape c v)
    ∙ ap (λ (x : Option (Bytes × Bytes)). some (value_before (escape (c ∷ v) ++ (quote ∷ [])) x))
        (up_to_quote-escape quote (c ∷ v) [] hv)

module _ (hash : Hash) where
  open hash use {Table, find, replace, find-replace, find-replace_other}

  db_query-add_entry :
      (t : Table) (k : Bytes) (c : ℕ) (v : Bytes)
      → ends_well quote k ≡ true
      → ends_well quote (c ∷ v) ≡ true
      → db_query hash t (add_query k (c ∷ v)) ≡ (replace t k (c ∷ v), reply tcdb_ok [])
  unfolding db_query add_query starts_with behind_quote
  db_query-add_entry t k c v hk hv =
      let stored : (a b : Bytes) → Table × Reply = λ a b. (replace t a b, reply tcdb_ok []) in
      let w = escape (c ∷ v) in
      rw (up_to_quote-escape quote k (32 ∷ quote ∷ (w ++ (quote ∷ []))) hk) (
        ap (store_value hash t (escape k)) (value_of-escape c v hv)
        ∙ ap (λ a. stored a (unescape w)) (unescape-escape k)
        ∙ ap (stored k) (unescape-escape (c ∷ v)))

  db_query-find :
      (t : Table) (k : Bytes)
      → ends_well quote k ≡ true
      → db_query hash t (find_query k) ≡ (t, found hash (find t k))
  unfolding db_query find_query starts_with behind_quote
  db_query-find t k hk = rw (up_to_quote-escape quote k [] hk, unescape-escape k) refl

  -- A key and a value that do not end in a backslash, the value not empty, with a backslash before each of
  -- their quotes in the query, are added, and the key is then found with this value, whatever
  -- characters they have. Each other key that does not end in a backslash is found, or not, as before.
  pub find-add_query :
      (t : Table) (k : Bytes) (c : ℕ) (v l : Bytes)
      → ends_well quote k ≡ true
      → ends_well quote (c ∷ v) ≡ true
      → ends_well quote l ≡ true
      → (l ≡ k → ⊥)
      → ((db_query hash t (add_query k (c ∷ v))).1 ≡ reply tcdb_ok [])
        × ((db_query hash (db_query hash t (add_query k (c ∷ v))).0 (find_query k)).1
            ≡ reply tcdb_string (c ∷ v))
        × ((db_query hash (db_query hash t (add_query k (c ∷ v))).0 (find_query l)).1
            ≡ (db_query hash t (find_query l)).1)
  find-add_query t k c v l hk hv hl other =
      let added = db_query-add_entry t k c v hk hv in
      (
        rw added refl,
        rw (added, db_query-find (replace t k (c ∷ v)) k hk, find-replace t k (c ∷ v)) refl,
        rw
            (
              added,
              db_query-find (replace t k (c ∷ v)) l hl,
              db_query-find t l hl,
              find-replace_other t k l (c ∷ v) other,
            )
            refl,
      )
