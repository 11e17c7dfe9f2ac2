-- ===== src/Database/Query.antt =====
-- `db_query`, on strings without their final zero. The hash table is that of libtc, which is not in
-- the repository: an interface with what db.c relies on.
use tcvp.Prelude.{
  ℕ, ◌≡◌, Bool, true, false, not, ◌&&◌, [], ◌∷◌, Option, none, some, ◌==◌, if◌then◌else◌,
}
use tcvp.Prelude.Wire.{Bytes}

-- `tchash_find` and `tchash_replace`, and what is documented of them.
pub record Hash : Type 1 where
  pub Table : Type 0
  pub find : Table → Bytes → Option Bytes
  pub replace : Table → Bytes → Bytes → Table
  pub find-replace : (t : Table) (k v : Bytes) → find (replace t k v) k ≡ some v
  pub find-replace_other :
      (t : Table) (k l v : Bytes) → (l ≡ k → ⊥) → find (replace t k v) l ≡ find t l

-- `rtype`
pub data ReplyType : Type 0 where
  tcdb_ok tcdb_string tcdb_fail : ReplyType

-- A reply, or NULL, or a read at a pointer that is NULL, or behind the end of the query.
pub data Reply : Type 0 where
  null_read read_past no_reply : Reply
  reply : ReplyType → Bytes → Reply

abbrev pub quote : ℕ
quote = 39

abbrev pub backslash : ℕ
backslash = 92

-- `strchr(q, '\'')`: what stands behind the first quote.
unfoldable pub behind_quote : Bytes → Option Bytes
behind_quote [] = none
behind_quote (c ∷ q) = if c == quote then some q else behind_quote q

abbrev pub add_char : ℕ → Option (Bytes × Bytes) → Option (Bytes × Bytes)
add_char c none = none
add_char c (some (s, rest)) = some (c ∷ s, rest)

-- The loop up to a quote without a backslash before it: what stands before it and behind it. `prev` is
-- `q[-1]`.
unfoldable pub up_to_quote : ℕ → Bytes → Option (Bytes × Bytes)
up_to_quote prev [] = none
up_to_quote prev (c ∷ q) =
    let rest = up_to_quote c q in
    if c == quote && not (prev == backslash) then some ([], q) else add_char c rest

-- `unescape`.
unfoldable pub unescape : Bytes → Bytes
unescape [] = []
unescape (c ∷ []) = c ∷ []
unescape (c ∷ d ∷ s) =
    let skipped = unescape s in
    let kept = unescape (d ∷ s) in if c == backslash && d == quote then d ∷ skipped else c ∷ kept

-- `strncmp(query, word, n) == 0`, for a word of `n` characters.
unfoldable pub starts_with : Bytes → Bytes → Bool
starts_with [] query = true
starts_with (c ∷ word) [] = false
starts_with (c ∷ word) (d ∷ query) = c == d && starts_with word query

abbrev pub add_word : Bytes
add_word = 65 ∷ 68 ∷ 68 ∷ []

abbrev pub find_word : Bytes
find_word = 70 ∷ 73 ∷ 78 ∷ 68 ∷ []

-- The value behind its first quote: without a second one it goes on to the end. Where the query ends
-- with the first quote the search starts behind its end. The first character is not looked at.
abbrev pub value_before : Bytes → Option (Bytes × Bytes) → Bytes
value_before q none = q
value_before q (some (v, rest)) = v

abbrev pub value_of : Bytes → Option Bytes
value_of [] = none
value_of (c ∷ q) = some (value_before (c ∷ q) (add_char c (up_to_quote c q)))

module _ (hash : Hash) where
  open hash use {Table, find, replace}

  abbrev pub store_value : Table → Bytes → Option Bytes → Table × Reply
  store_value t k none = (t, read_past)
  store_value t k (some v) = (replace t (unescape k) (unescape v), reply tcdb_ok [])

  abbrev pub add_value : Table → Bytes → Option Bytes → Table × Reply
  add_value t k none = (t, no_reply)
  add_value t k (some q) = store_value t k (value_of q)

  abbrev pub add_key : Table → Option (Bytes × Bytes) → Table × Reply
  add_key t none = (t, null_read)
  add_key t (some (k, rest)) = add_value t k (behind_quote rest)

  abbrev pub add_entry : Table → Option Bytes → Table × Reply
  add_entry t none = (t, no_reply)
  add_entry t (some q) = add_key t (up_to_quote quote q)

  abbrev pub found : Option Bytes → Reply
  found none = reply tcdb_fail []
  found (some v) = reply tcdb_string v

  abbrev pub find_key : Table → Option (Bytes × Bytes) → Table × Reply
  find_key t none = (t, null_read)
  find_key t (some (k, rest)) = (t, found (find t (unescape k)))

  abbrev pub look_up : Table → Option Bytes → Table × Reply
  look_up t none = (t, no_reply)
  look_up t (some q) = find_key t (up_to_quote quote q)

  -- `db_query`: the table, and the reply.
  unfoldable pub db_query : Table → Bytes → Table × Reply
  unfolding behind_quote up_to_quote unescape starts_with
  db_query t query =
      if starts_with add_word query
      then add_entry t (behind_quote query)
      else if starts_with find_word query
      then look_up t (behind_quote query)
      else (t, no_reply)
