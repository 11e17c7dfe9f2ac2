-- ===== src/Database/Tests.antt =====
-- A table of strings as a list of pairs, and queries to it.
use tcvp.Prelude.{
  ◌≡◌, refl, ap, arith, Bool, true, false, ◌&&◌, List, [], ◌∷◌, Option, none, some, ◌==◌,
  if◌then◌else◌, Bool-cases, inl, inr,
}
use tcvp.Prelude.Wire.{Bytes}
use tcvp.Database.Query.{Hash, reply, null_read, tcdb_ok, tcdb_string, db_query}
use tcvp.Database.Stored.{add_query, find_query, find-add_query, ends_well}

abbrev same_bytes : Bytes → Bytes → Bool
same_bytes [] [] = true
same_bytes [] (b ∷ bs) = false
same_bytes (a ∷ rest) [] = false
same_bytes (a ∷ rest) (b ∷ bs) = a == b && same_bytes rest bs

same_bytes_lem : (s t : Bytes) → same_bytes s t ≡ true → s ≡ t
same_bytes_lem [] [] h = refl
same_bytes_lem [] (b ∷ bs) h = ground (arith, h)
same_bytes_lem (a ∷ s) [] h = ground (arith, h)
same_bytes_lem (a ∷ s) (b ∷ t) h =
    let first : a ≡ b = ground (arith, h) in
    let rest : s ≡ t = same_bytes_lem s t (ground (arith, h)) in cc (first, rest)

same_bytes_refl : (s : Bytes) → same_bytes s s ≡ true
same_bytes_refl [] = refl
same_bytes_refl (a ∷ s) = ground (arith, same_bytes_refl s)

abbrev find_pair : List (Bytes × Bytes) → Bytes → Option Bytes
find_pair [] k = none
find_pair (p ∷ t) k = let rest = find_pair t k in if same_bytes k p.0 then some p.1 else rest

find_pair-other :
    (t : List (Bytes × Bytes)) (k l v : Bytes)
    → (l ≡ k → ⊥)
    → find_pair ((k, v) ∷ t) l ≡ find_pair t l
find_pair-other t k l v other = elim (Bool-cases (same_bytes l k)) [
  | inl e ↦ absurd (other (same_bytes_lem l k e))
  | inr e ↦ rw e refl
]

abbrev pairs : Hash
pairs = record {
  Table = List (Bytes × Bytes);
  find = find_pair;
  replace = λ t k v. (k, v) ∷ t;
  find-replace = λ t k v. rw (same_bytes_refl k) refl;
  find-replace_other = find_pair-other;
}

-- `it's` and a song.
abbrev its : Bytes
its = 105 ∷ 116 ∷ 39 ∷ 115 ∷ []

abbrev song : Bytes
song = 115 ∷ 92 ∷ 39 ∷ 111 ∷ []

its_query : find_query its ≡ 70 ∷ 73 ∷ 78 ∷ 68 ∷ 32 ∷ 39 ∷ 105 ∷ 116 ∷ 92 ∷ 39 ∷ 115 ∷ 39 ∷ []
unfolding find_query
its_query = refl

-- Without the closing quote the query is read at NULL.
open_query : (db_query pairs [] (70 ∷ 73 ∷ 78 ∷ 68 ∷ 32 ∷ 39 ∷ 105 ∷ [])).1 ≡ null_read
unfolding db_query
open_query = refl

its_differs : song ≡ its → ⊥
its_differs e =
    let same : same_bytes song its ≡ true = ap (λ (x : Bytes). same_bytes x its) e in
    ground (arith, same)

-- A value that is empty is stored as its closing quote.
empty_value : (db_query pairs [] (add_query its [])).0 ≡ (its, 39 ∷ []) ∷ []
unfolding db_query add_query
empty_value = refl

find-add_query_example :
    ((db_query pairs [] (add_query its song)).1 ≡ reply tcdb_ok [])
    × ((db_query pairs (db_query pairs [] (add_query its song)).0 (find_query its)).1
        ≡ reply tcdb_string song)
    × ((db_query pairs (db_query pairs [] (add_query its song)).0 (find_query song)).1
        ≡ (db_query pairs [] (find_query song)).1)
unfolding ends_well
find-add_query_example =
    find-add_query pairs [] its 115 (92 ∷ 39 ∷ 111 ∷ []) song refl refl refl its_differs
