-- ===== src/Events/Registry.antt =====
-- The registry of event types (`event_types`, `event_tab`, `event_num`) and its operations.
use mathlib.Core.Option
use tcvp.Prelude.{
  ℕ, ◌+◌, ◌≡◌, ◌≢◌, Bool, true, false, Option, none, some, leb, if◌then◌else◌, update, not,
}
use tcvp.Prelude.Int.{ℤ, pos, negsuc}

-- The hash tables of libtc, from names to the elements stored under them.
pub record Hash : Type 1 where
  pub Name : Type 0
  pub same : (a b : Name) → Dec (a ≡ b)
  pub Table : Type 0
  pub new : Table
  pub find : Name → Table → Option ℕ
  pub replace : Name → ℕ → Table → Table
  pub delete : Name → Table → Table
  pub find-new : (a : Name) → find a new ≡ none
  pub find-replace : (a : Name) (x : ℕ) (t : Table) → find a (replace a x t) ≡ some x
  pub find-replace_other :
      (a b : Name) (x : ℕ) (t : Table) → b ≢ a → find b (replace a x t) ≡ find b t
  pub find-delete : (a : Name) (t : Table) → find a (delete a t) ≡ none
  pub find-delete_other : (a b : Name) (t : Table) → b ≢ a → find b (delete a t) ≡ find b t

-- The functions of an event type, and those that are taken by default.
pub record Functions : Type 1 where
  pub Alloc : Type 0
  pub Serialize : Type 0
  pub Deserialize : Type 0
  pub evt_alloc : Alloc
  pub evt_serialize : Serialize
  pub evt_deserialize : Deserialize

module _ (hash : Hash) (fns : Functions) where
  -- `tcvp_event_type_t`; `format` is the number of a string.
  pub record EventType : Type 0 where
    pub name : hash.Name
    pub num : ℕ
    pub alloc : Option fns.Alloc
    pub serialize : Option fns.Serialize
    pub deserialize : Option fns.Deserialize
    pub format : Option ℕ

  -- A pointer to an event type stands as its number, under which `event_tab` holds it. An element
  -- of `event_tab` is `none` for NULL; the element 0 is never written.
  pub record Registry : Type 0 where
    pub types : hash.Table
    pub event_tab : ℕ → Option EventType
    pub event_num : ℕ

abbrev pub given : {A : Type 0} → Option A → A → A
given none d = d
given (some x) d = x

abbrev pub or_default : {A : Type 0} → Option A → A → Option A
or_default none d = some d
or_default (some x) d = some x

abbrev pub is_some : {A : Type 0} → Option A → Bool
is_some none = false
is_some (some x) = true

module _ {hash : Hash} {fns : Functions} where
  -- `event_init`
  unfoldable pub event_init : Registry hash fns
  event_init = record { types = hash.new; event_tab = λ k. none; event_num = 0 }

  unfoldable pub new_type :
      hash.Name
      → Option fns.Alloc
      → Option fns.Serialize
      → Option fns.Deserialize
      → Option ℕ
      → Registry hash fns
      → Registry hash fns × ℕ
  new_type name af sf df fmt r =
      let num = r.event_num + 1 in
      let e : EventType hash fns = record {
        name = name;
        num = num;
        alloc = af;
        serialize = sf;
        deserialize = df;
        format = fmt;
      } in
      (
        record {
          types = hash.replace name num r.types;
          event_tab = update r.event_tab num (some e);
          event_num = num;
        },
        num,
      )

  -- The event type that a name has already; -1 if it has its functions.
  unfoldable pub fill_in :
      ℕ
      → Option fns.Alloc
      → Option fns.Serialize
      → Option fns.Deserialize
      → Option ℕ
      → Registry hash fns
      → Option (EventType hash fns)
      → Registry hash fns × ℤ
  fill_in k af sf df fmt r none = (r, negsuc 0)
  fill_in k af sf df fmt r (some e) = if is_some e.alloc then (r, negsuc 0) else (
    record r {
      event_tab =
          update r.event_tab k
            (some (record e { alloc = af; serialize = sf; deserialize = df; format = fmt }));
    },
    pos e.num,
  )

  -- `reg_event` with the functions settled.
  unfoldable pub enter :
      hash.Name
      → Option fns.Alloc
      → Option fns.Serialize
      → Option fns.Deserialize
      → Option ℕ
      → Registry hash fns
      → Option ℕ
      → Registry hash fns × ℤ
  unfolding new_type fill_in
  enter name af sf df fmt r none = let (r', k) = new_type name af sf df fmt r in (r', pos k)
  enter name af sf df fmt r (some k) = fill_in k af sf df fmt r (r.event_tab k)

  unfoldable pub reg_event :
      hash.Name
      → Option fns.Alloc
      → Option fns.Serialize
      → Option fns.Deserialize
      → Option ℕ
      → Registry hash fns
      → Registry hash fns × ℤ
  unfolding enter
  reg_event name none sf df fmt r =
      enter name (some fns.evt_alloc) (or_default sf fns.evt_serialize)
        (or_default df fns.evt_deserialize) fmt r (hash.find name r.types)
  reg_event name (some af) sf df fmt r = enter name (some af) sf df fmt r (hash.find name r.types)

  -- Whether an event type has no functions yet.
  abbrev pub lacks : Option (EventType hash fns) → Bool
  lacks none = true
  lacks (some e) = not (is_some e.alloc)

  unfoldable pub known : hash.Name → Registry hash fns → Option ℕ → Registry hash fns × ℕ × Bool
  unfolding new_type
  known name r (some k) = (r, k, lacks (r.event_tab k))
  known name r none = let (r', k) = new_type name none none none none r in (r', k, true)

  -- `get_event` up to the loading of the module, which may register the event: the registry, the
  -- number, and whether the module is loaded.
  unfoldable pub get_event : hash.Name → Registry hash fns → Registry hash fns × ℕ × Bool
  unfolding known
  get_event name r = known name r (hash.find name r.types)

  unfoldable pub drop : hash.Name → Registry hash fns → Option ℕ → Registry hash fns
  drop name r none = r
  drop name r (some k) = record {
    types = hash.delete name r.types;
    event_tab = update r.event_tab k none;
    event_num = r.event_num;
  }

  -- `del_event`, with `free_event`.
  unfoldable pub del_event : hash.Name → Registry hash fns → Registry hash fns
  unfolding drop
  del_event name r = drop name r (hash.find name r.types)

  -- What the functions find under the number of an event: `type <= event_num && event_tab[type]`.
  unfoldable pub type_of : ℕ → Registry hash fns → Option (EventType hash fns)
  type_of k r = if leb k r.event_num then r.event_tab k else none

  abbrev pub format_of : Option (EventType hash fns) → Option ℕ
  format_of none = none
  format_of (some e) = e.format

  unfoldable pub get_format : ℕ → Registry hash fns → Option ℕ
  unfolding type_of
  get_format k r = format_of (type_of k r)

  abbrev pub alloc_of : Option (EventType hash fns) → Option fns.Alloc
  alloc_of none = none
  alloc_of (some e) = e.alloc

  -- The function that `send_eventv` calls for the number of an event, -1 aside.
  unfoldable pub sender : ℕ → Registry hash fns → Option fns.Alloc
  unfolding type_of
  sender k r = alloc_of (type_of k r)

  abbrev pub serialize_of : Option (EventType hash fns) → Option (fns.Serialize × hash.Name)
  serialize_of none = none
  serialize_of (some e) = Option.map (λ s. (s, e.name)) e.serialize

  -- The function that `serialize_event` calls, with the name it passes.
  unfoldable pub serializer : ℕ → Registry hash fns → Option (fns.Serialize × hash.Name)
  unfolding type_of
  serializer k r = serialize_of (type_of k r)

  abbrev pub deserialize_of : Option (EventType hash fns) → Option (fns.Deserialize × ℕ)
  deserialize_of none = none
  deserialize_of (some e) = Option.map (λ d. (d, e.num)) e.deserialize

  abbrev pub found_type : Registry hash fns → Option ℕ → Option (EventType hash fns)
  found_type r none = none
  found_type r (some k) = r.event_tab k

  -- The function that `deserialize_event` calls for a name, with the number it passes.
  unfoldable pub deserializer : hash.Name → Registry hash fns → Option (fns.Deserialize × ℕ)
  deserializer name r = deserialize_of (found_type r (hash.find name r.types))
