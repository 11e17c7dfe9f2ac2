-- ===== src/Events/Names.antt =====
-- How the names and the numbers of events agree.
use mathlib.Core.Option
use mathlib.Core.Path.{subst}
use tcvp.Prelude.{
  ℕ, ◌+◌, ◌≤◌, ◌≡◌, refl, sym, ap, ◌∙◌, arith, Bool, true, false, Option, none, some, leb,
  if◌then◌else◌, update, List, [], ◌∷◌,
}
use tcvp.Prelude.Int.{ℤ, pos, negsuc}
use tcvp.Events.Registry.{
  Hash, Functions, EventType, Registry, event_init, new_type, fill_in, enter, reg_event, get_event,
  del_event, known, is_some, type_of, sender, serializer, deserializer, get_format, given,
  serialize_of, deserialize_of, found_type,
}
use tcvp.Events.Valid.{
  IsValid, event_init-IsValid, reg_event-IsValid, get_event-IsValid, del_event-IsValid, at_same,
  no_value, some_inj,
}

-- The calls that change the registry.
pub data Call (hash : Hash) (fns : Functions) : Type 0 where
  reg_call :
      hash.Name
      → Option fns.Alloc
      → Option fns.Serialize
      → Option fns.Deserialize
      → Option ℕ
      → Call hash fns
  get_call : hash.Name → Call hash fns
  del_call : hash.Name → Call hash fns

module _ {hash : Hash} {fns : Functions} where
  unfoldable pub call : Call hash fns → Registry hash fns → Registry hash fns
  unfolding reg_event get_event del_event
  call (reg_call name af sf df fmt) r = (reg_event name af sf df fmt r).0
  call (get_call name) r = (get_event name r).0
  call (del_call name) r = del_event name r

  unfoldable pub call_all : List (Call hash fns) → Registry hash fns → Registry hash fns
  call_all [] r = r
  call_all (c ∷ cs) r = call_all cs (call c r)

  call-IsValid : (c : Call hash fns) (r : Registry hash fns) → IsValid r → IsValid (call c r)
  unfolding call
  call-IsValid (reg_call name af sf df fmt) r v = reg_event-IsValid name af sf df fmt r v
  call-IsValid (get_call name) r v = get_event-IsValid name r v
  call-IsValid (del_call name) r v = del_event-IsValid name r v

  call_all-IsValid :
      (cs : List (Call hash fns)) (r : Registry hash fns) → IsValid r → IsValid (call_all cs r)
  unfolding call_all
  call_all-IsValid [] r v = v
  call_all-IsValid (c ∷ cs) r v = call_all-IsValid cs (call c r) (call-IsValid c r v)

  -- After whatever calls, names in the table have different numbers.
  pub names_apart :
      (cs : List (Call hash fns)) (a b : hash.Name) (k : ℕ)
      → hash.find a (call_all cs event_init).types ≡ some k
      → hash.find b (call_all cs event_init).types ≡ some k
      → a ≡ b
  names_apart cs a b k p q =
      let v = call_all-IsValid cs event_init event_init-IsValid in
      let x = v.named a k p in
      let y = v.named b k q in sym x.3 ∙ ap (λ e. e.name) (some_inj (sym x.2 ∙ y.2)) ∙ y.3

  -- What holds of a type that was just registered.
  Settled : hash.Name → fns.Alloc → Option ℕ → Registry hash fns × ℤ → Type 0
  Settled name a fmt (r, negsuc i) = Unit
  Settled name a fmt (r, pos k) =
      (hash.find name r.types ≡ some k)
      × (k ≤ r.event_num)
      × (e : EventType hash fns) × (r.event_tab k ≡ some e)
      × (e.alloc ≡ some a)
      × (e.format ≡ fmt)

  refilled-Settled :
      (b : Bool) (name : hash.Name) (a : fns.Alloc) (fmt : Option ℕ) (r : Registry hash fns)
      (y : Registry hash fns × ℤ)
      → Settled name a fmt y
      → Settled name a fmt (if b then (r, negsuc 0) else y)
  unfolding Settled
  refilled-Settled true name a fmt r y h = tt
  refilled-Settled false name a fmt r y h = h

  enter-Settled :
      (name : hash.Name) (a : fns.Alloc) (sf : Option fns.Serialize) (df : Option fns.Deserialize)
      (fmt : Option ℕ) (r : Registry hash fns) (found : Option ℕ)
      → hash.find name r.types ≡ found
      → IsValid r
      → Settled name a fmt (enter name (some a) sf df fmt r found)
  unfolding Settled enter new_type
  enter-Settled name a sf df fmt r none q v =
      let n = r.event_num + 1 in
      (hash.find-replace name n r.types, omega arith, _, at_same r.event_tab n _, refl, refl)
  enter-Settled name a sf df fmt r (some i) q v = go (r.event_tab i) refl
    where
      go :
          (x : Option (EventType hash fns))
          → r.event_tab i ≡ x
          → Settled name a fmt (fill_in i (some a) sf df fmt r x)
      go none p = tt
      go (some e) p =
          let num = (v.held i e p).0 in
          refilled-Settled (is_some e.alloc) name a fmt r _ (
            subst
              (λ k. Settled name a fmt (
                record r {
                  event_tab = update r.event_tab i (
                      some (record e {
                        alloc = some a;
                        serialize = sf;
                        deserialize = df;
                        format = fmt;
                      }));
                },
                pos k,
              ))
              (sym num) (q, (v.named name i q).0, _, at_same r.event_tab i _, refl, refl))

  reg_event-Settled :
      (name : hash.Name) (af : Option fns.Alloc) (sf : Option fns.Serialize)
      (df : Option fns.Deserialize) (fmt : Option ℕ) (r : Registry hash fns)
      → IsValid r
      → Settled name (given af fns.evt_alloc) fmt (reg_event name af sf df fmt r)
  unfolding reg_event
  reg_event-Settled name none sf df fmt r v = enter-Settled name _ _ _ fmt r _ refl v
  reg_event-Settled name (some af) sf df fmt r v = enter-Settled name _ sf df fmt r _ refl v

  again :
      (name : hash.Name) (af : Option fns.Alloc) (sf : Option fns.Serialize)
      (df : Option fns.Deserialize) (fmt fmt' : Option ℕ) (r : Registry hash fns) (k : ℕ)
      (a : fns.Alloc)
      → Settled name a fmt' (r, pos k)
      → reg_event name af sf df fmt r ≡ (r, negsuc 0)
  unfolding Settled reg_event enter fill_in
  again name none sf df fmt fmt' r k a h = rw (h.0, h.3, h.4)
  again name (some af) sf df fmt fmt' r k a h = rw (h.0, h.3, h.4)

  -- An event that was registered is found under the number that was returned, with nothing loaded; it
  -- is sent by its function, or the one taken by default, it has its format, and the same name
  -- cannot be registered again.
  pub reg_event_lem :
      (name : hash.Name) (af : Option fns.Alloc) (sf : Option fns.Serialize)
      (df : Option fns.Deserialize) (fmt : Option ℕ) (r r' : Registry hash fns) (k : ℕ)
      → IsValid r
      → reg_event name af sf df fmt r ≡ (r', pos k)
      → (get_event name r' ≡ (r', k, false))
        × (sender k r' ≡ some (given af fns.evt_alloc))
        × (get_format k r' ≡ fmt)
        × (reg_event name af sf df fmt r' ≡ (r', negsuc 0))
  unfolding get_event known sender get_format type_of Settled
  reg_event_lem name af sf df fmt r r' k v e =
      let h =
        subst (Settled name (given af fns.evt_alloc) fmt) e
          (reg_event-Settled name af sf df fmt r v) in
      let l : leb k r'.event_num ≡ true = ground (arith, h.1) in
      (rw (h.0, h.3, h.4), rw (l, h.3, h.4), rw (l, h.3, h.5), again name af sf df fmt fmt r' k _ h)

  -- An event that `serialize_event` writes under a name is read by the deserializer of the same event
  -- type, if that has one, under the same number.
  pub deserializer-serializer :
      (r : Registry hash fns) (k : ℕ) (s : fns.Serialize) (name : hash.Name)
      → IsValid r
      → serializer k r ≡ some (s, name)
      → deserializer name r ≡ deserialize_of (type_of k r)
  unfolding serializer deserializer type_of
  deserializer-serializer r k s name v e =
      go (if leb k r.event_num then r.event_tab k else none) refl e
    where
      at :
          (b : Bool) (x : Option (EventType hash fns)) (y : EventType hash fns)
          → (if b then x else none) ≡ some y
          → x ≡ some y
      at true x y q = q
      at false x y q = absurd (no_value q)

      name_of :
          (y : EventType hash fns) (m : Option fns.Serialize)
          → Option.map {B = fns.Serialize × hash.Name} (λ t. (t, y.name)) m ≡ some (s, name)
          → y.name ≡ name
      name_of y none q = absurd (no_value q)
      name_of y (some t) q = ap (λ x. x.1) (some_inj q)

      go :
          (x : Option (EventType hash fns))
          → (if leb k r.event_num then r.event_tab k else none) ≡ x
          → serialize_of x ≡ some (s, name)
          → deserialize_of (found_type r (hash.find name r.types)) ≡ deserialize_of x
      go none p q = absurd (no_value q)
      go (some y) p q =
          let tab = at (leb k r.event_num) (r.event_tab k) y p in
          let h = v.held k y tab in
          ap (λ z. deserialize_of (found_type r z))
            (sym (ap (λ n. hash.find n r.types) (name_of y y.serialize q)) ∙ h.1)
          ∙ ap deserialize_of tab
