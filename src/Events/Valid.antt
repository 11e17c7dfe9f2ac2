-- ===== src/Events/Valid.antt =====
-- The invariant of the registry of event types, and that every operation keeps it.
use mathlib.Core.Path.{subst}
use tcvp.Prelude.{
  ℕ, ◌+◌, ◌≤◌, ◌≡◌, ◌≢◌, refl, sym, ap, ◌∙◌, arith, Bool, true, false, Option, none, some,
  if◌then◌else◌, update, ℕ_discrete,
}
use tcvp.Prelude.Int.{ℤ}
use tcvp.Events.Registry.{
  Hash, Functions, EventType, Registry, event_init, new_type, fill_in, enter, reg_event, get_event,
  del_event, known, drop, is_some,
}

module _ {A : Type 0} where
  pub at_same : (a : ℕ → A) (i : ℕ) (x : A) → update a i x i ≡ x
  at_same a i x = ground arith

  at_other : (a : ℕ → A) (i : ℕ) (x : A) (k : ℕ) → k ≢ i → update a i x k ≡ a k
  at_other a i x k h = ground arith

  pub no_value : {x : A} → none ≢ some x
  no_value e = ground arith

  pub some_inj : {x y : A} → some x ≡ some y → x ≡ y
  some_inj e = cc

module _ {hash : Hash} {fns : Functions} where
  -- Each name in the table has an event type, under a number that is given out, and each event type
  -- is in the table, by its name, under its number.
  pub record IsValid (r : Registry hash fns) : Type 0 where
    pub named :
        (a : hash.Name) (k : ℕ)
        → hash.find a r.types ≡ some k
        → (k ≤ r.event_num) × (e : EventType hash fns) × (r.event_tab k ≡ some e) × (e.name ≡ a)
    pub held :
        (k : ℕ) (e : EventType hash fns)
        → r.event_tab k ≡ some e
        → (e.num ≡ k) × (hash.find e.name r.types ≡ some k)

  pub event_init-IsValid : IsValid event_init
  unfolding event_init
  event_init-IsValid = record {
    named = λ a k e. absurd (no_value (sym (hash.find-new a) ∙ e));
    held = λ k x e. absurd (no_value e);
  }

  new_type-IsValid :
      (name : hash.Name) (af : Option fns.Alloc) (sf : Option fns.Serialize)
      (df : Option fns.Deserialize) (fmt : Option ℕ) (r : Registry hash fns)
      → hash.find name r.types ≡ none
      → IsValid r
      → IsValid ((new_type name af sf df fmt r).0)
  unfolding new_type
  new_type-IsValid name af sf df fmt r free v = record { named = named; held = held }
    where
      num : ℕ
      num = r.event_num + 1

      e0 : EventType hash fns
      e0 = record {
        name = name;
        num = num;
        alloc = af;
        serialize = sf;
        deserialize = df;
        format = fmt;
      }

      named :
          (a : hash.Name) (k : ℕ)
          → hash.find a (hash.replace name num r.types) ≡ some k
          → (k ≤ num)
            × (e : EventType hash fns) × (update r.event_tab num (some e0) k ≡ some e)
            × (e.name ≡ a)
      named a k q = elim (hash.same a name) [
        | yes p ↦
            let k_num : num ≡ k = some_inj (
              sym (hash.find-replace name num r.types)
              ∙ ap (λ y. hash.find y (hash.replace name num r.types)) (sym p)
              ∙ q) in
            rw (sym k_num) (omega arith, e0, at_same r.event_tab num (some e0), sym p)
        | no n ↦
            let old = v.named a k (sym (hash.find-replace_other name a num r.types n) ∙ q) in
            (
              omega (arith, old.0),
              old.1,
              at_other r.event_tab num (some e0) k (λ x. omega (arith, old.0)) ∙ old.2,
              old.3,
            )
      ]

      held :
          (k : ℕ) (e : EventType hash fns)
          → update r.event_tab num (some e0) k ≡ some e
          → (e.num ≡ k) × (hash.find e.name (hash.replace name num r.types) ≡ some k)
      held k e q = elim (ℕ_discrete k num) [
        | yes p ↦
            let same : e0 ≡ e = some_inj (
              sym (at_same r.event_tab num (some e0))
              ∙ ap (update r.event_tab num (some e0)) (sym p)
              ∙ q) in
            subst (λ x. (x.num ≡ k) × (hash.find x.name (hash.replace name num r.types) ≡ some k))
              same (sym p, hash.find-replace name num r.types ∙ ap some (sym p))
        | no n ↦
            let old = v.held k e (sym (at_other r.event_tab num (some e0) k n) ∙ q) in
            let other : e.name ≢ name =
              λ x. no_value (sym free ∙ ap (λ y. hash.find y r.types) (sym x) ∙ old.1) in
            (old.0, hash.find-replace_other name e.name num r.types other ∙ old.1)
      ]

  -- An event type whose name and number stay.
  refill-IsValid :
      (k : ℕ) (r : Registry hash fns) (e e' : EventType hash fns)
      → r.event_tab k ≡ some e
      → e'.name ≡ e.name
      → e'.num ≡ e.num
      → IsValid r
      → IsValid (record r { event_tab = update r.event_tab k (some e') })
  refill-IsValid k r e e' q nn mm v = record { named = named; held = held }
    where
      keeps : (a : hash.Name) (i : ℕ) → hash.find a r.types ≡ some i → i ≡ k → e.name ≡ a
      keeps a i h p =
          let old = v.named a i h in
          let same : e ≡ old.1 = some_inj (sym q ∙ ap r.event_tab (sym p) ∙ old.2) in
          ap (λ y. y.name) same ∙ old.3

      named :
          (a : hash.Name) (i : ℕ)
          → hash.find a r.types ≡ some i
          → (i ≤ r.event_num)
            × (x : EventType hash fns) × (update r.event_tab k (some e') i ≡ some x)
            × (x.name ≡ a)
      named a i h = elim (ℕ_discrete i k) [
        | yes p ↦ (
          (v.named a i h).0,
          e',
          ap (update r.event_tab k (some e')) p ∙ at_same r.event_tab k (some e'),
          nn ∙ keeps a i h p,
        )
        | no n ↦
            let old = v.named a i h in
            (old.0, old.1, at_other r.event_tab k (some e') i n ∙ old.2, old.3)
      ]

      held :
          (i : ℕ) (x : EventType hash fns)
          → update r.event_tab k (some e') i ≡ some x
          → (x.num ≡ i) × (hash.find x.name r.types ≡ some i)
      held i x h = elim (ℕ_discrete i k) [
        | yes p ↦
            let same : e' ≡ x = some_inj (
              sym (at_same r.event_tab k (some e'))
              ∙ ap (update r.event_tab k (some e')) (sym p)
              ∙ h) in
            let old = v.held k e q in
            subst (λ y. (y.num ≡ i) × (hash.find y.name r.types ≡ some i)) same
              (mm ∙ old.0 ∙ sym p, ap (λ y. hash.find y r.types) nn ∙ old.1 ∙ ap some (sym p))
        | no n ↦ v.held i x (sym (at_other r.event_tab k (some e') i n) ∙ h)
      ]

  either_IsValid :
      (b : Bool) (x y : Registry hash fns × ℤ)
      → IsValid x.0
      → IsValid y.0
      → IsValid ((if b then x else y).0)
  either_IsValid true x y p q = p
  either_IsValid false x y p q = q

  fill_in-IsValid :
      (k : ℕ) (af : Option fns.Alloc) (sf : Option fns.Serialize) (df : Option fns.Deserialize)
      (fmt : Option ℕ) (r : Registry hash fns) (x : Option (EventType hash fns))
      → r.event_tab k ≡ x
      → IsValid r
      → IsValid ((fill_in k af sf df fmt r x).0)
  unfolding fill_in
  fill_in-IsValid k af sf df fmt r none q v = v
  fill_in-IsValid k af sf df fmt r (some e) q v =
      either_IsValid (is_some e.alloc) _ _ v (refill-IsValid k r e _ q refl refl v)

  enter-IsValid :
      (name : hash.Name) (af : Option fns.Alloc) (sf : Option fns.Serialize)
      (df : Option fns.Deserialize) (fmt : Option ℕ) (r : Registry hash fns) (found : Option ℕ)
      → hash.find name r.types ≡ found
      → IsValid r
      → IsValid ((enter name af sf df fmt r found).0)
  unfolding enter
  enter-IsValid name af sf df fmt r none q v = new_type-IsValid name af sf df fmt r q v
  enter-IsValid name af sf df fmt r (some k) q v =
      fill_in-IsValid k af sf df fmt r (r.event_tab k) refl v

  pub reg_event-IsValid :
      (name : hash.Name) (af : Option fns.Alloc) (sf : Option fns.Serialize)
      (df : Option fns.Deserialize) (fmt : Option ℕ) (r : Registry hash fns)
      → IsValid r
      → IsValid ((reg_event name af sf df fmt r).0)
  unfolding reg_event
  reg_event-IsValid name none sf df fmt r v = enter-IsValid name _ _ _ fmt r _ refl v
  reg_event-IsValid name (some af) sf df fmt r v = enter-IsValid name _ sf df fmt r _ refl v

  pub get_event-IsValid :
      (name : hash.Name) (r : Registry hash fns) → IsValid r → IsValid ((get_event name r).0)
  unfolding get_event known
  get_event-IsValid name r v = go (hash.find name r.types) refl
    where
      go : (found : Option ℕ) → hash.find name r.types ≡ found → IsValid ((known name r found).0)
      go none q = new_type-IsValid name none none none none r q v
      go (some k) q = v

  pub del_event-IsValid :
      (name : hash.Name) (r : Registry hash fns) → IsValid r → IsValid (del_event name r)
  unfolding del_event
  del_event-IsValid name r v = go (hash.find name r.types) refl
    where
      go : (found : Option ℕ) → hash.find name r.types ≡ found → IsValid (drop name r found)
      go none q = v
      go (some k) q = record { named = named; held = held }
        where
          named :
              (a : hash.Name) (i : ℕ)
              → hash.find a (hash.delete name r.types) ≡ some i
              → (i ≤ r.event_num)
                × (x : EventType hash fns) × (update r.event_tab k none i ≡ some x)
                × (x.name ≡ a)
          named a i h = elim (hash.same a name) [
            | yes p ↦ absurd (
                no_value (
                  sym (hash.find-delete name r.types)
                  ∙ ap (λ y. hash.find y (hash.delete name r.types)) (sym p)
                  ∙ h))
            | no n ↦
                let old = v.named a i (sym (hash.find-delete_other name a r.types n) ∙ h) in
                let mine = v.named name k q in
                let apart : i ≢ k = λ p. n (
                  sym old.3
                  ∙ ap (λ y. y.name) (some_inj (sym old.2 ∙ ap r.event_tab p ∙ mine.2))
                  ∙ mine.3) in
                (old.0, old.1, at_other r.event_tab k none i apart ∙ old.2, old.3)
          ]

          held :
              (i : ℕ) (x : EventType hash fns)
              → update r.event_tab k none i ≡ some x
              → (x.num ≡ i) × (hash.find x.name (hash.delete name r.types) ≡ some i)
          held i x h = elim (ℕ_discrete i k) [
            | yes p ↦ absurd (
                no_value
                  (sym (at_same r.event_tab k none) ∙ ap (update r.event_tab k none) (sym p) ∙ h))
            | no n ↦
                let old = v.held i x (sym (at_other r.event_tab k none i n) ∙ h) in
                let other : x.name ≢ name =
                  λ p. n (some_inj (sym old.1 ∙ ap (λ y. hash.find y r.types) p ∙ q)) in
                (old.0, hash.find-delete_other name x.name r.types other ∙ old.1)
          ]
