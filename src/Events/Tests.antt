-- ===== src/Events/Tests.antt =====
-- A registry whose names are numbers, and the theorems at it.
use tcvp.Prelude.{
  ℕ, ◌≡◌, ◌≢◌, refl, arith, false, List, [], ◌∷◌, Option, none, some, ◌==◌, if◌then◌else◌,
  ℕ_discrete, ◌+◌, update,
}
use tcvp.Prelude.Int.{ℤ, pos, negsuc}
use tcvp.Events.Registry.{
  Hash, Functions, Registry, event_init, reg_event, enter, new_type, serializer, deserializer,
  type_of, get_event, sender, get_format,
}
use tcvp.Events.Valid.{IsValid, event_init-IsValid, reg_event-IsValid}
use tcvp.Events.Names.{
  names_apart, reg_event_lem, deserializer-serializer, reg_call, call_all, call,
}
use tcvp.Events.Loop.{Event, event_loop, event_loop_lem, Handles}

abbrev Number : Type 0
Number = ℕ → Option ℕ

abbrev put : ℕ → Option ℕ → Number → Number
put a x t b = if b == a then x else t b

put_same : (a : ℕ) (x : Option ℕ) (t : Number) → put a x t a ≡ x
put_same a x t = ground arith

put_other : (a b : ℕ) (x : Option ℕ) (t : Number) → b ≢ a → put a x t b ≡ t b
put_other a b x t n = ground arith

abbrev numbers : Hash
numbers = record {
  Name = ℕ;
  same = ℕ_discrete;
  Table = Number;
  new = λ a. none;
  find = λ a t. t a;
  replace = λ a x t. put a (some x) t;
  delete = λ a t. put a none t;
  find-new = λ a. refl;
  find-replace = λ a x t. put_same a (some x) t;
  find-replace_other = λ a b x t n. put_other a b (some x) t n;
  find-delete = λ a t. put_same a none t;
  find-delete_other = λ a b t n. put_other a b none t n;
}

abbrev plain : Functions
plain = record {
  Alloc = ℕ;
  Serialize = ℕ;
  Deserialize = ℕ;
  evt_alloc = 1;
  evt_serialize = 2;
  evt_deserialize = 3;
}

abbrev one_event : Registry numbers plain
one_event = record {
  types = put 50 (some 1) (λ a. none);
  event_tab =
      update (λ k. none) 1
        (some (record {
          name = 50;
          num = 1;
          alloc = some 1;
          serialize = some 2;
          deserialize = some 3;
          format = none;
        }));
  event_num = 1;
}

names_apart_example : ◌≡◌ {A = ℕ} 50 50
unfolding event_init call_all call reg_event enter new_type
names_apart_example =
    names_apart {hash = numbers} {fns = plain} (reg_call 50 none none none none ∷ []) 50 50 1 refl
      refl

reg_event_lem_example :
    (get_event {hash = numbers} {fns = plain} 50 one_event ≡ (one_event, 1, false))
    × (sender 1 one_event ≡ some 1)
    × (get_format 1 one_event ≡ none)
    × (reg_event 50 none none none none one_event ≡ (one_event, negsuc 0))
unfolding event_init reg_event enter new_type
reg_event_lem_example =
    reg_event_lem {hash = numbers} {fns = plain} 50 none none none none event_init one_event 1
      event_init-IsValid refl

one_event-IsValid : IsValid one_event
unfolding event_init reg_event enter new_type
one_event-IsValid =
    reg_event-IsValid {hash = numbers} {fns = plain} 50 none none none none event_init
      event_init-IsValid

deserializer-serializer_example : deserializer 50 one_event ≡ some (3, 1)
unfolding serializer type_of
deserializer-serializer_example = deserializer-serializer one_event 1 2 50 one_event-IsValid refl

abbrev event : ℤ → ℕ → Event ℕ
event k b = record { kind = k; body = b }

abbrev adder : List (ℤ × (Event ℕ → ℕ → ℕ))
adder = (pos 1, λ te d. d + te.body) ∷ (pos 1, λ te d. 0) ∷ []

event_loop_lem_example :
    (d : ℕ) × Handles adder 10 (event (pos 1) 5 ∷ event (pos 2) 7 ∷ event (negsuc 0) 0 ∷ []) d
    × (event_loop adder
          (event (pos 1) 5 ∷ event (pos 2) 7 ∷ event (negsuc 0) 0 ∷ event (pos 1) 9 ∷ [])
          10
        ≡ some (d, event (pos 1) 9 ∷ []))
event_loop_lem_example =
    event_loop_lem adder (event (pos 1) 5 ∷ event (pos 2) 7 ∷ []) (event (pos 1) 9 ∷ [])
      (event (negsuc 0) 0) 10 (refl, (refl, tt)) refl
