-- ===== src/Events/Loop.antt =====
-- `event_loop`: the thread that receives events and calls their handlers.
use tcvp.Prelude.{
  ◌≡◌, refl, ap, arith, true, Bool-cases, inl, inr, Bool, false, List, [], ◌∷◌, ◌++◌, Option, none,
  some, All, if◌then◌else◌, ◌==◌,
}
use mathlib.Core.Path.{subst}
use mathlib.Core.List.{append_assoc}
use tcvp.Prelude.Int.{ℤ, pos, negsuc}

-- A received event, with its type first; the structure comes from a file that the build generates.
pub record Event (A : Type 0) : Type 0 where
  pub kind : ℤ
  pub body : A

abbrev pub same_kind : ℤ → ℤ → Bool
same_kind (pos a) (pos b) = a == b
same_kind (negsuc a) (negsuc b) = a == b
same_kind (pos a) (negsuc b) = false
same_kind (negsuc a) (pos b) = false

same_kind-≡ : (a b : ℤ) → same_kind a b ≡ true → a ≡ b
same_kind-≡ (pos a) (pos b) e = let q : a ≡ b = ground (arith, e) in ap pos q
same_kind-≡ (negsuc a) (negsuc b) e = let q : a ≡ b = ground (arith, e) in ap negsuc q
same_kind-≡ (pos a) (negsuc b) e = ground (arith, e)
same_kind-≡ (negsuc a) (pos b) e = ground (arith, e)

module _ {A D : Type 0} where
  -- The first handler of the event's type.
  unfoldable pub dispatch : List (ℤ × (Event A → D → D)) → Event A → D → D
  dispatch [] te d = d
  dispatch ((kind, h) ∷ hs) te d =
      let rest = dispatch hs te d in if same_kind kind te.kind then h te d else rest

  -- The loop over the events that are received: the data, and the events left in the queue when the
  -- loop ends; `none` if it is still waiting when they are used up.
  unfoldable pub event_loop :
      List (ℤ × (Event A → D → D)) → List (Event A) → D → Option (D × List (Event A))
  unfolding dispatch
  event_loop hs [] d = none
  event_loop hs (te ∷ tes) d =
      let d' = dispatch hs te d in
      let rest = event_loop hs tes d' in
      if same_kind te.kind (negsuc 0) then some (d', tes) else rest

  abbrev Others : Event A → List (ℤ × (Event A → D → D)) → Type 0
  Others te = All (λ h. same_kind h.0 te.kind ≡ false)

  -- What an event may do to the data: nothing, where no handler is for its type, and else what the
  -- first of the handlers for its type does.
  pub data Calls (hs : List (ℤ × (Event A → D → D))) (te : Event A) (d : D) : D → Type 0 where
    nobody : Others te hs → Calls hs te d d
    first :
        (before after : List (ℤ × (Event A → D → D))) (h : Event A → D → D)
        → hs ≡ before ++ ((te.kind, h) ∷ after)
        → Others te before
        → Calls hs te d (h te d)

  -- The events of a list, one after the other.
  pub data Handles (hs : List (ℤ × (Event A → D → D))) (d : D) : List (Event A) → D → Type 0 where
    none_yet : Handles hs d [] d
    then_one :
        {tes : List (Event A)} {d1 d2 : D} (te : Event A)
        → Handles hs d tes d1
        → Calls hs te d1 d2
        → Handles hs d (tes ++ (te ∷ [])) d2

  later :
      (k : ℤ × (Event A → D → D)) (hs : List (ℤ × (Event A → D → D))) (te : Event A) (d d' : D)
      → same_kind k.0 te.kind ≡ false
      → Calls hs te d d'
      → Calls (k ∷ hs) te d d'
  later k hs te d d' e (nobody o) = nobody (e, o)
  later k hs te d d' e (first before after h q o) =
      first (k ∷ before) after h (ap (λ l. k ∷ l) q) (e, o)

  dispatch-Calls :
      (hs : List (ℤ × (Event A → D → D))) (te : Event A) (d : D) → Calls hs te d (dispatch hs te d)
  unfolding dispatch
  dispatch-Calls [] te d = nobody tt
  dispatch-Calls ((k, h) ∷ hs) te d = elim (Bool-cases (same_kind k te.kind)) [
    | inl e ↦ rw e (first [] hs h (ap (λ i. (i, h) ∷ hs) (same_kind-≡ k te.kind e)) tt)
    | inr e ↦ rw e (later (k, h) hs te d (dispatch hs te d) e (dispatch-Calls hs te d))
  ]

  handled_from :
      (hs : List (ℤ × (Event A → D → D))) (before tes rest : List (Event A)) (last : Event A)
      (d d1 : D)
      → All (λ te. same_kind te.kind (negsuc 0) ≡ false) tes
      → last.kind ≡ negsuc 0
      → Handles hs d before d1
      → (d2 : D) × Handles hs d (before ++ (tes ++ (last ∷ []))) d2
        × (event_loop hs (tes ++ (last ∷ rest)) d1 ≡ some (d2, rest))
  unfolding event_loop
  handled_from hs before [] rest last d d1 h e g =
      (dispatch hs last d1, then_one last g (dispatch-Calls hs last d1), rw e refl)
  handled_from hs before (te ∷ tes) rest last d d1 h e g =
      let d2 = dispatch hs te d1 in
      let (d3, all, loop) =
        handled_from hs (before ++ (te ∷ [])) tes rest last d d2 h.1 e
          (then_one te g (dispatch-Calls hs te d1)) in
      (
        d3,
        subst (λ l. Handles hs d l d3) (append_assoc before (te ∷ []) (tes ++ (last ∷ []))) all,
        rw h.0 loop,
      )

  -- The loop ends after the first event of the type -1, with what follows left in the queue; each
  -- event up to this one, this one too, was handed, in the order in which they come, to the first of
  -- the handlers for its type, and to none where there is none.
  pub event_loop_lem :
      (hs : List (ℤ × (Event A → D → D))) (tes rest : List (Event A)) (last : Event A) (d : D)
      → All (λ te. same_kind te.kind (negsuc 0) ≡ false) tes
      → last.kind ≡ negsuc 0
      → (d2 : D) × Handles hs d (tes ++ (last ∷ [])) d2
        × (event_loop hs (tes ++ (last ∷ rest)) d ≡ some (d2, rest))
  event_loop_lem hs tes rest last d h e = handled_from hs [] tes rest last d d h e none_yet
