-- ===== src/Player/Channel.antt =====
-- A stream as a channel: the packets that wait, and those that its pipe was given.
use mathlib.Core.Path.{subst}
use mathlib.Core.List.{append_assoc, append-nil}
use tcvp.Prelude.{
  ℕ, ◌≡◌, ap, sym, ◌∙◌, arith, Bool, true, false, Option, none, some, ◌==◌, if◌then◌else◌,
  Bool-cases, inl, inr, List, [], ◌∷◌, ◌++◌,
}
use tcvp.Player.State.{
  Packet, SpStream, Player, Effect, state_end, state_error, load, timer_reset, timer_start,
  timer_stop, started, stopped, flushed, fed, note, note_if, set_stream,
}

abbrev pub Channel : Type 0
Channel = Option (List (Option Packet)) × List (Option Packet)

-- What a channel may do where no packet is read for it: one is taken from the start of the list to the
-- pipe; a NULL packet is put at the end, and goes nowhere when it is taken; the list may be cleared,
-- destroyed, and made anew; the pipe may be told that the stream ends.
pub data Moves (c : Channel) : Channel → Type 0 where
  stays : Moves c c
  puts_null :
      {l : List (Option Packet)} {o : List (Option Packet)}
      → Moves c (some l, o)
      → Moves c (some (l ++ (none ∷ [])), o)
  takes :
      {l : List (Option Packet)} {o : List (Option Packet)} (pk : Packet)
      → Moves c (some (some pk ∷ l), o)
      → Moves c (some l, o ++ (some pk ∷ []))
  takes_null :
      {l : List (Option Packet)} {o : List (Option Packet)}
      → Moves c (some (none ∷ l), o)
      → Moves c (some l, o)
  clears :
      {l : List (Option Packet)} {o : List (Option Packet)}
      → Moves c (some l, o)
      → Moves c (some [], o)
  closes :
      {q : Option (List (Option Packet))} {o : List (Option Packet)}
      → Moves c (q, o)
      → Moves c (none, o)
  opens : {o : List (Option Packet)} → Moves c (none, o) → Moves c (some [], o)
  tells :
      {q : Option (List (Option Packet))} {o : List (Option Packet)}
      → Moves c (q, o)
      → Moves c (q, o ++ (none ∷ []))

Moves-trans : {a b c : Channel} → Moves a b → Moves b c → Moves a c
Moves-trans f stays = f
Moves-trans f (puts_null g) = puts_null (Moves-trans f g)
Moves-trans f (takes pk g) = takes pk (Moves-trans f g)
Moves-trans f (takes_null g) = takes_null (Moves-trans f g)
Moves-trans f (clears g) = clears (Moves-trans f g)
Moves-trans f (closes g) = closes (Moves-trans f g)
Moves-trans f (opens g) = opens (Moves-trans f g)
Moves-trans f (tells g) = tells (Moves-trans f g)

-- What an effect gives to the pipe of a stream.
abbrev pub fed_by : ℕ → Effect → List (Option Packet)
fed_by i (fed s pk) = if i == s then pk ∷ [] else []
fed_by i state_end = []
fed_by i state_error = []
fed_by i load = []
fed_by i (timer_reset t) = []
fed_by i timer_start = []
fed_by i timer_stop = []
fed_by i (started s) = []
fed_by i (stopped s) = []
fed_by i (flushed s drop) = []

unfoldable pub fed_to : ℕ → List Effect → List (Option Packet)
fed_to i [] = []
fed_to i (e ∷ log) = fed_by i e ++ fed_to i log

pub fed_to-append :
    (i : ℕ) (log : List Effect) (e : Effect)
    → fed_to i (log ++ (e ∷ [])) ≡ fed_to i log ++ fed_by i e
unfolding fed_to
fed_to-append i [] e = append-nil (fed_by i e)
fed_to-append i (d ∷ log) e =
    ap (λ (x : List (Option Packet)). fed_by i d ++ x) (fed_to-append i log e)
    ∙ sym (append_assoc (fed_by i d) (fed_to i log) (fed_by i e))

abbrev pub channel : ℕ → Player → Channel
channel i p = ((p.streams i).packets, fed_to i p.log)

-- Every stream is a channel from one player to the next.
abbrev pub Acts : Player → Player → Type 0
Acts p q = (i : ℕ) → Moves (channel i p) (channel i q)

pub Acts-refl : (p : Player) → Acts p p
Acts-refl p i = stays

pub Acts-trans : (p q r : Player) → Acts p q → Acts q r → Acts p r
Acts-trans p q r f g i = Moves-trans (f i) (g i)

-- The list of one stream changes.
pub set_stream-Acts :
    (p : Player) (s : ℕ) (str : SpStream)
    → ((o : List (Option Packet)) → Moves ((p.streams s).packets, o) (str.packets, o))
    → Acts p (set_stream s str p)
set_stream-Acts p s str h i = elim (Bool-cases (i == s)) [
  | inl e ↦
      let q : s ≡ i = ground (arith, e) in
      let here : Moves ((p.streams i).packets, fed_to i p.log) (str.packets, fed_to i p.log) =
        subst
          (λ (k : ℕ). Moves ((p.streams k).packets, fed_to i p.log) (str.packets, fed_to i p.log)) q
          (h (fed_to i p.log)) in
      rw e here
  | inr e ↦ rw e stays
]

-- Nothing is given to a pipe.
pub note-Acts : (p : Player) (e : Effect) → ((i : ℕ) → fed_by i e ≡ []) → Acts p (note e p)
note-Acts p e quiet i =
    let same : fed_to i (p.log ++ (e ∷ [])) ≡ fed_to i p.log =
      fed_to-append i p.log e
      ∙ ap (λ (x : List (Option Packet)). fed_to i p.log ++ x) (quiet i)
      ∙ append-nil (fed_to i p.log) in
    rw same stays

pub note_if-Acts :
    (b : Bool) (p : Player) (e : Effect) → ((i : ℕ) → fed_by i e ≡ []) → Acts p (note_if b e p)
note_if-Acts true p e quiet = note-Acts p e quiet
note_if-Acts false p e quiet = Acts-refl p

-- The end of a stream.
pub fed-Acts : (p : Player) (s : ℕ) → Acts p (note (fed s none) p)
fed-Acts p s i = rw (fed_to-append i p.log (fed s none)) (elim (Bool-cases (i == s)) [
  | inl e ↦ rw e (tells stays)
  | inr e ↦ rw (e, append-nil (fed_to i p.log)) stays
])
