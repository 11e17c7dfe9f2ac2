-- ===== src/Player/Content.antt =====
-- The packets of a stream: those that its pipe was given, and those that still wait.
use mathlib.Core.List.{append_assoc, Sublist, nil-sublist, sublist-append_left}
use mathlib.Core.List.Sublist as Sublist
use tcvp.Prelude.{ℕ, ◌≡◌, refl, ap, Option, none, some, ◌==◌, if◌then◌else◌, List, [], ◌∷◌, ◌++◌}
use tcvp.Player.State.{Packet, Player, Outcome, undefined_behaviour, done}
use tcvp.Player.Channel.{
  Channel, Moves, stays, puts_null, takes, takes_null, clears, closes, opens, tells, channel, Acts,
}

-- The packets of a list, without the NULL packets.
unfoldable pub data_of : List (Option Packet) → List Packet
data_of [] = []
data_of (none ∷ l) = data_of l
data_of (some pk ∷ l) = pk ∷ data_of l

abbrev pub waiting_of : Option (List (Option Packet)) → List Packet
waiting_of none = []
waiting_of (some l) = data_of l

-- What the pipe of the stream was given, and then what waits in the list.
abbrev pub content : Channel → List Packet
content c = data_of c.1 ++ waiting_of c.0

pub data_of-one :
    (l : List (Option Packet)) (pk : Packet)
    → data_of (l ++ (some pk ∷ [])) ≡ data_of l ++ (pk ∷ [])
unfolding data_of
data_of-one [] pk = refl
data_of-one (none ∷ l) pk = data_of-one l pk
data_of-one (some x ∷ l) pk = ap (λ (k : List Packet). x ∷ k) (data_of-one l pk)

data_of-null : (l : List (Option Packet)) → data_of (l ++ (none ∷ [])) ≡ data_of l
unfolding data_of
data_of-null [] = refl
data_of-null (none ∷ l) = data_of-null l
data_of-null (some x ∷ l) = ap (λ (k : List Packet). x ∷ k) (data_of-null l)

-- What a channel does by itself brings no packet, and keeps those that remain in their order.
pub Moves-Sublist : {c d : Channel} → Moves c d → Sublist (content d) (content c)
unfolding data_of
Moves-Sublist {c = c} stays = Sublist.refl (content c)
Moves-Sublist (puts_null {l = l} g) = rw (data_of-null l) (Moves-Sublist g)
Moves-Sublist (takes {l = l} {o = o} pk g) =
    rw (data_of-one o pk, append_assoc (data_of o) (pk ∷ []) (data_of l)) (Moves-Sublist g)
Moves-Sublist (takes_null g) = Moves-Sublist g
Moves-Sublist (clears {l = l} {o = o} g) =
    Sublist.trans (Sublist.append (Sublist.refl (data_of o)) (nil-sublist (data_of l)))
      (Moves-Sublist g)
Moves-Sublist (closes {q = q} {o = o} g) =
    Sublist.trans (Sublist.append (Sublist.refl (data_of o)) (nil-sublist (waiting_of q)))
      (Moves-Sublist g)
Moves-Sublist (opens g) = Moves-Sublist g
Moves-Sublist (tells {o = o} g) = rw (data_of-null o) (Moves-Sublist g)

-- What a packet for the stream `s` is to the stream `i`.
abbrev pub came : ℕ → ℕ → Packet → List Packet
came i s pk = if i == s then pk ∷ [] else []

-- From one player to the next at most the packet `pk` comes to the stream `s`, behind all others.
abbrev pub Reads : ℕ → Packet → Player → Player → Type 0
Reads s pk p q = (i : ℕ) → Sublist (content (channel i q)) (content (channel i p) ++ came i s pk)

module _ (s : ℕ) (pk : Packet) where
  pub Acts-Reads : (p q : Player) → Acts p q → Reads s pk p q
  Acts-Reads p q f i =
      Sublist.trans (Moves-Sublist (f i))
        (sublist-append_left (content (channel i p)) (came i s pk))

  pub Reads-trans : (p q r : Player) → Acts p q → Reads s pk q r → Reads s pk p r
  Reads-trans p q r f g i =
      Sublist.trans (g i) (Sublist.append (Moves-Sublist (f i)) (Sublist.refl (came i s pk)))

  abbrev pub ReadsTo : Player → Outcome Player → Type 0
  ReadsTo p undefined_behaviour = Unit
  ReadsTo p (done q) = Reads s pk p q

  pub ReadsTo-trans : (p q : Player) (r : Outcome Player) → Acts p q → ReadsTo q r → ReadsTo p r
  ReadsTo-trans p q undefined_behaviour f g = _
  ReadsTo-trans p q (done r) f g = Reads-trans p q r f g
