-- ===== src/Playlist/State.antt =====
-- The state of a playlist (`tcvp_playlist_t`) and what its handlers send.
use Prim.Native.Nat.{bit_and}
use tcvp.Prelude.{
  ℕ, ◌<◌, ◌≤◌, ◌≡◌, ◌≢◌, Bool, not, ◌&&◌, List, Option, none, some, ltb, ◌==◌, if◌then◌else◌,
  IsOrder,
}
use tcvp.Prelude.Int.{ℤ, pos, negsuc, pos_part}

-- A file name, as its bytes without the closing zero.
abbrev pub Name : Type 0
Name = List ℕ

-- TCVP_PL_STATE_*
pub data PlayState : Type 0 where
  playing stopped end : PlayState

-- `files` and `order` are heap arrays with room for `af` elements, of which `nf` are in use. An
-- element that was never written is `none`. `now` counts the readings of the clock, by which
-- `rand` is seeded.
pub record Playlist : Type 0 where
  pub files : ℕ → Option Name
  pub order : ℕ → ℕ
  pub nf : ℕ
  pub af : ℕ
  pub state : PlayState
  pub cur : ℤ
  pub flags : ℕ
  pub now : ℕ

-- What is sent on the queues `sc` and `ss`.
pub data Out : Type 0 where
  pl_state : ℤ → PlayState → ℕ → Out
  pl_content : List (Option Name) → Out
  close : Out
  open_file : Name → Out
  start_play : Out
  load : Name → Out

pub data Magic : Type 0 where
  unknown playlist_file media : Magic

-- What the code takes from elsewhere: the results of `rand` after seeding it at a clock reading,
-- the type and the lines of a file, whether a stream can be opened, and an option.
pub record Env : Type 0 where
  pub rand : ℕ → ℕ → ℕ
  pub magic : Name → Magic
  pub lines : Name → Option (List Name)
  pub opens : Name → Bool
  pub stop_on_error : Bool

-- `none` is an access outside an array, or the use of an element that was never written.
abbrev pub Outcome : Type 0
Outcome = Option (Playlist × List Out)

infixl 5 ◌>>=◌
abbrev pub ◌>>=◌ {ℓ κ} : {A : Type ℓ} {B : Type κ} → Option A → (A → Option B) → Option B
none >>= f = none
some a >>= f = f a

-- TCVP_PL_FLAG_*
abbrev pub shuffle : ℕ
shuffle = 1

abbrev pub repeat : ℕ
repeat = 2

abbrev pub list_repeat : ℕ
list_repeat = 4

-- `flags & flag`
abbrev pub has : ℕ → ℕ → Bool
has flags flag = not (bit_and flags flag == 0)

abbrev pub is_playing : PlayState → Bool
is_playing playing = Bool.true
is_playing _ = Bool.false

abbrev pub is_end : PlayState → Bool
is_end end = Bool.true
is_end _ = Bool.false

-- `tpl->files[tpl->order[tpl->cur]]`
unfoldable pub fetch : Playlist → Option Name
fetch p = elim p.cur [
  | negsuc _ ↦ none
  | pos c ↦ if ltb c p.nf && ltb (p.order c) p.nf then p.files (p.order c) else none
]

-- `pl_new`
abbrev pub new_playlist : Playlist
new_playlist = record {
  files = λ k. none;
  order = λ k. 0;
  nf = 0;
  af = 16;
  state = stopped;
  cur = pos 0;
  flags = 0;
  now = 0;
}

-- Every entry has a name, the play order holds each index once, and the current position is an
-- index of the order or its end. Without SHUFFLE the order is that of the entries.
pub record IsValid (p : Playlist) : Type 0 where
  pub room : p.nf ≤ p.af
  pub named : (k : ℕ) → k < p.nf → p.files k ≢ none
  pub ordered : IsOrder p.order p.nf
  pub cur_pos : p.cur ≡ pos (pos_part p.cur)
  pub cur_in : pos_part p.cur ≤ p.nf
  pub plain : has p.flags shuffle ≡ Bool.false → (k : ℕ) → k < p.nf → p.order k ≡ k
