-- ===== src/Player/Added.antt =====
-- What add_stream does to the channels, and s_play with it.

use tcvp.Prelude.{
  leb, ◌&&◌, ◌||◌, not, ℕ, zero, suc, Bool, true, false, not, ◌&&◌, ◌||◌, ltb, leb, Option, none,
  some, ◌==◌, update,
}
use tcvp.Player.State.{Shared, Player, Env, zeroed, Outcome, undefined_behaviour, done}
use tcvp.Player.Streams.{
  any_thread, del_stream, add_stream, open_stream, fresh_stream, grow_arrays, with_number,
  use_stream,
}
use tcvp.Player.Control.{s_play, empty_player, keep_added, add_next, add_streams, counted_outcome}
use tcvp.Player.Invariant.{if-has}
use tcvp.Player.Channel.{stays, closes, opens, Acts, Acts-refl, Acts-trans, set_stream-Acts}
use tcvp.Player.Channels.{del_stream-Acts}

abbrev pub AddActsTo : Player → Outcome (Player × Bool) → Type 0
AddActsTo p undefined_behaviour = Unit
AddActsTo p (done r) = Acts p r.0

module _ (env : Env) (s : ℕ) where
  grow_arrays-Acts : (p : Player) → Acts p (grow_arrays s p)
  grow_arrays-Acts p =
      if-has (Acts p) (leb p.nstreams s)
        (record p { streams = update p.streams s zeroed; nstreams = suc s }) p
        (λ e. set_stream-Acts p s zeroed (λ o. closes stays)) (λ e. Acts-refl p)

  open_stream-Acts : (sid : ℕ) (p : Player) → Acts p (open_stream env sid s p).0
  open_stream-Acts sid p =
      if-has (λ (r : Player × Bool). Acts p r.0) (use_stream env p.shared sid s) _ _
        (λ u.
          if-has (λ (r : Player × Bool). Acts p r.0) (env.opens sid) _ _
            (λ o. set_stream-Acts p s (fresh_stream (p.streams s)) (λ o. opens (closes stays)))
            (λ o. Acts-refl p))
        (λ u. Acts-refl p)

  pub add_stream-ActsTo : (p : Player) → AddActsTo p (add_stream env s p)
  unfolding add_stream
  add_stream-ActsTo p =
      let q = with_number s (grow_arrays s p) in
      if-has (AddActsTo p)
        (ltb p.nstreams s
          || (leb p.nstreams s && any_thread p.streams p.nstreams)
          || not (ltb s 64))
        undefined_behaviour (done (open_stream env p.shared.sid s q)) (λ e. _)
        (λ e.
          Acts-trans p q (open_stream env p.shared.sid s q).0 (grow_arrays-Acts p)
            (open_stream-Acts p.shared.sid q))

abbrev ActsTo : Player → Outcome Player → Type 0
ActsTo p undefined_behaviour = Unit
ActsTo p (done q) = Acts p q

-- The player that is made, if there is one.
abbrev pub MadeActs : Player → Outcome (Option Player) → Type 0
MadeActs p undefined_behaviour = Unit
MadeActs p (done none) = Unit
MadeActs p (done (some q)) = Acts p q

counted-MadeActs : (p : Player) (r : Outcome Player) → ActsTo p r → MadeActs p (counted_outcome r)
counted-MadeActs p undefined_behaviour f = _
counted-MadeActs p (done q) f =
    if-has (λ (x : Option Player). MadeActs p (done x)) (q.pstreams == 0) none _ (λ e. _) (λ e. f)

module _ (env : Env) where
  keep_added-ActsTo :
      (i : ℕ) (p q : Player) (r : Outcome (Player × Bool))
      → Acts p q
      → AddActsTo q r
      → ActsTo p (keep_added env i r)
  keep_added-ActsTo i p q undefined_behaviour f g = _
  keep_added-ActsTo i p q (done (r, true)) f g = Acts-trans p q r f g
  keep_added-ActsTo i p q (done (r, false)) f g =
      Acts-trans p q (del_stream env i r) f
        (Acts-trans q r (del_stream env i r) g (del_stream-Acts env i r))

  add_next-ActsTo :
      (i : ℕ) (p : Player) (r : Outcome Player) → ActsTo p r → ActsTo p (add_next env i r)
  add_next-ActsTo i p undefined_behaviour f = _
  add_next-ActsTo i p (done q) f =
      keep_added-ActsTo i p q (add_stream env i q) f (add_stream-ActsTo env i q)

  add_streams-ActsTo : (n : ℕ) (p : Player) → ActsTo p (add_streams env n p)
  unfolding add_streams
  add_streams-ActsTo zero p = Acts-refl p
  add_streams-ActsTo (suc n) p = add_next-ActsTo n p (add_streams env n p) (add_streams-ActsTo n p)

  pub s_play-MadeActs : (sh : Shared) → MadeActs (empty_player sh) (s_play env sh)
  unfolding s_play
  s_play-MadeActs sh =
      counted-MadeActs (empty_player sh) (add_streams env env.n_streams (empty_player sh))
        (add_streams-ActsTo env.n_streams (empty_player sh))
