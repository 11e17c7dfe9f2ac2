-- ===== src/Playlist/Edit.antt =====
-- `pl_add`, `pl_remove`, `pl_shuffle` and `pl_flags`.
pub mod Order
pub mod Valid
pub mod Add
pub mod Entries
use Prim.Native.Nat.{bit_xor}
use tcvp.Prelude.{
  ℕ, zero, suc, ◌+◌, ◌-◌, ◌%◌, ◌^◌, min, Bool, true, false, not, ◌&&◌, ◌||◌, List, [], ◌∷◌, Option,
  none, some, ltb, leb, ◌==◌, if◌then◌else◌, length, update, memmove,
}
use tcvp.Prelude.Int.{ℤ, pos, negsuc, pos_part, ◌+ℤ◌, ◌-ℤ◌, ltb_ℤ}
use tcvp.Playlist.State.{Name, Playlist, Out, Env, ◌>>=◌, is_end, has, shuffle, pl_state}

-- `if(p < 0) p = tpl->nf + p + 1; if(p < 0) p = 0;`
unfoldable pub position : ℤ → ℕ → ℕ
position (pos p) nf = p
position (negsuc p) nf = nf - p

-- `for(i = 0; i < n; i++) tpl->files[p + i] = strdup(files[i]);`
pub store : (ℕ → Option Name) → ℕ → List Name → ℕ → Option Name
store files p [] = files
store files p (f ∷ fs) = store (update files p (some f)) (suc p) fs

-- `for(i = 0; i < n; i++) order[i] = i` from `i` on
pub store_id : (ℕ → ℕ) → ℕ → ℕ → ℕ → ℕ
store_id order i zero = order
store_id order i (suc n) = store_id (update order i i) (suc i) n

-- The index at which the next new entry goes, for `x` from `rand`. `nf0` is `tpl->nf`, and `nf` the
-- local count.
pub slot : Bool → ℤ → ℕ → ℕ → ℕ → ℤ
slot at_end cur nf0 nf x =
    let j = if ltb_ℤ cur (pos nf) then x % pos_part (pos nf -ℤ cur) else 0 in
    cur +ℤ pos (if ltb_ℤ cur (pos nf0) && not at_end then j + 1 else j)

-- A place in the order for each of `n` new entries; `r` gives the results of `rand`, the `k`-th the
-- next.
pub shuffle_in : (ℕ → ℕ) → Bool → ℤ → ℕ → ℕ → (ℕ → ℕ) → ℕ → ℕ → Option (ℕ → ℕ)
shuffle_in order at_end cur nf0 zero r k nf = some order
shuffle_in order at_end cur nf0 (suc n) r k nf = elim (slot at_end cur nf0 nf (r k)) [
  | negsuc _ ↦ none
  | pos q ↦
      let put = update (memmove order (q + 1) q (nf - q)) q nf in
      let k' = if ltb_ℤ cur (pos nf) then k + 1 else k in
      elim (ltb nf q) [ true ↦ none | false ↦ shuffle_in put at_end cur nf0 n r k' (suc nf) ]
]

pub add : Env → List Name → ℤ → Playlist → Option Playlist
add env fs p0 pl =
    let n = length fs in
    let p = position p0 pl.nf in
    let nf = pl.nf + n in
    let af = if ltb pl.af nf then nf + 16 else pl.af in
    let moved = if ltb p pl.nf then memmove pl.files (p + n) p n else pl.files in
    if ltb p pl.nf && ltb af (p + n + n) || ltb af (p + n) && not (n == 0)
    then none
    else if has pl.flags shuffle
    then (do
      order ← shuffle_in pl.order (is_end pl.state) pl.cur pl.nf n (env.rand pl.now) 0 pl.nf
      some (record pl {
        files = store moved p fs;
        order = order;
        nf = nf;
        af = af;
        now = pl.now + 1;
      }))
    else some (record pl {
      files = store moved p fs;
      order = store_id pl.order p (nf - p);
      nf = nf;
      af = af;
    })

-- `u_int un = n`
unfoldable pub to_u32 : ℤ → ℕ
to_u32 (pos n) = n % 2 ^ 32
to_u32 (negsuc n) = 2 ^ 32 - 1 - n % 2 ^ 32

-- The loop that closes the gap in the order: `n` rounds from `i`, writing at `j`.
pub compact : (ℕ → ℕ) → ℕ → ℕ → ℕ → ℕ → ℕ → ℕ → ℕ
compact order s nr i j zero = order
compact order s nr i j (suc n) =
    let x = order i in
    let keep = ltb x s || leb (s + nr) x in
    let y = if ltb x s then x else x - nr in
    compact (if keep then update order j y else order) s nr (suc i) (if keep then suc j else j) n

-- `if(tpl->cur >= s) { if(tpl->cur >= s + nr) tpl->cur -= nr; else tpl->cur = s; }`
pub close_gap : ℤ → ℕ → ℕ → ℤ
close_gap cur s nr =
    if ltb_ℤ cur (pos s) then cur else if ltb_ℤ cur (pos (s + nr)) then pos s else cur -ℤ pos nr

-- `if(s < 0) s = tpl->nf + s; if(s < 0) s = 0;` The change of `n` is to no effect: only `un` is
-- used from there on.
pub start_of : ℤ → ℕ → ℕ
start_of (pos s) nf = s
start_of (negsuc s) nf = nf - suc s

pub remove_at : ℕ → ℕ → Playlist → Playlist
remove_at s un pl =
    let nr = min (pl.nf - s) un in
    record pl {
      files = memmove pl.files s (s + nr) (pl.nf - s - nr);
      order = compact pl.order s nr 0 0 pl.nf;
      nf = pl.nf - nr;
      cur = close_gap pl.cur s nr;
    }

pub remove : ℤ → ℤ → Playlist → Playlist
remove s n pl = if ltb_ℤ s (pos pl.nf) then remove_at (start_of s pl.nf) (to_u32 n) pl else pl

-- `n` rounds of the shuffling loop from `i` on.
pub shuffle_swaps : (ℕ → ℕ) → (ℕ → ℕ) → ℕ → ℕ → ℕ → ℕ
shuffle_swaps r order i zero = order
shuffle_swaps r order i (suc n) =
    let j = r i % suc i in shuffle_swaps r (update (update order i (order j)) j (order i)) (suc i) n

pub shuffle_order : Env → Bool → Playlist → Playlist
shuffle_order env true pl = record pl {
  order = shuffle_swaps (env.rand pl.now) pl.order 0 pl.nf;
  now = pl.now + 1;
}
shuffle_order env false pl = record pl { order = store_id pl.order 0 pl.nf }

-- The event that `pl_send_state` sends.
unfoldable pub send_state : Playlist → Out
send_state pl = pl_state shown pl.state pl.flags
  where
    shown : ℤ
    shown = elim pl.cur [
      | negsuc n ↦ negsuc 0
      | pos c ↦ if ltb c pl.nf then pos (pl.order c) else negsuc 0
    ]

pub set_flags : Env → ℕ → Playlist → Playlist × List Out
set_flags env flags pl =
    let pl1 =
      if has (bit_xor pl.flags flags) shuffle
      then shuffle_order env (has flags shuffle) pl
      else pl in
    let pl2 = record pl1 { flags = flags } in (pl2, send_state pl2 ∷ [])
