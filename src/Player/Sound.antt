-- ===== src/Player/Sound.antt =====
-- What holds of the streams of a player, apart from the code.
use tcvp.Prelude.{
  ℕ, zero, suc, ◌+◌, ◌<◌, ◌≤◌, ◌≡◌, refl, arith, Bool, true, false, not, ◌||◌, ◌&&◌, Option, none,
  some, ◌==◌, update, Bool-cases, inl, inr, List, ap, ◌∙◌, sym,
}
use tcvp.Player.State.{Packet, Thread, absent, idle, waiting, ready, over, zeroed, SpStream, Player}
use tcvp.Player.Streams.{is_none, is_ok}

-- A thread that is in the loop of play_stream.
abbrev pub is_playing : Thread → Bool
is_playing absent = false
is_playing idle = true
is_playing waiting = true
is_playing ready = true
is_playing over = false

abbrev pub is_waiting : Thread → Bool
is_waiting absent = false
is_waiting idle = false
is_waiting waiting = true
is_waiting ready = false
is_waiting over = false

abbrev pub has_list : Option (List (Option Packet)) → Bool
has_list none = false
has_list (some pks) = true

-- A stream that plays was probed and has a pipe; one with a pipe has a list of packets and a player.
abbrev pub is_sane : SpStream → Bool
is_sane str =
    (not (is_playing str.th) || (str.opened && is_ok str.probe))
    && (not str.opened || (str.owned && has_list str.packets))

abbrev pub one : Bool → ℕ
one true = 1
one false = 0

-- How many of the first `n` are so.
unfoldable pub tally : (ℕ → Bool) → ℕ → ℕ
tally f zero = 0
tally f (suc n) = tally f n + one (f n)

pub record Sound (st : ℕ → SpStream) (sm : ℕ → Option ℕ) (n ps w : ℕ) : Type 0 where
  pub sane : (i : ℕ) → is_sane (st i) ≡ true
  pub inside : (i : ℕ) → (st i).opened ≡ true → i < n
  pub named : (i : ℕ) → i < n → is_none (sm i) ≡ false
  pub open_all : ps ≡ tally (λ i. (st i).opened) n
  pub waiting_all : w ≡ tally (λ i. is_waiting (st i).th) n

-- `pstreams` is the number of the streams with a pipe, `waiting` that of the threads that wait, and
-- every stream is as it should be.
abbrev pub IsSound : Player → Type 0
IsSound p = Sound p.streams p.smap p.nstreams p.pstreams p.waiting

tally-same : (f g : ℕ → Bool) (n : ℕ) → ((i : ℕ) → i < n → f i ≡ g i) → tally f n ≡ tally g n
unfolding tally
tally-same f g zero h = refl
tally-same f g (suc n) h =
    let here = ap one (h n (omega arith)) in
    let rest = tally-same f g n (λ i l. h i (omega (arith, l))) in omega (arith, here, rest)

tally-but :
    (f g : ℕ → Bool) (s n : ℕ)
    → ((i : ℕ) → (i == s) ≡ false → f i ≡ g i)
    → s < n
    → tally f n + one (g s) ≡ tally g n + one (f s)
unfolding tally
tally-but f g s zero same h = absurd (omega (arith, h))
tally-but f g s (suc n) same h = elim (Bool-cases (n == s)) [
  | inl e ↦
      let q : n ≡ s = ground (arith, e) in
      let below = tally-same f g n (λ i l. same i (ground (arith, l, q))) in
      let left = ap (λ x. one (f x)) q in
      let right = ap (λ x. one (g x)) q in omega (arith, below, left, right)
  | inr e ↦
      let less = tally-but f g s n same (ground (arith, h, e)) in
      let here = ap one (same n e) in omega (arith, less, here)
]

pub tally-pos : (f : ℕ → Bool) (s n : ℕ) → f s ≡ true → s < n → 1 ≤ tally f n
unfolding tally
tally-pos f s zero t h = absurd (omega (arith, h))
tally-pos f s (suc n) t h = elim (Bool-cases (n == s)) [
  | inl e ↦
      let q : n ≡ s = ground (arith, e) in
      let here : one (f n) ≡ 1 = ap (λ x. one (f x)) q ∙ ap one t in omega (arith, here)
  | inr e ↦ omega (arith, tally-pos f s n t (ground (arith, h, e)))
]

pub update-here : {A : Type 0} (a : ℕ → A) (s : ℕ) (x : A) → update a s x s ≡ x
update-here a s x = let e : (s == s) ≡ true = ground arith in rw e refl

module _ {A : Type 0} (v : A → Bool) (a : ℕ → A) (s : ℕ) (x : A) where
  tally-update :
      (n : ℕ)
      → s < n
      → tally (λ i. v (update a s x i)) n + one (v (a s)) ≡ tally (λ i. v (a i)) n + one (v x)
  tally-update n h =
      let but = tally-but (λ i. v (update a s x i)) (λ i. v (a i)) s n (λ i e. rw e refl) h in
      let here = ap (λ y. one (v y)) (update-here a s x) in omega (arith, but, here)

-- One stream is replaced, and the numbers with it.
module _ {st : ℕ → SpStream} {sm : ℕ → Option ℕ} {n ps w : ℕ} (sound : Sound st sm n ps w) where
  pub replace-Sound :
      (s : ℕ) (str : SpStream) (ps1 w1 : ℕ)
      → s < n
      → is_sane str ≡ true
      → ps1 + one (st s).opened ≡ ps + one str.opened
      → w1 + one (is_waiting (st s).th) ≡ w + one (is_waiting str.th)
      → Sound (update st s str) sm n ps1 w1
  replace-Sound s str ps1 w1 h sane hp hw = record {
    sane = λ i. elim (Bool-cases (i == s)) [ inl e ↦ rw e sane | inr e ↦ rw e (sound.sane i) ];
    inside = λ i. elim (Bool-cases (i == s)) [
      | inl e ↦ λ o. ground (arith, e, h)
      | inr e ↦ rw e (sound.inside i)
    ];
    named = sound.named;
    open_all =
        omega (arith, hp, tally-update (λ (x : SpStream). x.opened) st s str n h, sound.open_all);
    waiting_all = omega (
      arith,
      hw,
      tally-update (λ (x : SpStream). is_waiting x.th) st s str n h,
      sound.waiting_all,
    );
  }

  -- Every stream changes in what does not count.
  pub pointwise-Sound :
      (ts : ℕ → SpStream)
      → ((i : ℕ) → is_sane (ts i) ≡ true)
      → ((i : ℕ) → (ts i).opened ≡ (st i).opened)
      → ((i : ℕ) → is_waiting (ts i).th ≡ is_waiting (st i).th)
      → Sound ts sm n ps w
  pointwise-Sound ts sane opens waits = record {
    sane = sane;
    inside = λ i o. sound.inside i (sym (opens i) ∙ o);
    named = sound.named;
    open_all = sound.open_all ∙ sym (tally-same _ _ n (λ i l. opens i));
    waiting_all = sound.waiting_all ∙ sym (tally-same _ _ n (λ i l. waits i));
  }

  -- One stream changes in what does not count.
  pub same-Sound :
      (s : ℕ) (str : SpStream)
      → is_sane str ≡ true
      → str.opened ≡ (st s).opened
      → is_waiting str.th ≡ is_waiting (st s).th
      → Sound (update st s str) sm n ps w
  same-Sound s str sane opens waits =
      pointwise-Sound (update st s str)
        (λ i. elim (Bool-cases (i == s)) [ inl e ↦ rw e sane | inr e ↦ rw e (sound.sane i) ])
        (λ i. elim (Bool-cases (i == s)) [
          | inl e ↦ let q : s ≡ i = ground (arith, e) in rw e (opens ∙ ap (λ k. (st k).opened) q)
          | inr e ↦ rw e refl
        ])
        (λ i. elim (Bool-cases (i == s)) [
          | inl e ↦
              let q : s ≡ i = ground (arith, e) in rw e (waits ∙ ap (λ k. is_waiting (st k).th) q)
          | inr e ↦ rw e refl
        ])

  -- The arrays grow by a stream that memset cleared, with a number.
  pub grown-Sound : (i : ℕ) → Sound (update st n zeroed) (update sm n (some i)) (suc n) ps w
  unfolding tally
  grown-Sound i =
      let same : (v : SpStream → Bool) (k : ℕ) → k < n → v (update st n zeroed k) ≡ v (st k) =
        λ v k l. let e : (k == n) ≡ false = ground (arith, l) in rw e refl in
      let none_open = ap (λ (x : SpStream). one x.opened) (update-here st n zeroed) in
      let none_waits = ap (λ (x : SpStream). one (is_waiting x.th)) (update-here st n zeroed) in
      let opens =
        tally-same (λ k. (update st n zeroed k).opened) (λ k. (st k).opened) n
          (same (λ (x : SpStream). x.opened)) in
      let waits =
        tally-same (λ k. is_waiting (update st n zeroed k).th) (λ k. is_waiting (st k).th) n
          (same (λ (x : SpStream). is_waiting x.th)) in
      record {
        sane = λ k. elim (Bool-cases (k == n)) [ inl e ↦ rw e refl | inr e ↦ rw e (sound.sane k) ];
        inside = λ k. elim (Bool-cases (k == n)) [
          | inl e ↦ λ o. ground (arith, e)
          | inr e ↦ rw e (λ o. let l = sound.inside k o in omega (arith, l))
        ];
        named = λ k l. elim (Bool-cases (k == n)) [
          | inl e ↦ rw e refl
          | inr e ↦ rw e (sound.named k (ground (arith, e, l)))
        ];
        open_all = omega (arith, sound.open_all, opens, none_open);
        waiting_all = omega (arith, sound.waiting_all, waits, none_waits);
      }
