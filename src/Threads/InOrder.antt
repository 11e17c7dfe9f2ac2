-- ===== src/Threads/InOrder.antt =====
-- The order in which the output thread sends the packets on.
use mathlib.Core.Path.{subst}
use tcvp.Prelude.{
  ℕ, ◌+◌, ◌-◌, ◌≤◌, ◌<◌, ◌≡◌, ◌≢◌, refl, arith, Bool, true, false, List, [], ◌∷◌, ◌++◌, Option,
  none, some, leb, ◌==◌, if◌then◌else◌, update, segment, segment-split, ◌∙◌, sym, ap, suc, dec_lt,
  ℕ_discrete,
}
use tcvp.Threads.Reorder.{Output, out_index, place, emit, comes, goes, Reach, here, next, fresh}

-- The index of the `k`-th place behind the tail.
abbrev pub behind : ℕ → ℕ → ℕ → ℕ
behind osize tail k = if leb osize (tail + k) then tail + k - osize else tail + k

-- What stands in the `k`-th place behind the tail is the packet with the number `oseq + k`.
abbrev pub Placed : {A : Type 0} → ℕ → (ℕ → A) → Output A → Type 0
Placed {A = A} osize src o =
    (k : ℕ) (x : A × ℕ)
    → k < osize
    → o.outq (behind osize o.tail k) ≡ some x
    → x ≡ (src (o.oseq + k), o.oseq + k)

-- What was sent are the packets below `oseq`.
pub record IsInOrder {A : Type 0} (osize : ℕ) (src : ℕ → A) (o : Output A) (sent : List A)
    : Type 0 where
  pub tail_in : o.tail < osize
  pub placed : Placed osize src o
  pub sent_all : sent ≡ segment src 0 o.oseq

pub behind-inj :
    (osize t k d : ℕ)
    → t < osize
    → k < osize
    → d < osize
    → behind osize t k ≡ behind osize t d
    → k ≡ d
behind-inj osize t k d ht hk hd e = ground arith

behind_lt : (osize t d : ℕ) → t < osize → d < osize → behind osize t d < osize
behind_lt osize t d ht hd = ground arith

pub behind_next :
    (osize t k : ℕ)
    → t < osize
    → suc k < osize
    → behind osize (if t + 1 == osize then 0 else t + 1) k ≡ behind osize t (suc k)
behind_next osize t k ht hk = ground arith

behind_last :
    (osize t : ℕ) → t < osize → behind osize (if t + 1 == osize then 0 else t + 1) (osize - 1) ≡ t
behind_last osize t ht = ground arith

pub behind_zero : (osize t : ℕ) → t < osize → behind osize t 0 ≡ t
behind_zero osize t ht = ground arith

module _ {A : Type 0} where
  pub update-other : (a : ℕ → A) (i : ℕ) (x : A) (k : ℕ) → k ≢ i → update a i x k ≡ a k
  update-other a i x k h = ground arith

  pub update-same : (a : ℕ → A) (i : ℕ) (x : A) (k : ℕ) → k ≡ i → update a i x k ≡ x
  update-same a i x k h = ground arith

  no_value : {x : A} → none ≢ some x
  no_value e = ground arith

  some_inj : {x y : A} → some x ≡ some y → x ≡ y
  some_inj e = cc

module _ {A : Type 0} where
  if_none :
      {x : Option A} {y : A} (b : Bool)
      → (if b then none else x) ≡ some y
      → (b ≡ false) × (x ≡ some y)
  if_none true e = absurd (no_value e)
  if_none false e = (refl, e)

  elim_out :
      {o' : Output A} {pk : A} (m : Option (A × ℕ)) (f : ℕ → Output A)
      → ◌≡◌ {A = Option (Output A × A)}
          (elim m [ none ↦ none | some (a, seq) ↦ some (f seq, a) ])
          (some (o', pk))
      → (n : ℕ) × (m ≡ some (pk, n)) × (f n ≡ o')
  elim_out none f e = absurd (no_value e)
  elim_out (some (a, n)) f e = (n, cc, cc)

module _ {A : Type 0} (osize : ℕ) (src : ℕ → A) where
  place-Placed :
      (o : Output A) (i n d : ℕ)
      → o.tail < osize
      → d < osize
      → i ≡ behind osize o.tail d
      → n ≡ o.oseq + d
      → Placed osize src o
      → Placed osize src (record o { outq = update o.outq i (some (src n, n)) })
  place-Placed o i n d ht hd ei en v k x hk e = elim (ℕ_discrete k d) [
    | yes p ↦
        let y =
          update-same o.outq i (some (src n, n)) (behind osize o.tail k)
            (ap (behind osize o.tail) p ∙ sym ei) in
        rw (p, sym en, some_inj (sym y ∙ e))
    | no m ↦
        let other : behind osize o.tail k ≢ i =
          λ q. m (behind-inj osize o.tail k d ht hk hd (q ∙ ei)) in
        v k x hk (sym (update-other o.outq _ _ _ other) ∙ e)
  ]

  emit-Placed :
      (o : Output A)
      → o.tail < osize
      → Placed osize src o
      → Placed osize src (record {
        outq = update o.outq o.tail none;
        tail = if o.tail + 1 == osize then 0 else o.tail + 1;
        oseq = o.oseq + 1;
      })
  emit-Placed o ht v k x hk e = elim (dec_lt (suc k) osize) [
    | yes lt ↦
        let p = behind_next osize o.tail k ht lt in
        let other : behind osize o.tail (suc k) ≢ o.tail = ground arith in
        let e' : update o.outq o.tail none (behind osize o.tail (suc k)) ≡ some x = rw (sym p, e) in
        let more : o.oseq + 1 + k ≡ o.oseq + suc k = omega arith in
        rw (more, v (suc k) x lt (sym (update-other o.outq _ _ _ other) ∙ e'))
    | no ge ↦
        let p : k ≡ osize - 1 = omega arith in
        let e' : none ≡ some x =
          sym
            (update-same o.outq o.tail none _ (ap (behind osize _) p ∙ behind_last osize o.tail ht))
          ∙ e in
        absurd (no_value e')
  ]

  comes-IsInOrder :
      (o o' : Output A) (sent : List A) (seq : ℕ)
      → o.oseq ≤ seq
      → place osize (src seq) seq o ≡ some o'
      → IsInOrder osize src o sent
      → IsInOrder osize src o' sent
  unfolding place out_index
  comes-IsInOrder o o' sent seq le e v =
      let p = if_none (leb osize (seq - o.oseq)) e in
      subst (λ s. IsInOrder osize src s sent) (some_inj p.1)
        (record {
          tail_in = v.tail_in;
          placed =
              place-Placed o _ seq (seq - o.oseq) v.tail_in (ground (arith, p.0))
                (ap (λ i. if leb osize i then i - osize else i) (omega arith)) (omega arith)
                v.placed;
          sent_all = v.sent_all;
        })

  goes-IsInOrder :
      (o o' : Output A) (sent : List A) (pk : A)
      → emit osize o ≡ some (o', pk)
      → IsInOrder osize src o sent
      → IsInOrder osize src o' (sent ++ (pk ∷ []))
  unfolding emit
  goes-IsInOrder o o' sent pk e v =
      let p = elim_out (o.outq o.tail) _ e in
      let q =
        v.placed 0 (pk, p.0) (omega (arith, v.tail_in))
          (ap o.outq (behind_zero osize o.tail v.tail_in) ∙ p.1) in
      let n : o.oseq ≡ p.0 = omega (arith, ap (λ x. x.1) q) in
      let z : 0 + o.oseq ≡ o.oseq = omega arith in
      let same : pk ≡ src o.oseq = ap (λ x. x.0) q ∙ ap src (omega arith) in
      subst (λ s. IsInOrder osize src s (sent ++ (pk ∷ []))) p.2
        (record {
          tail_in = ground (arith, v.tail_in);
          placed = rw (sym n) (emit-Placed o v.tail_in v.placed);
          sent_all =
              rw (sym n, same, v.sent_all, segment-split src 0 o.oseq 1 (o.oseq + 1) refl, z);
        })

  Reach-IsInOrder :
      {s t : Output A × List A}
      → Reach osize src s t
      → IsInOrder osize src s.0 s.1
      → IsInOrder osize src t.0 t.1
  Reach-IsInOrder here v = v
  Reach-IsInOrder (next r (comes o o' sent seq le e)) v =
      comes-IsInOrder o o' sent seq le e (Reach-IsInOrder r v)
  Reach-IsInOrder (next r (goes o o' sent pk e)) v =
      goes-IsInOrder o o' sent pk e (Reach-IsInOrder r v)

  -- From the empty output queue, whatever the order in which the packets come in, those sent on are
  -- at any time just the packets with the numbers below `oseq`, in this order.
  pub sent_in_order :
      {o : Output A} {sent : List A}
      → 0 < osize
      → Reach osize src (fresh osize, []) (o, sent)
      → sent ≡ segment src 0 o.oseq
  sent_in_order h r = (Reach-IsInOrder r start).sent_all
    where
      start : IsInOrder osize src (fresh osize) []
      start = record { tail_in = h; placed = λ k x lt e. absurd (no_value e); sent_all = refl }
