-- ===== src/Threads/Fifo.antt =====
-- The queue of a thread gives the packets in the order in which they were put in.
use tcvp.Prelude.{
  ℕ, suc, ◌+◌, ◌-◌, ◌≤◌, ◌<◌, ◌≡◌, ◌≢◌, refl, sym, ap, ◌∙◌, arith, none, some, ◌==◌, update,
  ℕ_discrete, false,
}
use tcvp.Threads.Queue.{Queue, enqueue, dequeue, bump}
use tcvp.Threads.InOrder.{behind, behind-inj, behind_zero, update-other, update-same}

module _ {A : Type 0} (qsize : ℕ) (src : ℕ → A × ℕ) where
  -- The queue holds the packets from the `n`-th on, each with its number.
  pub record IsFifo (n : ℕ) (q : Queue A) : Type 0 where
    pub tail_in : q.tail < qsize
    pub few : q.nq ≤ qsize
    pub head_at : q.head ≡ behind qsize q.tail q.nq
    pub held : (k : ℕ) → k < q.nq → q.slots (behind qsize q.tail k) ≡ some (src (n + k)).0
    pub numbered : (k : ℕ) → k < q.nq → q.seqs (behind qsize q.tail k) ≡ (src (n + k)).1

  bump_head :
      (t k : ℕ) → t < qsize → k < qsize → bump qsize (behind qsize t k) ≡ behind qsize t (k + 1)
  bump_head t k ht hk = ground arith

  bump_tail :
      (t k : ℕ) → t < qsize → suc k ≤ qsize → behind qsize (bump qsize t) k ≡ behind qsize t (suc k)
  bump_tail t k ht hk = ground arith

  bump_back :
      (t m : ℕ)
      → t < qsize
      → 0 < m
      → m ≤ qsize
      → behind qsize (bump qsize t) (m - 1) ≡ behind qsize t m
  bump_back t m ht hm hq = ground arith

  away : (t k : ℕ) → t < qsize → suc k < qsize → behind qsize t (suc k) ≢ t
  away t k ht hk e = ground arith

  -- One more in the place `d`.
  added :
      {B : Type 0} (a : ℕ → B) (f : ℕ → B) (t d k : ℕ) (h : ℕ)
      → t < qsize
      → d < qsize
      → h ≡ behind qsize t d
      → ((i : ℕ) → i < d → a (behind qsize t i) ≡ f i)
      → k < d + 1
      → update a h (f d) (behind qsize t k) ≡ f k
  added a f t d k h ht hd e old lt = elim (ℕ_discrete k d) [
    | yes p ↦ update-same a h (f d) _ (ap (behind qsize t) p ∙ sym e) ∙ ap f (sym p)
    | no m ↦
        let other : behind qsize t k ≢ h =
          λ q. m (behind-inj qsize t k d ht (omega arith) hd (q ∙ e)) in
        update-other a h (f d) _ other ∙ old k (omega arith)
  ]

  -- While there is room, a packet is put in behind the others of the queue of a thread.
  pub enqueue-IsFifo :
      (n : ℕ) (q : Queue A)
      → q.nq < qsize
      → IsFifo n q
      → (q' : Queue A) × (enqueue qsize (src (n + q.nq)).0 (src (n + q.nq)).1 q ≡ some q')
        × IsFifo n q'
  unfolding enqueue
  enqueue-IsFifo n q room v =
      let free : (q.nq == qsize) ≡ false = ground arith in
      let q' : Queue A = record q {
        slots = update q.slots q.head (some (src (n + q.nq)).0);
        seqs = update q.seqs q.head (src (n + q.nq)).1;
        head = bump qsize q.head;
        nq = q.nq + 1;
      } in
      (
        q',
        rw (free) refl,
        record {
          tail_in = v.tail_in;
          few = omega (arith, room);
          head_at = ap (bump qsize) v.head_at ∙ bump_head q.tail q.nq v.tail_in room;
          held = λ k lt.
              added q.slots (λ i. some (src (n + i)).0) q.tail q.nq k q.head v.tail_in room
                v.head_at v.held lt;
          numbered = λ k lt.
              added q.seqs (λ i. (src (n + i)).1) q.tail q.nq k q.head v.tail_in room v.head_at
                v.numbered lt;
        },
      )

  -- From a queue of a thread that is not empty the first packet is taken out, and the others stay in
  -- order.
  pub dequeue-IsFifo :
      (n : ℕ) (q : Queue A)
      → 0 < q.nq
      → IsFifo n q
      → (q' : Queue A) × (dequeue qsize q ≡ some (q', some (src n).0, (src n).1))
        × IsFifo (n + 1) q'
  unfolding dequeue
  dequeue-IsFifo n q h v =
      let there : (q.nq == 0) ≡ false = ground (arith, h) in
      let q' : Queue A = record q {
        slots = update q.slots q.tail none;
        tail = bump qsize q.tail;
        nq = q.nq - 1;
      } in
      let first = behind_zero qsize q.tail v.tail_in in
      let start : n + 0 ≡ n = omega arith in
      let a : q.slots q.tail ≡ some (src n).0 =
        ap q.slots (sym first) ∙ v.held 0 h ∙ ap (λ i. some (src i).0) start in
      let b : q.seqs q.tail ≡ (src n).1 =
        ap q.seqs (sym first) ∙ v.numbered 0 h ∙ ap (λ i. (src i).1) start in
      (
        q',
        rw (there, a, b) refl,
        record {
          tail_in = ground (arith, v.tail_in);
          few = omega (arith, v.few);
          head_at = v.head_at ∙ sym (bump_back q.tail q.nq v.tail_in h v.few);
          held = λ k lt.
              ap q'.slots (bump_tail q.tail k v.tail_in (omega (arith, v.few, lt)))
              ∙ update-other q.slots q.tail none _
                  (away q.tail k v.tail_in (omega (arith, v.few, lt)))
              ∙ v.held (suc k) (omega (arith, lt))
              ∙ ap (λ i. some (src i).0) (omega arith);
          numbered = λ k lt.
              ap q.seqs (bump_tail q.tail k v.tail_in (omega (arith, v.few, lt)))
              ∙ v.numbered (suc k) (omega (arith, lt))
              ∙ ap (λ i. (src i).1) (omega arith);
        },
      )
