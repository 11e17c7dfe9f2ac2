-- ===== src/Threads/Queue.antt =====
-- The packet queue of each thread (`thread_t`), and the choice of the thread for a packet.
use tcvp.Prelude.{
  ℕ, zero, suc, ◌+◌, ◌-◌, ◌^◌, Bool, true, false, not, ◌&&◌, ◌||◌, Option, none, some, ltb, ◌==◌,
  if◌then◌else◌, update,
}

-- `pkq`, an array of `qsize` elements, each a packet, `none` for NULL, and its number.
pub record Queue (A : Type 0) : Type 0 where
  pub slots : ℕ → Option A
  pub seqs : ℕ → ℕ
  pub head : ℕ
  pub tail : ℕ
  pub nq : ℕ

-- `if(++i == qsize) i = 0`
abbrev pub bump : ℕ → ℕ → ℕ
bump qsize i = if i + 1 == qsize then 0 else i + 1

module _ {A : Type 0} (qsize : ℕ) where
  -- The end of `thr_input`; `none` while the queue is full.
  unfoldable pub enqueue : A → ℕ → Queue A → Option (Queue A)
  enqueue pk seq q =
      if q.nq == qsize
      then none
      else some (record q {
        slots = update q.slots q.head (some pk);
        seqs = update q.seqs q.head seq;
        head = bump qsize q.head;
        nq = q.nq + 1;
      })

  -- `wait_packet` of a thread that runs; `none` while the queue is empty.
  unfoldable pub dequeue : Queue A → Option (Queue A × Option A × ℕ)
  dequeue q =
      if q.nq == 0
      then none
      else some (
        record q { slots = update q.slots q.tail none; tail = bump qsize q.tail; nq = q.nq - 1 },
        q.slots q.tail,
        q.seqs q.tail,
      )

-- The loop of `thr_input` over `n` threads from `i` on: the first one with the least queue. `mq` is
-- the least length so far, at first the greatest `u_int`.
unfoldable pub shortest : (ℕ → ℕ) → ℕ → ℕ → ℕ → ℕ → ℕ
shortest nq mq tn i zero = tn
shortest nq mq tn i (suc n) =
    let less = ltb (nq i) mq in
    shortest nq (if less then nq i else mq) (if less then i else tn) (suc i) n

-- The fields `cur` and `pkc` of `threads_t`.
pub record Chooser : Type 0 where
  pub cur : Option ℕ
  pub pkc : ℕ

abbrev pub busy : Option ℕ → (ℕ → ℕ) → Bool
busy none nq = true
busy (some t) nq = not (nq t == 0)

abbrev pub is_first : Option ℕ → Bool
is_first none = true
is_first (some t) = false

abbrev pub or_zero : Option ℕ → ℕ
or_zero none = 0
or_zero (some t) = t

abbrev pub same_thread : Option ℕ → ℕ → Bool
same_thread none t = false
same_thread (some u) t = u == t

-- The thread for the next packet, and whether the packet is marked as following a gap.
unfoldable pub choose : ℕ → ℕ → (ℕ → ℕ) → Chooser → Chooser × ℕ × Bool
choose nthreads npk nq c =
    let pkc = c.pkc + 1 in
    if is_first c.cur || busy c.cur nq && ltb npk pkc
    then (let t = shortest nq (2 ^ 32 - 1) 0 0 nthreads in
        if same_thread c.cur t
        then (record { cur = some t; pkc = pkc }, t, false)
        else (record { cur = some t; pkc = 0 }, t, true))
    else (record { cur = c.cur; pkc = pkc }, or_zero c.cur, false)
