-- ===== src/Threads/Reorder.antt =====
-- The output queue of `threads_t`, in which packets wait for those with lower numbers.
use tcvp.Prelude.{
  ℕ, ◌+◌, ◌-◌, ◌≤◌, ◌≡◌, List, [], ◌∷◌, ◌++◌, Option, none, some, leb, ◌==◌, if◌then◌else◌, update,
}

-- `outq` with `tail` and `oseq`; an element is a packet with its number.
pub record Output (A : Type 0) : Type 0 where
  pub outq : ℕ → Option (A × ℕ)
  pub tail : ℕ
  pub oseq : ℕ

module _ {A : Type 0} (osize : ℕ) where
  -- `oqp`
  unfoldable pub out_index : ℕ → Output A → ℕ
  out_index seq o = let i = o.tail + seq - o.oseq in if leb osize i then i - osize else i

  -- `th_input` of a thread that runs; `none` while the packet is too far ahead.
  unfoldable pub place : A → ℕ → Output A → Option (Output A)
  place pk seq o =
      if leb osize (seq - o.oseq)
      then none
      else some (record o { outq = update o.outq (out_index seq o) (some (pk, seq)) })

  -- A round of `thr_output`; `none` while the next packet is not there.
  unfoldable pub emit : Output A → Option (Output A × A)
  emit o = elim (o.outq o.tail) [
    | none ↦ none
    | some (pk, seq) ↦ some (
      record {
        outq = update o.outq o.tail none;
        tail = if o.tail + 1 == osize then 0 else o.tail + 1;
        oseq = seq + 1;
      },
      pk,
    )
  ]

  -- The threads and the output, interleaved: the packet of each number that is not yet sent on may
  -- come in at any time, and what is sent on is recorded.
  pub data Step (src : ℕ → A) : Output A × List A → Output A × List A → Type 0 where
    comes :
        (o o' : Output A) (sent : List A) (seq : ℕ)
        → o.oseq ≤ seq
        → place (src seq) seq o ≡ some o'
        → Step src (o, sent) (o', sent)
    goes :
        (o o' : Output A) (sent : List A) (pk : A)
        → emit o ≡ some (o', pk)
        → Step src (o, sent) (o', sent ++ (pk ∷ []))

  pub data Reach (src : ℕ → A) (s : Output A × List A) : Output A × List A → Type 0 where
    here : Reach src s s
    next : {t u : Output A × List A} → Reach src s t → Step src t u → Reach src s u

  abbrev pub fresh : Output A
  fresh = record { outq = λ i. none; tail = 0; oseq = 0 }
