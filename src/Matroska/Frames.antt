-- ===== src/Matroska/Frames.antt =====
-- The frames of a block, taken one after the other.
use tcvp.Prelude.{
  ℕ, zero, suc, ◌+◌, ◌^◌, ◌<◌, ◌≡◌, refl, sym, arith, true, false, List, [], ◌∷◌, ◌++◌, none, some,
  length, ltb, ◌==◌, get_elem?, length-append,
}
use mathlib.Core.List.{append_assoc}
use tcvp.Prelude.Int.{ℤ}
use tcvp.Prelude.Wire.{Bytes}
use tcvp.Matroska.Ebml.{Got, overrun, got, ◌>>=◌}
use tcvp.Matroska.Block.{Block, msk_packet_frame, next_frame, block}
use tcvp.Matroska.Vint.{take-append, drop-append}
use tcvp.Matroska.Laced.{lengths, contents}

-- What the calls of `msk_packet` for one block give.

unfoldable pub frames_from : ℕ → Bytes → Block → Bytes → Got (List Bytes)
unfolding msk_packet_frame
frames_from zero compr mb b = overrun
frames_from (suc n) compr mb b = msk_packet_frame compr mb b >>= (λ p. elim p.0.1 [
  | none ↦ got (p.0.0 ∷ []) p.1
  | some left ↦ frames_from n compr left p.1 >>= (λ q. got (p.0.0 ∷ q.0) q.1)
])

-- Frames behind the bytes that were stripped from each.
unfoldable pub restored : Bytes → List Bytes → List Bytes
restored compr [] = []
restored compr (f ∷ fs) = (compr ++ f) ∷ restored compr fs

get_elem?-middle :
    (pre : List ℕ) (x : ℕ) (post : List ℕ) → get_elem? (pre ++ (x ∷ post)) (length pre) ≡ some x
get_elem?-middle [] x post = refl
get_elem?-middle (y ∷ pre) x post = get_elem?-middle pre x post

module _ (compr : Bytes) (t : ℕ) (i : ℤ) (f s : ℕ) (rest : Bytes) where
  -- The block once the frames of the sizes `pre` are taken, with the frames `gs` to come.
  abbrev behind : List ℕ → List Bytes → Block
  behind pre gs = block t i f (length pre + length gs) s (pre ++ lengths gs) (length pre)

  packet-behind :
      (pre : List ℕ) (g : Bytes) (gs : List Bytes)
      → length g < 2 ^ 31
      → msk_packet_frame compr (behind pre (g ∷ gs)) (g ++ (contents gs ++ rest))
        ≡ got (compr ++ g, next_frame (behind pre (g ∷ gs))) (contents gs ++ rest)
  unfolding msk_packet_frame lengths contents
  packet-behind pre g gs h =
      let fits : ltb (length g) (2 ^ 31) ≡ true = ground (arith, h) in
      rw
        (
          msk_packet_frame,
          get_elem?-middle pre (length g) (lengths gs),
          fits,
          take-append g (contents gs ++ rest),
          drop-append g (contents gs ++ rest),
        )
        refl

  next-last : (pre : List ℕ) (g : Bytes) → next_frame (behind pre (g ∷ [])) ≡ none
  next-last pre g =
      let end : (length pre + 1 == length pre + 1) ≡ true = ground arith in rw end refl

  some-block :
      {n m k j : ℕ} {l r : List ℕ}
      → n ≡ m
      → l ≡ r
      → k ≡ j
      → some (block t i f n s l k) ≡ some (block t i f m s r j)
  some-block p q e = cc (p, q, e)

  next-more :
      (pre : List ℕ) (g k : Bytes) (gs : List Bytes)
      → next_frame (behind pre (g ∷ (k ∷ gs))) ≡ some (behind (pre ++ (length g ∷ [])) (k ∷ gs))
  unfolding lengths
  next-more pre g k gs =
      let not_last : (length pre + 1 == length pre + suc (suc (length gs))) ≡ false =
        ground arith in
      let one = length-append pre (length g ∷ []) in
      let sizes = append_assoc pre (length g ∷ []) (lengths (k ∷ gs)) in
      rw not_last (some-block (omega (arith, one)) (sym sizes) (omega (arith, one)))

  pub frames_from-behind :
      (gs : List Bytes) (pre : List ℕ) (g : Bytes)
      → length (contents (g ∷ gs)) < 2 ^ 31
      → frames_from (length (g ∷ gs)) compr (behind pre (g ∷ gs)) (contents (g ∷ gs) ++ rest)
        ≡ got (restored compr (g ∷ gs)) rest
  unfolding contents restored frames_from
  frames_from-behind [] pre g h =
      let parts = length-append g [] in
      rw (append_assoc g [] rest, packet-behind pre g [] (omega (arith, h, parts)), next-last pre g)
        refl
  frames_from-behind (k ∷ gs) pre g h =
      let parts = length-append g (contents (k ∷ gs)) in
      let tail = frames_from-behind gs (pre ++ (length g ∷ [])) k (omega (arith, h, parts)) in
      rw
        (
          append_assoc g (contents (k ∷ gs)) rest,
          packet-behind pre g (k ∷ gs) (omega (arith, h, parts)),
          next-more pre g k gs,
          tail,
        )
        refl
