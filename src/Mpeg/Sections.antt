-- ===== src/Mpeg/Sections.antt =====
-- The loop over the sections in a packet keeps to its buffer and comes to an end.
use tcvp.Prelude.{
  ℕ, zero, suc, ◌+◌, ◌/◌, ◌%◌, get_or, ◌<◌, ◌≤◌, ◌≡◌, ◌≢◌, refl, sym, ap, arith, Bool, true, false,
  not, ◌&&◌, ◌||◌, [], ◌∷◌, ◌++◌, none, some, ltb, ◌==◌, if◌then◌else◌, length, take, drop, All,
  Bool-cases, Option-cases, ◌⊎◌, inl, inr, length-append, length-take, length-drop,
}
use mathlib.Core.Path.{subst}
use tcvp.Mp3.Accepted.{some_inj}
use tcvp.Prelude.Wire.{Bytes}
use tcvp.Mpeg.Psi.{
  Section, clear, word_at, section_init, Collected, wanted, started, collect, complete_first,
}

-- A section that is not complete, in its buffer of 1024 bytes.
abbrev pub IsPartial : Section → Type 0
IsPartial s =
    (length s.buf ≤ 1024)
    × (s.section_length ≤ 1024)
    × (s.section_length ≢ 0 → length s.buf ≢ s.section_length)

-- A section of as many bytes as it says, which fit the buffer.
abbrev pub IsComplete : Section → Type 0
IsComplete s = (length s.buf ≡ s.section_length) × (s.section_length ≤ 1024)

-- No byte is left, or those of the stuffing are.
abbrev pub IsRead : Section → Bytes → Type 0
IsRead s [] = Unit
IsRead s (b ∷ bs) = (b ≡ 255) × (s.section_length ≡ 0)

-- How the loop ends.
pub record IsGood (c : Collected) : Type 0 where
  pub complete : All IsComplete c.complete
  pub fits : length c.left.buf ≤ 1024
  pub end : (c.err ≡ true) ⊎ ((c.err ≡ false) × IsPartial c.left × IsRead c.left c.rest)

wanted_lem :
    (psi : Section) (b : ℕ) (bs : Bytes)
    → IsPartial psi
    → (0 < wanted psi (b ∷ bs)) × (wanted psi (b ∷ bs) ≤ length (b ∷ bs))
unfolding wanted
wanted_lem psi b bs p = ground (arith, p.0, p.1, p.2)

if_some : (t : Bool) (x s : Section) → (if t then none else some x) ≡ some s → (t ≡ false) × (x ≡ s)
if_some true x s e = absurd cc
if_some false x s e = (refl, some_inj e)

shorter : (a b c : Bool) (n : ℕ) (d : Bool) → (a || b || c || ltb 1024 n || d) ≡ false → n ≤ 1024
shorter a b c n d e = ground (arith, e)

init_lem :
    (psi s : Section) → section_init psi ≡ some s → (s.buf ≡ psi.buf) × (s.section_length ≤ 1024)
unfolding section_init
init_lem psi s e =
    let (t, x) = if_some _ _ s e in
    let val = word_at psi.buf 1 in
    (
      ap (λ r. r.buf) (sym x),
      subst (λ r. r.section_length ≤ 1024) x
          (shorter (not (val / 0x8000 % 2 == 1)) (not (val / 0x4000 % 2 == 0))
            (not (val / 0x1000 % 4 == 3)) _ (not (get_or psi.buf 5 0 / 64 % 4 == 3)) t),
    )

started_lem :
    (psi s : Section)
    → psi.section_length ≤ 1024
    → started psi ≡ some s
    → (s.buf ≡ psi.buf) × (s.section_length ≤ 1024)
unfolding started
started_lem psi s h e = go (psi.section_length == 0 && not (ltb (length psi.buf) 8)) e
  where
    go :
        (t : Bool)
        → (if t then section_init psi else some psi) ≡ some s
        → (s.buf ≡ psi.buf) × (s.section_length ≤ 1024)
    go true i = init_lem psi s i
    go false i =
        (ap (λ r. r.buf) (sym (some_inj i)), subst (λ r. r.section_length ≤ 1024) (some_inj i) h)

length-read :
    (psi : Section) (d : Bytes) (len : ℕ)
    → len ≤ length d
    → length (psi.buf ++ take len d) ≡ length psi.buf + len
length-read psi d len h = omega (arith, length-append psi.buf (take len d), length-take len d)

clear-IsPartial : IsPartial clear
clear-IsPartial = (omega arith, omega arith, λ e. absurd (e refl))

-- After a round that read a section `s` on.
IsGood-on :
    (n : ℕ) (rest : Bytes) (s : Section)
    → ((q : Section) → IsPartial q → IsGood (collect n rest q))
    → length s.buf ≤ 1024
    → s.section_length ≤ 1024
    → IsGood (
        if not (s.section_length == 0) && length s.buf == s.section_length
        then complete_first s (collect n rest clear)
        else collect n rest s)
IsGood-on n rest s ih hb hl =
    elim (Bool-cases (not (s.section_length == 0) && length s.buf == s.section_length)) [
      | inl e ↦
          let g = ih clear clear-IsPartial in
          rw e (record {
            complete = ((ground (arith, e), hl), g.complete);
            fits = g.fits;
            end = g.end;
          })
      | inr e ↦ rw e (ih s (hb, hl, λ nz. ground (arith, e, nz)))
    ]

-- The loop, on as much fuel as there are bytes, from a section that is not complete: it fills no more than
-- the 1024 bytes of the buffer, the sections that it takes for complete have just as many bytes as
-- they say, and it ends with an error, or with a section that is not complete where the data end or the
-- stuffing begins.
pub collect-IsGood :
    (n : ℕ) (d : Bytes) (psi : Section) → IsPartial psi → length d ≤ n → IsGood (collect n d psi)
unfolding collect
collect-IsGood zero [] psi p h = record { complete = tt; fits = p.0; end = inr (refl, p, tt) }
collect-IsGood zero (b ∷ bs) psi p h = absurd (omega arith)
collect-IsGood (suc n) [] psi p h = record { complete = tt; fits = p.0; end = inr (refl, p, tt) }
collect-IsGood (suc n) (b ∷ bs) psi p h =
    let d : Bytes = b ∷ bs in
    let len = wanted psi d in
    let more : Section = record psi { buf = psi.buf ++ take len d } in
    let w = wanted_lem psi b bs p in
    let read = length-read psi d len w.1 in
    elim (Bool-cases (psi.section_length == 0 && b == 255)) [
      | inl e ↦ rw e (record {
        complete = tt;
        fits = p.0;
        end = inr (refl, p, (ground (arith, e), ground (arith, e)));
      })
      | inr e ↦ elim (Bool-cases (ltb 1024 (length psi.buf + len))) [
        | inl o ↦ rw (e, o) (record { complete = tt; fits = p.0; end = inl refl })
        | inr o ↦
            let fits : length more.buf ≤ 1024 = ground (arith, o, read) in
            elim (Option-cases (started more)) [
              | inl c ↦ rw (e, o, c) (record { complete = tt; fits = fits; end = inl refl })
              | inr (s, c) ↦
                  let (same, small) = started_lem more s p.1 c in
                  rw (e, o, c)
                    (IsGood-on n (drop len d) s
                      (λ q pq.
                        collect-IsGood n (drop len d) q pq
                          (omega (arith, length-drop len d, w.0, w.1)))
                      (rw same fits) small)
            ]
      ]
    ]
