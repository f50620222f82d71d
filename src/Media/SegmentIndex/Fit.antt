-- ===== src/Media/SegmentIndex/Fit.antt =====
-- What `fit` of `SegmentIndex`, which cuts the references to a period, does to a valid list.
use shaka_player_embedded.Base.{
  ◌≡◌, refl, inl, inr, ◌∙◌, ap, Bool, [], ◌∷◌, ◌++◌, append_assoc, arith, leb_ℤ, leb_ℤ-cases, All,
  ℤ, pos, ◌≤ℤ◌, ◌<ℤ◌,
}
use shaka_player_embedded.Media.SegmentIndex.{
  SegmentReference, References, pop_unless, pop_late, shift_early, end_last_at, fit,
}
use shaka_player_embedded.Media.SegmentIndex.Merge.{Chain, IsValid, IsValid-of_Chain}

abbrev pub StartsBefore : ℤ → References → Type 0
StartsBefore a = All (λ r. r.start_time <ℤ a)

abbrev pub StartLate : ℤ → References → Type 0
StartLate a = All (λ r. a ≤ℤ r.start_time)

abbrev pub EndEarly : References → Type 0
EndEarly = All (λ r. r.end_time ≤ℤ pos 0)

module _ (a : ℤ) where
  abbrev late : SegmentReference → Bool
  late r = leb_ℤ a r.start_time

  Chain-pop_unless :
      (q r : SegmentReference) (ps : References)
      → Chain q (r ∷ [])
      → Chain r ps
      → Chain q (pop_unless (late r) r ps)
  unfolding pop_unless
  Chain-pop_unless q r [] h c = ground arith
  Chain-pop_unless q r (s ∷ ss) h c = (h.0, h.1, h.2, c)

  Chain-pop_late : (r : SegmentReference) (rs : References) → Chain r rs → Chain r (pop_late a rs)
  unfolding pop_late
  Chain-pop_late r [] c = tt
  Chain-pop_late r (s ∷ rs) c =
      Chain-pop_unless r s (pop_late a rs) (c.0, c.1, c.2, tt) (Chain-pop_late s rs c.3)

  IsValid-pop_unless :
      (r : SegmentReference) (ps : References)
      → r.start_time <ℤ r.end_time
      → Chain r ps
      → IsValid (pop_unless (late r) r ps)
  unfolding pop_unless
  IsValid-pop_unless r [] h c = ground arith
  IsValid-pop_unless r (s ∷ ss) h c = (h, c)

  IsValid-pop_late : (rs : References) → IsValid rs → IsValid (pop_late a rs)
  unfolding pop_late
  IsValid-pop_late [] v = tt
  IsValid-pop_late (r ∷ rs) v = IsValid-pop_unless r (pop_late a rs) v.0 (Chain-pop_late r rs v.1)

  StartsBefore-pop_unless :
      (r : SegmentReference) (ps : References)
      → Chain r ps
      → StartsBefore a ps
      → StartsBefore a (pop_unless (late r) r ps)
  unfolding pop_unless
  StartsBefore-pop_unless r [] c h = ground arith
  StartsBefore-pop_unless r (s ∷ ss) c h = (omega arith, h)

  StartsBefore-pop_late : (rs : References) → IsValid rs → StartsBefore a (pop_late a rs)
  unfolding pop_late
  StartsBefore-pop_late [] v = tt
  StartsBefore-pop_late (r ∷ rs) v =
      StartsBefore-pop_unless r (pop_late a rs) (Chain-pop_late r rs v.1)
        (StartsBefore-pop_late rs (IsValid-of_Chain r rs v.1))

  split-pop_unless :
      (r : SegmentReference) (rs ps ls : References)
      → rs ≡ ps ++ ls
      → StartLate a ls
      → (ms : References) × (r ∷ rs ≡ pop_unless (late r) r ps ++ ms) × StartLate a ms
  unfolding pop_unless
  split-pop_unless r rs [] ls e h = elim (leb_ℤ-cases a r.start_time) [
    | inl (t, k) ↦ (r ∷ ls, rw t (ap (r ∷◌) e), (k, h))
    | inr (t, k) ↦ (ls, rw t (ap (r ∷◌) e), h)
  ]
  split-pop_unless r rs (s ∷ ss) ls e h = (ls, ap (r ∷◌) e, h)

  split-pop_late :
      (rs : References) → (ls : References) × (rs ≡ pop_late a rs ++ ls) × StartLate a ls
  unfolding pop_late
  split-pop_late [] = ([], refl, tt)
  split-pop_late (r ∷ rs) =
      let (ls, e, h) = split-pop_late rs in split-pop_unless r rs (pop_late a rs) ls e h

  IsValid-shift_early : (rs : References) → IsValid rs → IsValid (shift_early rs)
  unfolding shift_early
  IsValid-shift_early [] v = tt
  IsValid-shift_early (r ∷ rs) v = elim (leb_ℤ-cases r.end_time (pos 0)) [
    | inl (t, k) ↦ rw (t, shift_early) (IsValid-shift_early rs (IsValid-of_Chain r rs v.1))
    | inr (t, k) ↦ rw (t, shift_early) v
  ]

  StartsBefore-shift_early : (rs : References) → StartsBefore a rs → StartsBefore a (shift_early rs)
  unfolding shift_early
  StartsBefore-shift_early [] v = tt
  StartsBefore-shift_early (r ∷ rs) v = elim (leb_ℤ-cases r.end_time (pos 0)) [
    | inl (t, k) ↦ rw (t, shift_early) (StartsBefore-shift_early rs v.1)
    | inr (t, k) ↦ rw (t, shift_early) v
  ]

split-shift_early :
    (rs : References) → (es : References) × (rs ≡ es ++ shift_early rs) × EndEarly es
unfolding shift_early
split-shift_early [] = ([], refl, tt)
split-shift_early (r ∷ rs) = elim (leb_ℤ-cases r.end_time (pos 0)) [
  | inl (t, k) ↦
      let (es, e, h) = split-shift_early rs in (r ∷ es, rw (t, shift_early) (ap (r ∷◌) e), (k, h))
  | inr (t, k) ↦ ([], rw (t, shift_early), tt)
]

-- The first reference ends after 0.
abbrev pub Begins : References → Type 0
Begins [] = Unit
Begins (r ∷ rs) = pos 0 <ℤ r.end_time

Begins-shift_early : (rs : References) → Begins (shift_early rs)
unfolding shift_early
Begins-shift_early [] = tt
Begins-shift_early (r ∷ rs) = elim (leb_ℤ-cases r.end_time (pos 0)) [
  | inl (t, k) ↦ rw (t, shift_early) (Begins-shift_early rs)
  | inr (t, k) ↦ rw (t, shift_early) k
]

-- The last reference ends at `a`.
abbrev pub EndsAt : ℤ → References → Type 0
EndsAt a [] = Unit
EndsAt a (r ∷ []) = r.end_time ≡ a
EndsAt a (r ∷ s ∷ rs) = EndsAt a (s ∷ rs)

module _ (a : ℤ) where
  EndsAt-end_last_at : (rs : References) → EndsAt a (end_last_at a rs)
  unfolding end_last_at
  EndsAt-end_last_at [] = tt
  EndsAt-end_last_at (r ∷ []) = refl
  EndsAt-end_last_at (r ∷ s ∷ []) = refl
  EndsAt-end_last_at (r ∷ s ∷ q ∷ rs) = EndsAt-end_last_at (s ∷ q ∷ rs)

  Chain-end_last_at :
      (q : SegmentReference) (rs : References)
      → Chain q rs
      → StartsBefore a rs
      → Chain q (end_last_at a rs)
  unfolding end_last_at
  Chain-end_last_at q [] c h = tt
  Chain-end_last_at q (r ∷ []) c h = (c.0, c.1, h.0, tt)
  Chain-end_last_at q (r ∷ s ∷ rs) c h = (c.0, c.1, c.2, Chain-end_last_at r (s ∷ rs) c.3 h.1)

  IsValid-end_last_at :
      (rs : References) → IsValid rs → StartsBefore a rs → IsValid (end_last_at a rs)
  unfolding end_last_at
  IsValid-end_last_at [] v h = tt
  IsValid-end_last_at (r ∷ []) v h = (h.0, tt)
  IsValid-end_last_at (r ∷ s ∷ rs) v h = (v.0, Chain-end_last_at r (s ∷ rs) v.1 h.1)

  StartsBefore-end_last_at :
      (rs : References) → StartsBefore a rs → StartsBefore a (end_last_at a rs)
  unfolding end_last_at
  StartsBefore-end_last_at [] h = tt
  StartsBefore-end_last_at (r ∷ []) h = h
  StartsBefore-end_last_at (r ∷ s ∷ rs) h = (h.0, StartsBefore-end_last_at (s ∷ rs) h.1)

  Begins-end_last_at : (rs : References) → pos 0 <ℤ a → Begins rs → Begins (end_last_at a rs)
  unfolding end_last_at
  Begins-end_last_at [] k h = tt
  Begins-end_last_at (r ∷ []) k h = k
  Begins-end_last_at (r ∷ s ∷ rs) k h = h

  trimmed : References → References
  trimmed rs = shift_early (pop_late a rs)

  IsValid-trimmed : (rs : References) → IsValid rs → IsValid (trimmed rs)
  unfolding trimmed
  IsValid-trimmed rs v = IsValid-shift_early a (pop_late a rs) (IsValid-pop_late a rs v)

  StartsBefore-trimmed : (rs : References) → IsValid rs → StartsBefore a (trimmed rs)
  unfolding trimmed
  StartsBefore-trimmed rs v =
      StartsBefore-shift_early a (pop_late a rs) (StartsBefore-pop_late a rs v)

  -- Fitting a valid list to a period of any length gives a valid list.
  pub fit-IsValid : (rs : References) → IsValid rs → IsValid (fit a rs)
  unfolding fit trimmed
  fit-IsValid rs v =
      IsValid-end_last_at (trimmed rs) (IsValid-trimmed rs v) (StartsBefore-trimmed rs v)

  -- After fitting a valid list to a period of positive length, every reference starts before the
  -- period's end, the last one ends exactly there, and the first one ends after 0.
  pub fit_bounds :
      (rs : References)
      → IsValid rs
      → pos 0 <ℤ a
      → StartsBefore a (fit a rs) × EndsAt a (fit a rs) × Begins (fit a rs)
  unfolding fit trimmed
  fit_bounds rs v h = (
    StartsBefore-end_last_at (trimmed rs) (StartsBefore-trimmed rs v),
    EndsAt-end_last_at (trimmed rs),
    Begins-end_last_at (trimmed rs) h (Begins-shift_early (pop_late a rs)),
  )

  -- Fitting drops a front part, all of which ends at or before 0, and a back part, all of which
  -- starts at or after the period's end. Of what is between only the last end changes.
  pub fit_split :
      (rs : References)
      → (early kept late : References) × (rs ≡ early ++ (kept ++ late))
        × EndEarly early
        × StartLate a late
        × (fit a rs ≡ end_last_at a kept)
  unfolding fit
  fit_split rs =
      let (ls, p, h) = split-pop_late a rs in
      let (es, q, k) = split-shift_early (pop_late a rs) in
      (
        es,
        shift_early (pop_late a rs),
        ls,
        p ∙ ap (λ xs. xs ++ ls) q ∙ append_assoc es (shift_early (pop_late a rs)) ls,
        k,
        h,
        refl,
      )
