-- ===== src/Media/SegmentIndex/Find.antt =====
-- What `find` and `get` of `SegmentIndex` give on a valid list.
use shaka_player_embedded.Base.{
  sym, ℕ, zero, suc, ◌+◌, ◌-◌, ◌≡◌, refl, ◌↔◌, ◌⊎◌, inl, inr, ◌∙◌, true, false, none, some, [], ◌∷◌,
  arith, ltb, get_elem?, drop, All, Option-cases, ℤ, ◌≤ℤ◌, ◌<ℤ◌,
}
use shaka_player_embedded.Media.SegmentIndex.{
  SegmentReference, References, or_else, is_within, find_last, find_before, find, get,
}
use shaka_player_embedded.Media.SegmentIndex.Merge.{Chain, IsValid}

abbrev pub Contains : ℤ → SegmentReference → Type 0
Contains t r = (r.start_time ≤ℤ t) × (t <ℤ r.end_time)

is_within_iff : (t : ℤ) (r : SegmentReference) → (is_within t r ≡ true) ↔ Contains t r
unfolding is_within
is_within_iff t r = ground arith

Chain-position :
    (r s : SegmentReference) (rs : References) (i : ℕ)
    → Chain r rs
    → get_elem? (r ∷ rs) i ≡ some s
    → s.position ≡ r.position + i
Chain-position r s rs zero c h = ground arith
Chain-position r s [] (suc i) c h = cc
Chain-position r s (q ∷ qs) (suc i) c h = omega (arith, Chain-position q s qs i c.3 h)

-- `get` inverts positions: at a reference's own position it gives that reference.
pub get_elem :
    (rs : References) (i : ℕ) (s : SegmentReference)
    → IsValid rs
    → get_elem? rs i ≡ some s
    → get s.position rs ≡ some s
unfolding get
get_elem [] i s v h = cc
get_elem (r ∷ rs) i s v h =
    let e = Chain-position r s rs i v.1 h in
    let e' : s.position - r.position ≡ i = omega arith in
    let e'' : ltb s.position r.position ≡ false = ground arith in rw (e'', e') h

-- `get` gives a member of the list that has the position asked for.
pub elem_of_get :
    (rs : References) (p : ℕ) (s : SegmentReference)
    → IsValid rs
    → get p rs ≡ some s
    → (i : ℕ) × (get_elem? rs i ≡ some s) × (s.position ≡ p)
unfolding get
elem_of_get [] p s v h = cc
elem_of_get (r ∷ rs) p s v h =
    let e : ltb p r.position ≡ false = ground arith in
    let g : get_elem? (r ∷ rs) (p - r.position) ≡ some s = rw e at h in
    (p - r.position, g, ground (arith, Chain-position r s rs (p - r.position) v.1 g))

-- A member of the list that contains `t`, with no later one that does.
pub record IsLatest (t : ℤ) (rs : References) (i : ℕ) (s : SegmentReference) : Type 0 where
  pub at_index : get_elem? rs i ≡ some s
  pub contains : Contains t s
  pub latest : All (λ r. ¬ Contains t r) (drop (suc i) rs)

find_last-none : (t : ℤ) (rs : References) → find_last t rs ≡ none → All (λ r. ¬ Contains t r) rs
unfolding find_last or_else is_within
find_last-none t [] h = tt
find_last-none t (r ∷ rs) h = elim (Option-cases (find_last t rs)) [
  | inl e ↦ ((λ c. ground arith), find_last-none t rs e)
  | inr (p, e) ↦ absurd (ground arith)
]

none-find_last : (t : ℤ) (rs : References) → All (λ r. ¬ Contains t r) rs → find_last t rs ≡ none
unfolding find_last or_else is_within
none-find_last t [] h = refl
none-find_last t (r ∷ rs) (n, h) = ground (arith, none-find_last t rs h)

find_last-some :
    (t : ℤ) (rs : References) {p : ℕ}
    → find_last t rs ≡ some p
    → (i : ℕ) × (s : SegmentReference) × (s.position ≡ p) × IsLatest t rs i s
unfolding find_last or_else is_within
find_last-some t [] h = cc
find_last-some t (r ∷ rs) {p} h = elim (Option-cases (find_last t rs)) [
  | inl e ↦ (
    0,
    r,
    ground arith,
    record { at_index = refl; contains = ground arith; latest = find_last-none t rs e },
  )
  | inr (q, e) ↦
      let (i, s, g, l) = find_last-some t rs e in
      (
        suc i,
        s,
        ground arith,
        record { at_index = l.at_index; contains = l.contains; latest = l.latest },
      )
]

-- The first reference of the list, if there is one, starts after `t`.
abbrev pub IsBefore : ℤ → References → Type 0
IsBefore t [] = ⊥
IsBefore t (r ∷ rs) = t <ℤ r.start_time

pub find_before_iff : (t : ℤ) (rs : References) → (find_before t rs ≡ none) ↔ ¬ IsBefore t rs
unfolding find_before
find_before_iff t [] = ((λ h n. n), λ n. refl)
find_before_iff t (r ∷ rs) = ((λ h n. ground arith), λ n. ground arith)

pub find_not_within :
    (t : ℤ) (rs : References) → find_last t rs ≡ none → find t rs ≡ find_before t rs
unfolding find or_else
find_not_within t rs e = rw (e, find)

pub find_within : (t : ℤ) (rs : References) {p : ℕ} → find_last t rs ≡ some p → find t rs ≡ some p
unfolding find or_else
find_within t rs e = rw (e, find)

-- `find` gives null exactly when no reference contains the time and the time is not before the
-- first reference.
pub find-none_iff :
    (t : ℤ) (rs : References)
    → (find t rs ≡ none) ↔ (All (λ r. ¬ Contains t r) rs × ¬ IsBefore t rs)
find-none_iff t rs = (to, from)
  where
    to : find t rs ≡ none → All (λ r. ¬ Contains t r) rs × ¬ IsBefore t rs
    to h = elim (Option-cases (find_last t rs)) [
      | inl e ↦ (find_last-none t rs e, (find_before_iff t rs).0 (sym (find_not_within t rs e) ∙ h))
      | inr (p, e) ↦ absurd (cc (find_within t rs e))
    ]

    from : All (λ r. ¬ Contains t r) rs × ¬ IsBefore t rs → find t rs ≡ none
    from (a, b) = find_not_within t rs (none-find_last t rs a) ∙ (find_before_iff t rs).1 b

get_first :
    (t : ℤ) (rs : References) {p : ℕ}
    → IsValid rs
    → find_before t rs ≡ some p
    → (s : SegmentReference) × (get p rs ≡ some s) × (t <ℤ s.start_time) × (get_elem? rs 0 ≡ some s)
unfolding find_before
get_first t [] v h = cc
get_first t (r ∷ rs) {p} v h =
    let e : r.position ≡ p = ground arith in
    (r, rw (← e) (get_elem (r ∷ rs) 0 r v refl), ground arith, refl)

-- On a valid list the position that `find` gives is that of a reference which `get` gives back. It is
-- the last one that contains the time, or, where none does, the first one, and the time is before it.
pub get-find :
    (t : ℤ) (rs : References) {p : ℕ}
    → IsValid rs
    → find t rs ≡ some p
    → (s : SegmentReference) × (get p rs ≡ some s)
      × (Contains t s ⊎ (t <ℤ s.start_time) × (get_elem? rs 0 ≡ some s))
get-find t rs {p} v h = elim (Option-cases (find_last t rs)) [
  | inl e ↦
      let (s, g, b, f) = get_first t rs v (sym (find_not_within t rs e) ∙ h) in (s, g, inr (b, f))
  | inr (q, e) ↦
      let (i, s, g, l) = find_last-some t rs e in
      let g' : s.position ≡ p = cc (find_within t rs e) in
      (s, rw g' at (get_elem rs i s v l.at_index), inl l.contains)
]
