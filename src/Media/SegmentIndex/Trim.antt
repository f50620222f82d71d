-- ===== src/Media/SegmentIndex/Trim.antt =====
-- What `offset`, `evict` and `fit` of `SegmentIndex` do to a valid list.
use shaka_player_embedded.Base.{
  get_elem?, length, Option-cases, ◌+◌, ◌≡◌, ℕ, ◌≡◌, refl, sym, ◌⊎◌, inl, inr, ◌∙◌, ap, false,
  Option, none, some, [], ◌∷◌, ◌++◌, arith, ltb_ℤ-cases, All, ℤ, ◌≤ℤ◌, ◌<ℤ◌, ◌+ℤ◌, int_laws,
  +ℤ_parts,
}
use shaka_player_embedded.Media.SegmentIndex.{
  SegmentReference, References, or_else, is_within, find_last, find_before, find, get, shift,
  offset, evict,
}
use shaka_player_embedded.Media.SegmentIndex.Find.{
  IsBefore, find_before_iff, find_within, find_not_within, get_elem, elem_of_get,
}
use mathlib.Core.Path.{subst}
use native.Mathlib.Nat.{zero-add, suc-add}
use shaka_player_embedded.Media.SegmentIndex.Merge.{Chain, IsValid, IsValid-of_Chain}

-- One turn of the loop.
evict-cases :
    (a : ℤ) (r : SegmentReference) (rs : References)
    → (evict a (r ∷ rs) ≡ r ∷ rs) × (a <ℤ r.end_time)
      ⊎ (evict a (r ∷ rs) ≡ evict a rs) × (r.end_time ≤ℤ a)
unfolding evict
evict-cases a r rs = elim (ltb_ℤ-cases a r.end_time) [
  | inl (e, h) ↦ inl (rw (e, evict), h)
  | inr (e, h) ↦ inr (rw (e, evict), h)
]

-- Eviction keeps a valid list valid.
pub evict-IsValid : (a : ℤ) (rs : References) → IsValid rs → IsValid (evict a rs)
evict-IsValid a [] v = unfold evict in tt
evict-IsValid a (r ∷ rs) v = elim (evict-cases a r rs) [
  | inl (e, _) ↦ rw e v
  | inr (e, _) ↦ rw e (evict-IsValid a rs (IsValid-of_Chain r rs v.1))
]

Chain-offset :
    (a : ℤ) (r : SegmentReference) (rs : References) → Chain r rs → Chain (shift a r) (offset a rs)
unfolding offset
Chain-offset a r [] c = tt
Chain-offset a r (s ∷ rs) c = (c.0, omega int_laws, omega int_laws, Chain-offset a s rs c.3)

-- A shift keeps a valid list valid.
pub offset-IsValid : (a : ℤ) (rs : References) → IsValid rs → IsValid (offset a rs)
unfolding offset
offset-IsValid a [] v = tt
offset-IsValid a (r ∷ rs) v = (omega int_laws, unfold Chain-offset in Chain-offset a r rs v.1)

is_within-shift : (a t : ℤ) (r : SegmentReference) → is_within (t +ℤ a) (shift a r) ≡ is_within t r
unfolding is_within
is_within-shift a t r = ground (arith, +ℤ_parts t a, +ℤ_parts r.start_time a, +ℤ_parts r.end_time a)

find_last-offset : (a t : ℤ) (rs : References) → find_last (t +ℤ a) (offset a rs) ≡ find_last t rs
unfolding find_last offset
find_last-offset a t [] = refl
find_last-offset a t (r ∷ rs) = rw (find_last-offset a t rs, is_within-shift a t r)

find_before-offset :
    (a t : ℤ) (rs : References) → find_before (t +ℤ a) (offset a rs) ≡ find_before t rs
unfolding offset find_before
find_before-offset a t [] = refl
find_before-offset a t (r ∷ rs) = ground (arith, +ℤ_parts t a, +ℤ_parts r.start_time a)

-- After a shift of all references, the shifted time finds the position that the time found before.
pub find-offset : (a t : ℤ) (rs : References) → find (t +ℤ a) (offset a rs) ≡ find t rs
unfolding find
find-offset a t rs = rw (find_last-offset a t rs, find_before-offset a t rs)

-- `evict` removes a front part of the list, in which every reference ends at or before `a`.
evict-suffix :
    (a : ℤ) (rs : References)
    → (gone : References) × (rs ≡ gone ++ evict a rs) × All (λ r. r.end_time ≤ℤ a) gone
unfolding evict
evict-suffix a [] = ([], refl, tt)
evict-suffix a (r ∷ rs) = elim (ltb_ℤ-cases a r.end_time) [
  | inl (e, h) ↦ ([], rw e, tt)
  | inr (e, h) ↦ let (gone, p, q) = evict-suffix a rs in (r ∷ gone, rw e (ap (r ∷◌) p), (h, q))
]

is_within_ended :
    (a t : ℤ) (r : SegmentReference) → a ≤ℤ t → r.end_time ≤ℤ a → is_within t r ≡ false
unfolding is_within
is_within_ended a t r h k = ground arith

or_else-none : (q : Option ℕ) → or_else q none ≡ q
unfolding or_else
or_else-none none = refl
or_else-none (some p) = refl

find_last-evict : (a t : ℤ) (rs : References) → a ≤ℤ t → find_last t (evict a rs) ≡ find_last t rs
unfolding find_last
find_last-evict a t [] h = unfold evict in refl
find_last-evict a t (r ∷ rs) h = elim (evict-cases a r rs) [
  | inl (e, k) ↦ rw e
  | inr (e, k) ↦ rw (e, is_within_ended a t r h k) (find_last-evict a t rs h ∙ sym (or_else-none _))
]

-- A time at or after `a` that lies in a reference finds the same position after eviction up to `a`:
-- playback there is not disturbed.
pub find-evict :
    (a t : ℤ) (rs : References) {p : ℕ}
    → a ≤ℤ t
    → ¬ IsBefore t rs
    → find t rs ≡ some p
    → find t (evict a rs) ≡ some p
find-evict a t rs h b f = elim (Option-cases (find_last t rs)) [
  | inl e ↦ cc (find_not_within t rs e, (find_before_iff t rs).1 b)
  | inr (q, e) ↦
      let k : find_last t (evict a rs) ≡ some q = find_last-evict a t rs h ∙ e in
      find_within t (evict a rs) k ∙ sym (find_within t rs e) ∙ f
]

get_elem?-append :
    (xs ys : References) (i : ℕ) {s : SegmentReference}
    → get_elem? ys i ≡ some s
    → get_elem? (xs ++ ys) (length xs + i) ≡ some s
get_elem?-append [] ys i h = rw zero-add h
get_elem?-append (x ∷ xs) ys i h = rw suc-add (get_elem?-append xs ys i h)

-- What `get` gives after an eviction from a valid list it gave before, at the same position.
pub get-evict :
    (a : ℤ) (rs : References) (p : ℕ) {s : SegmentReference}
    → IsValid rs
    → get p (evict a rs) ≡ some s
    → get p rs ≡ some s
get-evict a rs p {s} v h =
    let (i, g, e) = elem_of_get (evict a rs) p s (evict-IsValid a rs v) h in
    let (gone, q, _) = evict-suffix a rs in
    let k : get_elem? rs (length gone + i) ≡ some s =
      rw (← q) at (get_elem?-append gone (evict a rs) i g) in
    subst (λ n. get n rs ≡ some s) e (get_elem rs (length gone + i) s v k)
