-- ===== src/Media/SegmentIndex/Merge.antt =====
-- The invariant of `SegmentIndex`, and what `merge` does to it.
use shaka_player_embedded.Base.{
  suc, ◌≡◌, refl, Bool, true, false, [], ◌∷◌, ◌++◌, append-nil, arith, ◌⊎◌, inl, inr, eq_of_parts,
  ◌≤ℤ◌, ◌<ℤ◌,
}
use shaka_player_embedded.Media.SegmentIndex.{
  SegmentReference, References, earlier, same, later, start_order, updated, push, merge_walk,
  renumber, last_position, append_rest, merge, are_correct,
}

-- The references after `r` have the positions that follow, and strictly increasing start times.
abbrev pub Chain : SegmentReference → References → Type 0
Chain r [] = Unit
Chain r (s ∷ rs) =
    (s.position ≡ suc r.position)
    × (r.start_time <ℤ s.start_time)
    × (s.start_time <ℤ s.end_time)
    × Chain s rs

abbrev pub IsValid : References → Type 0
IsValid [] = Unit
IsValid (r ∷ rs) = (r.start_time <ℤ r.end_time) × Chain r rs

Chain-are_correct :
    (r : SegmentReference) (rs : References) → Chain r rs → are_correct (r ∷ rs) ≡ true
unfolding are_correct
Chain-are_correct r [] h = refl
Chain-are_correct r (s ∷ rs) h = ground (arith, Chain-are_correct s rs h.3)

-- Valid references pass the check of the debug build.
pub IsValid-are_correct : (rs : References) → IsValid rs → are_correct rs ≡ true
IsValid-are_correct [] v = unfold are_correct in refl
IsValid-are_correct (r ∷ rs) v = Chain-are_correct r rs v.1

-- The first reference of `new`, if there is one, starts after `r`.
abbrev StartsAfter : SegmentReference → References → Type 0
StartsAfter r [] = Unit
StartsAfter r (f ∷ fs) = r.start_time <ℤ f.start_time

starts_after : (r : SegmentReference) (rs : References) → Chain r rs → StartsAfter r rs
starts_after r [] c = tt
starts_after r (s ∷ rs) c = c.1

pub IsValid-of_Chain : (r : SegmentReference) (rs : References) → Chain r rs → IsValid rs
IsValid-of_Chain r [] c = tt
IsValid-of_Chain r (s ∷ rs) c = (c.2, c.3)

Chain-renumber :
    (r : SegmentReference) (new : References)
    → StartsAfter r new
    → IsValid new
    → Chain r (renumber (suc r.position) new)
unfolding renumber
Chain-renumber r [] a v = tt
Chain-renumber r (f ∷ fs) a v = (
  refl,
  a,
  v.0,
  Chain-renumber (record f { position = suc r.position }) fs (starts_after f fs v.1)
      (IsValid-of_Chain f fs v.1),
)

start_order-cases :
    (e f : SegmentReference)
    → (start_order e f ≡ earlier) × (e.start_time <ℤ f.start_time)
      ⊎ (start_order e f ≡ same) × (e.start_time ≡ f.start_time)
      ⊎ (start_order e f ≡ later) × (f.start_time <ℤ e.start_time)
unfolding start_order
start_order-cases e f = grind (arith, eq_of_parts)

StartsAfter-trans :
    (r f : SegmentReference) (fs : References)
    → r.start_time <ℤ f.start_time
    → IsValid (f ∷ fs)
    → StartsAfter r fs
StartsAfter-trans r f [] a v = tt
StartsAfter-trans r f (g ∷ fs) a v = omega arith

Chain-updated :
    (e f : SegmentReference) (rs : References)
    → e.start_time ≡ f.start_time
    → Chain e rs
    → Chain (updated e f) rs
Chain-updated e f [] h c = tt
Chain-updated e f (s ∷ rs) h c = ground arith

StartsAfter-updated :
    (e f : SegmentReference) (fs : References)
    → e.start_time ≡ f.start_time
    → IsValid (f ∷ fs)
    → StartsAfter (updated e f) fs
StartsAfter-updated e f [] h v = tt
StartsAfter-updated e f (g ∷ fs) h v = ground arith

-- What `merge` makes of the output of its first two loops, once `r` has been pushed.
after : SegmentReference → References × References → References
after r (b, rest) = b ++ renumber (suc (last_position r b)) rest

after-push :
    (r e : SegmentReference) (w : References × References) → after r (push e w) ≡ e ∷ after e w
unfolding after push
after-push r e (b, rest) = refl

-- One turn of the loop, for each order of the two references at hand.
module _ (e f : SegmentReference) (es fs : References) where
  pub merge_walk_earlier :
      (b : Bool)
      → start_order e f ≡ earlier
      → merge_walk b (e ∷ es) (f ∷ fs) ≡ push e (merge_walk false es (f ∷ fs))
  unfolding merge_walk
  merge_walk_earlier b o = rw (o, merge_walk)

  pub merge_walk_same :
      (b : Bool)
      → start_order e f ≡ same
      → merge_walk b (e ∷ es) (f ∷ fs) ≡ push (updated e f) (merge_walk false es fs)
  unfolding merge_walk
  merge_walk_same b o = rw (o, merge_walk)

  pub merge_walk_later :
      start_order e f ≡ later → merge_walk false (e ∷ es) (f ∷ fs) ≡ merge_walk false (e ∷ es) fs
  unfolding merge_walk
  merge_walk_later o = rw (o, merge_walk)

Chain-after-walk :
    (r : SegmentReference) (old new : References)
    → Chain r old
    → StartsAfter r new
    → IsValid new
    → Chain r (after r (merge_walk false old new))
Chain-after-walk r [] fs c a v = unfold merge_walk after in Chain-renumber r fs a v
Chain-after-walk r (e ∷ es) [] c a v = unfold merge_walk renumber after in rw append-nil c
Chain-after-walk r (e ∷ es) (f ∷ fs) c a v = elim (start_order-cases e f) [
  | inl (o, lt) ↦
      rw (merge_walk_earlier e f es fs false o, after-push)
        (c.0, c.1, c.2, Chain-after-walk e es (f ∷ fs) c.3 lt v)
  | inr (inl (o, eq)) ↦
      rw (merge_walk_same e f es fs false o, after-push)
        (
          ground arith,
          ground arith,
          ground arith,
          Chain-after-walk (updated e f) es fs (Chain-updated e f es eq c.3)
              (StartsAfter-updated e f fs eq v) (IsValid-of_Chain f fs v.1),
        )
  | inr (inr (o, gt)) ↦
      rw (merge_walk_later e f es fs o) (
        Chain-after-walk r (e ∷ es) fs c (StartsAfter-trans r f fs a v) (IsValid-of_Chain f fs v.1))
]

-- The new references do not reach back before the old ones.
abbrev pub StartsWith : References → References → Type 0
StartsWith [] new = Unit
StartsWith (e ∷ es) [] = Unit
StartsWith (e ∷ es) (f ∷ fs) = e.start_time ≤ℤ f.start_time

append_rest-push :
    (new : References) (e : SegmentReference) (w : References × References)
    → append_rest new (push e w) ≡ e ∷ after e w
unfolding after push
append_rest-push new e (b, rest) = refl

-- Merging valid new references into a valid list, which they do not reach back before, gives a
-- valid list: positions follow one another and start times increase strictly.
pub merge-IsValid :
    (old new : References)
    → IsValid old
    → IsValid new
    → StartsWith old new
    → IsValid (merge old new)
unfolding merge
merge-IsValid [] new o n h = unfold merge_walk in n
merge-IsValid (e ∷ es) [] o n h = unfold merge_walk renumber in rw append-nil o
merge-IsValid (e ∷ es) (f ∷ fs) o n h = elim (start_order-cases e f) [
  | inl (p, lt) ↦
      rw (merge_walk_earlier e f es fs true p, append_rest-push)
        (o.0, Chain-after-walk e es (f ∷ fs) o.1 lt n)
  | inr (inl (p, eq)) ↦
      rw (merge_walk_same e f es fs true p, append_rest-push)
        (
          ground arith,
          Chain-after-walk (updated e f) es fs (Chain-updated e f es eq o.1)
              (StartsAfter-updated e f fs eq n) (IsValid-of_Chain f fs n.1),
        )
  | inr (inr (p, gt)) ↦ absurd (omega arith)
]

-- Every old reference keeps its place: its position and its start time.
abbrev pub Extends : References → References → Type 0
Extends [] ms = Unit
Extends (e ∷ es) [] = ⊥
Extends (e ∷ es) (m ∷ ms) =
    (m.position ≡ e.position) × (m.start_time ≡ e.start_time) × Extends es ms

Extends-refl : (rs xs : References) → Extends rs (rs ++ xs)
Extends-refl [] xs = tt
Extends-refl (r ∷ rs) xs = (refl, refl, Extends-refl rs xs)

Extends-after-walk :
    (r : SegmentReference) (old new : References) → Extends old (after r (merge_walk false old new))
Extends-after-walk r [] new = tt
Extends-after-walk r (e ∷ es) [] = unfold merge_walk renumber after in Extends-refl (e ∷ es) []
Extends-after-walk r (e ∷ es) (f ∷ fs) = elim (start_order-cases e f) [
  | inl (o, lt) ↦
      rw (merge_walk_earlier e f es fs false o, after-push)
        (refl, refl, Extends-after-walk e es (f ∷ fs))
  | inr (inl (o, eq)) ↦
      rw (merge_walk_same e f es fs false o, after-push)
        (ground arith, ground arith, Extends-after-walk (updated e f) es fs)
  | inr (inr (o, gt)) ↦ rw (merge_walk_later e f es fs o) (Extends-after-walk r (e ∷ es) fs)
]

-- An update that does not reach back never moves an old reference, valid or not.
pub merge-Extends : (old new : References) → StartsWith old new → Extends old (merge old new)
unfolding merge
merge-Extends [] new h = tt
merge-Extends (e ∷ es) [] h = unfold merge_walk renumber in Extends-refl (e ∷ es) []
merge-Extends (e ∷ es) (f ∷ fs) h = elim (start_order-cases e f) [
  | inl (p, lt) ↦
      rw (merge_walk_earlier e f es fs true p, append_rest-push)
        (refl, refl, Extends-after-walk e es (f ∷ fs))
  | inr (inl (p, eq)) ↦
      rw (merge_walk_same e f es fs true p, append_rest-push)
        (ground arith, ground arith, Extends-after-walk (updated e f) es fs)
  | inr (inr (p, gt)) ↦ absurd (omega arith)
]
