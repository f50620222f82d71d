-- ===== src/Media/SegmentIndex.antt =====
-- Classes `SegmentReference` and `SegmentIndex` (shaka/js/shaka-player.compiled.debug.js). The field
-- `references_` is a list; `destroy` makes it null, so a state is an `Option` of a list, and a method
-- on a null list is a TypeError.
pub mod Find
pub mod Merge
pub mod Trim
pub mod Fit
pub mod Session
use Prim.Native.String.{String}
use shaka_player_embedded.Base.{
  ℕ, suc, ◌+◌, ◌-◌, Bool, true, false, ◌&&◌, Option, none, some, List, [], ◌∷◌, ◌++◌, map, ltb,
  ◌==◌, if◌then◌else◌, get_elem?, ℤ, pos, ◌+ℤ◌, ◌-ℤ◌, ltb_ℤ, leb_ℤ, ◌==ℤ◌,
}

-- Times are in microseconds. `uris` is what the closure `getUris` returns.
pub record SegmentReference : Type 0 where
  pub position : ℕ
  pub start_time : ℤ
  pub end_time : ℤ
  pub uris : List String
  pub start_byte : ℕ
  pub end_byte : Option ℕ

abbrev pub References : Type 0
References = List SegmentReference

-- `getSize`: null when the end is not known, and when it is 0.
unfoldable pub get_size : SegmentReference → Option ℤ
get_size r = elim r.end_byte [
  | none ↦ none
  | some e ↦ if e == 0 then none else some (pos e -ℤ pos r.start_byte)
]

unfoldable pub is_within : ℤ → SegmentReference → Bool
is_within t r = leb_ℤ r.start_time t && ltb_ℤ t r.end_time

unfoldable pub or_else : Option ℕ → Option ℕ → Option ℕ
or_else none q = q
or_else (some p) q = some p

abbrev pub position_if : Bool → SegmentReference → Option ℕ
position_if b r = if b then some r.position else none

-- The loop of `find`: it runs from the last reference to the first.
unfoldable pub find_last : ℤ → References → Option ℕ
find_last t [] = none
find_last t (r ∷ rs) = or_else (find_last t rs) (position_if (is_within t r) r)

unfoldable pub find_before : ℤ → References → Option ℕ
find_before t [] = none
find_before t (r ∷ rs) = position_if (ltb_ℤ t r.start_time) r

unfoldable pub find : ℤ → References → Option ℕ
find t rs = or_else (find_last t rs) (find_before t rs)

unfoldable pub get : ℕ → References → Option SegmentReference
get p [] = none
get p (r ∷ rs) = if ltb p r.position then none else get_elem? (r ∷ rs) (p - r.position)

abbrev pub shift : ℤ → SegmentReference → SegmentReference
shift a r = record r { start_time = r.start_time +ℤ a; end_time = r.end_time +ℤ a }

unfoldable pub offset : ℤ → References → References
offset a rs = map (shift a) rs

pub data Order : Type 0 where
  earlier same later : Order

unfoldable pub start_order : SegmentReference → SegmentReference → Order
start_order e f =
    if ltb_ℤ e.start_time f.start_time
    then earlier
    else if ltb_ℤ f.start_time e.start_time
    then later
    else same

-- 0.1 < Math.abs(e.endTime - f.endTime)
abbrev pub differ_by_tenth : ℤ → ℤ → Bool
differ_by_tenth a b = if ltb_ℤ a b then ltb_ℤ (pos 100000) (b -ℤ a) else ltb_ℤ (pos 100000) (a -ℤ b)

-- What is pushed when both references start together.
abbrev pub updated : SegmentReference → SegmentReference → SegmentReference
updated e f =
    if differ_by_tenth e.end_time f.end_time then record f { position = e.position } else e

unfoldable pub push : SegmentReference → References × References → References × References
push r (b, rest) = (r ∷ b, rest)

-- The first two loops of `merge`: what they push, and what is left of the new references. The
-- flag says that no old reference has been passed, `0 == c`.
unfoldable pub merge_walk : Bool → References → References → References × References
merge_walk at_start [] fs = ([], fs)
merge_walk at_start (e ∷ es) [] = (e ∷ es, [])
merge_walk at_start (e ∷ es) (f ∷ fs) = elim (start_order e f) [
  | earlier ↦ push e (merge_walk false es (f ∷ fs))
  | same ↦ push (updated e f) (merge_walk false es fs)
  | later ↦ let rest = merge_walk at_start (e ∷ es) fs in if at_start then push f rest else rest
]

-- The last loop of `merge`: the remaining new references get the positions from `p` on.
unfoldable pub renumber : ℕ → References → References
renumber p [] = []
renumber p (f ∷ fs) = record f { position = p } ∷ renumber (suc p) fs

abbrev pub last_position : SegmentReference → References → ℕ
last_position r [] = r.position
last_position r (s ∷ rs) = last_position s rs

abbrev pub append_rest : References → References × References → References
append_rest new ([], rest) = new
append_rest new (r ∷ b, rest) = r ∷ (b ++ renumber (suc (last_position r b)) rest)

unfoldable pub merge : References → References → References
merge old new = append_rest new (merge_walk true old new)

unfoldable pub evict : ℤ → References → References
evict a [] = []
evict a (r ∷ rs) = let rest = evict a rs in if ltb_ℤ a r.end_time then r ∷ rs else rest

-- `fit`: the loop that pops references which start at or after the end `a` ...
abbrev pub pop_if : Bool → SegmentReference → References
pop_if b r = if b then [] else r ∷ []

unfoldable pub pop_unless : Bool → SegmentReference → References → References
pop_unless b r [] = pop_if b r
pop_unless b r (s ∷ ss) = r ∷ s ∷ ss

unfoldable pub pop_late : ℤ → References → References
pop_late a [] = []
pop_late a (r ∷ rs) = pop_unless (leb_ℤ a r.start_time) r (pop_late a rs)

-- ... the loop that shifts references which end at or before 0 ...
unfoldable pub shift_early : References → References
shift_early [] = []
shift_early (r ∷ rs) =
    let rest = shift_early rs in if leb_ℤ r.end_time (pos 0) then rest else r ∷ rs

-- ... and the last reference, which is made to end at `a`.
unfoldable pub end_last_at : ℤ → References → References
end_last_at a [] = []
end_last_at a (r ∷ []) = record r { end_time = a } ∷ []
end_last_at a (r ∷ s ∷ rs) = r ∷ end_last_at a (s ∷ rs)

unfoldable pub fit : ℤ → References → References
fit a rs = end_last_at a (shift_early (pop_late a rs))

-- `assertCorrectReferences_`
abbrev pub is_next : SegmentReference → SegmentReference → Bool
is_next d b =
    if b.position == d.position + 1
    then if ltb_ℤ d.start_time b.start_time
      then true
      else if ltb_ℤ b.start_time d.start_time
      then false
      else leb_ℤ d.end_time b.end_time
    else false

unfoldable pub are_correct : References → Bool
are_correct [] = true
are_correct (r ∷ []) = true
are_correct (r ∷ s ∷ rs) = is_next r s && are_correct (s ∷ rs)
