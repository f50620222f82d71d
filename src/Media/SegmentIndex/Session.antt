-- ===== src/Media/SegmentIndex/Session.antt =====
-- A `SegmentIndex` object over its life: a state is `references_`, null once `destroy` has run.
use mathlib.Core.Option.{some_inj}
use mathlib.Core.Path.{subst}
use shaka_player_embedded.Base.{◌≡◌, true, Option, none, some, ℤ}
use shaka_player_embedded.Media.SegmentIndex.{References, offset, merge, evict, fit, are_correct}
use shaka_player_embedded.Media.SegmentIndex.Merge.{
  IsValid, StartsWith, merge-IsValid, IsValid-are_correct,
}
use shaka_player_embedded.Media.SegmentIndex.Trim.{offset-IsValid, evict-IsValid}
use shaka_player_embedded.Media.SegmentIndex.Fit.{fit-IsValid}

abbrev pub State : Type 0
State = Option References

-- The methods that change the state.
pub data Action : Type 0 where
  offset_by evict_at fit_to : ℤ → Action
  merge_in replace_by : References → Action
  destroy : Action

-- What a method makes of a list.
unfoldable pub act : Action → References → State
act (offset_by a) rs = some (offset a rs)
act (evict_at a) rs = some (evict a rs)
act (fit_to a) rs = some (fit a rs)
act (merge_in new) rs = some (merge rs new)
act (replace_by new) rs = some new
act destroy rs = none

-- On a null list `replace` and `destroy` still work. The others read it, which is a TypeError:
-- `none` on the outside.
unfoldable pub step : Action → State → Option State
step a (some rs) = some (act a rs)
step (replace_by new) none = some (some new)
step destroy none = some none
step _ none = none

-- The new references of an update are valid, and do not reach back before those at hand.
abbrev pub IsFit : Action → State → Type 0
IsFit (merge_in new) (some rs) = IsValid new × StartsWith rs new
IsFit (replace_by new) _ = IsValid new
IsFit _ _ = Unit

abbrev pub IsSound : State → Type 0
IsSound none = Unit
IsSound (some rs) = IsValid rs

pub data Reach (s : State) : State → Type 0 where
  here : Reach s s
  next : {t u : State} → Reach s t → (a : Action) → IsFit a t → step a t ≡ some u → Reach s u

act-IsSound : (a : Action) (rs : References) → IsFit a (some rs) → IsValid rs → IsSound (act a rs)
unfolding act
act-IsSound (offset_by a) rs f v = offset-IsValid a rs v
act-IsSound (evict_at a) rs f v = evict-IsValid a rs v
act-IsSound (fit_to a) rs f v = fit-IsValid a rs v
act-IsSound (merge_in new) rs f v = merge-IsValid rs new v f.0 f.1
act-IsSound (replace_by new) rs f v = f
act-IsSound destroy rs f v = tt

step-IsSound :
    (a : Action) (t : State) {u : State} → IsFit a t → step a t ≡ some u → IsSound t → IsSound u
unfolding step
step-IsSound a (some rs) f e v = subst IsSound (some_inj.0 e) (act-IsSound a rs f v)
step-IsSound (replace_by new) none f e v = subst IsSound (some_inj.0 e) f
step-IsSound destroy none f e v = subst IsSound (some_inj.0 e) tt
step-IsSound _ none f e v = absurd (cc)

-- Every state that any sequence of calls reaches from a sound one is sound: the list, unless the
-- index is destroyed, is valid and passes the debug build's own `assertCorrectReferences_`.
pub Reach-IsSound : {s t : State} → IsSound s → Reach s t → IsSound t
Reach-IsSound v here = v
Reach-IsSound v (next r a f e) = step-IsSound a _ f e (Reach-IsSound v r)

pub Reach-are_correct :
    {s : State} {rs : References} → IsSound s → Reach s (some rs) → are_correct rs ≡ true
Reach-are_correct {rs = rs} v r = IsValid-are_correct rs (Reach-IsSound v r)
