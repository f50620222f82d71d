-- ===== src/Playback/Buffering.antt =====
-- Class `BufferingObserver` (shaka/js/shaka-player.compiled.debug.js): whether the player has enough
-- content ahead, with one threshold to start playing again and another to stop.
use shaka_player_embedded.Base.{
  ◌≡◌, refl, ap, ◌↔◌, Bool, true, false, not, ◌||◌, List, [], ◌∷◌, arith, if◌then◌else◌, All, ℤ,
  ◌≤ℤ◌, ◌<ℤ◌, leb_ℤ,
}

pub data State : Type 0 where
  starving satisfied : State

-- `thresholds_` is a Map with one entry for each state.
pub record BufferingObserver : Type 0 where
  pub previous_state : State
  pub when_starving : ℤ
  pub when_satisfied : ℤ

unfoldable pub new : ℤ → ℤ → BufferingObserver
new a b = record { previous_state = satisfied; when_starving = a; when_satisfied = b }

unfoldable pub set_thresholds : ℤ → ℤ → BufferingObserver → BufferingObserver
set_thresholds a b o = record o { when_starving = a; when_satisfied = b }

abbrev pub threshold : State → BufferingObserver → ℤ
threshold starving o = o.when_starving
threshold satisfied o = o.when_satisfied

abbrev pub same_state : State → State → Bool
same_state starving starving = true
same_state satisfied satisfied = true
same_state _ _ = false

abbrev pub state_for : Bool → State
state_for b = if b then satisfied else starving

-- `update(bufferLead, bufferedToEnd)`: the new observer, and whether its state changed.
unfoldable pub update : ℤ → Bool → BufferingObserver → BufferingObserver × Bool
update lead to_end o =
    let next = state_for (to_end || leb_ℤ (threshold o.previous_state o) lead) in
    (record o { previous_state = next }, not (same_state o.previous_state next))

unfoldable pub set_state : State → BufferingObserver → BufferingObserver
set_state s o = record o { previous_state = s }

abbrev previous_state_of : BufferingObserver → State
previous_state_of o = o.previous_state

-- A run of polls, none of which has content to the end.
unfoldable pub poll_all : List ℤ → BufferingObserver → BufferingObserver
poll_all [] o = o
poll_all (lead ∷ leads) o = poll_all leads (update lead false o).0

-- A lead in the band between the two thresholds.
abbrev pub InBand : BufferingObserver → ℤ → Type 0
InBand o lead = (o.when_satisfied ≤ℤ lead) × (lead <ℤ o.when_starving)

update-InBand :
    (lead : ℤ) (o : BufferingObserver) → InBand o lead → update lead false o ≡ (o, false)
unfolding update
update-InBand lead o h = ground arith

-- While the lead stays in the band between the thresholds, no number of polls changes the state, so
-- the player does not flicker between playing and buffering.
pub poll_all-InBand :
    (leads : List ℤ) (o : BufferingObserver) → All (InBand o) leads → poll_all leads o ≡ o
unfolding poll_all
poll_all-InBand [] o h = refl
poll_all-InBand (lead ∷ leads) o (b, h) = rw (update-InBand lead o b) (poll_all-InBand leads o h)

-- After a poll the player is starving exactly when content does not reach the end and the lead is
-- below the threshold of the state before.
pub update_starving_iff :
    (lead : ℤ) (to_end : Bool) (o : BufferingObserver)
    → ((update lead to_end o).0.previous_state ≡ starving)
      ↔ ((to_end ≡ false) × (lead <ℤ threshold o.previous_state o))
unfolding update
update_starving_iff lead to_end o = ((λ h. ground arith), λ h. ground arith)

-- `update` answers false exactly when it leaves the observer as it was.
pub update-false_iff :
    (lead : ℤ) (to_end : Bool) (o : BufferingObserver)
    → ((update lead to_end o).1 ≡ false) ↔ ((update lead to_end o).0 ≡ o)
unfolding update
update-false_iff lead to_end o = ((λ h. ground arith), λ h. ground (arith, ap previous_state_of h))
