-- ===== src/Playback/Stall.antt =====
-- Class `StallDetector` (shaka/js/shaka-player.compiled.debug.js) and its media element.
use shaka_player_embedded.Base.{
  ℕ, suc, ◌≤◌, ◌≡◌, refl, ◌↔◌, ◌⊎◌, inl, inr, Bool, true, false, not, ◌&&◌, ◌||◌, List, [], ◌∷◌,
  arith, if◌then◌else◌, All, ℤ, pos, ◌-ℤ◌, ◌≤ℤ◌, ◌<ℤ◌, ltb_ℤ, leb_ℤ, ◌==ℤ◌, -ℤ_parts, eq_of_parts,
}
use shaka_player_embedded.Playback.Ranges.{Ranges}

-- `hasContentFor_`: 0.1 seconds before a range and up to 0.5 seconds before its end.
unfoldable pub has_content_for : Ranges → ℤ → Bool
has_content_for [] t = false
has_content_for (r ∷ rs) t =
    not (ltb_ℤ t (r.start -ℤ pos 100000) || ltb_ℤ (r.end -ℤ pos 500000) t) || has_content_for rs t

abbrev pub is_nil : Ranges → Bool
is_nil [] = true
is_nil (r ∷ rs) = false

-- `shouldBeMakingProgress`, of a media element.
unfoldable pub should_be_making_progress : Bool → ℤ → Ranges → ℤ → Bool
should_be_making_progress paused playback_rate buffered current_time =
    if paused || playback_rate ==ℤ pos 0 || is_nil buffered
    then false
    else has_content_for buffered current_time

pub record StallDetector : Type 0 where
  pub was_making_progress : Bool
  pub value : ℤ
  pub last_update : ℤ
  pub did_jump : Bool
  pub stall_threshold : ℤ

-- What the implementation answers during one poll: `presentation` before the stall listener is
-- called, and `presentation_after` once it has been, if it is.
pub record Reading : Type 0 where
  pub should : Bool
  pub presentation : ℤ
  pub wall : ℤ
  pub presentation_after : ℤ

unfoldable pub new : Bool → ℤ → ℤ → ℤ → StallDetector
new should presentation wall threshold = record {
  was_making_progress = should;
  value = presentation;
  last_update = wall;
  did_jump = false;
  stall_threshold = threshold;
}

abbrev pub same_flag : Bool → Bool → Bool
same_flag true b = b
same_flag false b = not b

abbrev pub moved : StallDetector → Reading → Bool
moved d r = not (d.value ==ℤ r.presentation) || not (same_flag d.was_making_progress r.should)

-- The first statement of `poll`.
unfoldable pub note_progress : StallDetector → Reading → StallDetector
note_progress d r =
    if moved d r
    then record d {
      last_update = r.wall;
      value = r.presentation;
      was_making_progress = r.should;
      did_jump = false;
    }
    else d

abbrev pub is_stalled : StallDetector → Reading → Bool
is_stalled d r = leb_ℤ d.stall_threshold (r.wall -ℤ d.last_update) && r.should && not d.did_jump

abbrev pub after_stall : StallDetector → Reading → StallDetector
after_stall d r = record d { did_jump = true; value = r.presentation_after }

-- `poll`: the detector, and whether the listener was called.
unfoldable pub poll : StallDetector → Reading → StallDetector × Bool
poll d r =
    let d' = note_progress d r in if is_stalled d' r then (after_stall d' r, true) else (d', false)

abbrev pub count : Bool → ℕ → ℕ
count true n = suc n
count false n = n

-- How often a run of polls calls the listener.
unfoldable pub stalls : StallDetector → List Reading → ℕ
stalls d [] = 0
stalls d (r ∷ rs) = count (poll d r).1 (stalls (poll d r).0 rs)

-- Readings between which the playhead stands at `t`, and should move.
abbrev pub Stuck : ℤ → Reading → Type 0
Stuck t r = (r.presentation ≡ t) × (r.presentation_after ≡ t) × (r.should ≡ true)

abbrev IsJumped : ℤ → StallDetector → Type 0
IsJumped t d = (d.value ≡ t) × (d.was_making_progress ≡ true) × (d.did_jump ≡ true)

note_jumped :
    (t : ℤ) (d : StallDetector) (r : Reading) → IsJumped t d → Stuck t r → note_progress d r ≡ d
unfolding note_progress
note_jumped t d r j s = ground arith

note-Stuck :
    (t : ℤ) (d : StallDetector) (r : Reading)
    → Stuck t r
    → ((note_progress d r).value ≡ t) × ((note_progress d r).was_making_progress ≡ true)
unfolding note_progress
note-Stuck t d r s = ground (arith, eq_of_parts d.value r.presentation)

poll_jumped :
    (t : ℤ) (d : StallDetector) (r : Reading) → IsJumped t d → Stuck t r → poll d r ≡ (d, false)
unfolding poll
poll_jumped t d r j s = ground (arith, note_jumped t d r j s)

poll-Stuck :
    (t : ℤ) (d : StallDetector) (r : Reading)
    → Stuck t r
    → ((poll d r).1 ≡ false) ⊎ ((poll d r).1 ≡ true) × IsJumped t (poll d r).0
unfolding poll
poll-Stuck t d r s = ground (arith, note-Stuck t d r s)

stalls_jumped :
    (t : ℤ) (d : StallDetector) (rs : List Reading)
    → IsJumped t d
    → All (Stuck t) rs
    → stalls d rs ≡ 0
unfolding stalls
stalls_jumped t d [] j h = refl
stalls_jumped t d (r ∷ rs) j (s, h) = rw (poll_jumped t d r j s) (stalls_jumped t d rs j h)

-- While the playhead stands still, however often the detector polls, it reports one stall at most.
pub stalls-le-one :
    (t : ℤ) (d : StallDetector) (rs : List Reading) → All (Stuck t) rs → stalls d rs ≤ 1
unfolding stalls
stalls-le-one t d [] h = omega arith
stalls-le-one t d (r ∷ rs) (s, h) = elim (poll-Stuck t d r s) [
  | inl e ↦ rw e (stalls-le-one t (poll d r).0 rs h)
  | inr (e, j) ↦ rw (e, stalls_jumped t (poll d r).0 rs j h) (omega arith)
]

-- With a positive threshold, a poll reports a stall exactly when neither the position nor the
-- expectation has changed, progress is expected, no jump was made since they last changed, and that
-- was at least the threshold ago.
pub poll_stall_iff :
    (d : StallDetector) (r : Reading)
    → pos 0 <ℤ d.stall_threshold
    → ((poll d r).1 ≡ true) ↔ (
        (d.value ≡ r.presentation)
        × (d.was_making_progress ≡ r.should)
        × (r.should ≡ true)
        × (d.did_jump ≡ false)
        × (d.stall_threshold ≤ℤ r.wall -ℤ d.last_update))
unfolding poll note_progress
poll_stall_iff d r p = (
  (λ h. ground (arith, eq_of_parts d.value r.presentation, -ℤ_parts r.wall r.wall)),
  λ h. ground (arith, -ℤ_parts r.wall r.wall),
)
