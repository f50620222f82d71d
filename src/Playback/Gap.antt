-- ===== src/Playback/Gap.antt =====
-- Class `GapJumpingController` (shaka/js/shaka-player.compiled.debug.js), which moves the playhead
-- over gaps in the buffer. Its timer and the "waiting" event both call `onPollGapJump_`.
pub mod Safety
use shaka_player_embedded.Base.{
  ℕ, ◌≡◌, refl, ◌⊎◌, inl, inr, ◌==◌, Bool, true, false, not, ◌&&◌, ◌||◌, Option, none, some, ◌∙◌,
  arith, if◌then◌else◌, get_elem?, ℤ, pos, ◌+ℤ◌, ◌-ℤ◌, ◌≤ℤ◌, ◌<ℤ◌, ltb_ℤ, leb_ℤ, Number, fin,
  infinity, ◌<number◌, Bool-cases, Option-cases, -ℤ_parts,
}
use shaka_player_embedded.Playback.Ranges.{Range, Ranges, get_gap_index, get_gap_index-some}
use shaka_player_embedded.Playback.Stall
use shaka_player_embedded.Playback.Stall.{StallDetector, Reading, should_be_making_progress}

pub record Video : Type 0 where
  pub ready_state : ℕ
  pub seeking : Bool
  pub paused : Bool
  pub playback_rate : ℤ
  pub current_time : ℤ
  pub buffered : Ranges

pub record Config : Type 0 where
  pub small_gap_limit : ℤ
  pub jump_large_gaps : Bool

-- What one poll is answered from outside: the platform, the wall clock, the position after the stall
-- listener, the end of the seek range, and whether a listener prevents the default of "largegap".
pub record Answers : Type 0 where
  pub is_coarse : Bool
  pub wall : ℤ
  pub presentation_after : ℤ
  pub seek_range_end : Number
  pub default_prevented : Bool

pub record GapJumpingController : Type 0 where
  pub seeking_event_received : Bool
  pub prev_ready_state : ℕ
  pub did_fire_large_gap : Bool
  pub had_segment_appended : Bool
  pub stall_detector : Option StallDetector

unfoldable pub new : ℕ → Option StallDetector → GapJumpingController
new ready_state detector = record {
  seeking_event_received = false;
  prev_ready_state = ready_state;
  did_fire_large_gap = false;
  had_segment_appended = false;
  stall_detector = detector;
}

unfoldable pub on_seeking : GapJumpingController → GapJumpingController
on_seeking g = record g {
  seeking_event_received = true;
  did_fire_large_gap = false;
  had_segment_appended = false;
}

-- What a poll does to the outside: the event "largegap", and the time it assigns to `currentTime`.
pub record Effect : Type 0 where
  pub fired : Bool
  pub jump : Option ℤ

abbrev pub nothing : Effect
nothing = record { fired = false; jump = none }

-- A seek that the "seeking" event has not announced yet ends the poll.
abbrev pub is_unannounced : GapJumpingController → Video → Bool
is_unannounced g v = v.seeking && not g.seeking_event_received

abbrev pub note_seeking : GapJumpingController → Video → GapJumpingController
note_seeking g v = record g {
  seeking_event_received = if v.seeking then g.seeking_event_received else false;
}

abbrev pub note_ready_state : GapJumpingController → Video → GapJumpingController
note_ready_state g v =
    if v.ready_state == g.prev_ready_state
    then g
    else record g { did_fire_large_gap = false; prev_ready_state = v.ready_state }

abbrev pub reading : Answers → Video → Reading
reading a v = record {
  should = should_be_making_progress v.paused v.playback_rate v.buffered v.current_time;
  presentation = v.current_time;
  wall = a.wall;
  presentation_after = a.presentation_after;
}

abbrev pub poll_detector : Option StallDetector → Reading → Option StallDetector × Bool
poll_detector none r = (none, false)
poll_detector (some d) r = (some (Stall.poll d r).0, (Stall.poll d r).1)

abbrev pub is_at_or_past : ℤ → Number → Bool
is_at_or_past t (fin e) = leb_ℤ e t
is_at_or_past t infinity = false

abbrev pub fires : Config → GapJumpingController → ℤ → Bool
fires c g gap = not (leb_ℤ gap c.small_gap_limit) && not g.did_fire_large_gap

abbrev pub jumps : Config → Answers → GapJumpingController → ℤ → Bool
jumps c a g gap =
    leb_ℤ gap c.small_gap_limit || fires c g gap && c.jump_large_gaps && not a.default_prevented

-- The end of `onPollGapJump_`, once the next range `r` is known; 0.001 is BROWSER_GAP_TOLERANCE.
unfoldable pub jump_to :
    Config → Answers → GapJumpingController → ℤ → Range → GapJumpingController × Effect
jump_to c a g t r =
    if is_at_or_past r.start a.seek_range_end || ltb_ℤ (r.start -ℤ t) (pos 1000)
    then (g, nothing)
    else (
      record g { did_fire_large_gap = fires c g (r.start -ℤ t) || g.did_fire_large_gap },
      record {
        fired = fires c g (r.start -ℤ t);
        jump = if jumps c a g (r.start -ℤ t) then some r.start else none;
      },
    )

abbrev pub jump_to_index :
    Config → Answers → GapJumpingController → Video → Option ℕ → GapJumpingController × Effect
jump_to_index c a g v none = (g, nothing)
jump_to_index c a g v (some d) =
    if d == 0 && not g.had_segment_appended then (g, nothing) else elim (get_elem? v.buffered d) [
      | none ↦ (g, nothing)
      | some r ↦ jump_to c a g v.current_time r
    ]

unfoldable pub poll_stall_and_jump :
    Config → Answers → GapJumpingController → Video → GapJumpingController × Effect
poll_stall_and_jump c a g v =
    let w = poll_detector g.stall_detector (reading a v) in
    let g' = record g { stall_detector = w.0 } in
    if w.1
    then (g', nothing)
    else jump_to_index c a g' v (get_gap_index a.is_coarse v.buffered v.current_time)

unfoldable pub on_poll_gap_jump :
    Config → Answers → GapJumpingController → Video → GapJumpingController × Effect
on_poll_gap_jump c a g v =
    if v.ready_state == 0 || is_unannounced g v
    then (g, nothing)
    else if v.paused
    then (note_seeking g v, nothing)
    else poll_stall_and_jump c a (note_ready_state (note_seeking g v) v) v

unfoldable pub on_segment_appended :
    Config → Answers → GapJumpingController → Video → GapJumpingController × Effect
on_segment_appended c a g v = on_poll_gap_jump c a (record g { had_segment_appended = true }) v

-- What a jump may be: to the start of a buffered range, at least 1 ms ahead, inside the seek range,
-- and over a small gap, or over a large one where the configuration and the listeners allow it.
pub record IsSafeJump (c : Config) (a : Answers) (v : Video) (t : ℤ) : Type 0 where
  pub index : ℕ
  pub range : Range
  pub is_buffered : get_elem? v.buffered index ≡ some range
  pub at_start : t ≡ range.start
  pub is_ahead : v.current_time +ℤ pos 1000 ≤ℤ t
  pub in_seek_range : fin t <number a.seek_range_end
  pub is_allowed :
      (t -ℤ v.current_time ≤ℤ c.small_gap_limit)
      ⊎ (c.jump_large_gaps ≡ true) × (a.default_prevented ≡ false)
