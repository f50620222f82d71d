-- ===== src/Playback/Tests.antt =====
-- The theorems about the playhead's observers at concrete inputs.
use shaka_player_embedded.Base.{
  ℕ, ◌*◌, ◌≤◌, ◌≡◌, refl, ◌↔◌, List, Bool, true, false, leb, none, some, [], ◌∷◌, arith, ℤ, pos,
  negsuc, ◌-ℤ◌, ◌≤ℤ◌, fin,
}
use shaka_player_embedded.Playback.Ranges.{
  Range, Ranges, is_trivial, buffered_ahead_of, time_after, get_gap_index, gap_from,
  buffered_ahead_of-time_after,
}
use shaka_player_embedded.Playback.Buffering
use shaka_player_embedded.Playback.Buffering.{
  BufferingObserver, poll_all, poll_all-InBand, update, update_starving_iff, update-false_iff,
  starving, satisfied, threshold,
}
use shaka_player_embedded.Playback.Stall
use shaka_player_embedded.Playback.Stall.{
  StallDetector, Reading, note_progress, stalls, stalls-le-one, poll_stall_iff,
}
use shaka_player_embedded.Playback.Gap.{Video, Config, Answers, GapJumpingController}
use shaka_player_embedded.Playback.Rate.{PlayRateController, apply, IsApplied, apply-IsApplied}
use shaka_player_embedded.Playback.Periods.{Period}
use shaka_player_embedded.Playback.Regions.{Region}
use shaka_player_embedded.Playback.Regions.Distinct.{run, add, filter, IsDistinct, run-IsDistinct}

abbrev period : ℕ → ℕ → Period
period k t = record { object = k; start_time = pos t; variants = [] }

abbrev periods : List Period
periods = period 0 0 ∷ period 1 30 ∷ period 2 60 ∷ []

abbrev range : ℕ → ℕ → Range
range a b = record { start = pos (a * 1000000); end = pos (b * 1000000) }

abbrev ranges : Ranges
ranges = range 0 10 ∷ range 12 20 ∷ []

buffered_ahead_of-time_after_example :
    buffered_ahead_of ranges (pos 4000000) ≡ time_after (pos 4000000) ranges
unfolding is_trivial
buffered_ahead_of-time_after_example =
    buffered_ahead_of-time_after ranges (pos 4000000) (omega arith, omega arith, omega arith) refl

gap_runs : get_gap_index false ranges (pos 9950000) ≡ some 1
unfolding get_gap_index gap_from is_trivial ◌-ℤ◌
gap_runs = refl

abbrev observer : BufferingObserver
observer = Buffering.new (pos 10) (pos 2)

abbrev detector : StallDetector
detector = Stall.new true (pos 7) (pos 0) (pos 3)

abbrev stuck_at : ℕ → Reading
stuck_at w = record {
  should = true;
  presentation = pos 7;
  wall = pos w;
  presentation_after = pos 7;
}

stalls-le-one_example : stalls detector (stuck_at 2 ∷ stuck_at 4 ∷ stuck_at 9 ∷ []) ≤ 1
stalls-le-one_example =
    stalls-le-one (pos 7) detector (stuck_at 2 ∷ stuck_at 4 ∷ stuck_at 9 ∷ [])
      ((refl, refl, refl), ((refl, refl, refl), ((refl, refl, refl), tt)))

poll_stall_iff_example : ((Stall.poll detector (stuck_at 4)).1 ≡ true) ↔ (
    (detector.value ≡ pos 7)
    × (detector.was_making_progress ≡ true)
    × (true ≡ true)
    × (detector.did_jump ≡ false)
    × (detector.stall_threshold ≤ℤ pos 4 -ℤ detector.last_update))
unfolding Stall.new
poll_stall_iff_example = poll_stall_iff detector (stuck_at 4) (omega arith)

abbrev config : Config
config = record { small_gap_limit = pos 500000; jump_large_gaps = true }

abbrev answers : Answers
answers = record {
  is_coarse = false;
  wall = pos 0;
  presentation_after = pos 0;
  seek_range_end = fin (pos 60000000);
  default_prevented = false;
}

abbrev video : Video
video = record {
  ready_state = 2;
  seeking = false;
  paused = false;
  playback_rate = pos 1;
  current_time = pos 9950000;
  buffered = ranges;
}

abbrev controller : GapJumpingController
controller = record {
  seeking_event_received = false;
  prev_ready_state = 2;
  did_fire_large_gap = false;
  had_segment_appended = true;
  stall_detector = none;
}

-- An element that plays at 0, 1 and 2.
abbrev up_to_two : ℤ → Bool
up_to_two (pos n) = leb n 2
up_to_two (negsuc n) = false

abbrev rewinding : PlayRateController
rewinding = record {
  is_buffering = false;
  rate = negsuc 0;
  is_ticking = false;
  harness_rate = pos 1;
}

apply-IsApplied_example :
    (c' : PlayRateController) × (apply up_to_two rewinding ≡ some c')
    × IsApplied up_to_two c'
    × (c'.rate ≡ negsuc 0)
    × (c'.is_buffering ≡ false)
apply-IsApplied_example = apply-IsApplied up_to_two rewinding refl

abbrev region : ℕ → ℕ → ℕ → Region
region k a b = record {
  object = k;
  scheme_id_uri = "urn:scte";
  id = "ad";
  start_time = pos a;
  end_time = pos b;
}

run-IsDistinct_example :
    IsDistinct (run (add (region 1 5 9) ∷ add (region 2 5 9) ∷ filter (pos 3) ∷ []) [])
run-IsDistinct_example =
    run-IsDistinct (add (region 1 5 9) ∷ add (region 2 5 9) ∷ filter (pos 3) ∷ []) [] tt
