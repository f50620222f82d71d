-- ===== src/Media/Timeline.antt =====
-- Class `PresentationTimeline` (shaka/js/shaka-player.compiled.debug.js). Times are in microseconds.
-- `now` is what `Date.now()` answers at the call, in microseconds. The asserts only log, so they are
-- no part of a method's result.
pub mod Segments
pub mod Window
use shaka_player_embedded.Base.{
  Bool, true, false, not, ◌&&◌, ◌||◌, Option, none, some, List, [], ◌∷◌, if◌then◌else◌, ℤ, pos,
  ◌+ℤ◌, ◌-ℤ◌, max_ℤ, min_ℤ, Number, fin, infinity, is_infinite, sub_number, add_number, min_number,
  max_number,
}
use shaka_player_embedded.Media.SegmentIndex.{SegmentReference, References}

pub record PresentationTimeline : Type 0 where
  pub presentation_start_time : Option ℤ
  pub presentation_delay : ℤ
  pub duration : Number
  pub segment_availability_duration : Number
  pub max_segment_duration : ℤ
  pub max_segment_end_time : Option ℤ
  pub min_segment_start_time : Option ℤ
  pub clock_offset : ℤ
  pub static : Bool
  pub user_seek_start : ℤ
  pub auto_correct_drift : Bool

-- The constructor; `maxSegmentDuration_` starts at one second.
unfoldable pub new : Option ℤ → ℤ → Bool → PresentationTimeline
new start delay correct = record {
  presentation_start_time = start;
  presentation_delay = delay;
  duration = infinity;
  segment_availability_duration = infinity;
  max_segment_duration = pos 1000000;
  max_segment_end_time = none;
  min_segment_start_time = none;
  clock_offset = pos 0;
  static = true;
  user_seek_start = pos 0;
  auto_correct_drift = correct;
}

-- Where a number is wanted, null counts as 0.
abbrev pub or_zero : Option ℤ → ℤ
or_zero none = pos 0
or_zero (some a) = a

unfoldable pub set_duration : Number → PresentationTimeline → PresentationTimeline
set_duration d t = record t { duration = d }

unfoldable pub set_clock_offset : ℤ → PresentationTimeline → PresentationTimeline
set_clock_offset a t = record t { clock_offset = a }

unfoldable pub set_static : Bool → PresentationTimeline → PresentationTimeline
set_static b t = record t { static = b }

unfoldable pub set_segment_availability_duration :
    Number → PresentationTimeline → PresentationTimeline
set_segment_availability_duration d t = record t { segment_availability_duration = d }

unfoldable pub set_delay : ℤ → PresentationTimeline → PresentationTimeline
set_delay a t = record t { presentation_delay = a }

unfoldable pub set_user_seek_start : ℤ → PresentationTimeline → PresentationTimeline
set_user_seek_start a t = record t { user_seek_start = a }

abbrev pub min_option : Option ℤ → ℤ → ℤ
min_option none a = a
min_option (some m) a = min_ℤ m a

unfoldable pub notify_min_segment_start_time : ℤ → PresentationTimeline → PresentationTimeline
notify_min_segment_start_time a t = record t {
  min_segment_start_time = some (min_option t.min_segment_start_time a);
}

unfoldable pub notify_max_segment_duration : ℤ → PresentationTimeline → PresentationTimeline
notify_max_segment_duration a t = record t { max_segment_duration = max_ℤ t.max_segment_duration a }

-- The `reduce` of `notifySegments`.
unfoldable pub longest : ℤ → References → ℤ
longest m [] = m
longest m (r ∷ rs) = longest (max_ℤ m (r.end_time -ℤ r.start_time)) rs

abbrev pub last_end : SegmentReference → References → ℤ
last_end r [] = r.end_time
last_end r (s ∷ rs) = last_end s rs

-- The last statement of `notifySegments`: where the start time is known and drift is corrected, the
-- start time is set so that the live edge is the end of the last segment.
abbrev pub corrected_start : ℤ → PresentationTimeline → Option ℤ
corrected_start now t = elim t.presentation_start_time [
  | none ↦ none
  | some start ↦
      if t.auto_correct_drift
      then some (now +ℤ t.clock_offset -ℤ or_zero t.max_segment_end_time -ℤ t.max_segment_duration)
      else some start
]

abbrev pub correct_drift : ℤ → PresentationTimeline → PresentationTimeline
correct_drift now t = record t { presentation_start_time = corrected_start now t }

unfoldable pub notify_segments : ℤ → References → ℤ → PresentationTimeline → PresentationTimeline
unfolding notify_min_segment_start_time
notify_segments now [] period_start t = t
notify_segments now (r ∷ rs) period_start t =
    let noted = notify_min_segment_start_time (r.start_time +ℤ period_start) t in
    correct_drift now (record noted {
      max_segment_duration = longest t.max_segment_duration (r ∷ rs);
      max_segment_end_time =
          some (max_ℤ (or_zero t.max_segment_end_time) (last_end r rs +ℤ period_start));
    })

abbrev pub offset_option : ℤ → Option ℤ → Option ℤ
offset_option a none = none
offset_option a (some b) = some (b +ℤ a)

unfoldable pub offset : ℤ → PresentationTimeline → PresentationTimeline
offset a t = record t {
  min_segment_start_time = offset_option a t.min_segment_start_time;
  max_segment_end_time = offset_option a t.max_segment_end_time;
}

unfoldable pub is_live : PresentationTimeline → Bool
is_live t = is_infinite t.duration && not t.static

unfoldable pub is_in_progress : PresentationTimeline → Bool
is_in_progress t = not (is_infinite t.duration) && not t.static

-- `getLiveEdge_`
unfoldable pub get_live_edge : ℤ → PresentationTimeline → ℤ
get_live_edge now t =
    max_ℤ (pos 0)
      (now +ℤ t.clock_offset -ℤ t.max_segment_duration -ℤ or_zero t.presentation_start_time)

unfoldable pub get_segment_availability_end : ℤ → PresentationTimeline → Number
unfolding is_live is_in_progress
get_segment_availability_end now t =
    if is_live t || is_in_progress t
    then min_number (fin (get_live_edge now t)) t.duration
    else t.duration

-- The start of what is available, where it ends at `e`, by `segmentAvailabilityDuration_`.
abbrev pub window_start : ℤ → Number → Number → Number
window_start user e infinity = fin user
window_start user e (fin d) = max_number (fin user) (sub_number e d)

unfoldable pub get_segment_availability_start : ℤ → PresentationTimeline → Number
get_segment_availability_start now t =
    window_start t.user_seek_start (get_segment_availability_end now t)
      t.segment_availability_duration

unfoldable pub get_seek_range_end : ℤ → PresentationTimeline → Number
unfolding is_live is_in_progress
get_seek_range_end now t = max_number (fin (pos 0)) (
    sub_number (get_segment_availability_end now t)
      (if is_live t || is_in_progress t then t.presentation_delay else pos 0))

-- The earliest time that the segments and the user's range allow.
abbrev pub earliest : PresentationTimeline → ℤ
earliest t = max_ℤ (or_zero t.min_segment_start_time) t.user_seek_start

-- The start of the seek range with a margin `a`, where the segments are available up to `e`, the
-- seek range ends at `s` and nothing is before `m`, by `segmentAvailabilityDuration_`.
abbrev pub safe_start : ℤ → Number → Number → ℤ → Number → Number
safe_start m e s a infinity = fin m
safe_start m e s a (fin d) = max_number (fin m) (min_number (add_number (sub_number e d) a) s)

unfoldable pub get_safe_seek_range_start : ℤ → ℤ → PresentationTimeline → Number
get_safe_seek_range_start now a t =
    safe_start (earliest t) (get_segment_availability_end now t) (get_seek_range_end now t) a
      t.segment_availability_duration

unfoldable pub get_seek_range_start : ℤ → PresentationTimeline → Number
get_seek_range_start now t = get_safe_seek_range_start now (pos 0) t

abbrev pub is_none : Option ℤ → Bool
is_none none = true
is_none (some a) = false

unfoldable pub using_presentation_start_time : PresentationTimeline → Bool
using_presentation_start_time t =
    if is_none t.presentation_start_time
      || (not (is_none t.max_segment_end_time) && t.auto_correct_drift)
    then false
    else true
