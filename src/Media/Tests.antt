-- ===== src/Media/Tests.antt =====
-- The theorems about `SegmentIndex` and `PresentationTimeline` at concrete inputs.
use shaka_player_embedded.Base.{
  ℕ, ◌*◌, ◌≡◌, refl, ◌⊎◌, true, false, none, some, [], ◌∷◌, ◌++◌, arith, get_elem?, All, pos,
  negsuc, ◌+ℤ◌, ◌-ℤ◌, ◌≤ℤ◌, ◌<ℤ◌, max_ℤ, fin, infinity, ◌≤number◌,
}
use shaka_player_embedded.Media.SegmentIndex.{
  SegmentReference, References, merge_walk, start_order, push, renumber, or_else, is_within,
  pop_unless, find, find_last, get, offset, merge, evict, fit, pop_late, shift_early, end_last_at,
}
use shaka_player_embedded.Media.SegmentIndex.Merge.{IsValid, Extends, merge-IsValid, merge-Extends}
use shaka_player_embedded.Media.SegmentIndex.Find.{Contains, get-find, get_elem}
use shaka_player_embedded.Media.SegmentIndex.Trim.{find-offset, find-evict, get-evict}
use shaka_player_embedded.Media.SegmentIndex.Fit.{
  StartsBefore, StartLate, EndEarly, EndsAt, Begins, fit_bounds, fit_split,
}
use shaka_player_embedded.Media.SegmentIndex.Session.{
  IsSound, here, next, merge_in, evict_at, step, act, Reach-IsSound,
}
use shaka_player_embedded.Media.Timeline.{
  PresentationTimeline, longest, or_zero, notify_segments, get_live_edge,
  get_segment_availability_end, get_seek_range_end, get_safe_seek_range_start, get_seek_range_start,
}
use shaka_player_embedded.Media.Timeline.Segments.{
  length_of, get_live_edge-notify_segments, notify_segments_bounds,
}
use shaka_player_embedded.Media.Timeline.Window.{
  safe_seek_range_start_bounds, get_seek_range_end_mono,
}

abbrev ref : ℕ → ℕ → ℕ → SegmentReference
ref p a b = record {
  position = p;
  start_time = pos (a * 1000000);
  end_time = pos (b * 1000000);
  uris = [];
  start_byte = 0;
  end_byte = none;
}

abbrev old : References
old = ref 3 0 10 ∷ ref 4 10 20 ∷ ref 5 20 25 ∷ []

-- An update: the last segment is now longer, and two more follow.
abbrev update : References
update = ref 1 10 20 ∷ ref 2 20 30 ∷ ref 3 30 40 ∷ ref 4 40 50 ∷ []

abbrev merged : References
merged = ref 3 0 10 ∷ ref 4 10 20 ∷ ref 5 20 30 ∷ ref 6 30 40 ∷ ref 7 40 50 ∷ []

abbrev update' : References
update' = ref 4 10 20 ∷ ref 5 20 30 ∷ ref 6 30 40 ∷ ref 7 40 50 ∷ []

merge_runs : merge old update ≡ merged
unfolding merge merge_walk start_order push renumber ◌-ℤ◌
merge_runs = refl

find_runs : find (pos 35000000) merged ≡ some 6
unfolding find or_else find_last is_within
find_runs = refl

fit_runs : fit (pos 32000000) merged ≡ ref 3 0 10 ∷ ref 4 10 20 ∷ ref 5 20 30 ∷ ref 6 30 32 ∷ []
unfolding fit end_last_at shift_early pop_late pop_unless
fit_runs = refl

merge-IsValid_example : IsValid (merge old update)
merge-IsValid_example = merge-IsValid old update (omega arith) (omega arith) (omega arith)

merge-Extends_example : Extends old (merge old update)
merge-Extends_example = merge-Extends old update (omega arith)

merge_step : step (merge_in update) (some old) ≡ some (some merged)
unfolding step act merge_runs
merge_step = refl

abbrev evicted : References
evicted = ref 4 10 20 ∷ ref 5 20 30 ∷ ref 6 30 40 ∷ ref 7 40 50 ∷ []

evict_step : step (evict_at (pos 10000000)) (some merged) ≡ some (some evicted)
unfolding step act evict
evict_step = refl

Reach-IsSound_example : IsSound (some evicted)
Reach-IsSound_example = Reach-IsSound {s = some old} {t = some evicted} (omega arith) (
    next (next here (merge_in update) (omega arith) merge_step) (evict_at (pos 10000000)) tt
      evict_step)

get-find_example :
    (s : SegmentReference) × (get 6 merged ≡ some s)
    × (Contains (pos 35000000) s ⊎ (pos 35000000 <ℤ s.start_time) × (get_elem? merged 0 ≡ some s))
get-find_example = get-find (pos 35000000) merged (omega arith) find_runs

get_elem_example : get 5 merged ≡ some (ref 5 20 30)
get_elem_example = get_elem merged 2 (ref 5 20 30) (omega arith) refl

find-offset_example :
    find (pos 35000000 +ℤ negsuc 4999999) (offset (negsuc 4999999) merged)
    ≡ find (pos 35000000) merged
find-offset_example = find-offset (negsuc 4999999) (pos 35000000) merged

find-evict_example : find (pos 35000000) (evict (pos 10000000) merged) ≡ some 6
find-evict_example =
    find-evict (pos 10000000) (pos 35000000) merged (omega arith) (omega arith) find_runs

get-evict_example : get 6 merged ≡ some (ref 6 30 40)
unfolding get evict
get-evict_example = get-evict (pos 10000000) merged 6 (omega arith) refl

fit_bounds_example :
    StartsBefore (pos 32000000) (fit (pos 32000000) merged)
    × EndsAt (pos 32000000) (fit (pos 32000000) merged)
    × Begins (fit (pos 32000000) merged)
fit_bounds_example = fit_bounds (pos 32000000) merged (omega arith) (omega arith)

fit_split_example :
    (early kept late : References) × (merged ≡ early ++ (kept ++ late))
    × EndEarly early
    × StartLate (pos 32000000) late
    × (fit (pos 32000000) merged ≡ end_last_at (pos 32000000) kept)
fit_split_example = fit_split (pos 32000000) merged

-- A live presentation that starts at second 100 of the clock, with a window of 30 seconds.
abbrev live : PresentationTimeline
live = record {
  presentation_start_time = some (pos 100000000);
  presentation_delay = pos 5000000;
  duration = infinity;
  segment_availability_duration = fin (pos 30000000);
  max_segment_duration = pos 1000000;
  max_segment_end_time = none;
  min_segment_start_time = none;
  clock_offset = pos 0;
  static = false;
  user_seek_start = pos 0;
  auto_correct_drift = true;
}

abbrev noted : PresentationTimeline
noted = notify_segments (pos 200000000) merged (pos 0) live

live_edge_runs : get_live_edge (pos 200000000) noted ≡ pos 50000000
unfolding notify_segments get_live_edge longest ◌-ℤ◌ ◌+ℤ◌
live_edge_runs = refl

get_live_edge-notify_segments_example :
    get_live_edge (pos 200000000) noted ≡ max_ℤ (pos 0) (or_zero noted.max_segment_end_time)
get_live_edge-notify_segments_example =
    get_live_edge-notify_segments (pos 200000000) (pos 0) (ref 3 0 10) update' live refl refl

notify_segments_bounds_example :
    All (λ q. or_zero noted.min_segment_start_time ≤ℤ q.start_time +ℤ pos 0) merged
    × All (λ q. length_of q ≤ℤ noted.max_segment_duration) merged
    × (pos 50000000 +ℤ pos 0 ≤ℤ or_zero noted.max_segment_end_time)
notify_segments_bounds_example =
    notify_segments_bounds (pos 200000000) (pos 0) (ref 3 0 10) update' live (omega arith)

safe_seek_range_start_bounds_example :
    (get_seek_range_start (pos 200000000) live
      ≤number get_safe_seek_range_start (pos 200000000) (pos 5000000) live)
    × (get_safe_seek_range_start (pos 200000000) (pos 5000000) live
        ≤number get_seek_range_end (pos 200000000) live)
safe_seek_range_start_bounds_example =
    safe_seek_range_start_bounds (pos 200000000) live (pos 5000000) (omega arith) (
      unfold get_seek_range_end get_segment_availability_end get_live_edge ◌-ℤ◌ ◌+ℤ◌ in omega arith)

get_seek_range_end_mono_example :
    (get_segment_availability_end (pos 200000000) live
      ≤number get_segment_availability_end (pos 201000000) live)
    × (get_seek_range_end (pos 200000000) live ≤number get_seek_range_end (pos 201000000) live)
get_seek_range_end_mono_example =
    get_seek_range_end_mono (pos 200000000) (pos 201000000) live (omega arith)
