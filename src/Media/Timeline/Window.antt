-- ===== src/Media/Timeline/Window.antt =====
-- The seek range and the availability window of `PresentationTimeline`.
use shaka_player_embedded.Base.{
  ◌≡◌, arith, ℤ, pos, ◌+ℤ◌, ◌-ℤ◌, ◌≤ℤ◌, max_ℤ, +ℤ_parts, -ℤ_parts, Number, max_number, fin,
  infinity, sub_number, add_number, ◌≤number◌,
}
use shaka_player_embedded.Media.Timeline.{
  PresentationTimeline, or_zero, earliest, safe_start, window_start, get_live_edge,
  get_segment_availability_end, get_segment_availability_start, get_seek_range_end,
  get_safe_seek_range_start, get_seek_range_start,
}

add-zero_ℤ : (a : ℤ) → a +ℤ pos 0 ≡ a
unfolding ◌+ℤ◌
add-zero_ℤ a = ground arith

safe_start-le :
    (m : ℤ) (e s : Number) (a : ℤ) (d : Number) → fin m ≤number s → safe_start m e s a d ≤number s
safe_start-le m e s a infinity h = h
safe_start-le m (fin e) (fin s) a (fin d) h = ground arith
safe_start-le m infinity (fin s) a (fin d) h = ground arith
safe_start-le m (fin e) infinity a (fin d) h = tt
safe_start-le m infinity infinity a (fin d) h = tt

safe_start_mono :
    (m : ℤ) (e s : Number) (a b : ℤ) (d : Number)
    → a ≤ℤ b
    → safe_start m e s a d ≤number safe_start m e s b d
safe_start_mono m e s a b infinity h = omega arith
safe_start_mono m (fin e) (fin s) a b (fin d) h =
    ground (arith, +ℤ_parts (e -ℤ d) a, +ℤ_parts (e -ℤ d) b)
safe_start_mono m (fin e) infinity a b (fin d) h =
    ground (arith, +ℤ_parts (e -ℤ d) a, +ℤ_parts (e -ℤ d) b)
safe_start_mono m infinity (fin s) a b (fin d) h = ground arith
safe_start_mono m infinity infinity a b (fin d) h = tt

width : (u : ℤ) (e : Number) (d : ℤ) → e ≤number add_number (window_start u e (fin d)) d
width u (fin e) d = ground (arith, -ℤ_parts e d, +ℤ_parts u d, +ℤ_parts (e -ℤ d) d)
width u infinity d = tt

max_mono : (a b : ℤ) → a ≤ℤ b → max_ℤ (pos 0) a ≤ℤ max_ℤ (pos 0) b
max_mono a b h = ground arith

module _ (now : ℤ) (t : PresentationTimeline) where
  -- Where the earliest time is not past the end of the seek range, a safety margin that is not
  -- negative never moves the start of the seek range back, nor past the end of the range.
  pub safe_seek_range_start_bounds :
      (a : ℤ)
      → pos 0 ≤ℤ a
      → fin (earliest t) ≤number get_seek_range_end now t
      → (get_seek_range_start now t ≤number get_safe_seek_range_start now a t)
        × (get_safe_seek_range_start now a t ≤number get_seek_range_end now t)
  unfolding get_seek_range_start get_safe_seek_range_start
  safe_seek_range_start_bounds a p h = (
    safe_start_mono (earliest t) (get_segment_availability_end now t) (get_seek_range_end now t)
        (pos 0) a t.segment_availability_duration p,
    safe_start-le (earliest t) (get_segment_availability_end now t) (get_seek_range_end now t) a
        t.segment_availability_duration h,
  )

  -- With a finite window the available segments start at most that long before they end.
  pub availability_width :
      {d : ℤ}
      → t.segment_availability_duration ≡ fin d
      → get_segment_availability_end now t
        ≤number add_number (get_segment_availability_start now t) d
  unfolding get_segment_availability_start
  availability_width {d} h = simp h (width t.user_seek_start (get_segment_availability_end now t) d)

get_live_edge_mono :
    (now later : ℤ) (t : PresentationTimeline)
    → now ≤ℤ later
    → get_live_edge now t ≤ℤ get_live_edge later t
unfolding get_live_edge
get_live_edge_mono now later t h =
    max_mono (now +ℤ t.clock_offset -ℤ t.max_segment_duration -ℤ or_zero t.presentation_start_time)
      (later +ℤ t.clock_offset -ℤ t.max_segment_duration -ℤ or_zero t.presentation_start_time)
      (omega (arith, +ℤ_parts now t.clock_offset, +ℤ_parts later t.clock_offset, -ℤ_parts))

get_segment_availability_end_mono :
    (now later : ℤ) (t : PresentationTimeline)
    → now ≤ℤ later
    → get_segment_availability_end now t ≤number get_segment_availability_end later t
unfolding get_segment_availability_end
get_segment_availability_end_mono now later t h = ground (arith, get_live_edge_mono now later t h)

clamp_mono :
    (a b : Number) (d : ℤ)
    → a ≤number b
    → max_number (fin (pos 0)) (sub_number a d) ≤number max_number (fin (pos 0)) (sub_number b d)
clamp_mono (fin a) (fin b) d h = ground (arith, -ℤ_parts a d, -ℤ_parts b d)
clamp_mono (fin a) infinity d h = tt
clamp_mono infinity (fin b) d h = elim h [ ]
clamp_mono infinity infinity d h = tt

-- Time moves the end of what is available and the end of the seek range forward only.
pub get_seek_range_end_mono :
    (now later : ℤ) (t : PresentationTimeline)
    → now ≤ℤ later
    → (get_segment_availability_end now t ≤number get_segment_availability_end later t)
      × (get_seek_range_end now t ≤number get_seek_range_end later t)
unfolding get_seek_range_end
get_seek_range_end_mono now later t h =
    let m = get_segment_availability_end_mono now later t h in (m, clamp_mono _ _ _ m)
