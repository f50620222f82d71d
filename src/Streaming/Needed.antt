-- ===== src/Streaming/Needed.antt =====
-- Which period a time or a stream is in, and which segment of a stream is needed next (class
-- `StreamingEngine`, shaka/js/shaka-player.compiled.debug.js).
use shaka_player_embedded.Base.{
  ℕ, suc, ◌-◌, ◌==◌, Bool, false, ◌||◌, Option, none, some, List, [], ◌∷◌, ◌++◌, map, any, flatten,
  get_elem?, to_list, if◌then◌else◌, ℤ, pos, ◌+ℤ◌, ◌-ℤ◌, ◌≤ℤ◌, ltb_ℤ, max_ℤ, ◌==ℤ◌,
}
use shaka_player_embedded.Media.SegmentIndex.{SegmentReference}
use shaka_player_embedded.Playback.Periods
use shaka_player_embedded.Streaming.State.{MediaState, Period, Variant, World}

abbrev pub same_id : Option ℕ → ℕ → Bool
same_id none i = false
same_id (some j) i = i == j

-- The streams of a variant, with the trick mode of its video.
abbrev pub variant_streams : World → Variant → List ℕ
variant_streams w v =
    to_list v.audio_stream
    ++ elim v.video_stream [ none ↦ [] | some s ↦ s ∷ to_list (w.streams s).trick_mode ]

unfoldable pub period_streams : World → Period → List ℕ
period_streams w p = flatten (map (variant_streams w) p.variants) ++ p.text_streams

abbrev pub containing_from : World → ℕ → ℕ → List Period → Option ℕ
containing_from w s i [] = none
containing_from w s i (p ∷ ps) =
    let rest = containing_from w s (suc i) ps in
    if any (λ t. s == t) (period_streams w p) then some i else rest

-- `findPeriodContainingStream_`; none is -1.
unfoldable pub find_period_containing_stream : World → ℕ → Option ℕ
find_period_containing_stream w s = containing_from w s 0 w.periods

abbrev pub numbered : ℕ → List Period → List Periods.Period
numbered i [] = []
numbered i (p ∷ ps) =
    record { object = i; start_time = p.start_time; variants = [] } ∷ numbered (suc i) ps

abbrev pub number_of : Option Periods.Period → ℕ
number_of none = 0
number_of (some p) = p.object

-- `findPeriodForTime_`. On whole microseconds the tolerance of a fifteenth of a second is this one.
unfoldable pub find_period_for_time : World → ℤ → ℕ
find_period_for_time w t =
    number_of (Periods.find_period_for_time (numbered 0 w.periods) (t +ℤ pos 66666))

abbrev pub period_start : World → ℕ → ℤ
period_start w i = elim (get_elem? w.periods i) [ none ↦ pos 0 | some p ↦ p.start_time ]

abbrev pub start_of_stream : World → ℕ → ℤ
start_of_stream w s = elim (find_period_containing_stream w s) [
  | none ↦ pos 0
  | some i ↦ period_start w i
]

-- `getTimeNeeded_`
unfoldable pub get_time_needed : World → MediaState → ℤ
get_time_needed w m = elim m.last_stream [
  | none ↦ max_ℤ w.time m.resume_at
  | some s ↦ elim m.last_reference [
    | none ↦ max_ℤ w.time m.resume_at
    | some r ↦ start_of_stream w s +ℤ r.end_time
  ]
]

-- `lookupSegmentPosition_`
unfoldable pub lookup_segment_position : World → MediaState → ℤ → ℕ → Option ℕ
lookup_segment_position w m t i =
    (w.streams m.stream).find_position (max_ℤ (pos 0) (t -ℤ period_start w i))

abbrev pub is_outside : World → ℤ → SegmentReference → Bool
is_outside w start r =
    ltb_ℤ (start +ℤ r.end_time) w.availability_start
    || ltb_ℤ w.availability_end (start +ℤ r.start_time)

abbrev pub if_inside : World → ℤ → Option SegmentReference → Option SegmentReference
if_inside w start none = none
if_inside w start (some r) = if is_outside w start r then none else some r

-- `getSegmentReferenceIfAvailable_`
unfoldable pub get_segment_reference_if_available :
    World → MediaState → ℕ → ℕ → Option SegmentReference
get_segment_reference_if_available w m i p =
    if_inside w (period_start w i) ((w.streams m.stream).get_reference p)

abbrev pub or_reference :
    Option SegmentReference → Option SegmentReference → Option SegmentReference
or_reference none r = r
or_reference (some q) r = some q

-- At an empty buffer the segment before the one that is found is tried first.
abbrev pub at_position : World → MediaState → Option ℤ → ℕ → Option ℕ → Option SegmentReference
at_position w m end i none = none
at_position w m none i (some p) =
    or_reference (get_segment_reference_if_available w m i (p - 1))
      (get_segment_reference_if_available w m i p)
at_position w m (some end) i (some p) = get_segment_reference_if_available w m i p

-- `bufferEnd || presentationTime`
abbrev pub or_time : Option ℤ → ℤ → ℤ
or_time none t = t
or_time (some end) t = if end ==ℤ pos 0 then t else end

abbrev pub lookup_time : World → MediaState → Option ℤ → SegmentReference → ℤ
lookup_time w m end r = elim m.last_stream [
  | none ↦ r.end_time
  | some s ↦ start_of_stream w s +ℤ r.end_time
]

-- `getSegmentReferenceNeeded_`, for the period with the index `i`.
unfoldable pub get_segment_reference_needed :
    World → MediaState → Option ℤ → ℕ → Option SegmentReference
get_segment_reference_needed w m end i = elim m.last_reference [
  | none ↦ at_position w m end i (lookup_segment_position w m (or_time end w.time) i)
  | some r ↦
      if same_id m.last_stream m.stream
      then get_segment_reference_if_available w m i (suc r.position)
      else at_position w m end i (lookup_segment_position w m (lookup_time w m end r) i)
]

-- A segment of the period that is not wholly outside of what is available.
abbrev pub IsAvailable : World → ℕ → Option SegmentReference → Type 0
IsAvailable w i none = Unit
IsAvailable w i (some r) =
    (w.availability_start ≤ℤ period_start w i +ℤ r.end_time)
    × (period_start w i +ℤ r.start_time ≤ℤ w.availability_end)
