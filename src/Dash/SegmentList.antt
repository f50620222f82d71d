-- ===== src/Dash/SegmentList.antt =====
-- Namespace `SegmentList` (shaka/js/shaka-player.compiled.debug.js).
use shaka_player_embedded.Base.{
  ℕ, suc, ◌-◌, ◌*◌, ◌==◌, ltb, Bool, true, false, not, ◌&&◌, ◌||◌, Option, none, some, List, [],
  ◌∷◌, map, length, if◌then◌else◌, ℤ, pos, ◌+ℤ◌, is_some, Text, text_of,
}
use shaka_player_embedded.Dash.Xml.{Dom, find_children, parse_attr, parse_range}
use shaka_player_embedded.Dash.Mpd.{Levels, SegmentInfo, Timeline, levels, positive}
use shaka_player_embedded.Dash.Segments.{
  Checked, Segment, whole_file, with_end, range_or, fine, failed, dash_no_segment_info,
}

-- A "SegmentURL" element.
pub record MediaSegment : Type 0 where
  pub media_uri : Option Text
  pub start : ℕ
  pub end_byte : Option ℕ

pub record SegmentListInfo : Type 0 where
  pub segment_duration : Option ℕ
  pub start_time : ℤ
  pub start_number : ℕ
  pub timeline : Option Timeline
  pub media_segments : List MediaSegment

abbrev pub start_number_of : ℕ → ℕ
start_number_of n = if n == 0 then 1 else n

abbrev pub timeline_start : Option Timeline → ℤ
timeline_start (some (e ∷ es)) = e.start
timeline_start _ = pos 0

abbrev pub list_start : SegmentInfo → ℤ
list_start i = elim (positive i.segment_duration) [
  | some d ↦ pos (d * (start_number_of i.start_number - 1))
  | none ↦ timeline_start i.timeline
]

-- `parseSegmentListInfo_`, from the segment information and the media segments.
unfoldable pub parse_segment_list_info : SegmentInfo → List MediaSegment → SegmentListInfo
parse_segment_list_info i ms = record {
  segment_duration = i.segment_duration;
  start_time = list_start i;
  start_number = start_number_of i.start_number;
  timeline = i.timeline;
  media_segments = ms;
}

abbrev pub is_empty_timeline : Option Timeline → Bool
is_empty_timeline (some []) = true
is_empty_timeline _ = false

-- `checkSegmentListInfo_`, with the period's duration.
unfoldable pub check_segment_list_info : Option ℕ → SegmentListInfo → Checked SegmentListInfo
check_segment_list_info duration i =
    let is_unknown = not (is_some (positive i.segment_duration)) && not (is_some i.timeline) in
    if is_unknown && ltb 1 (length i.media_segments)
      || is_unknown && not (is_some (positive duration)) && length i.media_segments == 1
      || is_empty_timeline i.timeline
    then failed dash_no_segment_info
    else fine i

abbrev pub list_segment : (Option Text → List Text) → ℕ → ℤ → ℤ → MediaSegment → Segment
list_segment resolve position start_time end_time m = record {
  position = position;
  start_time = start_time;
  end_time = end_time;
  uris = resolve m.media_uri;
  start_byte = m.start;
  end_byte = m.end_byte;
}

-- The loop of `createSegmentReferences_` when a duration is known.
unfoldable pub by_duration :
    (Option Text → List Text) → ℕ → ℕ → ℤ → List MediaSegment → List Segment
by_duration resolve d position h [] = []
by_duration resolve d position h (m ∷ ms) =
    list_segment resolve position h (h +ℤ pos d) m
    ∷ by_duration resolve d (suc position) (h +ℤ pos d) ms

-- The same with a timeline: the loop stops with the shorter of the two.
unfoldable pub by_timeline :
    (Option Text → List Text) → ℕ → ℤ → Timeline → List MediaSegment → List Segment
by_timeline resolve position h [] ms = []
by_timeline resolve position h (e ∷ es) [] = []
by_timeline resolve position h (e ∷ es) (m ∷ ms) =
    list_segment resolve position h e.end_time m
    ∷ by_timeline resolve (suc position) e.end_time es ms

abbrev pub cut_to : Option Timeline → List MediaSegment → List MediaSegment
cut_to none ms = ms
cut_to (some []) ms = []
cut_to (some (e ∷ es)) [] = []
cut_to (some (e ∷ es)) (m ∷ ms) = m ∷ cut_to (some es) ms

-- `createSegmentReferences_`. With neither a duration nor a timeline the period's duration, which the
-- code adds to the start, is that of the one segment.
unfoldable pub create_segment_references :
    (Option Text → List Text) → ℕ → SegmentListInfo → List Segment
create_segment_references resolve period_duration i = elim i.segment_duration [
  | some d ↦ by_duration resolve d i.start_number i.start_time (cut_to i.timeline i.media_segments)
  | none ↦ elim i.timeline [
    | some t ↦ by_timeline resolve i.start_number i.start_time t i.media_segments
    | none ↦ by_duration resolve period_duration i.start_number i.start_time i.media_segments
  ]
]

module _ (dom : Dom) (number : Text → Option ℤ) where
  abbrev pub media_segment : dom.Element → MediaSegment
  media_segment e =
      let range =
        range_or whole_file
          (parse_attr dom e (text_of "mediaRange") (λ s. with_end (parse_range s)) none) in
      record { media_uri = dom.attribute e (text_of "media"); start = range.0; end_byte = range.1 }

  abbrev pub first_not_empty {ℓ} : {A : Type ℓ} → List (List A) → List A
  first_not_empty [] = []
  first_not_empty (as' ∷ []) = as'
  first_not_empty ([] ∷ bs ∷ rest) = first_not_empty (bs ∷ rest)
  first_not_empty ((a ∷ as') ∷ bs ∷ rest) = a ∷ as'

  -- `parseMediaSegments_`: of the first level that has any.
  unfoldable pub parse_media_segments : Levels dom.Element → List MediaSegment
  parse_media_segments l =
      map media_segment
        (first_not_empty (map (λ e. find_children dom e (text_of "SegmentURL")) (levels l)))
