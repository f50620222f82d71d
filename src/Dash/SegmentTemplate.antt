-- ===== src/Dash/SegmentTemplate.antt =====
-- Namespace `SegmentTemplate` (shaka/js/shaka-player.compiled.debug.js).
pub mod Duration
use shaka_player_embedded.Base.{
  ℕ, zero, suc, ◌+◌, ◌-◌, ◌*◌, ◌/◌, ◌==◌, ltb, leb, min, Bool, true, false, not, ◌&&◌, ◌||◌, Option,
  none, some, List, [], ◌∷◌, ◌++◌, map, length, is_empty, if◌then◌else◌, ℤ, pos, negsuc, ◌+ℤ◌, ◌-ℤ◌,
  is_some, Text, or_text, same_text, text_of, or_empty,
}
use shaka_player_embedded.Dash.Xml.{Dom, find_children, parse_attr, parse_range}
use shaka_player_embedded.Dash.Mpd.{
  Levels, SegmentInfo, Timeline, TimelineEntry, inherit_attribute, inherit_child, levels, positive,
}
use shaka_player_embedded.Dash.Template.{Values, fill_uri_template}
use shaka_player_embedded.Dash.Segments.{
  ManifestError, Checked, Segment, InitSegment, has_text, Representation, values_of, has_container,
  whole_file, with_end, range_or, fine, failed, dash_no_segment_info, dash_unsupported_container,
  dash_webm_missing_init,
}

pub record TemplateInfo : Type 0 where
  pub segment_duration : Option ℕ
  pub timescale : ℕ
  pub start_number : ℕ
  pub presentation_time_offset : ℕ
  pub timeline : Option Timeline
  pub media_template : Option Text
  pub index_template : Option Text

-- Of several sources the index template comes first, and then the timeline.
abbrev pub choose_source : TemplateInfo → TemplateInfo
choose_source i =
    if has_text i.index_template
    then record i { timeline = none; segment_duration = none }
    else record i { segment_duration = none }

abbrev pub source_count : TemplateInfo → ℕ
source_count i =
    (if has_text i.index_template then 1 else 0)
    + (if is_some i.timeline then 1 else 0)
    + (if is_some (positive i.segment_duration) then 1 else 0)

abbrev pub with_template : TemplateInfo → Checked TemplateInfo
with_template i =
    if not (has_text i.index_template) && not (has_text i.media_template)
    then failed dash_no_segment_info
    else fine i

-- `checkSegmentTemplateInfo_`, which changes the information.
unfoldable pub check_segment_template_info : TemplateInfo → Checked TemplateInfo
check_segment_template_info i =
    if source_count i == 0
    then failed dash_no_segment_info
    else with_template (if source_count i == 1 then i else choose_source i)

abbrev pub is_after : ℕ → Option ℕ → Bool
is_after t none = false
is_after t (some d) = leb d t

-- `findSegmentPosition` of `createFromDuration_`: null before the period and behind it.
unfoldable pub find_segment_position : Option ℕ → ℕ → ℤ → Option ℕ
find_segment_position duration d (negsuc t) = none
find_segment_position duration d (pos t) =
    if is_after t (positive duration) then none else some (t / d)

abbrev pub cut_end : ℕ → Option ℕ → ℕ
cut_end t none = t
cut_end t (some d) = min t d

abbrev pub duration_segment : Representation → Text → ℕ → Option ℕ → ℕ → ℕ → Segment
duration_segment r template start_number duration d p = record {
  position = p;
  start_time = pos (p * d);
  end_time = pos (cut_end (p * d + d) (positive duration));
  uris =
      r.resolve (fill_uri_template template (values_of r (some (p + start_number)) (some (p * d))));
  start_byte = 0;
  end_byte = none;
}

-- `getSegmentReference` of `createFromDuration_`, at a position that is not negative.
unfoldable pub get_segment_reference : Representation → Text → ℕ → Option ℕ → ℕ → ℕ → Option Segment
get_segment_reference r template start_number duration d p =
    if is_after (p * d) (positive duration)
    then none
    else some (duration_segment r template start_number duration d p)

abbrev pub natural : ℤ → Option ℕ
natural (pos n) = some n
natural (negsuc n) = none

-- `createFromTimeline_`; the time in a URI is where the segment starts in the media.
unfoldable pub create_from_timeline : Representation → Text → ℕ → ℕ → Timeline → List Segment
create_from_timeline r template offset position [] = []
create_from_timeline r template offset position (e ∷ es) =
    record {
      position = position;
      start_time = e.start;
      end_time = e.end_time;
      uris = r.resolve (
          fill_uri_template template
            (values_of r (some position) (natural (e.unscaled_start +ℤ pos offset))));
      start_byte = 0;
      end_byte = none;
    }
    ∷ create_from_timeline r template offset (suc position) es

-- The guards of `createFromIndexTemplate_`, on the subtype of the representation.
unfoldable pub check_index_template : Text → Option InitSegment → Checked Text
check_index_template container init =
    if not (has_container container)
    then failed dash_unsupported_container
    else if same_text container (text_of "webm") && not (is_some init)
    then failed dash_webm_missing_init
    else fine container

-- The URI of the index.
unfoldable pub index_uris : Representation → Text → List Text
index_uris r template = r.resolve (fill_uri_template template (values_of r none none))

module _ (dom : Dom) (number : Text → Option ℤ) where
  -- `createInitSegment_` of `SegmentTemplate`
  unfoldable pub create_template_init : Representation → Levels dom.Element → Option InitSegment
  create_template_init r l =
      let template = or_empty (inherit_attribute dom number l (text_of "initialization")) in
      if is_empty template
      then none
      else some (record {
        uris = r.resolve (fill_uri_template template (values_of r none none));
        start_byte = 0;
        end_byte = none;
      })

  -- `parseSegmentTemplateInfo_`
  unfoldable pub parse_segment_template_info : Levels dom.Element → SegmentInfo → TemplateInfo
  parse_segment_template_info l i = record {
    segment_duration = i.segment_duration;
    timescale = i.timescale;
    start_number = i.start_number;
    presentation_time_offset = i.presentation_time_offset;
    timeline = i.timeline;
    media_template = inherit_attribute dom number l (text_of "media");
    index_template = inherit_attribute dom number l (text_of "index");
  }
