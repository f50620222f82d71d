-- ===== src/Dash/Segments.antt =====
-- What `SegmentBase`, `SegmentList` and `SegmentTemplate` (shaka/js/shaka-player.compiled.debug.js) share.
-- Times are in ticks of the timescale, and the period's duration too.
use shaka_player_embedded.Base.{
  ℕ, Bool, not, ◌||◌, Option, none, some, List, is_empty, ℤ, Text, same_text, text_of, or_empty,
}
use shaka_player_embedded.Dash.Mpd.{positive}
use shaka_player_embedded.Dash.Template.{Values}

pub data ManifestError : Type 0 where
  dash_no_segment_info dash_unsupported_container dash_webm_missing_init : ManifestError

pub data Checked {ℓ} (A : Type ℓ) : Type ℓ where
  fine : A → Checked A
  failed : ManifestError → Checked A

-- A segment; a missing end of its bytes is null.
pub record Segment : Type 0 where
  pub position : ℕ
  pub start_time : ℤ
  pub end_time : ℤ
  pub uris : List Text
  pub start_byte : ℕ
  pub end_byte : Option ℕ

pub record InitSegment : Type 0 where
  pub uris : List Text
  pub start_byte : ℕ
  pub end_byte : Option ℕ

abbrev pub has_text : Option Text → Bool
has_text s = not (is_empty (or_empty s))

-- A representation: its id, its bandwidth, and how its URIs are resolved.
pub record Representation : Type 0 where
  pub id : Option Text
  pub bandwidth : Option ℕ
  pub resolve : Text → List Text

abbrev pub values_of : Representation → Option ℕ → Option ℕ → Values
values_of r number time = record {
  id = r.id;
  number = number;
  bandwidth = positive r.bandwidth;
  time = time;
}

abbrev pub has_container : Text → Bool
has_container s = same_text s (text_of "mp4") || same_text s (text_of "webm")

abbrev pub whole_file : ℕ × Option ℕ
whole_file = (0, none)

abbrev pub with_end : Option (ℕ × ℕ) → Option (ℕ × Option ℕ)
with_end none = none
with_end (some (a, b)) = some (a, some b)

abbrev pub range_or : (ℕ × Option ℕ) → Option (ℕ × Option ℕ) → ℕ × Option ℕ
range_or d none = d
range_or d (some r) = r
