-- ===== src/Captions/Cue.antt =====
-- Classes `Cue` and `CueRegion` (shaka/js/shaka-player.compiled.debug.js), with the fields that the
-- parser of WebVTT sets. Times are in milliseconds; a number with a point is kept as its text.
use shaka_player_embedded.Base.{ℕ, Bool, false, Option, none, [], ℤ, Text, text_of}

pub data PositionAlign : Type 0 where
  line_left line_right center auto : PositionAlign

pub data TextAlign : Type 0 where
  align_left align_right align_center align_start align_end : TextAlign

pub data LineAlign : Type 0 where
  line_center line_start line_end : LineAlign

pub data WritingMode : Type 0 where
  horizontal_tb vertical_lr vertical_rl : WritingMode

pub data LineInterpretation : Type 0 where
  line_number percentage : LineInterpretation

pub data Units : Type 0 where
  units_percentage units_lines : Units

pub record CueRegion : Type 0 where
  pub id : Text
  pub viewport_anchor_x : ℕ
  pub viewport_anchor_y : ℕ
  pub region_anchor_x : ℕ
  pub region_anchor_y : ℕ
  pub width : ℕ
  pub height : ℕ
  pub height_units : Units
  pub scrolls_up : Bool

abbrev pub new_region : CueRegion
new_region = record {
  id = [];
  viewport_anchor_x = 0;
  viewport_anchor_y = 0;
  region_anchor_x = 0;
  region_anchor_y = 0;
  width = 100;
  height = 100;
  height_units = units_percentage;
  scrolls_up = false;
}

pub record Cue : Type 0 where
  pub start_time : ℤ
  pub end_time : ℤ
  pub payload : Text
  pub region : CueRegion
  pub position : Option Text
  pub position_align : PositionAlign
  pub size : Text
  pub text_align : TextAlign
  pub writing_mode : WritingMode
  pub line_interpretation : LineInterpretation
  pub line : Option Text
  pub line_align : LineAlign
  pub id : Text

abbrev pub new_cue : ℤ → ℤ → Text → Cue
new_cue start_time end_time payload = record {
  start_time = start_time;
  end_time = end_time;
  payload = payload;
  region = new_region;
  position = none;
  position_align = auto;
  size = text_of "0";
  text_align = align_center;
  writing_mode = horizontal_tb;
  line_interpretation = line_number;
  line = none;
  line_align = line_start;
  id = [];
}
