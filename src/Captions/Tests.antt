-- ===== src/Captions/Tests.antt =====
-- The theorems about texts at concrete inputs.
use shaka_player_embedded.Base.{
  ◌≡◌, refl, inr, true, some, [], ◌∷◌, pos, Text, text_of, infinity, arith, ◌+ℤ◌, join,
}
use shaka_player_embedded.Dash.Template.{strip_prefix}
use shaka_player_embedded.Dash.Xml.{digits, points}
use shaka_player_embedded.Captions.Cue.{new_cue, align_end}
use shaka_player_embedded.Captions.Settings.{
  parse_cue_setting, words_from, apply_settings, set_text_align, set_size, percent,
}
use shaka_player_embedded.Captions.Vtt.{
  cue, parse_cue, parse_times, parse_time, minutes_on, take_digits, expect, arrow, contains,
}
use shaka_player_embedded.Captions.Engine.{TextEngine, is_buffered, remove, is_buffered-remove}

as_it_is : Text → Text
as_it_is s = s

a_cue :
    parse_cue as_it_is (pos 1000) [] (
      text_of "one" ∷ text_of "00:01.500 --> 1:00:02.000 align:end size:50%" ∷ text_of "Hello" ∷ [])
    ≡ cue (record (new_cue (pos 2500) (pos 3603000) (text_of "Hello")) {
      text_align = align_end;
      size = text_of "50";
      id = text_of "one";
    })
unfolding parse_cue parse_times parse_time minutes_on take_digits expect arrow contains
    parse_cue_setting words_from apply_settings set_text_align set_size percent strip_prefix digits
    points as_it_is ◌+ℤ◌ join
a_cue = refl

abbrev ten_seconds : TextEngine
ten_seconds = record {
  has_parser = true;
  has_displayer = true;
  timestamp_offset = pos 0;
  append_window_start = pos 0;
  append_window_end = infinity;
  buffer_start = some (pos 0);
  buffer_end = some (pos 10);
}

is_buffered-remove_example :
    is_buffered (pos 7) (remove true (pos 0) (pos 5) ten_seconds) ≡ is_buffered (pos 7) ten_seconds
is_buffered-remove_example =
    is_buffered-remove true (pos 0) (pos 5) (pos 7) ten_seconds (inr (omega arith))
