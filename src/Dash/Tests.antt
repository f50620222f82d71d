-- ===== src/Dash/Tests.antt =====
-- The theorems about DASH at concrete inputs.
use shaka_player_embedded.Base.{
  ℕ, ◌<◌, ◌≤◌, ◌⊎◌, ◌≡◌, refl, Option, none, some, List, [], ◌∷◌, pos, negsuc, ◌-ℤ◌, ◌+ℤ◌, Text,
  text_of, to_upper, upper, arith,
}
use shaka_player_embedded.Dash.Xml.{digits, parse_range, range_at, parse_duration, part, points}
use shaka_player_embedded.Dash.Mpd.{
  TimePoint, create_timeline, walk_points, add_point, repeat_count, push_entries, set_last_end,
}
use shaka_player_embedded.Dash.Mpd.Contiguous.{IsContiguous, create_timeline-IsContiguous}
use shaka_player_embedded.Dash.Template.{
  Values, fill_uri_template, fill, identifier, strip_prefix, format, replacement, pad, to_string,
  digits_of,
}
use shaka_player_embedded.Dash.Channels.{count_bits, ones, count_bits_cases}
use shaka_player_embedded.Dash.Segments.{Representation, Segment}
use shaka_player_embedded.Dash.SegmentTemplate.{find_segment_position, get_segment_reference}
use shaka_player_embedded.Dash.SegmentTemplate.Duration.{Covers, find-get_Covers}

sample : Values
sample = record { id = some (text_of "a"); number = some 7; bandwidth = some 255; time = none }

sample_text :
    fill_uri_template (text_of "$RepresentationID$/$Number%03d$-$Bandwidth%01X$$$$Time$.m") sample
    ≡ text_of "a/007-FF$$Time$.m"
unfolding fill_uri_template fill identifier strip_prefix format digits replacement pad to_string
    digits_of to_upper sample upper
sample_text = refl

a_range : parse_range (text_of "bytes=10-255") ≡ some (10, 255)
unfolding parse_range range_at digits
a_range = refl

seconds_only : Text → Option ℕ
seconds_only s = some 1500

a_duration : parse_duration seconds_only (text_of "P1DT2M1.5S") ≡ some 86521500
unfolding parse_duration part points digits seconds_only
a_duration = refl

-- Two segments of 4 ticks, a gap of 2, and segments up to the end of the period, at 2 s.
abbrev elements : List TimePoint
elements =
    record { t = some 0; d = some 4; r = some (pos 1) }
    ∷ record { t = some 10; d = some 5; r = some (negsuc 0) }
    ∷ []

a_timeline :
    create_timeline 10 0 (some 2000) elements
    ≡ record { start = pos 0; end_time = pos 4; unscaled_start = pos 0 }
      ∷ record { start = pos 4; end_time = pos 10; unscaled_start = pos 4 }
      ∷ record { start = pos 10; end_time = pos 15; unscaled_start = pos 10 }
      ∷ record { start = pos 15; end_time = pos 20; unscaled_start = pos 15 }
      ∷ []
unfolding create_timeline walk_points add_point repeat_count push_entries set_last_end ◌-ℤ◌ ◌+ℤ◌
a_timeline = refl

create_timeline-IsContiguous_example : IsContiguous (create_timeline 10 0 (some 2000) elements)
create_timeline-IsContiguous_example = create_timeline-IsContiguous 10 0 (some 2000) elements

abbrev here : Representation
here = record { id = none; bandwidth = none; resolve = λ s. s ∷ [] }

position_of_25 : find_segment_position (some 30) 10 (pos 25) ≡ some 2
unfolding find_segment_position
position_of_25 = refl

find-get_Covers_example :
    (s : Segment) × (get_segment_reference here (text_of "$Number$") 1 (some 30) 10 2 ≡ some s)
    × Covers 25 s
find-get_Covers_example =
    find-get_Covers here (text_of "$Number$") 1 (some 30) 10 25 2 (omega arith) position_of_25

count_bits_cases_example :
    (2147483649 < 2147483648) × (count_bits 31 0 2147483649 ≡ some (ones 31 2147483649))
    ⊎ (2147483648 ≤ 2147483649) × ((fuel : ℕ) → count_bits fuel 0 2147483649 ≡ none)
count_bits_cases_example = count_bits_cases 2147483649 (omega arith)

six_channels : count_bits 31 0 63489 ≡ some 6
unfolding count_bits
six_channels = refl
