-- ===== src/Hls/Tests.antt =====
-- Tags, playlists and segments at concrete inputs.
use Prim.Native.String.{String}
use shaka_player_embedded.Base.{
  ℕ, ◌≡◌, refl, Option, none, some, List, [], ◌∷◌, Text, text_of, All, arith, ℤ, pos, ◌+ℤ◌, split,
}
use shaka_player_embedded.Binary.Reader as Reader
use shaka_player_embedded.Binary.Reader.{bytes_at, read_uint, skip, skip_to}
use shaka_player_embedded.Media.SegmentIndex.{SegmentReference, References}
use shaka_player_embedded.Media.SegmentIndex.Merge.{IsValid}
use shaka_player_embedded.Hls.Required.{Outcome, done, get_required_tag}
use shaka_player_embedded.Hls.Segments.{
  InitSegmentReference, create_segments, create_segment_reference, create_init_segment_reference,
  segments_from, duration_of,
}
use shaka_player_embedded.Hls.Segments.Valid.{IsPositive, create_segments-IsValid}
use shaka_player_embedded.Hls.TransportStream.{
  get_start_time_from_ts_segment, walk_packets, read_packet, read_start, read_time, starts_at,
}
use shaka_player_embedded.Hls.TransportStream.Ends.{Ends, get_start_time_from_ts_segment-Ends}
use shaka_player_embedded.Hls.Tags.{
  parse_tag, starts_with, span, read_value, read_attributes, read_attribute, quoted, unquoted,
  is_comment, get_first_tag_with_name, filter_tags_by_name,
}
use shaka_player_embedded.Hls.Playlist.{
  Segment, media, parsed, parse_playlist, parse_lines, parse_segments, playlist_type_of,
}

a_tag :
    parse_tag 3 (text_of "#EXT-X-MAP:URI=\"a,b\",N=5")
    ≡ some (record {
      id = 3;
      name = text_of "EXT-X-MAP";
      attributes =
          record { name = text_of "URI"; value = text_of "a,b" }
          ∷ record { name = text_of "N"; value = text_of "5" }
          ∷ [];
      value = none;
    })
unfolding parse_tag starts_with span read_value read_attributes read_attribute quoted unquoted
a_tag = refl

trim_nothing : Text → Text
trim_nothing s = s

take_second : Text → Text → Text
take_second a b = b

a_playlist :
    parse_playlist trim_nothing take_second (text_of "m") 0 (
      text_of "#EXTM3U"
      ∷ text_of "#EXT-X-TARGETDURATION:6"
      ∷ text_of "# a comment"
      ∷ text_of "#EXTINF:5,"
      ∷ text_of "a.ts"
      ∷ text_of "#EXT-X-ENDLIST"
      ∷ [])
    ≡ parsed (record {
      absolute_uri = text_of "m";
      playlist_type = media;
      tags =
          record {
            id = 0;
            name = text_of "EXT-X-TARGETDURATION";
            attributes = [];
            value = some (text_of "6");
          }
          ∷ record { id = 3; name = text_of "EXT-X-ENDLIST"; attributes = []; value = none }
          ∷ [];
      segments = some (
          record {
            absolute_uri = text_of "a.ts";
            tags =
                record {
                  id = 2;
                  name = text_of "EXTINF";
                  attributes = [];
                  value = some (text_of "5");
                }
                ∷ [];
          }
          ∷ []);
    })
unfolding parse_playlist parse_lines parse_segments playlist_type_of parse_tag starts_with span
    read_value read_attributes read_attribute is_comment trim_nothing take_second
a_playlist = refl

-- A packet that starts an elementary stream, with a time stamp of one tick.
abbrev a_packet : List ℕ
a_packet = 71 ∷ 64 ∷ 0 ∷ 16 ∷ 0 ∷ 0 ∷ 1 ∷ 224 ∷ 0 ∷ 0 ∷ 128 ∷ 128 ∷ 5 ∷ 33 ∷ 0 ∷ 1 ∷ 0 ∷ 3 ∷ []

a_packet_starts : get_start_time_from_ts_segment a_packet ≡ starts_at 1
unfolding get_start_time_from_ts_segment walk_packets read_packet read_start read_time read_uint
    bytes_at skip skip_to Reader.new
a_packet_starts = refl

get_start_time_from_ts_segment-Ends_example : Ends (get_start_time_from_ts_segment a_packet)
get_start_time_from_ts_segment-Ends_example = get_start_time_from_ts_segment-Ends a_packet

abbrev five_seconds : Text → ℤ
five_seconds s = pos 5000000

abbrev no_integer : Text → ℕ
no_integer s = 0

abbrev no_string : Text → String
no_string s = ""

abbrev at_zero : Option InitSegmentReference → SegmentReference → Outcome ℤ
at_zero init r = done (pos 0)

abbrev same_uri : Text → Text
same_uri s = s

abbrev a_segment : Segment
a_segment = record {
  absolute_uri = text_of "a.ts";
  tags =
      record { id = 1; name = text_of "EXTINF"; attributes = []; value = some (text_of "5,") } ∷ [];
}

abbrev a_reference : ℕ → ℤ → ℤ → SegmentReference
a_reference n start end_time = record {
  position = n;
  start_time = start;
  end_time = end_time;
  uris = "" ∷ [];
  start_byte = 0;
  end_byte = none;
}

abbrev two_references : References
two_references =
    a_reference 7 (pos 0) (pos 5000000) ∷ a_reference 8 (pos 5000000) (pos 10000000) ∷ []

two_segments :
    create_segments five_seconds no_integer no_string same_uri at_zero
      (record {
        absolute_uri = text_of "m";
        playlist_type = media;
        tags = [];
        segments = some (a_segment ∷ a_segment ∷ []);
      })
      7
    ≡ done two_references
unfolding create_segments create_segment_reference create_init_segment_reference segments_from
    duration_of get_required_tag get_first_tag_with_name filter_tags_by_name split ◌+ℤ◌
two_segments = refl

segments-IsPositive :
    All
      (λ t.
        IsPositive five_seconds no_integer no_string
          (duration_of five_seconds no_integer no_string t))
      (a_segment ∷ a_segment ∷ [])
unfolding duration_of get_required_tag get_first_tag_with_name filter_tags_by_name
segments-IsPositive = omega arith

create_segments-IsValid_example : IsValid two_references
create_segments-IsValid_example =
    create_segments-IsValid five_seconds no_integer no_string same_uri at_zero (text_of "m") media
      [] (a_segment ∷ a_segment ∷ []) 7 two_references segments-IsPositive two_segments
