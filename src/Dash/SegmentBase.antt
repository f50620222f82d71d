-- ===== src/Dash/SegmentBase.antt =====
-- Namespace `SegmentBase` (shaka/js/shaka-player.compiled.debug.js).
use shaka_player_embedded.Base.{
  ℕ, Bool, not, ◌&&◌, Option, none, some, List, is_empty, if◌then◌else◌, ℤ, is_some, Text,
  same_text, text_of, or_empty,
}
use shaka_player_embedded.Dash.Xml.{Dom, parse_attr, parse_range}
use shaka_player_embedded.Dash.Mpd.{Levels, inherit_attribute, inherit_child}
use shaka_player_embedded.Dash.Segments.{
  Checked, InitSegment, has_container, whole_file, with_end, range_or, fine, failed,
  dash_no_segment_info, dash_unsupported_container, dash_webm_missing_init,
}

-- The guards of `createSegmentIndex_`: the container, the initialisation and the range of the index.
unfoldable pub check_segment_base :
    Bool → Text → Option InitSegment → Option (ℕ × ℕ) → Checked (ℕ × ℕ)
check_segment_base is_text container init range =
    if not is_text && not (has_container container)
    then failed dash_unsupported_container
    else if same_text container (text_of "webm") && not (is_some init)
    then failed dash_webm_missing_init
    else elim range [ none ↦ failed dash_no_segment_info | some r ↦ fine r ]

module _ (dom : Dom) (number : Text → Option ℤ) where
  -- `createInitSegment`
  unfoldable pub create_init_segment :
      (Text → List Text) → List Text → Levels dom.Element → Option InitSegment
  create_init_segment resolve base_uris l =
      elim (inherit_child dom number l (text_of "Initialization")) [
        | none ↦ none
        | some e ↦
            let source = or_empty (dom.attribute e (text_of "sourceURL")) in
            let range =
              range_or whole_file
                (parse_attr dom e (text_of "range") (λ s. with_end (parse_range s)) none) in
            some (record {
              uris = if is_empty source then base_uris else resolve source;
              start_byte = range.0;
              end_byte = range.1;
            })
      ]

  -- The range of the index of `createSegmentIndex_`, and where it is.
  unfoldable pub index_range : Levels dom.Element → Option (ℕ × ℕ)
  index_range l =
      let own = parse_range (or_empty (inherit_attribute dom number l (text_of "indexRange"))) in
      elim (inherit_child dom number l (text_of "RepresentationIndex")) [
        | none ↦ own
        | some e ↦ parse_attr dom e (text_of "range") parse_range own
      ]
