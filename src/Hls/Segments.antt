-- ===== src/Hls/Segments.antt =====
-- The segments of a playlist, and whether it is live, in class `HlsParser`
-- (shaka/js/shaka-player.compiled.debug.js). What `Number` makes of a text is a parameter, in microseconds or
-- as a whole number: a text that is not a number is left aside.
pub mod Valid
use Prim.Native.String.{String}
use shaka_player_embedded.Base.{
  ℕ, suc, ◌+◌, ◌-◌, max, ◌==◌, leb, ltb, Bool, true, false, not, ◌&&◌, ◌||◌, Option, none, some,
  List, [], ◌∷◌, ◌++◌, is_some, if◌then◌else◌, Text, text_of, same_text, is_empty, split, or_empty,
  ℤ, pos, ◌+ℤ◌, Number, fin, infinity, min_number,
}
use shaka_player_embedded.Streams.Codecs.{first_part}
use shaka_player_embedded.Media.SegmentIndex.{SegmentReference, References}
use shaka_player_embedded.Hls.Tags.{
  Tag, get_attribute_value, filter_tags_by_name, get_first_tag_with_name,
}
use shaka_player_embedded.Hls.Playlist.{Segment, Playlist}
use shaka_player_embedded.Hls.Required.{
  hls_multiple_media_init_sections_found, type_error, Outcome, done, fail, ◌>>=◌,
  get_required_attribute_value, get_required_tag,
}

pub data PresentationType : Type 0 where
  vod event live : PresentationType

abbrev pub has_some_value : Text → Option Tag → Bool
has_some_value v none = false
has_some_value v (some t) = same_text (or_empty t.value) v

-- `determinePresentationType_`: the type of a playlist.
unfoldable pub presentation_type_of : List Tag → PresentationType
presentation_type_of ts =
    let playlist_type = get_first_tag_with_name ts (text_of "EXT-X-PLAYLIST-TYPE") in
    if has_some_value (text_of "VOD") playlist_type
      || is_some (get_first_tag_with_name ts (text_of "EXT-X-ENDLIST"))
    then vod
    else if has_some_value (text_of "EVENT") playlist_type
    then event
    else live

abbrev pub is_live : PresentationType → Bool
is_live vod = false
is_live _ = true

-- The second part of a text, where there is one.
abbrev pub second_part : List Text → Text
second_part (s ∷ t ∷ ts) = t
second_part _ = []

-- What the parser notes of target durations.
pub record Targets : Type 0 where
  pub presentation_type : PresentationType
  pub max_target_duration : ℕ
  pub min_target_duration : Number

pub record InitSegmentReference : Type 0 where
  pub uri : Text
  pub start_byte : ℕ
  pub end_byte : Option ℕ

module _ (seconds : Text → ℤ) (integer : Text → ℕ) (string_of : Text → String) where
  abbrev pub with_target : PresentationType → Targets → Tag → Outcome Targets
  with_target p d t =
      let duration = integer (or_empty t.value) in
      done (record {
        presentation_type = p;
        max_target_duration = max duration d.max_target_duration;
        min_target_duration = min_number (fin (pos duration)) d.min_target_duration;
      })

  unfoldable pub determine_presentation_type : List Tag → Targets → Outcome Targets
  determine_presentation_type ts d =
      let p = presentation_type_of ts in
      if is_live p
      then get_required_tag ts (text_of "EXT-X-TARGETDURATION") >>= with_target p d
      else done (record d { presentation_type = p })

  -- The length and the start of a byte range.
  abbrev pub init_range : Text → InitSegmentReference → InitSegmentReference
  init_range s r =
      let start = integer (second_part (split b'@' s)) in
      record r {
        start_byte = start;
        end_byte = some (start + integer (first_part (split b'@' s)) - 1);
      }

  abbrev pub init_of : Option Text → Text → Option InitSegmentReference
  init_of range uri =
      let whole : InitSegmentReference = record { uri = uri; start_byte = 0; end_byte = none } in
      elim range [
        | none ↦ some whole
        | some s ↦ some (if is_empty s then whole else init_range s whole)
      ]

  abbrev pub init_from : (Text → Text) → List Tag → Outcome (Option InitSegmentReference)
  init_from absolute [] = done none
  init_from absolute (t ∷ []) = get_required_attribute_value t (text_of "URI") >>= λ uri.
      done (init_of (get_attribute_value (text_of "BYTERANGE") none t) (absolute uri))
  init_from absolute (t ∷ u ∷ ts) = fail hls_multiple_media_init_sections_found

  -- `createInitSegmentReference_`; `absolute` resolves a URI.
  unfoldable pub create_init_segment_reference :
      (Text → Text) → List Tag → Outcome (Option InitSegmentReference)
  create_init_segment_reference absolute ts =
      init_from absolute (filter_tags_by_name ts (text_of "EXT-X-MAP"))

  -- The duration of a segment, from its EXTINF tag.
  abbrev pub duration_in : Tag → Outcome ℤ
  duration_in t = elim t.value [
    | none ↦ fail type_error
    | some v ↦ done (seconds (first_part (split b',' v)))
  ]

  unfoldable pub duration_of : Segment → Outcome ℤ
  duration_of s = get_required_tag s.tags (text_of "EXTINF") >>= duration_in

  -- The byte range of a segment: a range without a start follows that of the segment before.
  abbrev pub range_start : Option SegmentReference → Text → Outcome ℕ
  range_start previous [] = elim previous [
    | none ↦ fail type_error
    | some r ↦ done (elim r.end_byte [ none ↦ 1 | some e ↦ suc e ])
  ]
  range_start previous (c ∷ s) = done (integer (c ∷ s))

  abbrev pub range_in : Option SegmentReference → Text → Outcome (ℕ × Option ℕ)
  range_in previous s = range_start previous (second_part (split b'@' s)) >>= λ start.
      done (start, some (start + integer (first_part (split b'@' s)) - 1))

  abbrev pub range_of : Option SegmentReference → Option Tag → Outcome (ℕ × Option ℕ)
  range_of previous none = done (0, none)
  range_of previous (some t) = elim t.value [
    | none ↦ fail type_error
    | some s ↦ range_in previous s
  ]

  abbrev pub reference_of : Text → ℕ → ℤ → ℤ → ℕ × Option ℕ → SegmentReference
  reference_of uri position start duration range = record {
    position = position;
    start_time = start;
    end_time = start +ℤ duration;
    uris = string_of uri ∷ [];
    start_byte = range.0;
    end_byte = range.1;
  }

  -- `createSegmentReference_`
  unfoldable pub create_segment_reference :
      Option SegmentReference → Segment → ℕ → ℤ → Outcome SegmentReference
  create_segment_reference previous s position start = duration_of s >>= λ d.
      range_of previous (get_first_tag_with_name s.tags (text_of "EXT-X-BYTERANGE")) >>= λ range.
      done (reference_of s.absolute_uri position start d range)

  -- The loop of `createSegments_`: each segment starts where the one before it ends.
  unfoldable pub segments_from : Option SegmentReference → ℕ → ℤ → List Segment → Outcome References
  segments_from previous position start [] = done []
  segments_from previous position start (s ∷ ss) =
      create_segment_reference previous s position start >>= λ r.
      segments_from (some r) (suc position) r.end_time ss >>= λ rs. done (r ∷ rs)

  -- `createSegments_`, where `find_start` is `getStartTime_`.
  abbrev pub from_start :
      (Option InitSegmentReference → SegmentReference → Outcome ℤ)
      → Option InitSegmentReference
      → ℕ
      → List Segment
      → SegmentReference
      → Outcome References
  from_start find_start init position ss first_reference =
      find_start init first_reference >>= λ t. segments_from none position t ss

  unfoldable pub create_segments :
      (Text → Text)
      → (Option InitSegmentReference → SegmentReference → Outcome ℤ)
      → Playlist
      → ℕ
      → Outcome References
  create_segments absolute find_start p position = elim p.segments [
    | none ↦ fail type_error
    | some ss ↦ elim ss [
      | [] ↦ fail type_error
      | s ∷ rest ↦ create_segment_reference none s position (pos 0) >>= λ r.
          create_init_segment_reference absolute p.tags >>= λ init.
          from_start find_start init position (s ∷ rest) r
    ]
  ]
