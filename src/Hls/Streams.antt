-- ===== src/Hls/Streams.antt =====
-- The stream of a media playlist in class `HlsParser` (shaka/js/shaka-player.compiled.debug.js). The response
-- of the network, the decoding of the URI and the search for the first start time are parameters.
use Prim.Native.String.{String}
use shaka_player_embedded.Base.{
  ℕ, suc, Bool, true, false, not, ◌||◌, Option, none, some, List, [], ◌∷◌, ◌++◌, any, is_some,
  is_empty, if◌then◌else◌, Text, text_of, same_text, to_lower, or_empty, split, ℤ, pos, ◌-ℤ◌,
}
use shaka_player_embedded.Streams.Types.{ContentType, audio, video, text_type, DrmInfo}
use shaka_player_embedded.Streams.Codecs.{first_part}
use shaka_player_embedded.Streams.Locale.{normalize}
use shaka_player_embedded.Media.SegmentIndex.{SegmentReference, References}
use shaka_player_embedded.Hls.Tags.{
  Tag, get_attribute, get_attribute_value, get_first_tag_with_name,
}
use shaka_player_embedded.Hls.Playlist.{Segment, Playlist, PlaylistType, media, master}
use shaka_player_embedded.Hls.Codecs.{guess_codecs, guess_mime_type, raw_formats}
use shaka_player_embedded.Hls.Keys.{Keys, KeyResult, keys, skipped, keys_of}
use shaka_player_embedded.Hls.Segments.{
  InitSegmentReference, Targets, create_init_segment_reference, create_segments,
  determine_presentation_type,
}
use shaka_player_embedded.Hls.Required.{
  HlsError, Outcome, done, fail, ◌>>=◌, get_required_attribute_value, hls_internal_skip_stream,
  hls_invalid_playlist_hierarchy, type_error,
}

pub record HlsStream : Type 0 where
  pub id : ℕ
  pub original_id : Option Text
  pub init_segment_reference : Option InitSegmentReference
  pub presentation_time_offset : ℤ
  pub mime_type : Text
  pub codecs : Text
  pub kind : Option Text
  pub encrypted : Bool
  pub key_id : Option Text
  pub language : Text
  pub label : Option Text
  pub content_type : ContentType
  pub primary : Bool
  pub width : Option ℕ
  pub height : Option ℕ
  pub frame_rate : Option ℕ
  pub roles : List Text
  pub channels_count : Option ℕ
  pub closed_captions : Option (List (Text × Text))

pub record StreamInfo : Type 0 where
  pub stream : HlsStream
  pub segment_index : References
  pub drm_infos : List DrmInfo
  pub verbatim_media_playlist_uri : Text
  pub absolute_media_playlist_uri : Text
  pub min_timestamp : ℤ
  pub max_timestamp : ℤ
  pub duration : ℤ

-- What a tag tells of a stream.
pub record StreamTag : Type 0 where
  pub verbatim_uri : Text
  pub all_codecs : List Text
  pub content_type : ContentType
  pub language : Text
  pub primary : Bool
  pub name : Option Text
  pub channels_count : Option ℕ
  pub closed_captions : Option (List (Text × Text))
  pub characteristics : Option Text

-- What the parser keeps, as far as a playlist changes it.
pub record StreamState : Type 0 where
  pub global_id : ℕ
  pub targets : Targets
  pub segments_to_notify : List References
  pub aes_encrypted : Bool

abbrev pub is_media : PlaylistType → Bool
is_media media = true
is_media master = false

abbrev pub is_raw : Text → Bool
is_raw t = any (same_text t) raw_formats

abbrev pub characteristics_of : Option Text → List Text
characteristics_of none = []
characteristics_of (some s) = if is_empty s then [] else s ∷ []

abbrev pub kind_of : ContentType → Option Text
kind_of text_type = some (text_of "subtitle")
kind_of _ = none

abbrev pub end_of : SegmentReference → References → ℤ
end_of r [] = r.end_time
end_of r (s ∷ rs) = end_of s rs

-- The first position: the number of the media sequence.
abbrev pub position_of : (Text → ℕ) → Option Tag → ℕ
position_of integer none = 0
position_of integer (some t) = integer (or_empty t.value)

abbrev pub is_skip : HlsError → Bool
is_skip hls_internal_skip_stream = true
is_skip _ = false

-- `seconds`, `integer` and `string_of` are those of Hls/Segments; `data_of` is that of Hls/Keys;
-- `path_of` gives the path of a URI, `header_of` the type that a HEAD request answers for it.
module _ (seconds : Text → ℤ) (integer : Text → ℕ) (string_of : Text → String)
    (data_of : Text → Outcome (List ℕ)) (path_of : Text → Text) (header_of : Text → Option Text)
    (absolute : Text → Text) where
  abbrev pub stream_of :
      StreamTag → Keys → Text → Text → Option InitSegmentReference → ℕ → HlsStream
  stream_of g k mime codecs init id = record {
    id = id;
    original_id = g.name;
    init_segment_reference = init;
    presentation_time_offset = pos 0;
    mime_type = mime;
    codecs = codecs;
    kind = kind_of g.content_type;
    encrypted = k.encrypted;
    key_id = k.key_id;
    language = g.language;
    label = g.name;
    content_type = g.content_type;
    primary = g.primary;
    width = none;
    height = none;
    frame_rate = none;
    roles = characteristics_of g.characteristics;
    channels_count = g.channels_count;
    closed_captions = g.closed_captions;
  }

  abbrev pub Made : Type 0
  Made = Option StreamInfo × StreamState

  -- The stream of the segments that were made.
  abbrev pub info_of :
      StreamTag → Playlist → Keys → Text → Text → StreamState → References → Outcome Made
  info_of g p k mime codecs s [] = fail type_error
  info_of g p k mime codecs s (r ∷ rs) =
      create_init_segment_reference seconds integer string_of absolute p.tags >>= λ init. done (
        some (record {
          stream = stream_of g k mime codecs init s.global_id;
          segment_index = r ∷ rs;
          drm_infos = k.drm_infos;
          verbatim_media_playlist_uri = g.verbatim_uri;
          absolute_media_playlist_uri = p.absolute_uri;
          min_timestamp = r.start_time;
          max_timestamp = end_of r rs;
          duration = end_of r rs -ℤ r.start_time;
        }),
        record s {
          global_id = suc s.global_id;
          segments_to_notify = s.segments_to_notify ++ (r ∷ rs) ∷ [];
        },
      )

  -- A stream that the parser cannot read is passed over; any other error goes on.
  abbrev pub or_skipped :
      StreamTag → Playlist → Keys → Text → Text → StreamState → Outcome References → Outcome Made
  or_skipped g p k mime codecs s (done rs) = info_of g p k mime codecs s rs
  or_skipped g p k mime codecs s (fail x) = if is_skip x then done (none, s) else fail x

  abbrev pub with_mime :
      (Text → Text → Option InitSegmentReference → SegmentReference → Outcome ℤ)
      → StreamTag
      → Playlist
      → Keys
      → StreamState
      → Text
      → Text
      → Outcome Made
  with_mime find_start g p k s codecs mime =
      let own = if is_raw mime then [] else codecs in
      or_skipped g p k mime own s (
        create_segments seconds integer string_of absolute (find_start mime own) p
          (position_of integer (get_first_tag_with_name p.tags (text_of "EXT-X-MEDIA-SEQUENCE"))))

  abbrev pub with_keys :
      (Text → Text → Option InitSegmentReference → SegmentReference → Outcome ℤ)
      → StreamTag
      → Playlist
      → Segment
      → StreamState
      → KeyResult
      → Outcome Made
  with_keys find_start g p first_segment s skipped = done (none, record s { aes_encrypted = true })
  with_keys find_start g p first_segment s (keys k) =
      determine_presentation_type seconds integer string_of p.tags s.targets >>= λ t.
      guess_codecs g.content_type g.all_codecs >>= λ codecs.
      guess_mime_type g.content_type codecs (path_of first_segment.absolute_uri)
        (header_of first_segment.absolute_uri)
      >>= with_mime find_start g p k (record s { targets = t }) codecs

  -- `createStreamInfo_`, with the playlist that was fetched; `find_start` is `getStartTime_`. Null is
  -- a stream that is passed over.
  unfoldable pub create_stream_info :
      (Text → Text → Option InitSegmentReference → SegmentReference → Outcome ℤ)
      → StreamTag
      → Playlist
      → StreamState
      → Outcome Made
  create_stream_info find_start g p s =
      if not (is_media p.playlist_type)
      then fail hls_invalid_playlist_hierarchy
      else elim p.segments [
        | none ↦ fail type_error
        | some [] ↦ fail type_error
        | some (first_segment ∷ ss) ↦
            keys_of data_of (first_segment ∷ ss) >>= with_keys find_start g p first_segment s
      ]

-- `getChannelCount_`, where `parse_int` is that of the browser, in base 10.
unfoldable pub get_channel_count : (Text → Option ℕ) → Option Text → Option ℕ
get_channel_count parse_int none = none
get_channel_count parse_int (some s) =
    if is_empty s then none else parse_int (first_part (split b'/' s))

abbrev pub type_of : Text → Outcome ContentType
type_of t =
    if same_text t (text_of "subtitles") || same_text t (text_of "text")
    then done text_type
    else if same_text t (text_of "audio")
    then done audio
    else if same_text t (text_of "video")
    then done video
    else fail type_error

abbrev pub channels_for : (Text → Option ℕ) → ContentType → Option Text → Option ℕ
channels_for parse_int audio s = get_channel_count parse_int s
channels_for parse_int _ s = none

-- What a media tag tells, of `createStreamInfoFromMediaTag_`.
unfoldable pub media_stream_tag : (Text → Option ℕ) → Tag → List Text → Outcome StreamTag
media_stream_tag parse_int t codecs = get_required_attribute_value t (text_of "URI") >>= λ uri.
    get_required_attribute_value t (text_of "TYPE") >>= λ k. type_of (to_lower k) >>= λ c.
    done (record {
      verbatim_uri = uri;
      all_codecs = codecs;
      content_type = c;
      language =
          normalize (or_empty (get_attribute_value (text_of "LANGUAGE") (some (text_of "und")) t));
      primary =
          is_some (get_attribute (text_of "DEFAULT") t)
          || is_some (get_attribute (text_of "AUTOSELECT") t);
      name = get_attribute_value (text_of "NAME") none t;
      channels_count = channels_for parse_int c (get_attribute_value (text_of "CHANNELS") none t);
      closed_captions = none;
      characteristics = get_attribute_value (text_of "CHARACTERISTICS") none t;
    })

-- The captions of a group.
unfoldable pub captions_of : List (Text × List (Text × Text)) → Text → Option (List (Text × Text))
captions_of [] g = none
captions_of ((h, m) ∷ gs) g = let rest = captions_of gs g in if same_text h g then some m else rest

abbrev pub captions_for :
    List (Text × List (Text × Text)) → ContentType → Option Text → Option (List (Text × Text))
captions_for groups video (some g) =
    if is_empty g || same_text g (text_of "NONE") then none else captions_of groups g
captions_for groups _ g = none

-- What a variant tag tells, of `createStreamInfoFromVariantTag_`.
unfoldable pub variant_stream_tag :
    List (Text × List (Text × Text)) → Tag → List Text → ContentType → Outcome StreamTag
variant_stream_tag groups t codecs c = get_required_attribute_value t (text_of "URI") >>= λ uri.
    done (record {
      verbatim_uri = uri;
      all_codecs = codecs;
      content_type = c;
      language = text_of "und";
      primary = false;
      name = none;
      channels_count = none;
      closed_captions =
          captions_for groups c (get_attribute_value (text_of "CLOSED-CAPTIONS") none t);
      characteristics = none;
    })
