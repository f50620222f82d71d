-- ===== src/Dash/Representations.antt =====
-- The representations of an adaptation set in class `DashParser`
-- (shaka/js/shaka-player.compiled.debug.js).
use shaka_player_embedded.Base.{
  ℕ, suc, ◌==◌, Bool, true, false, not, ◌&&◌, ◌||◌, Option, none, some, List, [], ◌∷◌, is_some,
  is_empty, if◌then◌else◌, Text, text_of, same_text, ℤ, pos, leb_ℤ, ltb_ℤ,
}
use shaka_player_embedded.Dash.Xml.{find_children, parse_attr, parse_positive_int}
use shaka_player_embedded.Dash.Mpd.{or_number}
use shaka_player_embedded.Dash.Protection as Protection
use shaka_player_embedded.Dash.Protection.{Context}
use shaka_player_embedded.Dash.Segments as Segments
use shaka_player_embedded.Dash.Segments.{
  Segment, InitSegment, Checked, ManifestError, dash_no_segment_info,
}
use shaka_player_embedded.Dash.Frames.{Frame, create_frame, verify_representation}
use shaka_player_embedded.Dash.Parsing.{
  Platform, Parsing, fine, failed, ◌>>=◌, segment_error, protection_error,
}

-- What `createStream` gives: a stream's segments, and its offset.
pub record StreamInfo : Type 0 where
  pub find_segment_position : ℤ → Option ℕ
  pub get_segment_reference : ℕ → Option Segment
  pub init_segment_reference : Option InitSegment
  pub scaled_presentation_time_offset : ℤ

-- A stream; its segments are `info`.
pub record DashStream : Type 0 where
  pub id : ℕ
  pub original_id : Option Text
  pub info : StreamInfo
  pub mime_type : Text
  pub codecs : Text
  pub frame_rate : Option ℕ
  pub pixel_aspect_ratio : Option Text
  pub bandwidth : ℕ
  pub width : Option ℕ
  pub height : Option ℕ
  pub kind : Option Text
  pub encrypted : Bool
  pub key_id : Option Text
  pub language : Text
  pub label : Option Text
  pub content_type : Text
  pub primary : Bool
  pub trick_mode_video : Option ℕ
  pub emsg_scheme_id_uris : List (Option Text)
  pub roles : List Text
  pub channels_count : Option ℤ
  pub audio_sampling_rate : Option ℕ
  pub closed_captions : List (Text × Text)

-- The one segment of a text without a segment list.
abbrev pub whole_segment : List Text → ℤ → Segment
whole_segment uris duration = record {
  position = 1;
  start_time = pos 0;
  end_time = duration;
  uris = uris;
  start_byte = 0;
  end_byte = none;
}

unfoldable pub whole_text : List Text → ℤ → StreamInfo
whole_text uris duration = record {
  find_segment_position = λ t. if leb_ℤ (pos 0) t && ltb_ℤ t duration then some 1 else none;
  get_segment_reference = λ n. if n == 1 then some (whole_segment uris duration) else none;
  init_segment_reference = none;
  scaled_presentation_time_offset = pos 0;
}

abbrev pub or_zero : Option ℤ → ℤ
or_zero none = pos 0
or_zero (some n) = n

abbrev pub is_no_info : ManifestError → Bool
is_no_info dash_no_segment_info = true
is_no_info _ = false

-- A text without segment information is passed over; any other error goes on.
abbrev pub found_info : Bool → Checked StreamInfo → Parsing (Option StreamInfo)
found_info is_text (Segments.fine i) = fine (some i)
found_info is_text (Segments.failed x) =
    if is_text && is_no_info x then fine none else failed (segment_error x)

abbrev pub found_key :
    Protection.Protected (Option Text × Context) → Parsing (Option Text × Context)
found_key (Protection.fine r) = fine r
found_key (Protection.failed x) = failed (protection_error x)

-- What the adaptation set hands to its representations.
pub record SetInfo : Type 0 where
  pub kind : Option Text
  pub language : Text
  pub label : Option Text
  pub main : Bool
  pub roles : List Text
  pub closed_captions : List (Text × Text)

-- `create_stream` is `createStream` of the source that the frame has (Dash/SegmentBase,
-- Dash/SegmentList, Dash/SegmentTemplate); `protection` is `parseFromRepresentation`
-- (Dash/Protection/Elements) with its arguments; `duration` is the period's.
module _ (p : Platform)
    (create_stream : p.dom.Element → Frame p.dom.Element → ℕ → Checked StreamInfo)
    (protection : List p.dom.Element → Context → Protection.Protected (Option Text × Context))
    (duration : Option ℤ) where
  abbrev pub info_of : Bool → p.dom.Element → Frame p.dom.Element → ℕ → Parsing (Option StreamInfo)
  info_of is_text e f bandwidth =
      if is_some f.segment_base || is_some f.segment_list || is_some f.segment_template
      then found_info is_text (create_stream e f bandwidth)
      else fine (some (whole_text f.base_uris (or_zero duration)))

  abbrev pub stream_of :
      SetInfo
      → Context
      → Frame p.dom.Element
      → Frame p.dom.Element
      → ℕ
      → StreamInfo
      → Option Text
      → ℕ
      → DashStream
  stream_of s c set f bandwidth i key id = record {
    id = id;
    original_id = f.id;
    info = i;
    mime_type = f.mime_type;
    codecs = f.codecs;
    frame_rate = f.frame_rate;
    pixel_aspect_ratio = f.pixel_aspect_ratio;
    bandwidth = bandwidth;
    width = f.width;
    height = f.height;
    kind = s.kind;
    encrypted = not (is_empty c.drm_infos);
    key_id = key;
    language = s.language;
    label = s.label;
    content_type = set.content_type;
    primary = s.main;
    trick_mode_video = none;
    emsg_scheme_id_uris = f.emsg_scheme_id_uris;
    roles = s.roles;
    channels_count = f.num_channels;
    audio_sampling_rate = f.audio_sampling_rate;
    closed_captions = s.closed_captions;
  }

  -- A representation, the context of protection behind it, and the next id.
  abbrev pub Parsed : Type 0
  Parsed = Option DashStream × Context × ℕ

  abbrev pub with_info :
      SetInfo
      → Frame p.dom.Element
      → p.dom.Element
      → Context
      → ℕ
      → Frame p.dom.Element
      → ℕ
      → Option StreamInfo
      → Parsing Parsed
  with_info s set e c id f bandwidth none = fine (none, c, id)
  with_info s set e c id f bandwidth (some i) =
      found_key (protection (find_children p.dom e (text_of "ContentProtection")) c) >>= λ r.
      fine (some (stream_of s r.1 set f bandwidth i r.0 id), r.1, suc id)

  abbrev pub is_text_like : Text → Bool
  is_text_like t = same_text t (text_of "text") || same_text t (text_of "application")

  abbrev pub verified :
      SetInfo
      → Frame p.dom.Element
      → p.dom.Element
      → Context
      → ℕ
      → Option (Frame p.dom.Element)
      → Parsing Parsed
  verified s set e c id none = fine (none, c, id)
  verified s set e c id (some f) =
      let bandwidth =
        or_number 0 (parse_attr p.dom e (text_of "bandwidth") (parse_positive_int p.number) none) in
      info_of (is_text_like f.content_type) e f bandwidth >>= with_info s set e c id f bandwidth

  -- `parseRepresentation_`; null for one that is passed over.
  unfoldable pub parse_representation :
      SetInfo → Frame p.dom.Element → p.dom.Element → Context → ℕ → Parsing Parsed
  parse_representation s set e c id =
      create_frame p e (some set) none >>= λ f. verified s set e c id (verify_representation f)

  abbrev pub onto_stream : Option DashStream → List DashStream → List DashStream
  onto_stream none ss = ss
  onto_stream (some s) ss = s ∷ ss

  -- All representations, one after the other.
  unfoldable pub parse_representations :
      SetInfo
      → Frame p.dom.Element
      → List p.dom.Element
      → Context
      → ℕ
      → Parsing (List DashStream × Context × ℕ)
  parse_representations s set [] c id = fine ([], c, id)
  parse_representations s set (e ∷ es) c id = parse_representation s set e c id >>= λ r.
      parse_representations s set es r.1 r.2 >>= λ rest.
      fine (onto_stream r.0 rest.0, rest.1, rest.2)
