-- ===== src/Dash/Frames.antt =====
-- The inheritance frames of class `DashParser` (shaka/js/shaka-player.compiled.debug.js): what an adaptation
-- set takes from its period, and a representation from its set.
use shaka_player_embedded.Base.{
  ℕ, suc, ◌==◌, Bool, true, false, ◌||◌, Option, none, some, List, [], ◌∷◌, ◌++◌, is_some,
  if◌then◌else◌, Text, text_of, same_text, split, or_text, or_empty, ℤ,
}
use shaka_player_embedded.Streams.Codecs.{first_part, get_full_type}
use shaka_player_embedded.Dash.Xml.{find_child, find_children, parse_attr}
use shaka_player_embedded.Dash.Mpd.{or_attribute, positive}
use shaka_player_embedded.Dash.Channels.{parse_audio_channels}
use shaka_player_embedded.Dash.Parsing.{
  Platform, Parsing, fine, ◌>>=◌, contents_of, resolve_uris, natural_attr,
}

-- A frame; `E` is the type of elements. Attributes are null where there are none.
pub record Frame (E : Type 0) : Type 0 where
  pub base_uris : List Text
  pub segment_base : Option E
  pub segment_list : Option E
  pub segment_template : Option E
  pub width : Option ℕ
  pub height : Option ℕ
  pub content_type : Text
  pub mime_type : Text
  pub codecs : Text
  pub frame_rate : Option ℕ
  pub pixel_aspect_ratio : Option Text
  pub emsg_scheme_id_uris : List (Option Text)
  pub id : Option Text
  pub num_channels : Option ℤ
  pub audio_sampling_rate : Option ℕ

-- The frame above a period.
abbrev pub no_frame : {E : Type 0} → Frame E
no_frame = record {
  base_uris = [];
  segment_base = none;
  segment_list = none;
  segment_template = none;
  width = none;
  height = none;
  content_type = [];
  mime_type = [];
  codecs = [];
  frame_rate = none;
  pixel_aspect_ratio = none;
  emsg_scheme_id_uris = [];
  id = none;
  num_channels = none;
  audio_sampling_rate = none;
}

-- `a || b`, for numbers and for objects.
abbrev pub or_inherited {ℓ} : {A : Type ℓ} → Option A → Option A → Option A
or_inherited none b = b
or_inherited (some a) b = some a

abbrev pub same_scheme : Option Text → Option Text → Bool
same_scheme none none = true
same_scheme (some s) (some t) = same_text s t
same_scheme _ _ = false

abbrev pub has_scheme : Option Text → List (Option Text) → Bool
has_scheme s [] = false
has_scheme s (t ∷ ts) = same_scheme t s || has_scheme s ts

-- `emsgSchemeIdUris_`: the schemes of the parent, and each new one once, with null for an element
-- without a scheme.
unfoldable pub add_schemes : List (Option Text) → List (Option Text) → List (Option Text)
add_schemes known [] = known
add_schemes known (s ∷ ss) = add_schemes (if has_scheme s known then known else known ++ s ∷ []) ss

module _ (p : Platform) where
  abbrev pub schemes_of : List p.dom.Element → List (Option Text)
  schemes_of [] = []
  schemes_of (e ∷ es) = p.dom.attribute e (text_of "schemeIdUri") ∷ schemes_of es

  -- `guessContentType_`
  unfoldable pub guess_content_type : Text → Text → Text
  guess_content_type mime codecs =
      if p.is_type_supported (get_full_type mime codecs)
      then text_of "text"
      else first_part (split b'/' mime)

  abbrev pub or_guessed : Text → Text → Text → Text
  or_guessed [] mime codecs = guess_content_type mime codecs
  or_guessed (c ∷ s) mime codecs = c ∷ s

  abbrev pub frame_with :
      p.dom.Element → Frame p.dom.Element → List Text → Option ℤ → Frame p.dom.Element
  frame_with e b bases channels =
      let mime = or_text (or_empty (p.dom.attribute e (text_of "mimeType"))) b.mime_type in
      let codecs = or_text (or_empty (p.dom.attribute e (text_of "codecs"))) b.codecs in
      record {
        base_uris =
            resolve_uris p bases (contents_of p (find_children p.dom e (text_of "BaseURL")));
        segment_base = or_inherited (find_child p.dom e (text_of "SegmentBase")) b.segment_base;
        segment_list = or_inherited (find_child p.dom e (text_of "SegmentList")) b.segment_list;
        segment_template =
            or_inherited (find_child p.dom e (text_of "SegmentTemplate")) b.segment_template;
        width = or_inherited (positive (natural_attr p e (text_of "width"))) b.width;
        height = or_inherited (positive (natural_attr p e (text_of "height"))) b.height;
        content_type =
            or_guessed
              (or_text (or_empty (p.dom.attribute e (text_of "contentType"))) b.content_type) mime
              codecs;
        mime_type = mime;
        codecs = codecs;
        frame_rate =
            or_inherited (positive (parse_attr p.dom e (text_of "frameRate") p.division none))
              b.frame_rate;
        pixel_aspect_ratio = or_attribute (p.dom.attribute e (text_of "sar")) b.pixel_aspect_ratio;
        emsg_scheme_id_uris =
            add_schemes b.emsg_scheme_id_uris
              (schemes_of (find_children p.dom e (text_of "InbandEventStream")));
        id = p.dom.attribute e (text_of "id");
        num_channels = or_inherited channels b.num_channels;
        audio_sampling_rate =
            or_inherited (positive (natural_attr p e (text_of "audioSamplingRate")))
              b.audio_sampling_rate;
      }

  -- `createFrame_(elem, parent, baseUris)`; a frame without a parent is that of a period.
  unfoldable pub create_frame :
      p.dom.Element
      → Option (Frame p.dom.Element)
      → Option (List Text)
      → Parsing (Frame p.dom.Element)
  create_frame e parent bases =
      let b : Frame p.dom.Element = elim parent [ none ↦ no_frame | some f ↦ f ] in
      parse_audio_channels p (find_children p.dom e (text_of "AudioChannelConfiguration"))
      >>= λ channels.
          fine (frame_with e b (elim bases [ none ↦ b.base_uris | some us ↦ us ]) channels)

abbrev pub one_if {ℓ} : {A : Type ℓ} → Option A → ℕ → ℕ
one_if none n = n
one_if (some a) n = suc n

abbrev pub source_count : {E : Type 0} → Frame E → ℕ
source_count f = one_if f.segment_base (one_if f.segment_list (one_if f.segment_template 0))

-- `verifyRepresentation_`: the frame with one source of segments, or none that is needed; null to
-- skip the representation.
unfoldable pub verify_representation : {E : Type 0} → Frame E → Option (Frame E)
verify_representation f =
    if source_count f == 0
    then (if same_text f.content_type (text_of "text")
          || same_text f.content_type (text_of "application")
        then some f
        else none)
    else if source_count f == 1
    then some f
    else some (record f {
      segment_list = if is_some f.segment_base then none else f.segment_list;
      segment_template = none;
    })
