-- ===== src/Streams/Tracks.antt =====
-- The tracks that the player tells its client of: `StreamUtils` (shaka/js/shaka-player.compiled.debug.js).
use shaka_player_embedded.Base.{
  ℕ, suc, Bool, false, not, ◌==◌, Option, none, some, List, [], ◌∷◌, ◌++◌, any, if◌then◌else◌,
  to_list, Text, text_of, same_text, is_empty, join,
}
use shaka_player_embedded.Streams.Types.{type_name, text_type, Stream, Variant}
use shaka_player_embedded.Streams.Locale.{normalize}

pub record Track : Type 0 where
  pub id : ℕ
  pub active : Bool
  pub type : Text
  pub bandwidth : ℕ
  pub language : Text
  pub label : Option Text
  pub kind : Option Text
  pub width : Option ℕ
  pub height : Option ℕ
  pub frame_rate : Option ℕ
  pub pixel_aspect_ratio : Option Text
  pub mime_type : Option Text
  pub codecs : Option Text
  pub audio_codec : Option Text
  pub video_codec : Option Text
  pub primary : Bool
  pub roles : List Text
  pub audio_roles : Option (List Text)
  pub video_id : Option ℕ
  pub audio_id : Option ℕ
  pub channels_count : Option ℕ
  pub audio_sampling_rate : Option ℕ
  pub audio_bandwidth : Option ℕ
  pub video_bandwidth : Option ℕ
  pub original_video_id : Option Text
  pub original_audio_id : Option Text
  pub original_text_id : Option Text

-- A track with the fields that every kind of track starts from.
unfoldable pub empty_track : ℕ → Text → Text → Track
empty_track id type language = record {
  id = id;
  active = false;
  type = type;
  bandwidth = 0;
  language = language;
  label = none;
  kind = none;
  width = none;
  height = none;
  frame_rate = none;
  pixel_aspect_ratio = none;
  mime_type = none;
  codecs = none;
  audio_codec = none;
  video_codec = none;
  primary = false;
  roles = [];
  audio_roles = none;
  video_id = none;
  audio_id = none;
  channels_count = none;
  audio_sampling_rate = none;
  audio_bandwidth = none;
  video_bandwidth = none;
  original_video_id = none;
  original_audio_id = none;
  original_text_id = none;
}

-- `a || null`, of a number and of a text.
abbrev pub or_null : Option ℕ → Option ℕ
or_null none = none
or_null (some a) = if a == 0 then none else some a

abbrev pub text_or_null : Option Text → Option Text
text_or_null none = none
text_or_null (some a) = if is_empty a then none else some a

abbrev pub non_empty : Text → List Text
non_empty a = to_list (text_or_null (some a))

abbrev pub codecs_of : Option Stream → List Text
codecs_of none = []
codecs_of (some s) = non_empty s.codecs

abbrev pub mime_types_of : Option Stream → List Text
mime_types_of none = []
mime_types_of (some s) = s.mime_type ∷ []

abbrev pub kinds_of : Option Stream → List (Option Text)
kinds_of none = []
kinds_of (some s) = s.kind ∷ []

abbrev pub first_kind : List (Option Text) → Option Text
first_kind [] = none
first_kind (k ∷ ks) = text_or_null k

abbrev pub first_type : List Text → Option Text
first_type [] = none
first_type (t ∷ ts) = text_or_null (some t)

abbrev pub roles_of : Option Stream → List Text
roles_of none = []
roles_of (some s) = s.roles

-- The members of a Set to which the texts are added, in order.
unfoldable pub distinct : List Text → List Text → List Text
distinct seen [] = []
distinct seen (t ∷ ts) =
    let old = distinct seen ts in
    let new = distinct (t ∷ seen) ts in if any (λ u. same_text u t) seen then old else t ∷ new

abbrev pub codec_text : Option Stream → Option Text
codec_text none = none
codec_text (some s) = some s.codecs

abbrev pub add_video : Option Stream → Track → Track
add_video none t = t
add_video (some s) t = record t {
  video_id = some s.id;
  original_video_id = s.original_id;
  width = or_null s.width;
  height = or_null s.height;
  frame_rate = or_null s.frame_rate;
  pixel_aspect_ratio = text_or_null s.pixel_aspect_ratio;
  video_bandwidth = or_null s.bandwidth;
}

abbrev pub add_audio : Option Stream → Track → Track
add_audio none t = t
add_audio (some s) t = record t {
  audio_id = some s.id;
  original_audio_id = s.original_id;
  channels_count = s.channels_count;
  audio_sampling_rate = s.audio_sampling_rate;
  audio_bandwidth = or_null s.bandwidth;
  label = s.label;
  audio_roles = some s.roles;
}

abbrev pub shared_fields : Variant → Track
unfolding empty_track
shared_fields v = record (empty_track v.id (text_of "variant") v.language) {
  bandwidth = v.bandwidth;
  kind = first_kind (kinds_of v.audio_stream ++ kinds_of v.video_stream);
  mime_type = first_type (mime_types_of v.video_stream ++ mime_types_of v.audio_stream);
  codecs = some (join (text_of ", ") (codecs_of v.video_stream ++ codecs_of v.audio_stream));
  audio_codec = codec_text v.audio_stream;
  video_codec = codec_text v.video_stream;
  primary = v.primary;
  roles = distinct [] (roles_of v.audio_stream ++ roles_of v.video_stream);
}

unfoldable pub variant_to_track : Variant → Track
variant_to_track v = add_audio v.audio_stream (add_video v.video_stream (shared_fields v))

unfoldable pub text_stream_to_track : Stream → Track
unfolding empty_track
text_stream_to_track s = record (empty_track s.id (type_name text_type) s.language) {
  label = s.label;
  kind = text_or_null s.kind;
  mime_type = some s.mime_type;
  codecs = text_or_null (some s.codecs);
  primary = s.primary;
  roles = s.roles;
  original_text_id = s.original_id;
}

-- A track of the browser; `shaka_id` is `__shaka_id`, 0 or missing until it is given.
pub record Html5Track : Type 0 where
  pub shaka_id : ℕ
  pub id : Text
  pub language : Text
  pub label : Text
  pub kind : Text
  pub mode : Text
  pub enabled : Bool

-- `html5TrackId`, with `nextTrackId_`: the id, the track and the counter. An id of 0 is given anew.
unfoldable pub html5_track_id : Html5Track → ℕ → ℕ × Html5Track × ℕ
html5_track_id a next =
    if a.shaka_id == 0
    then (next, record a { shaka_id = next }, suc next)
    else (a.shaka_id, a, next)

-- `html5TrackToGenericShakaTrack_`, for the id that `html5TrackId` gives.
unfoldable pub html5_generic_track : ℕ → Html5Track → Track
unfolding empty_track
html5_generic_track id a = record (empty_track id [] (normalize a.language)) {
  label = some a.label;
  kind = some a.kind;
}

unfoldable pub html5_text_track_to_track : ℕ → Html5Track → Track
unfolding html5_generic_track empty_track
html5_text_track_to_track id a = record (html5_generic_track id a) {
  active = not (same_text a.mode (text_of "disabled"));
  type = text_of "text";
  original_text_id = some a.id;
  mime_type =
      if same_text a.kind (text_of "captions") then some (text_of "application/cea-608") else none;
  roles = non_empty a.kind;
}

unfoldable pub html5_audio_track_to_track : ℕ → Html5Track → Track
unfolding html5_generic_track empty_track
html5_audio_track_to_track id a = record (html5_generic_track id a) {
  active = a.enabled;
  type = text_of "variant";
  original_audio_id = some a.id;
  primary = same_text a.kind (text_of "main");
  roles = non_empty a.kind;
  audio_roles = if is_empty a.kind then none else some (a.kind ∷ []);
}
