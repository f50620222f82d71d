-- ===== src/Streams/Types.antt =====
-- The streams, variants and periods of a manifest, and the constants of `ManifestParserUtils`
-- (shaka/js/shaka-player.compiled.debug.js).
use shaka_player_embedded.Base.{
  ℕ, Bool, true, false, Option, none, some, List, [], ◌++◌, to_list, Text, text_of,
}

pub data ContentType : Type 0 where
  video audio text_type image application : ContentType

abbrev pub type_name : ContentType → Text
type_name video = text_of "video"
type_name audio = text_of "audio"
type_name text_type = text_of "text"
type_name image = text_of "image"
type_name application = text_of "application"

abbrev pub same_type : ContentType → ContentType → Bool
same_type video video = true
same_type audio audio = true
same_type text_type text_type = true
same_type image image = true
same_type application application = true
same_type _ _ = false

-- `object` tells the objects apart. A text that the manifest lacks is null; frame rates are in
-- thousandths.
pub record Stream : Type 0 where
  pub object : ℕ
  pub id : ℕ
  pub original_id : Option Text
  pub content_type : ContentType
  pub mime_type : Text
  pub codecs : Text
  pub language : Text
  pub label : Option Text
  pub kind : Option Text
  pub roles : List Text
  pub primary : Bool
  pub bandwidth : Option ℕ
  pub width : Option ℕ
  pub height : Option ℕ
  pub frame_rate : Option ℕ
  pub pixel_aspect_ratio : Option Text
  pub channels_count : Option ℕ
  pub audio_sampling_rate : Option ℕ

pub record Variant : Type 0 where
  pub id : ℕ
  pub language : Text
  pub primary : Bool
  pub bandwidth : ℕ
  pub audio_stream : Option Stream
  pub video_stream : Option Stream
  pub allowed_by_application : Bool
  pub allowed_by_key_system : Bool

pub record Period : Type 0 where
  pub variants : List Variant
  pub text_streams : List Stream

-- `getVariantStreams`
unfoldable pub get_variant_streams : Variant → List Stream
get_variant_streams v = to_list v.audio_stream ++ to_list v.video_stream

unfoldable pub is_audio : Stream → Bool
is_audio s = same_type s.content_type audio

unfoldable pub is_video : Stream → Bool
is_video s = same_type s.content_type video

pub record DrmInfo : Type 0 where
  pub key_system : Text
  pub license_server_uri : Text
  pub distinctive_identifier_required : Bool
  pub persistent_state_required : Bool
  pub audio_robustness : Text
  pub video_robustness : Text
  pub server_certificate : Option (List ℕ)
  pub init_data : List (List ℕ)
  pub key_ids : List Text

-- `createDrmInfo`; the init data may be null.
unfoldable pub create_drm_info : Text → Option (List (List ℕ)) → DrmInfo
create_drm_info a b = record {
  key_system = a;
  license_server_uri = [];
  distinctive_identifier_required = false;
  persistent_state_required = false;
  audio_robustness = [];
  video_robustness = [];
  server_certificate = none;
  init_data = elim b [ none ↦ [] | some data_list ↦ data_list ];
  key_ids = [];
}
