-- ===== src/Hls/Required.antt =====
-- The errors of class `HlsParser` (shaka/js/shaka-player.compiled.debug.js), and the tags and attributes
-- that it cannot do without.
use shaka_player_embedded.Base.{none, some, List, Text}
use shaka_player_embedded.Hls.Tags.{Tag, get_attribute, get_first_tag_with_name}

pub data HlsError : Type 0 where
  hls_required_attribute_missing hls_required_tag_missing : Text → HlsError
  hls_multiple_media_init_sections_found hls_could_not_guess_codecs : HlsError
  hls_could_not_guess_mime_type hls_could_not_parse_segment_start_time : HlsError
  hls_internal_skip_stream hls_keyformats_not_supported : HlsError
  hls_invalid_playlist_hierarchy hls_master_playlist_not_provided : HlsError
  hls_aes_128_encryption_not_supported operation_aborted type_error : HlsError

pub data Outcome {ℓ} (A : Type ℓ) : Type ℓ where
  done : A → Outcome A
  fail : HlsError → Outcome A

abbrev pub and_then {ℓ κ} : {A : Type ℓ} {B : Type κ} → Outcome A → (A → Outcome B) → Outcome B
and_then (done a) f = f a
and_then (fail error) f = fail error

infixl 5 ◌>>=◌
abbrev pub ◌>>=◌ {ℓ κ} : {A : Type ℓ} {B : Type κ} → Outcome A → (A → Outcome B) → Outcome B
◌>>=◌ r f = and_then r f

-- `getRequiredAttributeValue_`
unfoldable pub get_required_attribute_value : Tag → Text → Outcome Text
get_required_attribute_value t name = elim (get_attribute name t) [
  | none ↦ fail (hls_required_attribute_missing name)
  | some a ↦ done a.value
]

-- `getRequiredTag_`
unfoldable pub get_required_tag : List Tag → Text → Outcome Tag
get_required_tag ts name = elim (get_first_tag_with_name ts name) [
  | none ↦ fail (hls_required_tag_missing name)
  | some t ↦ done t
]
