-- ===== src/Hls/Keys.antt =====
-- The keys of a playlist in class `HlsParser` (shaka/js/shaka-player.compiled.debug.js): which protection its
-- EXT-X-KEY tags ask for. What `DataUriPlugin.parse` gives for the data of a key is a parameter.
use shaka_player_embedded.Base.{
  ℕ, Bool, true, false, not, ◌||◌, Option, none, some, List, [], ◌∷◌, ◌++◌, drop, is_empty,
  if◌then◌else◌, Text, text_of, same_text, to_lower,
}
use shaka_player_embedded.Streams.Types.{DrmInfo, create_drm_info}
use shaka_player_embedded.Hls.Tags.{Tag, get_attribute_value, filter_tags_by_name}
use shaka_player_embedded.Hls.Playlist.{Segment}
use shaka_player_embedded.Hls.Required.{
  Outcome, done, fail, ◌>>=◌, get_required_attribute_value, hls_keyformats_not_supported,
}

-- What the key tags of a playlist come to: `skipped` stands for AES-128, which is not supported.
pub record Keys : Type 0 where
  pub encrypted : Bool
  pub drm_infos : List DrmInfo
  pub key_id : Option Text

pub data KeyResult : Type 0 where
  keys : Keys → KeyResult
  skipped : KeyResult

abbrev pub widevine_format : Text
widevine_format = text_of "urn:uuid:edef8ba9-79d6-4ace-a3c8-27dcd51d21ed"

abbrev pub is_sample_method : Text → Bool
is_sample_method m =
    same_text m (text_of "SAMPLE-AES")
    || same_text m (text_of "SAMPLE-AES-CTR")
    || same_text m (text_of "SAMPLE-AES-CENC")

-- A key id, without the 0x in front.
abbrev pub with_key : Option Text → DrmInfo → DrmInfo
with_key none d = d
with_key (some s) d = if is_empty s then d else record d { key_ids = drop 2 (to_lower s) ∷ [] }

module _ (data_of : Text → Outcome (List ℕ)) where
  -- `widevineDrmParser_`
  unfoldable pub widevine_drm_parser : Tag → Outcome (Option DrmInfo)
  widevine_drm_parser t = get_required_attribute_value t (text_of "METHOD") >>= λ m.
      if not (is_sample_method m)
      then done none
      else get_required_attribute_value t (text_of "URI") >>= λ uri. data_of uri >>= λ bytes. done (
          some (
            with_key (get_attribute_value (text_of "KEYID") none t)
              (create_drm_info (text_of "com.widevine.alpha") (some (bytes ∷ [])))))

  -- The only format that there is a parser for.
  abbrev pub parse_key : Text → Tag → Outcome (Option DrmInfo)
  parse_key format t = if same_text format widevine_format then widevine_drm_parser t else done none

  abbrev pub last_key : Option Text → List Text → Option Text
  last_key k [] = k
  last_key k (i ∷ is) = some i

  abbrev pub add_info : Option DrmInfo → Keys → Keys
  add_info none k = record k { encrypted = true }
  add_info (some d) k = record {
    encrypted = true;
    drm_infos = k.drm_infos ++ d ∷ [];
    key_id = last_key k.key_id d.key_ids;
  }

  -- The loop over the tags.
  unfoldable pub walk_keys : List Tag → Keys → Outcome KeyResult
  walk_keys [] k = done (keys k)
  walk_keys (t ∷ ts) k = get_required_attribute_value t (text_of "METHOD") >>= λ m.
      if same_text m (text_of "NONE")
      then walk_keys ts k
      else if same_text m (text_of "AES-128")
      then done skipped
      else get_required_attribute_value t (text_of "KEYFORMAT") >>= λ f.
          parse_key f t >>= λ d. walk_keys ts (add_info d k)

  -- An encryption without any format that is supported is an error.
  abbrev pub supported : KeyResult → Outcome KeyResult
  supported skipped = done skipped
  supported (keys k) =
      if not k.encrypted
      then done (keys k)
      else if is_empty k.drm_infos
      then fail hls_keyformats_not_supported
      else done (keys k)

  abbrev pub key_tags : List Segment → List Tag
  key_tags [] = []
  key_tags (s ∷ ss) = filter_tags_by_name s.tags (text_of "EXT-X-KEY") ++ key_tags ss

  unfoldable pub keys_of : List Segment → Outcome KeyResult
  keys_of ss =
      walk_keys (key_tags ss) (record { encrypted = false; drm_infos = []; key_id = none })
      >>= supported
