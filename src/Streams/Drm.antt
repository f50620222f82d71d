-- ===== src/Streams/Drm.antt =====
-- What audio and video are both protected by: `areDrmCompatible` and `getCommonDrmInfos` of class
-- `DrmEngine` (shaka/js/shaka-player.compiled.debug.js).
use shaka_player_embedded.Base.{
  ℕ, ltb, Bool, true, ◌||◌, Option, none, some, List, [], ◌∷◌, ◌++◌, find_first, length, same_text,
  or_text,
}
use shaka_player_embedded.Streams.Types.{DrmInfo}

abbrev pub or_certificate : Option (List ℕ) → Option (List ℕ) → Option (List ℕ)
or_certificate none b = b
or_certificate (some c) b = some c

-- The info of two for one key system; the first goes before the second.
abbrev pub merged_info : DrmInfo → DrmInfo → DrmInfo
merged_info f e = record {
  key_system = f.key_system;
  license_server_uri = or_text f.license_server_uri e.license_server_uri;
  distinctive_identifier_required =
      f.distinctive_identifier_required || e.distinctive_identifier_required;
  persistent_state_required = f.persistent_state_required || e.persistent_state_required;
  audio_robustness = or_text f.audio_robustness e.audio_robustness;
  video_robustness = or_text f.video_robustness e.video_robustness;
  server_certificate = or_certificate f.server_certificate e.server_certificate;
  init_data = f.init_data ++ e.init_data;
  key_ids = f.key_ids ++ e.key_ids;
}

abbrev pub is_same_system : DrmInfo → DrmInfo → Bool
is_same_system f e = same_text f.key_system e.key_system

abbrev pub onto_info : DrmInfo → Option DrmInfo → List DrmInfo → List DrmInfo
onto_info f none ds = ds
onto_info f (some e) ds = merged_info f e ∷ ds

-- The two loops: each info of the first list, with the first of its key system in the second.
unfoldable pub common_infos : List DrmInfo → List DrmInfo → List DrmInfo
common_infos [] bs = []
common_infos (f ∷ fs) bs = onto_info f (find_first (is_same_system f) bs) (common_infos fs bs)

unfoldable pub get_common_drm_infos : List DrmInfo → List DrmInfo → List DrmInfo
get_common_drm_infos [] bs = bs
get_common_drm_infos (f ∷ fs) [] = f ∷ fs
get_common_drm_infos (f ∷ fs) (b ∷ bs) = common_infos (f ∷ fs) (b ∷ bs)

unfoldable pub are_drm_compatible : List DrmInfo → List DrmInfo → Bool
are_drm_compatible [] bs = true
are_drm_compatible (f ∷ fs) [] = true
are_drm_compatible (f ∷ fs) (b ∷ bs) = ltb 0 (length (get_common_drm_infos (f ∷ fs) (b ∷ bs)))
