-- ===== src/Dash/Variants.antt =====
-- The variants of a period in class `DashParser` (shaka/js/shaka-player.compiled.debug.js).
use shaka_player_embedded.Base.{
  ℕ, suc, ◌+◌, Bool, ◌||◌, Option, none, some, List, [], ◌∷◌, ◌++◌, map, if◌then◌else◌, Text,
  text_of, or_text,
}
use shaka_player_embedded.Streams.Types as Types
use shaka_player_embedded.Streams.Drm.{are_drm_compatible, get_common_drm_infos}
use shaka_player_embedded.Dash.Protection as Protection
use shaka_player_embedded.Dash.Representations.{DashStream}
use shaka_player_embedded.Dash.AdaptationSets.{AdaptationSet}

pub record DashVariant : Type 0 where
  pub id : ℕ
  pub language : Text
  pub primary : Bool
  pub audio : Option DashStream
  pub video : Option DashStream
  pub bandwidth : ℕ
  pub drm_infos : List Types.DrmInfo

-- The infos of a set, with the key ids of its streams.
abbrev pub full_info : List Text → Protection.DrmInfo → Types.DrmInfo
full_info keys d =
    record (Types.create_drm_info d.key_system (some (map (λ i. i.bytes) d.init_data))) {
      license_server_uri = d.license_server_uri;
      key_ids = keys;
    }

abbrev pub infos_of : AdaptationSet → List Types.DrmInfo
infos_of s = map (full_info s.key_ids) s.drm_infos

-- A variant of two streams, and the next id.
abbrev pub pair_variant :
    AdaptationSet → AdaptationSet → List Types.DrmInfo → DashStream → DashStream → ℕ → DashVariant
pair_variant a b ds s t id = record {
  id = id;
  language = a.language;
  primary = a.main || b.main;
  audio = some s;
  video = some t;
  bandwidth = t.bandwidth + s.bandwidth;
  drm_infos = ds;
}

unfoldable pub with_videos :
    AdaptationSet
    → AdaptationSet
    → List Types.DrmInfo
    → DashStream
    → List DashStream
    → ℕ
    → List DashVariant × ℕ
with_videos a b ds s [] id = ([], id)
with_videos a b ds s (t ∷ ts) id =
    let rest = with_videos a b ds s ts (suc id) in (pair_variant a b ds s t id ∷ rest.0, rest.1)

unfoldable pub with_audios :
    AdaptationSet
    → AdaptationSet
    → List Types.DrmInfo
    → List DashStream
    → List DashStream
    → ℕ
    → List DashVariant × ℕ
with_audios a b ds [] ts id = ([], id)
with_audios a b ds (s ∷ ss) ts id =
    let first_ones = with_videos a b ds s ts id in
    let rest = with_audios a b ds ss ts first_ones.1 in (first_ones.0 ++ rest.0, rest.1)

-- The variants of one set alone; `audio_of` and `video_of` say which of the two a stream is.
abbrev pub single_variant :
    (DashStream → Option DashStream)
    → (DashStream → Option DashStream)
    → AdaptationSet
    → DashStream
    → ℕ
    → DashVariant
single_variant audio_of video_of e s id = record {
  id = id;
  language = or_text e.language (text_of "und");
  primary = e.main;
  audio = audio_of s;
  video = video_of s;
  bandwidth = s.bandwidth;
  drm_infos = infos_of e;
}

unfoldable pub alone :
    (DashStream → Option DashStream)
    → (DashStream → Option DashStream)
    → AdaptationSet
    → List DashStream
    → ℕ
    → List DashVariant × ℕ
alone audio_of video_of e [] id = ([], id)
alone audio_of video_of e (s ∷ ss) id =
    let rest = alone audio_of video_of e ss (suc id) in
    (single_variant audio_of video_of e s id ∷ rest.0, rest.1)

abbrev pub is_here : DashStream → Option DashStream
is_here s = some s

abbrev pub is_not_here : DashStream → Option DashStream
is_not_here s = none

-- `createVariants_`, with the next id.
unfoldable pub create_variants :
    Option AdaptationSet → Option AdaptationSet → ℕ → List DashVariant × ℕ
create_variants none none id = ([], id)
create_variants (some a) none id = alone is_here is_not_here a a.streams id
create_variants none (some b) id = alone is_not_here is_here b b.streams id
create_variants (some a) (some b) id =
    if are_drm_compatible (infos_of a) (infos_of b)
    then with_audios a b (get_common_drm_infos (infos_of a) (infos_of b)) a.streams b.streams id
    else ([], id)

-- The loops over the audio and the video sets, each of which may be the one null.
unfoldable pub for_videos :
    Option AdaptationSet → List (Option AdaptationSet) → ℕ → List DashVariant × ℕ
for_videos a [] id = ([], id)
for_videos a (b ∷ bs) id =
    let first_ones = create_variants a b id in
    let rest = for_videos a bs first_ones.1 in (first_ones.0 ++ rest.0, rest.1)

unfoldable pub for_audios :
    List (Option AdaptationSet) → List (Option AdaptationSet) → ℕ → List DashVariant × ℕ
for_audios [] bs id = ([], id)
for_audios (a ∷ as') bs id =
    let first_ones = for_videos a bs id in
    let rest = for_audios as' bs first_ones.1 in (first_ones.0 ++ rest.0, rest.1)
