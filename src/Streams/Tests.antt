-- ===== src/Streams/Tests.antt =====
-- The theorems about streams at concrete inputs.
use shaka_player_embedded.Base.{ℕ, ◌≡◌, refl, true, none, some, List, [], ◌∷◌, map, Text, text_of}
use shaka_player_embedded.Streams.Types.{Stream, Variant, audio}
use shaka_player_embedded.Streams.Locale.{normalize, find_closest_locale}
use shaka_player_embedded.Streams.Locale.Closest.{IsClosest, find_closest_locale-IsClosest}
use shaka_player_embedded.Streams.Restrictions.{Restrictions}
use shaka_player_embedded.Streams.Abr.{Config, SimpleAbrManager, candidates, choose_variant}
use shaka_player_embedded.Streams.Abr.Choice.{IsChoice, choose_variant-IsChoice}

abbrev locales : List Text
locales = text_of "eng" ∷ text_of "fr-CA" ∷ text_of "en-GB" ∷ []

find_closest_locale-IsClosest_example :
    IsClosest
      (normalize (text_of "en-us"))
      (map normalize locales)
      (find_closest_locale (text_of "en-us") locales)
find_closest_locale-IsClosest_example = find_closest_locale-IsClosest (text_of "en-us") locales

abbrev sound : Text → Stream
sound codecs = record {
  object = 1;
  id = 1;
  original_id = none;
  content_type = audio;
  mime_type = text_of "audio/mp4";
  codecs = codecs;
  language = text_of "en";
  label = none;
  kind = none;
  roles = text_of "main" ∷ [];
  primary = true;
  bandwidth = some 1000;
  width = none;
  height = none;
  frame_rate = none;
  pixel_aspect_ratio = none;
  channels_count = some 2;
  audio_sampling_rate = none;
}

abbrev variant : ℕ → ℕ → Text → Variant
variant id bandwidth codecs = record {
  id = id;
  language = text_of "en";
  primary = true;
  bandwidth = bandwidth;
  audio_stream = some (sound codecs);
  video_stream = none;
  allowed_by_application = true;
  allowed_by_key_system = true;
}

abbrev variants : List Variant
variants =
    variant 1 900 (text_of "mp4a.40.2")
    ∷ variant 2 300 (text_of "mp4a.40.5")
    ∷ variant 3 500 (text_of "opus")
    ∷ []

abbrev unrestricted : Restrictions
unrestricted = record {
  min_width = 0;
  max_width = none;
  min_height = 0;
  max_height = none;
  min_pixels = 0;
  max_pixels = none;
  min_frame_rate = 0;
  max_frame_rate = none;
  min_bandwidth = 0;
  max_bandwidth = none;
}

abbrev config : Config
config = record {
  restrictions = unrestricted;
  bandwidth_downgrade_target = 950;
  bandwidth_upgrade_target = 850;
  switch_interval_ms = 8000;
}

abbrev manager : SimpleAbrManager
manager = record {
  enabled = true;
  variants = variants;
  startup_complete = true;
  last_time_chosen_ms = some 0;
  config = config;
}

choose_variant-IsChoice_example :
    (v : Variant) × ((choose_variant 9000 700 manager).1 ≡ some v)
    × IsChoice config 700 (candidates config variants) v
choose_variant-IsChoice_example = choose_variant-IsChoice 9000 700 manager refl
