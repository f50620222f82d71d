-- ===== src/Streams/Restrictions.antt =====
-- The restrictions on variants, and the filters of `StreamUtils` (shaka/js/shaka-player.compiled.debug.js).
use shaka_player_embedded.Base.{
  ℕ, ◌*◌, min, leb, Bool, true, false, not, ◌&&◌, ◌||◌, ◌==◌, Option, none, some, List, [], ◌∷◌,
  select, if◌then◌else◌, Text, same_text, split,
}
use shaka_player_embedded.Streams.Types.{Stream, Variant, Period}
use shaka_player_embedded.Streams.Codecs.{get_full_type, first_part}

-- An upper bound; `none` is Infinity.
abbrev pub Bound : Type 0
Bound = Option ℕ

abbrev pub min_bound : Bound → Bound → Bound
min_bound none b = b
min_bound (some a) none = some a
min_bound (some a) (some b) = some (min a b)

abbrev pub is_within : ℕ → ℕ → Bound → Bool
is_within a lo none = leb lo a
is_within a lo (some hi) = leb lo a && leb a hi

pub record Restrictions : Type 0 where
  pub min_width : ℕ
  pub max_width : Bound
  pub min_height : ℕ
  pub max_height : Bound
  pub min_pixels : ℕ
  pub max_pixels : Bound
  pub min_frame_rate : ℕ
  pub max_frame_rate : Bound
  pub min_bandwidth : ℕ
  pub max_bandwidth : Bound

pub record Resolution : Type 0 where
  pub width : Bound
  pub height : Bound

-- A dimension that is missing or 0 is not looked at.
abbrev pub or_zero : Option ℕ → ℕ
or_zero none = 0
or_zero (some a) = a

unfoldable pub size_meets : ℕ → ℕ → Restrictions → Resolution → Bool
size_meets w h b c =
    if w == 0 || h == 0
    then true
    else is_within w b.min_width (min_bound b.max_width c.width)
      && is_within h b.min_height (min_bound b.max_height c.height)
      && is_within (w * h) b.min_pixels b.max_pixels

unfoldable pub frame_rate_meets : ℕ → Restrictions → Bool
frame_rate_meets rate b =
    if rate == 0 then true else is_within rate b.min_frame_rate b.max_frame_rate

abbrev pub video_meets : Option Stream → Restrictions → Resolution → Bool
video_meets none b c = true
video_meets (some s) b c =
    size_meets (or_zero s.width) (or_zero s.height) b c && frame_rate_meets (or_zero s.frame_rate) b

-- `meetsRestrictions(variant, restrictions, maxHwResolution)`
unfoldable pub meets_restrictions : Variant → Restrictions → Resolution → Bool
meets_restrictions a b c =
    video_meets a.video_stream b c && is_within a.bandwidth b.min_bandwidth b.max_bandwidth

abbrev pub same_flag : Bool → Bool → Bool
same_flag true b = b
same_flag false b = not b

-- `applyRestrictions`: the variants, and whether any of them has changed.
unfoldable pub apply_restrictions : List Variant → Restrictions → Resolution → List Variant × Bool
apply_restrictions [] b c = ([], false)
apply_restrictions (a ∷ vs) b c =
    let rest = apply_restrictions vs b c in
    let met = meets_restrictions a b c in
    (
      record a { allowed_by_application = met } ∷ rest.0,
      not (same_flag a.allowed_by_application met) || rest.1,
    )

unfoldable pub is_playable : Variant → Bool
is_playable a = a.allowed_by_application && a.allowed_by_key_system

unfoldable pub get_playable_variants : List Variant → List Variant
get_playable_variants vs = select is_playable vs

-- `areStreamsCompatible_`
unfoldable pub are_streams_compatible : Stream → Stream → Bool
are_streams_compatible a b =
    same_text a.mime_type b.mime_type
    && same_text (first_part (split b'.' a.codecs)) (first_part (split b'.' b.codecs))

-- What `filterNewPeriod` asks of the DRM engine, the media source and the text engine.
module _ (supports_variant : Variant → Bool) (is_stream_supported : Stream → Bool)
    (is_type_supported : Text → Bool) where
  abbrev pub supported : Option Stream → Bool
  supported none = true
  supported (some s) = is_stream_supported s

  abbrev pub compatible : Option Stream → Option Stream → Bool
  compatible (some s) (some active) = are_streams_compatible s active
  compatible _ _ = true

  abbrev pub keeps_variant : Option Stream → Option Stream → Variant → Bool
  keeps_variant active_audio active_video v =
      supports_variant v
      && supported v.audio_stream
      && supported v.video_stream
      && compatible v.audio_stream active_audio
      && compatible v.video_stream active_video

  -- `filterNewPeriod(drmEngine, activeAudio, activeVideo, period)`
  unfoldable pub filter_new_period : Option Stream → Option Stream → Period → Period
  filter_new_period active_audio active_video p = record {
    variants = select (keeps_variant active_audio active_video) p.variants;
    text_streams =
        select (λ s. is_type_supported (get_full_type s.mime_type s.codecs)) p.text_streams;
  }
