-- ===== src/Streams/Adaptation.antt =====
-- Classes `AdaptationSet`, `ExampleBasedCriteria` and `PreferenceBasedCriteria`
-- (shaka/js/shaka-player.compiled.debug.js): the variants that the player may switch between.
pub mod Set
use shaka_player_embedded.Base.{
  ℕ, ltb, Bool, true, false, not, ◌&&◌, ◌||◌, ◌==◌, Option, none, some, List, [], ◌∷◌, ◌++◌, map,
  any, select, length, is_some, if◌then◌else◌, Text, text_of, same_text, is_empty, to_lower,
  or_text,
}
use shaka_player_embedded.Streams.Types.{ContentType, audio, video, Stream, Variant}
use shaka_player_embedded.Streams.Codecs.{split_codecs, get_codec_base}
use shaka_player_embedded.Streams.Tracks.{distinct}
use shaka_player_embedded.Streams.Selection.{
  includes, or_else, filter_variants_by_audio_channel_count,
}
use shaka_player_embedded.Streams.Locale.{normalize, find_closest_locale, get_locale_for_variant}

-- `sort` of texts, by code units.
unfoldable pub is_before : Text → Text → Bool
is_before s [] = false
is_before [] (b ∷ t) = true
is_before (a ∷ s) (b ∷ t) =
    let rest = is_before s t in if ltb a b then true else if ltb b a then false else rest

unfoldable pub insert : Text → List Text → List Text
insert s [] = s ∷ []
insert s (t ∷ ts) = let rest = insert s ts in if is_before t s then t ∷ rest else s ∷ t ∷ ts

unfoldable pub sort : List Text → List Text
sort [] = []
sort (s ∷ ss) = insert s (sort ss)

unfoldable pub same_texts : List Text → List Text → Bool
same_texts [] [] = true
same_texts (s ∷ ss) (t ∷ ts) = same_text s t && same_texts ss ts
same_texts _ _ = false

abbrev pub codec_bases : Stream → List Text
codec_bases s = sort (map get_codec_base (split_codecs s.codecs))

-- `canTransitionBetween_`
unfoldable pub can_transition_between : Stream → Stream → Bool
can_transition_between a b =
    same_text a.mime_type b.mime_type && same_texts (codec_bases a) (codec_bases b)

-- The Set of the roles, without "main".
abbrev pub role_set : List Text → List Text
role_set roles = select (λ r. not (same_text r (text_of "main"))) (distinct [] roles)

unfoldable pub are_included : List Text → List Text → Bool
are_included [] d = true
are_included (r ∷ rs) d = includes d r && are_included rs d

-- `areRolesEqual_`
unfoldable pub are_roles_equal : List Text → List Text → Bool
are_roles_equal a b =
    length (role_set a) == length (role_set b) && are_included (role_set a) (role_set b)

abbrev pub same_number : Option ℕ → Option ℕ → Bool
same_number none none = true
same_number (some a) (some b) = a == b
same_number _ _ = false

unfoldable pub are_audios_compatible : Stream → Stream → Bool
are_audios_compatible a b =
    same_number a.channels_count b.channels_count
    && can_transition_between a b
    && are_roles_equal a.roles b.roles

unfoldable pub are_videos_compatible : Stream → Stream → Bool
are_videos_compatible a b = can_transition_between a b && are_roles_equal a.roles b.roles

-- Both lack the stream, or both have it and the streams are compatible.
abbrev pub both : (Stream → Stream → Bool) → Option Stream → Option Stream → Bool
both f none none = true
both f (some a) (some b) = f a b
both f _ _ = false

-- `areAdaptable`
unfoldable pub are_adaptable : Variant → Variant → Bool
are_adaptable a b =
    same_text a.language b.language
    && both are_audios_compatible a.audio_stream b.audio_stream
    && both are_videos_compatible a.video_stream b.video_stream

pub record AdaptationSet : Type 0 where
  pub root : Variant
  pub variants : List Variant

unfoldable pub can_include : Variant → AdaptationSet → Bool
can_include a s = are_adaptable s.root a

-- A variant is told apart by its id; `add` to a Set keeps a member that is there.
unfoldable pub has_variant : Variant → List Variant → Bool
has_variant a vs = any (λ v. v.id == a.id) vs

-- `add`: the set, and whether the variant was accepted.
unfoldable pub add : Variant → AdaptationSet → AdaptationSet × Bool
add a s =
    if can_include a s
    then (
      record s { variants = if has_variant a s.variants then s.variants else s.variants ++ a ∷ [] },
      true,
    )
    else (s, false)

unfoldable pub add_all : List Variant → AdaptationSet → AdaptationSet
add_all [] s = s
add_all (a ∷ candidates) s = add_all candidates (add a s).0

unfoldable pub new : Variant → List Variant → AdaptationSet
new root candidates = add_all candidates (record { root = root; variants = root ∷ [] })

unfoldable pub values : AdaptationSet → List Variant
values s = s.variants

pub record Preference : Type 0 where
  pub language : Text
  pub role : Text
  pub channel_count : ℕ
  pub label : Text
  pub content_type : Option ContentType

abbrev pub language_of : Option Stream → Option Text
language_of none = none
language_of (some s) = some s.language

abbrev pub locale_of : Variant → Text
locale_of v =
    get_locale_for_variant (some v.language) (language_of v.audio_stream)
      (language_of v.video_stream)

abbrev pub of_locale : Option Text → List Variant → List Variant
of_locale none vs = []
of_locale (some e) vs = select (λ v. same_text e (locale_of v)) vs

-- `filterByLanguage_`
unfoldable pub filter_by_language : List Variant → Text → List Variant
filter_by_language vs language =
    of_locale (find_closest_locale (normalize language) (map locale_of vs)) vs

abbrev pub has_role : Option Stream → Text → Bool
has_role none role = false
has_role (some s) role = includes s.roles role

abbrev pub plays_role : Option ContentType → Text → Variant → Bool
plays_role none role v = has_role v.audio_stream role || has_role v.video_stream role
plays_role (some audio) role v = has_role v.audio_stream role
plays_role (some video) role v = has_role v.video_stream role
plays_role (some _) role v = false

-- `filterVariantsByRole_`
unfoldable pub filter_variants_by_role : List Variant → Text → Option ContentType → List Variant
filter_variants_by_role vs role t = select (plays_role t role) vs

-- The label of the audio stream; a stream without a label is a TypeError, which is `none`.
abbrev pub label_matches : Text → Option Stream → Option Bool
label_matches label none = some false
label_matches label (some s) = elim s.label [
  | none ↦ none
  | some l ↦ some (same_text (to_lower l) (to_lower label))
]

abbrev pub keep_if : Option Bool → Variant → Option (List Variant) → Option (List Variant)
keep_if none v rest = none
keep_if (some b) v none = none
keep_if (some b) v (some vs) = some (if b then v ∷ vs else vs)

-- `filterVariantsByLabel_`
unfoldable pub filter_variants_by_label : List Variant → Text → Option (List Variant)
filter_variants_by_label [] label = some []
filter_variants_by_label (v ∷ vs) label =
    keep_if (label_matches label v.audio_stream) v (filter_variants_by_label vs label)

abbrev pub narrow_by_label : Text → List Variant → Option (List Variant)
narrow_by_label label d =
    if is_empty label
    then some d
    else elim (filter_variants_by_label d label) [ none ↦ none | some vs ↦ some (or_else vs d) ]

abbrev pub build : List Variant → Option AdaptationSet
build [] = none
build (v ∷ vs) = some (new v (v ∷ vs))

abbrev pub then_build : Option (List Variant) → Option AdaptationSet
then_build none = none
then_build (some vs) = build vs

-- The variants before the label is looked at.
unfoldable pub narrow : Preference → List Variant → List Variant
narrow p vs =
    let spoken =
      or_else (filter_by_language vs p.language) (or_else (select (λ v. v.primary) vs) vs) in
    let played =
      if is_empty p.role
      then spoken
      else or_else (filter_variants_by_role spoken p.role p.content_type) spoken in
    if p.channel_count == 0
    then played
    else or_else (filter_variants_by_audio_channel_count played p.channel_count) played

-- `PreferenceBasedCriteria.create`; `none` is an exception, or a set around no variant.
unfoldable pub create_by_preference : Preference → List Variant → Option AdaptationSet
create_by_preference p vs = then_build (narrow_by_label p.label (narrow p vs))

abbrev pub channels_of : Option Stream → ℕ
channels_of none = 0
channels_of (some s) = elim s.channels_count [ none ↦ 0 | some n ↦ n ]

-- The fallback of `ExampleBasedCriteria`.
unfoldable pub fallback : Variant → Preference
fallback example = record {
  language = example.language;
  role = [];
  channel_count = channels_of example.audio_stream;
  label = [];
  content_type = none;
}

abbrev pub build_or : List Variant → Option AdaptationSet → Option AdaptationSet
build_or [] o = o
build_or (v ∷ vs) o = some (new v (v ∷ vs))

-- `ExampleBasedCriteria.create`
unfoldable pub create_by_example : Variant → List Variant → Option AdaptationSet
create_by_example example vs =
    build_or (select (λ v. are_adaptable example v) vs) (create_by_preference (fallback example) vs)
