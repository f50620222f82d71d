-- ===== src/Streams/Selection.antt =====
-- How `StreamUtils` (shaka/js/shaka-player.compiled.debug.js) narrows variants and text streams down.
use shaka_player_embedded.Base.{
  ℕ, ◌+◌, ◌*◌, min, max, leb, ltb, Bool, true, false, not, ◌&&◌, ◌==◌, Option, none, some, List, [],
  ◌∷◌, ◌++◌, map, any, select, find_first, flatten, length, if◌then◌else◌, Text, text_of, same_text,
  is_empty,
}
use shaka_player_embedded.Streams.Types.{Stream, Variant, Period}
use shaka_player_embedded.Streams.Codecs.{get_codec_base}
use shaka_player_embedded.Streams.Restrictions.{or_zero}
use shaka_player_embedded.Streams.Locale.{normalize, find_closest_locale}

abbrev pub channels : Option Stream → ℕ
channels none = 0
channels (some s) = or_zero s.channels_count

-- The counts of the variants that have one, as keys of a Map.
unfoldable pub counts : List Variant → List ℕ
counts [] = []
counts (v ∷ vs) =
    let rest = counts vs in
    if channels v.audio_stream == 0 then rest else channels v.audio_stream ∷ rest

abbrev pub largest : ℕ → List ℕ → ℕ
largest m [] = m
largest m (n ∷ ns) = largest (max m n) ns

abbrev pub smallest : ℕ → List ℕ → ℕ
smallest m [] = m
smallest m (n ∷ ns) = smallest (min m n) ns

-- The count that is chosen: the largest that is at most the preferred one, else the smallest.
abbrev pub chosen_count : List ℕ → ℕ → List ℕ → ℕ
chosen_count (k ∷ ks) n ns = largest k ks
chosen_count [] n ns = smallest n ns

abbrev pub of_count : ℕ → List Variant → List Variant
of_count n vs = select (λ v. not (n == 0) && channels v.audio_stream == n) vs

abbrev pub by_count : List ℕ → List Variant → ℕ → List Variant
by_count [] vs b = vs
by_count (n ∷ ns) vs b = of_count (chosen_count (select (λ k. leb k b) (n ∷ ns)) n ns) vs

-- `filterVariantsByAudioChannelCount`
unfoldable pub filter_variants_by_audio_channel_count : List Variant → ℕ → List Variant
filter_variants_by_audio_channel_count vs b = by_count (counts vs) vs b

unfoldable pub includes : List Text → Text → Bool
includes ts t = any (λ u. same_text u t) ts

unfoldable pub filter_text_streams_by_role : List Stream → Text → List Stream
filter_text_streams_by_role ss role = select (λ s. includes s.roles role) ss

abbrev pub or_else {ℓ} : {A : Type ℓ} → List A → List A → List A
or_else [] ys = ys
or_else (x ∷ xs) ys = x ∷ xs

abbrev pub first_language : List Stream → Text
first_language [] = []
first_language (s ∷ ss) = s.language

abbrev pub of_locale : Option Text → List Stream → List Stream → List Stream
of_locale none ss e = e
of_locale (some h) ss e = select (λ s. same_text (normalize s.language) h) ss

-- The streams of the language: the closest to the wanted one, else that of the first stream, where
-- primary streams come first.
unfoldable pub by_language : List Stream → Text → List Stream
by_language ss language =
    let candidates = or_else (select (λ s. s.primary) ss) ss in
    let e = select (λ s. same_text s.language (first_language candidates)) candidates in
    if is_empty language
    then e
    else of_locale (find_closest_locale (normalize language) (map (λ s. s.language) ss)) ss e

abbrev pub by_first_role : List Stream → List Text → List Stream
by_first_role e [] = e
by_first_role e (role ∷ roles) = filter_text_streams_by_role e role

abbrev pub by_any_role : List Stream → List Stream
by_any_role e = by_first_role e (flatten (map (λ s. s.roles) e))

-- `filterStreamsByLanguageAndRole`
unfoldable pub filter_streams_by_language_and_role : List Stream → Text → Text → List Stream
filter_streams_by_language_and_role ss language role =
    let e = by_language ss language in
    if is_empty role
    then or_else (select (λ s. is_empty s.roles) e) (by_any_role e)
    else or_else (filter_text_streams_by_role e role) (by_any_role e)

abbrev pub same_object : Option Stream → Option Stream → Bool
same_object none none = true
same_object (some a) (some b) = a.object == b.object
same_object _ _ = false

-- `getVariantByStreams`; two missing streams are the same.
unfoldable pub get_variant_by_streams :
    Option Stream → Option Stream → List Variant → Option Variant
get_variant_by_streams a b vs =
    find_first (λ v. same_object v.audio_stream a && same_object v.video_stream b) vs

abbrev pub codec_base_of : Option Stream → Text
codec_base_of none = []
codec_base_of (some s) = get_codec_base s.codecs

-- The key of a variant in `chooseCodecsAndFilterManifest`: the codecs of its streams, less profiles.
unfoldable pub codecs_key : Variant → Text
codecs_key v = codec_base_of v.video_stream ++ text_of "-" ++ codec_base_of v.audio_stream

abbrev pub Groups : Type 0
Groups = List (Text × List Variant)

-- The MultiMap of variants by key.
unfoldable pub add_to_group : Variant → Groups → Groups
add_to_group v [] = (codecs_key v, v ∷ []) ∷ []
add_to_group v ((k, vs) ∷ m) =
    let rest = add_to_group v m in
    if same_text k (codecs_key v) then (k, vs ++ v ∷ []) ∷ m else (k, vs) ∷ rest

unfoldable pub group : List Variant → Groups → Groups
group [] m = m
group (v ∷ vs) m = group vs (add_to_group v m)

unfoldable pub total_bandwidth : List Variant → ℕ
total_bandwidth [] = 0
total_bandwidth (v ∷ vs) = v.bandwidth + total_bandwidth vs

-- Whether the average bandwidth of the first list is below that of the second; no list is empty.
unfoldable pub is_cheaper : List Variant → List Variant → Bool
is_cheaper vs ws = ltb (total_bandwidth vs * length ws) (total_bandwidth ws * length vs)

-- The group of the lowest average; `none` is the start, an average of Infinity.
unfoldable pub cheapest : Option (Text × List Variant) → Groups → Option (Text × List Variant)
cheapest best [] = best
cheapest none ((k, vs) ∷ m) = cheapest (some (k, vs)) m
cheapest (some best) ((k, vs) ∷ m) =
    cheapest (if is_cheaper vs best.1 then some (k, vs) else some best) m

abbrev pub keep_key : Option (Text × List Variant) → Period → Period
keep_key none p = record p { variants = [] }
keep_key (some best) p = record p {
  variants = select (λ v. same_text (codecs_key v) best.0) p.variants;
}

-- `chooseCodecsAndFilterManifest`, of the periods of the manifest.
unfoldable pub choose_codecs_and_filter_manifest : List Period → ℕ → List Period
choose_codecs_and_filter_manifest ps count =
    let vs = flatten (map (λ p. p.variants) ps) in
    let chosen = cheapest none (group (filter_variants_by_audio_channel_count vs count) []) in
    map (keep_key chosen) ps
