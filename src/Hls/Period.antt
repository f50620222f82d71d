-- ===== src/Hls/Period.antt =====
-- The variants of a tag, and the period, of a master playlist in class `HlsParser`
-- (shaka/js/shaka-player.compiled.debug.js), on the maps of Hls/Variants. A stream that several tags share
-- keeps here, in each variant, what that variant's tag says of it.
use shaka_player_embedded.Base.{
  ℕ, ◌==◌, Bool, true, false, not, ◌||◌, Option, none, some, List, [], ◌∷◌, ◌++◌, map, select,
  is_some, is_empty, if◌then◌else◌, Text, text_of, same_text, or_empty, split, join, trim,
  trim_front, trim_back,
}
use shaka_player_embedded.Streams.Types.{ContentType, audio, video, text_type}
use shaka_player_embedded.Hls.Tags.{
  Tag, get_attribute, get_attribute_value, filter_tags_by_name, find_media_tags,
}
use shaka_player_embedded.Hls.Codecs.{filter_duplicate_codecs, guess_codecs_safe}
use shaka_player_embedded.Hls.Streams.{HlsStream, StreamInfo, StreamTag, StreamState}
use shaka_player_embedded.Hls.Variants.{
  HlsVariant, Maps, add_video_attributes, create_variants, filter_legacy_codecs, from_media_tag,
  from_media_tags, from_variant_tag, parse_closed_captions, Found,
}
use shaka_player_embedded.Hls.Required.{
  Outcome, done, fail, ◌>>=◌, get_required_attribute_value, type_error,
}

-- `split(/\s*,\s*/)`
abbrev pub after_comma : List Text → List Text
after_comma [] = []
after_comma (t ∷ []) = trim_front t ∷ []
after_comma (t ∷ u ∷ ts) = trim t ∷ after_comma (u ∷ ts)

abbrev pub codec_parts : List Text → List Text
codec_parts [] = []
codec_parts (t ∷ []) = t ∷ []
codec_parts (t ∷ u ∷ ts) = trim_back t ∷ after_comma (u ∷ ts)

abbrev pub has_text : Option Text → Bool
has_text o = not (is_empty (or_empty o))

-- The tags that are not of captions; one without a type is an error.
unfoldable pub without_captions : List Tag → Outcome (List Tag)
without_captions [] = done []
without_captions (t ∷ ts) = get_required_attribute_value t (text_of "TYPE") >>= λ k.
    without_captions ts >>= λ rest.
    done (if same_text k (text_of "CLOSED-CAPTIONS") then rest else t ∷ rest)

abbrev pub has_playlist : Tag → Bool
has_playlist t =
    same_text (or_empty (get_attribute_value (text_of "TYPE") none t)) (text_of "SUBTITLES")
    || has_text (get_attribute_value (text_of "URI") none t)

abbrev pub in_group : Option Text → Option Text → List Tag → List Tag
in_group sound picture ts =
    if has_text sound
    then find_media_tags ts (text_of "AUDIO") (or_empty sound)
    else if has_text picture
    then find_media_tags ts (text_of "VIDEO") (or_empty picture)
    else ts

-- `ArrayUtils.remove`
abbrev pub without_first : Text → List Text → List Text
without_first t [] = []
without_first t (u ∷ us) = let rest = without_first t us in if same_text u t then us else u ∷ rest

abbrev pub with_codecs : Text → StreamInfo → StreamInfo
with_codecs c i = record i { stream = record i.stream { codecs = c } }

abbrev pub uri_at : List (ℕ × Text) → ℕ → Option Text
uri_at [] n = none
uri_at ((k, uri) ∷ ks) n = let rest = uri_at ks n in if k == n then some uri else rest

unfoldable pub set_codecs : Text → Text → List (Text × StreamInfo) → List (Text × StreamInfo)
set_codecs uri c [] = []
set_codecs uri c ((u, i) ∷ is) =
    let rest = set_codecs uri c is in
    if same_text u uri then (u, with_codecs c i) ∷ rest else (u, i) ∷ rest

-- The stream of the first subtitle tag learns the text's codec.
abbrev pub learn_codec : Text → List Tag → Maps → Maps
learn_codec c [] m = m
learn_codec c (t ∷ ts) m = elim (uri_at m.by_tag t.id) [
  | none ↦ m
  | some uri ↦ record m { by_uri = set_codecs uri c m.by_uri }
]

-- A text codec is taken out of the codecs.
abbrev pub take_text : Option Text → Option Text → List Tag → List Text → Maps → List Text × Maps
take_text codec group ts cs m =
    let c = or_empty codec in
    if is_empty c then (cs, m) else (
      without_first c cs,
      if has_text group
          then learn_codec c (find_media_tags ts (text_of "SUBTITLES") (or_empty group)) m
          else m,
    )

-- What the variant's own playlist has: its type, whether it is one of the streams that are there
-- already, and its codecs.
pub record Guess : Type 0 where
  pub content_type : ContentType
  pub is_there : Bool
  pub codecs : List Text

abbrev pub a_guess : ContentType → Bool → List Text → Guess
a_guess k there cs = record { content_type = k; is_there = there; codecs = cs }

abbrev pub guess_alone : Bool → List Text → Guess
guess_alone has_picture (c ∷ []) =
    a_guess (if has_picture || has_text (guess_codecs_safe video (c ∷ [])) then video else audio)
      false (c ∷ [])
guess_alone has_picture cs = a_guess video false (join (text_of ",") cs ∷ [])

unfoldable pub guess_type :
    Tag → List StreamInfo → List StreamInfo → Bool → List Text → Outcome Guess
guess_type t (i ∷ is) vs has_picture cs = get_required_attribute_value t (text_of "URI") >>= λ uri.
    let same = same_text uri i.verbatim_media_playlist_uri in
    done (a_guess (if same then audio else video) same cs)
guess_type t [] (v ∷ vs) has_picture cs = done (a_guess audio false cs)
guess_type t [] [] has_picture cs = done (guess_alone has_picture cs)

-- The streams of a variant, and whether its own playlist was passed over.
pub record Streams : Type 0 where
  pub sounds : List StreamInfo
  pub pictures : List StreamInfo
  pub is_skipped : Bool
  pub maps : Maps

abbrev pub placed : List StreamInfo → List StreamInfo → Found → Streams
placed as' vs (none, m) = record { sounds = as'; pictures = vs; is_skipped = true; maps = m }
placed as' vs (some i, m) = elim i.stream.content_type [
  | audio ↦ record { sounds = i ∷ []; pictures = vs; is_skipped = false; maps = m }
  | _ ↦ record { sounds = as'; pictures = i ∷ []; is_skipped = false; maps = m }
]

pub record HlsPeriod : Type 0 where
  pub variants : List HlsVariant
  pub text_streams : List HlsStream
  pub maps : Maps

-- `number` is `Number`, of a text that is one.
module _ (create : StreamTag → StreamState → Outcome (Option StreamInfo × StreamState))
    (parse_int : Text → Option ℕ) (number : Text → ℕ) (no_audio no_video no_text : Bool)
    (ignore_text_failures : Bool) where
  abbrev pub own_stream : Tag → List StreamInfo → List StreamInfo → Maps → Guess → Outcome Streams
  own_stream t as' vs m g =
      if g.is_there
      then done (record { sounds = as'; pictures = vs; is_skipped = false; maps = m })
      else from_variant_tag create parse_int t g.codecs g.content_type m >>= λ r.
          done (placed as' vs r)

  abbrev pub part_of : Option Text → (List Text → Option Text) → Option Text
  part_of none f = none
  part_of (some s) f = f (split b'x' s)

  abbrev pub first_of : List Text → Option Text
  first_of [] = none
  first_of (t ∷ ts) = some t

  abbrev pub second_of : List Text → Option Text
  second_of (t ∷ u ∷ ts) = some u
  second_of _ = none

  abbrev pub variants_with : Tag → ℕ → Streams → List HlsVariant × Maps
  variants_with t bandwidth s =
      let size = get_attribute_value (text_of "RESOLUTION") none t in
      let rate = get_attribute_value (text_of "FRAME-RATE") none t in
      if s.is_skipped
      then ([], s.maps)
      else create_variants no_audio no_video bandwidth (map filter_legacy_codecs s.sounds)
          (map
            (λ (i : StreamInfo).
              add_video_attributes number (part_of size first_of) (part_of size second_of) rate
                (filter_legacy_codecs i))
            s.pictures)
          s.maps

  abbrev pub is_video_named : Tag → Bool
  is_video_named t =
      is_some (get_attribute (text_of "RESOLUTION") t)
      || has_text (get_attribute_value (text_of "FRAME-RATE") none t)

  -- The streams of the media tags go with the group that the variant names.
  abbrev pub grouped :
      Option Text → Option Text → List StreamInfo → List StreamInfo × List StreamInfo
  grouped sound picture is =
      if has_text sound then (is, []) else if has_text picture then ([], is) else ([], [])

  -- `createVariantsForTag_`
  unfoldable pub create_variants_for_tag : List Tag → Tag → Maps → Outcome (List HlsVariant × Maps)
  create_variants_for_tag tags t m =
      let named =
        get_attribute_value (text_of "CODECS") (some (text_of "avc1.42E01E,mp4a.40.2")) t in
      let codecs = filter_duplicate_codecs (codec_parts (split b',' (or_empty named))) in
      let sound = get_attribute_value (text_of "AUDIO") none t in
      let picture = get_attribute_value (text_of "VIDEO") none t in
      get_required_attribute_value t (text_of "BANDWIDTH") >>= λ bandwidth.
      without_captions (filter_tags_by_name tags (text_of "EXT-X-MEDIA")) >>= λ all.
      let media = in_group sound picture (select has_playlist all) in
      let texts =
        take_text (guess_codecs_safe text_type codecs)
          (get_attribute_value (text_of "SUBTITLES") none t) media codecs m in
      from_media_tags create parse_int media texts.0 texts.1 >>= λ found.
      let groups = grouped sound picture found.0 in
      guess_type t groups.0 groups.1 (is_video_named t) texts.0
      >>= own_stream t groups.0 groups.1 found.1
      >>= λ s. done (variants_with t (number bandwidth) s)

  unfoldable pub variants_for_tags : List Tag → List Tag → Maps → Outcome (List HlsVariant × Maps)
  variants_for_tags tags [] m = done ([], m)
  variants_for_tags tags (t ∷ ts) m = create_variants_for_tag tags t m >>= λ r.
      variants_for_tags tags ts r.1 >>= λ rest. done (r.0 ++ rest.0, rest.1)

  -- The tags of one type; a tag without a type is an error.
  unfoldable pub tags_of_type : Text → List Tag → Outcome (List Tag)
  tags_of_type k [] = done []
  tags_of_type k (t ∷ ts) = get_required_attribute_value t (text_of "TYPE") >>= λ own.
      tags_of_type k ts >>= λ rest. done (if same_text own k then t ∷ rest else rest)

  -- `createTextStream_`, with the failures that may be ignored; the code reads the stream of null
  -- where its playlist is passed over, which throws a TypeError.
  abbrev pub text_of_found : Found → Outcome (Option HlsStream × Maps)
  text_of_found (none, m) = fail type_error
  text_of_found (some i, m) = done (some i.stream, m)

  abbrev pub or_ignored :
      Maps → Outcome (Option HlsStream × Maps) → Outcome (Option HlsStream × Maps)
  or_ignored m (done r) = done r
  or_ignored m (fail x) = if ignore_text_failures then done (none, m) else fail x

  abbrev pub onto_text : Option HlsStream → List HlsStream → List HlsStream
  onto_text none ss = ss
  onto_text (some s) ss = s ∷ ss

  unfoldable pub text_streams : List Tag → Maps → Outcome (List HlsStream × Maps)
  text_streams [] m = done ([], m)
  text_streams (t ∷ ts) m =
      or_ignored m (from_media_tag create parse_int t [] m >>= text_of_found) >>= λ r.
      text_streams ts r.1 >>= λ rest. done (onto_text r.0 rest.0, rest.1)

  -- `createPeriod_`, of the tags of the master playlist.
  unfoldable pub create_period : List Tag → Maps → Outcome HlsPeriod
  create_period tags m =
      let media = filter_tags_by_name tags (text_of "EXT-X-MEDIA") in
      tags_of_type (text_of "SUBTITLES") media >>= λ subtitles.
      tags_of_type (text_of "CLOSED-CAPTIONS") media >>= λ captions.
      parse_closed_captions captions m.captions >>= λ groups.
      text_streams (if no_text then [] else subtitles) (record m { captions = groups }) >>= λ texts.
      variants_for_tags tags (filter_tags_by_name tags (text_of "EXT-X-STREAM-INF")) texts.1
      >>= λ vs. done (record { variants = vs.0; text_streams = texts.0; maps = vs.1 })
