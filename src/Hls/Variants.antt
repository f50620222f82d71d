-- ===== src/Hls/Variants.antt =====
-- The variants and the period of a master playlist in class `HlsParser`
-- (shaka/js/shaka-player.compiled.debug.js). Playlists that the code fetches at the same time are taken here
-- one after the other, in the order of their tags; what `createStreamInfo_` gives is a parameter
-- (Hls/Streams).
use shaka_player_embedded.Base.{
  ℕ, suc, ◌==◌, Bool, false, not, ◌||◌, Option, none, some, List, [], ◌∷◌, ◌++◌, map, select, any,
  is_empty, if◌then◌else◌, Text, text_of, same_text, split, join,
}
use shaka_player_embedded.Streams.Types.{ContentType, DrmInfo}
use shaka_player_embedded.Streams.Drm.{are_drm_compatible, get_common_drm_infos}
use shaka_player_embedded.Streams.Locale.{normalize}
use shaka_player_embedded.Hls.Tags.{Tag, get_attribute_value}
use shaka_player_embedded.Hls.Streams.{
  HlsStream, StreamInfo, StreamTag, StreamState, media_stream_tag, variant_stream_tag,
}
use shaka_player_embedded.Hls.Required.{Outcome, done, ◌>>=◌, get_required_attribute_value}

pub record HlsVariant : Type 0 where
  pub id : ℕ
  pub language : Text
  pub primary : Bool
  pub audio_stream : Option HlsStream
  pub video_stream : Option HlsStream
  pub bandwidth : ℕ
  pub drm_infos : List DrmInfo

-- The parser's maps: streams by the tag and by the URI, the captions of the groups, and the pairs
-- of URIs that there is a variant for.
pub record Maps : Type 0 where
  pub by_tag : List (ℕ × Text)
  pub by_uri : List (Text × StreamInfo)
  pub captions : List (Text × List (Text × Text))
  pub variant_uris : List Text
  pub state : StreamState

abbrev pub Found : Type 0
Found = Option StreamInfo × Maps

unfoldable pub info_at : List (Text × StreamInfo) → Text → Option StreamInfo
info_at [] uri = none
info_at ((u, i) ∷ is) uri = let rest = info_at is uri in if same_text u uri then some i else rest

-- A stream whose playlist was read goes into the maps, unless one of its URI is there already.
abbrev pub store : Option ℕ → Text → Maps → Option StreamInfo × StreamState → Found
store tag uri m (none, s) = (none, record m { state = s })
store tag uri m (some i, s) = elim (info_at m.by_uri uri) [
  | some old ↦ (some old, record m { state = s })
  | none ↦ (
    some i,
    record m {
      by_tag = elim tag [ none ↦ m.by_tag | some n ↦ (n, uri) ∷ m.by_tag ];
      by_uri = m.by_uri ++ (uri, i) ∷ [];
      state = s;
    },
  )
]

module _ (create : StreamTag → StreamState → Outcome (Option StreamInfo × StreamState))
    (parse_int : Text → Option ℕ) where
  abbrev pub known_or :
      Option ℕ → Text → Maps → Option StreamInfo → Outcome StreamTag → Outcome Found
  known_or tag uri m (some i) g = done (some i, m)
  known_or tag uri m none g = g >>= λ t. create t m.state >>= λ r. done (store tag uri m r)

  -- `createStreamInfoFromMediaTag_`
  unfoldable pub from_media_tag : Tag → List Text → Maps → Outcome Found
  from_media_tag t codecs m = get_required_attribute_value t (text_of "URI") >>= λ uri.
      known_or (some t.id) uri m (info_at m.by_uri uri) (media_stream_tag parse_int t codecs)

  -- `createStreamInfoFromVariantTag_`
  unfoldable pub from_variant_tag : Tag → List Text → ContentType → Maps → Outcome Found
  from_variant_tag t codecs c m = get_required_attribute_value t (text_of "URI") >>= λ uri.
      known_or none uri m (info_at m.by_uri uri) (variant_stream_tag m.captions t codecs c)

  abbrev pub onto_found : Option StreamInfo → List StreamInfo → List StreamInfo
  onto_found none is = is
  onto_found (some i) is = i ∷ is

  unfoldable pub from_media_tags : List Tag → List Text → Maps → Outcome (List StreamInfo × Maps)
  from_media_tags [] codecs m = done ([], m)
  from_media_tags (t ∷ ts) codecs m = from_media_tag t codecs m >>= λ r.
      from_media_tags ts codecs r.1 >>= λ rest. done (onto_found r.0 rest.0, rest.1)

-- `filterLegacyCodecs_`
abbrev pub is_not_legacy : Text → Bool
is_not_legacy c = not (same_text c (text_of "mp4a.40.34"))

unfoldable pub filter_legacy_codecs : StreamInfo → StreamInfo
filter_legacy_codecs i = record i {
  stream = record i.stream {
    codecs = join (text_of ",") (select is_not_legacy (split b',' i.stream.codecs));
  };
}

abbrev pub non_zero : (Text → ℕ) → Option Text → Option ℕ
non_zero number none = none
non_zero number (some s) = let n = number s in if n == 0 then none else some n

-- `addVideoAttributes_`
unfoldable pub add_video_attributes :
    (Text → ℕ) → Option Text → Option Text → Option Text → StreamInfo → StreamInfo
add_video_attributes number width height rate i = record i {
  stream = record i.stream {
    width = non_zero number width;
    height = non_zero number height;
    frame_rate = non_zero number rate;
  };
}

abbrev pub stream_in : Option StreamInfo → Option HlsStream
stream_in none = none
stream_in (some i) = some i.stream

abbrev pub uri_in : Option StreamInfo → Text
uri_in none = []
uri_in (some i) = i.verbatim_media_playlist_uri

abbrev pub language_in : Option StreamInfo → Text
language_in none = text_of "und"
language_in (some i) = i.stream.language

abbrev pub primary_in : Option StreamInfo → Bool
primary_in none = false
primary_in (some i) = i.stream.primary

-- What two streams are both protected by; null where that is nothing.
abbrev pub shared_infos : Option StreamInfo → Option StreamInfo → Option (List DrmInfo)
shared_infos (some a) (some v) =
    if are_drm_compatible a.drm_infos v.drm_infos
    then some (get_common_drm_infos a.drm_infos v.drm_infos)
    else none
shared_infos (some a) none = some a.drm_infos
shared_infos none (some v) = some v.drm_infos
shared_infos none none = some []

-- `createVariant_`
unfoldable pub create_variant :
    Option StreamInfo → Option StreamInfo → ℕ → List DrmInfo → ℕ → HlsVariant
create_variant a v bandwidth ds id = record {
  id = id;
  language = language_in a;
  primary = primary_in a || primary_in v;
  audio_stream = stream_in a;
  video_stream = stream_in v;
  bandwidth = bandwidth;
  drm_infos = ds;
}

abbrev pub pair_of : Option StreamInfo → Option StreamInfo → Text
pair_of a v = uri_in v ++ text_of " - " ++ uri_in a

abbrev pub new_id : Maps → Maps
new_id m = record m { state = record m.state { global_id = suc m.state.global_id } }

-- A variant of two streams, unless they do not fit or there is one of the same URIs.
abbrev pub add_variant :
    ℕ
    → Option StreamInfo
    → Option StreamInfo
    → Option (List DrmInfo)
    → Maps
    → Option HlsVariant × Maps
add_variant bandwidth a v none m = (none, m)
add_variant bandwidth a v (some ds) m =
    if any (same_text (pair_of a v)) m.variant_uris then (none, m) else (
      some (create_variant a v bandwidth ds m.state.global_id),
      new_id (record m { variant_uris = m.variant_uris ++ pair_of a v ∷ [] }),
    )

abbrev pub onto_variant : Option HlsVariant → List HlsVariant → List HlsVariant
onto_variant none vs = vs
onto_variant (some v) vs = v ∷ vs

unfoldable pub variants_for :
    ℕ → Option StreamInfo → List (Option StreamInfo) → Maps → List HlsVariant × Maps
variants_for bandwidth a [] m = ([], m)
variants_for bandwidth a (v ∷ vs) m =
    let r = add_variant bandwidth a v (shared_infos a v) m in
    let rest = variants_for bandwidth a vs r.1 in (onto_variant r.0 rest.0, rest.1)

unfoldable pub variants_of :
    ℕ → List (Option StreamInfo) → List (Option StreamInfo) → Maps → List HlsVariant × Maps
variants_of bandwidth [] vs m = ([], m)
variants_of bandwidth (a ∷ as') vs m =
    let r = variants_for bandwidth a vs m in
    let rest = variants_of bandwidth as' vs r.1 in (r.0 ++ rest.0, rest.1)

abbrev pub or_null : Bool → List StreamInfo → List (Option StreamInfo)
or_null disabled [] = none ∷ []
or_null disabled (i ∷ is) = if disabled then none ∷ [] else map some (i ∷ is)

-- `createVariants_`, where the kinds that are switched off are null.
unfoldable pub create_variants :
    Bool → Bool → ℕ → List StreamInfo → List StreamInfo → Maps → List HlsVariant × Maps
create_variants no_audio no_video bandwidth as' vs m =
    variants_of bandwidth (or_null no_audio as') (or_null no_video vs) m

-- The language of a channel in the captions of its group.
unfoldable pub set_language : Text → Text → List (Text × Text) → List (Text × Text)
set_language k l [] = (k, l) ∷ []
set_language k l ((j, w) ∷ m) = if same_text j k then (k, l) ∷ m else (j, w) ∷ set_language k l m

unfoldable pub set_caption :
    Text → Text → Text → List (Text × List (Text × Text)) → List (Text × List (Text × Text))
set_caption g k l [] = (g, (k, l) ∷ []) ∷ []
set_caption g k l ((h, m) ∷ gs) =
    if same_text h g then (h, set_language k l m) ∷ gs else (h, m) ∷ set_caption g k l gs

abbrev pub or_und : Option Text → Text
or_und none = text_of "und"
or_und (some s) = if is_empty s then text_of "und" else s

-- `parseClosedCaptions_`
unfoldable pub parse_closed_captions :
    List Tag → List (Text × List (Text × Text)) → Outcome (List (Text × List (Text × Text)))
parse_closed_captions [] gs = done gs
parse_closed_captions (t ∷ ts) gs = get_required_attribute_value t (text_of "TYPE") >>= λ k.
    get_required_attribute_value t (text_of "GROUP-ID") >>= λ g.
    get_required_attribute_value t (text_of "INSTREAM-ID") >>= λ i.
    parse_closed_captions ts
      (set_caption g i (normalize (or_und (get_attribute_value (text_of "LANGUAGE") none t))) gs)
