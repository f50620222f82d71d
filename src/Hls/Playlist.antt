-- ===== src/Hls/Playlist.antt =====
-- Class `ManifestTextParser` (shaka/js/shaka-player.compiled.debug.js). How a URI is resolved is a
-- parameter.
use shaka_player_embedded.Base.{
  ℕ, suc, ◌==◌, Bool, true, false, ◌&&◌, Option, none, some, List, [], ◌∷◌, ◌++◌, any,
  if◌then◌else◌, Text, text_of, same_text,
}
use shaka_player_embedded.Hls.Tags.{
  Tag, add_attribute, is_comment, parse_tag, starts_with, span, is_not,
}

pub data PlaylistType : Type 0 where
  master media : PlaylistType

pub record Segment : Type 0 where
  pub absolute_uri : Text
  pub tags : List Tag

pub record Playlist : Type 0 where
  pub absolute_uri : Text
  pub playlist_type : PlaylistType
  pub tags : List Tag
  pub segments : Option (List Segment)

pub data Parsed {ℓ} (A : Type ℓ) : Type ℓ where
  parsed : A → Parsed A
  hls_playlist_header_missing hls_invalid_playlist_hierarchy invalid_hls_tag : Parsed A

abbrev pub media_playlist_tags : List Text
media_playlist_tags =
    text_of "EXT-X-TARGETDURATION"
    ∷ text_of "EXT-X-MEDIA-SEQUENCE"
    ∷ text_of "EXT-X-DISCONTINUITY-SEQUENCE"
    ∷ text_of "EXT-X-PLAYLIST-TYPE"
    ∷ text_of "EXT-X-MAP"
    ∷ text_of "EXT-X-I-FRAMES-ONLY"
    ∷ text_of "EXT-X-ENDLIST"
    ∷ []

abbrev pub segment_tags : List Text
segment_tags =
    text_of "EXTINF"
    ∷ text_of "EXT-X-BYTERANGE"
    ∷ text_of "EXT-X-DISCONTINUITY"
    ∷ text_of "EXT-X-PROGRAM-DATE-TIME"
    ∷ text_of "EXT-X-KEY"
    ∷ text_of "EXT-X-DATERANGE"
    ∷ []

abbrev pub includes : List Text → Text → Bool
includes names name = any (same_text name) names

-- `\r\n`, and a lone `\r`, become `\n`.
unfoldable pub unify_lines : Text → Text
unify_lines [] = []
unify_lines (c ∷ []) = (if c == 13 then 10 else c) ∷ []
unify_lines (c ∷ d ∷ s) =
    let rest = unify_lines (d ∷ s) in
    if c == 13 then (if d == 10 then rest else 10 ∷ rest) else c ∷ rest

abbrev pub is_stream_inf : Tag → Bool
is_stream_inf t = same_text t.name (text_of "EXT-X-STREAM-INF")

-- The line behind the tag of a stream is its URI.
abbrev pub without_first {ℓ} : {A : Type ℓ} → List A → List A
without_first [] = []
without_first (a ∷ as') = as'

-- The first loop: the playlist is one of media when one of its tags says so. `skip` is whether the
-- next line is passed over.
unfoldable pub playlist_type_of : Bool → List Text → Parsed PlaylistType
playlist_type_of skip [] = parsed master
playlist_type_of true (l ∷ ls) = playlist_type_of false ls
playlist_type_of false (l ∷ ls) = elim (is_comment l) [
  | true ↦ playlist_type_of false ls
  | false ↦ elim (parse_tag 0 l) [
    | none ↦ invalid_hls_tag
    | some t ↦ elim (includes media_playlist_tags t.name) [
      | true ↦ parsed media
      | false ↦ playlist_type_of (is_stream_inf t) ls
    ]
  ]
]

module _ (trim : Text → Text) (resolve : Text → Text → Text) where
  -- `parseSegments_`, with the next tag's id, the playlist's tags, the segments and the tags of the
  -- next segment so far. Tags behind the last URI belong to no segment.
  unfoldable pub parse_segments :
      Text → ℕ → List Tag → List Segment → List Tag → List Text → Parsed (List Tag × List Segment)
  parse_segments uri id tags segments pending [] = parsed (tags, segments)
  parse_segments uri id tags segments pending (l ∷ ls) = elim (starts_with (text_of "#EXT") l) [
    | true ↦ elim (parse_tag id l) [
      | none ↦ invalid_hls_tag
      | some t ↦ elim (includes media_playlist_tags t.name) [
        | true ↦ parse_segments uri (suc id) (tags ++ (t ∷ [])) segments pending ls
        | false ↦ parse_segments uri (suc id) tags segments (pending ++ (t ∷ [])) ls
      ]
    ]
    | false ↦ elim (is_comment l) [
      | true ↦ parse_segments uri id tags segments pending ls
      | false ↦
          parse_segments uri id tags
            (segments ++ (record { absolute_uri = resolve uri (trim l); tags = pending } ∷ [])) []
            ls
    ]
  ]

  abbrev pub media_playlist :
      Text → PlaylistType → Parsed (List Tag × List Segment) → Parsed Playlist
  media_playlist uri k (parsed (tags, segments)) =
      parsed
        (record { absolute_uri = uri; playlist_type = k; tags = tags; segments = some segments })
  media_playlist uri k hls_playlist_header_missing = hls_playlist_header_missing
  media_playlist uri k hls_invalid_playlist_hierarchy = hls_invalid_playlist_hierarchy
  media_playlist uri k invalid_hls_tag = invalid_hls_tag

  abbrev pub segments_from : Text → PlaylistType → ℕ → List Tag → List Text → Parsed Playlist
  segments_from uri master id tags ls = hls_invalid_playlist_hierarchy
  segments_from uri media id tags ls =
      media_playlist uri media (parse_segments uri id tags [] [] ls)

  -- The tag of a stream takes the next line as its URI; behind the last line the code has the value
  -- undefined there, which is its text here.
  abbrev pub with_uri : Tag → List Text → Tag
  with_uri t [] = add_attribute (record { name = text_of "URI"; value = text_of "undefined" }) t
  with_uri t (l ∷ ls) = add_attribute (record { name = text_of "URI"; value = l }) t

  -- The second loop; `open_tag` is the tag of a stream that waits for its URI.
  unfoldable pub parse_lines :
      Text → PlaylistType → ℕ → List Tag → Option Tag → List Text → Parsed Playlist
  parse_lines uri k id tags (some t) [] = parsed (record {
    absolute_uri = uri;
    playlist_type = k;
    tags = tags ++ (with_uri t [] ∷ []);
    segments = none;
  })
  parse_lines uri k id tags none [] =
      parsed (record { absolute_uri = uri; playlist_type = k; tags = tags; segments = none })
  parse_lines uri k id tags (some t) (l ∷ ls) =
      parse_lines uri k id (tags ++ (with_uri t (l ∷ ls) ∷ [])) none ls
  parse_lines uri k id tags none (l ∷ ls) = elim (is_comment l) [
    | true ↦ parse_lines uri k id tags none ls
    | false ↦ elim (parse_tag id l) [
      | none ↦ invalid_hls_tag
      | some t ↦ elim (includes segment_tags t.name) [
        | true ↦ segments_from uri k (suc id) tags (l ∷ ls)
        | false ↦ elim (is_stream_inf t) [
          | true ↦ parse_lines uri k (suc id) tags (some t) ls
          | false ↦ parse_lines uri k (suc id) (tags ++ (t ∷ [])) none ls
        ]
      ]
    ]
  ]

  -- `/^#EXTM3U($|[ \t\n])/`, of one line.
  abbrev pub is_header : Text → Bool
  is_header s = let r = span (λ c. is_not 32 c && is_not 9 c) s in same_text r.0 (text_of "#EXTM3U")

  -- `parsePlaylist`, on the lines of the text, with the id of the next tag.
  unfoldable pub parse_playlist : Text → ℕ → List Text → Parsed Playlist
  parse_playlist uri id [] = hls_playlist_header_missing
  parse_playlist uri id (l ∷ ls) = elim (is_header l) [
    | false ↦ hls_playlist_header_missing
    | true ↦ elim (playlist_type_of false ls) [
      | parsed k ↦ parse_lines uri k id [] none ls
      | hls_playlist_header_missing ↦ hls_playlist_header_missing
      | hls_invalid_playlist_hierarchy ↦ hls_invalid_playlist_hierarchy
      | invalid_hls_tag ↦ invalid_hls_tag
    ]
  ]
