-- ===== src/Net/DataUri.antt =====
-- `DataUriPlugin` (shaka/js/shaka-player.compiled.debug.js). The decoding of percent signs, of base 64 and
-- to UTF-8 are the browser's, and parameters.
use shaka_player_embedded.Base.{
  Bool, false, Option, none, some, List, [], ◌∷◌, if◌then◌else◌, Text, text_of, same_text, split,
  join,
}
use shaka_player_embedded.Binary.Bytes.{Bytes}

pub record DataUri : Type 0 where
  pub bytes : Bytes
  pub content_type : Text

-- The parts before the last one, and whether that one says base64.
abbrev pub is_base64 : List Text → Bool
is_base64 [] = false
is_base64 (t ∷ []) = same_text t (text_of "base64")
is_base64 (t ∷ u ∷ ts) = is_base64 (u ∷ ts)

abbrev pub first_of : List Text → Text
first_of [] = []
first_of (t ∷ ts) = t

abbrev pub rest_of : List Text → List Text
rest_of [] = []
rest_of (t ∷ ts) = ts

module _ (decode_uri : Text → Text) (from_base64 to_utf8 : Text → Bytes) where
  abbrev pub data_of : Text → Text → DataUri
  data_of info body =
      let parts = split b';' info in
      record {
        bytes =
            if is_base64 (rest_of parts)
            then from_base64 (decode_uri body)
            else to_utf8 (decode_uri body);
        content_type = first_of parts;
      }

  abbrev pub from_parts : List Text → Option DataUri
  from_parts (info ∷ b ∷ bs) = some (data_of info (join (text_of ",") (b ∷ bs)))
  from_parts _ = none

  abbrev pub from_scheme : List Text → Option DataUri
  from_scheme (s ∷ r ∷ rs) =
      if same_text s (text_of "data")
      then from_parts (split b',' (join (text_of ":") (r ∷ rs)))
      else none
  from_scheme _ = none

  -- `parse`; null is the error MALFORMED_DATA_URI.
  unfoldable pub parse : Text → Option DataUri
  parse uri = from_scheme (split b':' uri)
