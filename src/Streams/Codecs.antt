-- ===== src/Streams/Codecs.antt =====
-- Namespace `MimeUtils` (shaka/js/shaka-player.compiled.debug.js).
use shaka_player_embedded.Base.{
  Option, none, some, List, [], ◌∷◌, ◌++◌, if◌then◌else◌, Text, text_of, is_empty, split, join,
}

unfoldable pub get_full_type : Text → Text → Text
get_full_type mime codecs =
    if is_empty codecs then mime else mime ++ text_of "; codecs=\"" ++ codecs ++ text_of "\""

-- `getExtendedType`, where `values` has the extended parameters that the stream has, in the order of
-- `EXTENDED_MIME_PARAMETERS_`, each with its name.
abbrev pub extended_parameters : List (Text × Option Text) → List Text
extended_parameters [] = []
extended_parameters ((name, none) ∷ values) = extended_parameters values
extended_parameters ((name, some value) ∷ values) =
    (name ++ text_of "=\"" ++ value ++ text_of "\"") ∷ extended_parameters values

unfoldable pub get_extended_type : Text → List (Text × Option Text) → Text
get_extended_type mime values = join (text_of ";") (mime ∷ extended_parameters values)

unfoldable pub split_codecs : Text → List Text
split_codecs a = split b',' a

abbrev pub first_part : List Text → Text
first_part [] = []
first_part (t ∷ ts) = t

abbrev pub all_but_last : List Text → List Text
all_but_last [] = []
all_but_last (t ∷ []) = []
all_but_last (t ∷ u ∷ ts) = t ∷ all_but_last (u ∷ ts)

unfoldable pub get_codec_parts : Text → Text × Text
get_codec_parts a =
    let parts = split b'.' a in (first_part parts, join (text_of ".") (all_but_last parts))

unfoldable pub get_codec_base : Text → Text
get_codec_base a = (get_codec_parts a).0
