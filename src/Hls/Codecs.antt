-- ===== src/Hls/Codecs.antt =====
-- The codecs and the MIME type of a playlist in class `HlsParser`
-- (shaka/js/shaka-player.compiled.debug.js).
use shaka_player_embedded.Base.{
  Bool, not, ◌&&◌, Option, none, some, List, [], ◌∷◌, any, find_first, if◌then◌else◌, Text, text_of,
  same_text, is_empty, split, trim,
}
use shaka_player_embedded.Streams.Types.{ContentType, audio, video, text_type}
use shaka_player_embedded.Streams.Codecs.{get_codec_base, first_part}
use shaka_player_embedded.Hls.Tags.{starts_with}
use shaka_player_embedded.Hls.Required.{
  Outcome, done, fail, hls_could_not_guess_codecs, hls_could_not_guess_mime_type,
}

-- `filterDuplicateCodecs_`: the first codec of each base.
abbrev pub without_seen : List Text → List Text → List Text
without_seen seen [] = []
without_seen seen (c ∷ cs) =
    let with_it = without_seen (get_codec_base c ∷ seen) cs in
    let without_it = without_seen seen cs in
    if any (same_text (get_codec_base c)) seen then without_it else c ∷ with_it

unfoldable pub filter_duplicate_codecs : List Text → List Text
filter_duplicate_codecs cs = without_seen [] cs

-- The patterns for codecs: a text that starts so, and a text that is so. Only video, audio and text
-- are asked for.
pub data Pattern : Type 0 where
  starting whole : Text → Pattern

abbrev pub fits : Pattern → Text → Bool
fits (starting p) s = starts_with p s
fits (whole p) s = same_text p s

abbrev pub codec_patterns : ContentType → List Pattern
codec_patterns video =
    starting (text_of "avc")
    ∷ starting (text_of "hev")
    ∷ starting (text_of "hvc")
    ∷ starting (text_of "vp8")
    ∷ starting (text_of "vp9")
    ∷ starting (text_of "vp08")
    ∷ starting (text_of "vp09")
    ∷ whole (text_of "av1")
    ∷ []
codec_patterns audio =
    whole (text_of "vorbis")
    ∷ whole (text_of "opus")
    ∷ whole (text_of "flac")
    ∷ starting (text_of "mp4a")
    ∷ whole (text_of "ac-3")
    ∷ whole (text_of "ec-3")
    ∷ []
codec_patterns text_type =
    whole (text_of "vtt") ∷ starting (text_of "wvtt") ∷ starting (text_of "stpp") ∷ []
codec_patterns _ = []

abbrev pub or_else {ℓ} : {A : Type ℓ} → Option A → Option A → Option A
or_else none o = o
or_else (some a) o = some a

-- `guessCodecsSafe_`: the first codec of the list that fits the first pattern that any fits; an empty
-- text for text.
abbrev pub first_fit : List Pattern → List Text → Option Text
first_fit [] cs = none
first_fit (p ∷ ps) cs = or_else (find_first (λ c. fits p (trim c)) cs) (first_fit ps cs)

abbrev pub no_codec : ContentType → Option Text
no_codec text_type = some []
no_codec _ = none

unfoldable pub guess_codecs_safe : ContentType → List Text → Option Text
guess_codecs_safe k cs = elim (first_fit (codec_patterns k) cs) [
  | some c ↦ some (trim c)
  | none ↦ no_codec k
]

-- `guessCodecs_`
abbrev pub guessed : Option Text → Outcome Text
guessed none = fail hls_could_not_guess_codecs
guessed (some c) = done c

unfoldable pub guess_codecs : ContentType → List Text → Outcome Text
guess_codecs k (c ∷ []) = done c
guess_codecs k cs = guessed (guess_codecs_safe k cs)

-- The MIME types of file extensions.
abbrev pub extensions : ContentType → List (Text × Text)
extensions audio =
    (text_of "mp4", text_of "audio/mp4")
    ∷ (text_of "m4s", text_of "audio/mp4")
    ∷ (text_of "m4i", text_of "audio/mp4")
    ∷ (text_of "m4a", text_of "audio/mp4")
    ∷ (text_of "cmfa", text_of "audio/mp4")
    ∷ (text_of "ts", text_of "video/mp2t")
    ∷ (text_of "aac", text_of "audio/aac")
    ∷ (text_of "ac3", text_of "audio/ac3")
    ∷ (text_of "ec3", text_of "audio/ec3")
    ∷ (text_of "mp3", text_of "audio/mpeg")
    ∷ []
extensions video =
    (text_of "mp4", text_of "video/mp4")
    ∷ (text_of "m4s", text_of "video/mp4")
    ∷ (text_of "m4i", text_of "video/mp4")
    ∷ (text_of "m4v", text_of "video/mp4")
    ∷ (text_of "cmfv", text_of "video/mp4")
    ∷ (text_of "ts", text_of "video/mp2t")
    ∷ []
extensions text_type =
    (text_of "mp4", text_of "application/mp4")
    ∷ (text_of "m4s", text_of "application/mp4")
    ∷ (text_of "m4i", text_of "application/mp4")
    ∷ (text_of "cmft", text_of "application/mp4")
    ∷ (text_of "vtt", text_of "text/vtt")
    ∷ (text_of "ttml", text_of "application/ttml+xml")
    ∷ []
extensions _ = []

abbrev pub raw_formats : List Text
raw_formats =
    text_of "audio/aac" ∷ text_of "audio/ac3" ∷ text_of "audio/ec3" ∷ text_of "audio/mpeg" ∷ []

abbrev pub extension_type : List (Text × Text) → Text → Option Text
extension_type [] e = none
extension_type (p ∷ ps) e =
    let rest = extension_type ps e in if same_text p.0 e then some p.1 else rest

abbrev pub last_part : List Text → Text
last_part [] = []
last_part (t ∷ []) = t
last_part (t ∷ u ∷ ts) = last_part (u ∷ ts)

-- The type of a text without a known extension.
abbrev pub text_mime_type : Text → Text
text_mime_type codecs =
    if not (is_empty codecs)
      && not (same_text codecs (text_of "vtt"))
      && not (same_text codecs (text_of "wvtt"))
    then text_of "application/mp4"
    else text_of "text/vtt"

-- The type that a HEAD request answers with.
abbrev pub asked_mime_type : Option Text → Outcome Text
asked_mime_type none = fail hls_could_not_guess_mime_type
asked_mime_type (some header) =
    if is_empty header
    then fail hls_could_not_guess_mime_type
    else done (first_part (split b';' header))

abbrev pub without_extension : ContentType → Text → Option Text → Outcome Text
without_extension text_type codecs header = done (text_mime_type codecs)
without_extension _ codecs header = asked_mime_type header

-- `guessMimeType_`, of a path, with the header that a HEAD request would answer.
unfoldable pub guess_mime_type : ContentType → Text → Text → Option Text → Outcome Text
guess_mime_type k codecs path header =
    elim (extension_type (extensions k) (last_part (split b'.' path))) [
      | some t ↦ done t
      | none ↦ without_extension k codecs header
    ]
