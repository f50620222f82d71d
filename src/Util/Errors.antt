-- ===== src/Util/Errors.antt =====
-- Class `Error` (shaka/js/shaka-player.compiled.debug.js) with its table of codes.
use Prim.Native.String.{String}
use Prim.Native.String.{◌++◌ as concat}
use mathlib.Core.Option.{some_inj}
use shaka_player_embedded.Base.{
  ℕ, zero, suc, ◌≤◌, ltb, get_elem?, Option, some, ap, ◌∙◌, ◌≡◌, refl, ◌==◌, Bool, true, false,
  ◌&&◌, List, [], ◌∷◌, if◌then◌else◌, arith,
}

pub data Severity : Type 0 where
  recoverable critical : Severity

abbrev pub Table : Type 0
Table = List (String × ℕ)

abbrev pub categories : Table
categories =
    ("NETWORK", 1)
    ∷ ("TEXT", 2)
    ∷ ("MEDIA", 3)
    ∷ ("MANIFEST", 4)
    ∷ ("STREAMING", 5)
    ∷ ("DRM", 6)
    ∷ ("PLAYER", 7)
    ∷ ("CAST", 8)
    ∷ ("STORAGE", 9)
    ∷ []

abbrev pub codes : Table
codes =
    ("UNSUPPORTED_SCHEME", 1000)
    ∷ ("BAD_HTTP_STATUS", 1001)
    ∷ ("HTTP_ERROR", 1002)
    ∷ ("TIMEOUT", 1003)
    ∷ ("MALFORMED_DATA_URI", 1004)
    ∷ ("REQUEST_FILTER_ERROR", 1006)
    ∷ ("RESPONSE_FILTER_ERROR", 1007)
    ∷ ("MALFORMED_TEST_URI", 1008)
    ∷ ("UNEXPECTED_TEST_REQUEST", 1009)
    ∷ ("INVALID_TEXT_HEADER", 2000)
    ∷ ("INVALID_TEXT_CUE", 2001)
    ∷ ("UNABLE_TO_DETECT_ENCODING", 2003)
    ∷ ("BAD_ENCODING", 2004)
    ∷ ("INVALID_XML", 2005)
    ∷ ("INVALID_MP4_TTML", 2007)
    ∷ ("INVALID_MP4_VTT", 2008)
    ∷ ("UNABLE_TO_EXTRACT_CUE_START_TIME", 2009)
    ∷ ("BUFFER_READ_OUT_OF_BOUNDS", 3000)
    ∷ ("JS_INTEGER_OVERFLOW", 3001)
    ∷ ("EBML_OVERFLOW", 3002)
    ∷ ("EBML_BAD_FLOATING_POINT_SIZE", 3003)
    ∷ ("MP4_SIDX_WRONG_BOX_TYPE", 3004)
    ∷ ("MP4_SIDX_INVALID_TIMESCALE", 3005)
    ∷ ("MP4_SIDX_TYPE_NOT_SUPPORTED", 3006)
    ∷ ("WEBM_CUES_ELEMENT_MISSING", 3007)
    ∷ ("WEBM_EBML_HEADER_ELEMENT_MISSING", 3008)
    ∷ ("WEBM_SEGMENT_ELEMENT_MISSING", 3009)
    ∷ ("WEBM_INFO_ELEMENT_MISSING", 3010)
    ∷ ("WEBM_DURATION_ELEMENT_MISSING", 3011)
    ∷ ("WEBM_CUE_TRACK_POSITIONS_ELEMENT_MISSING", 3012)
    ∷ ("WEBM_CUE_TIME_ELEMENT_MISSING", 3013)
    ∷ ("MEDIA_SOURCE_OPERATION_FAILED", 3014)
    ∷ ("MEDIA_SOURCE_OPERATION_THREW", 3015)
    ∷ ("VIDEO_ERROR", 3016)
    ∷ ("QUOTA_EXCEEDED_ERROR", 3017)
    ∷ ("TRANSMUXING_FAILED", 3018)
    ∷ ("UNABLE_TO_GUESS_MANIFEST_TYPE", 4000)
    ∷ ("DASH_INVALID_XML", 4001)
    ∷ ("DASH_NO_SEGMENT_INFO", 4002)
    ∷ ("DASH_EMPTY_ADAPTATION_SET", 4003)
    ∷ ("DASH_EMPTY_PERIOD", 4004)
    ∷ ("DASH_WEBM_MISSING_INIT", 4005)
    ∷ ("DASH_UNSUPPORTED_CONTAINER", 4006)
    ∷ ("DASH_PSSH_BAD_ENCODING", 4007)
    ∷ ("DASH_NO_COMMON_KEY_SYSTEM", 4008)
    ∷ ("DASH_MULTIPLE_KEY_IDS_NOT_SUPPORTED", 4009)
    ∷ ("DASH_CONFLICTING_KEY_IDS", 4010)
    ∷ ("UNPLAYABLE_PERIOD", 4011)
    ∷ ("RESTRICTIONS_CANNOT_BE_MET", 4012)
    ∷ ("NO_PERIODS", 4014)
    ∷ ("HLS_PLAYLIST_HEADER_MISSING", 4015)
    ∷ ("INVALID_HLS_TAG", 4016)
    ∷ ("HLS_INVALID_PLAYLIST_HIERARCHY", 4017)
    ∷ ("DASH_DUPLICATE_REPRESENTATION_ID", 4018)
    ∷ ("HLS_MULTIPLE_MEDIA_INIT_SECTIONS_FOUND", 4020)
    ∷ ("HLS_COULD_NOT_GUESS_MIME_TYPE", 4021)
    ∷ ("HLS_MASTER_PLAYLIST_NOT_PROVIDED", 4022)
    ∷ ("HLS_REQUIRED_ATTRIBUTE_MISSING", 4023)
    ∷ ("HLS_REQUIRED_TAG_MISSING", 4024)
    ∷ ("HLS_COULD_NOT_GUESS_CODECS", 4025)
    ∷ ("HLS_KEYFORMATS_NOT_SUPPORTED", 4026)
    ∷ ("DASH_UNSUPPORTED_XLINK_ACTUATE", 4027)
    ∷ ("DASH_XLINK_DEPTH_LIMIT", 4028)
    ∷ ("HLS_COULD_NOT_PARSE_SEGMENT_START_TIME", 4030)
    ∷ ("CONTENT_UNSUPPORTED_BY_BROWSER", 4032)
    ∷ ("CANNOT_ADD_EXTERNAL_TEXT_TO_LIVE_STREAM", 4033)
    ∷ ("HLS_AES_128_ENCRYPTION_NOT_SUPPORTED", 4034)
    ∷ ("HLS_INTERNAL_SKIP_STREAM", 4035)
    ∷ ("INVALID_STREAMS_CHOSEN", 5005)
    ∷ ("NO_RECOGNIZED_KEY_SYSTEMS", 6000)
    ∷ ("REQUESTED_KEY_SYSTEM_CONFIG_UNAVAILABLE", 6001)
    ∷ ("FAILED_TO_CREATE_CDM", 6002)
    ∷ ("FAILED_TO_ATTACH_TO_VIDEO", 6003)
    ∷ ("INVALID_SERVER_CERTIFICATE", 6004)
    ∷ ("FAILED_TO_CREATE_SESSION", 6005)
    ∷ ("FAILED_TO_GENERATE_LICENSE_REQUEST", 6006)
    ∷ ("LICENSE_REQUEST_FAILED", 6007)
    ∷ ("LICENSE_RESPONSE_REJECTED", 6008)
    ∷ ("ENCRYPTED_CONTENT_WITHOUT_DRM_INFO", 6010)
    ∷ ("NO_LICENSE_SERVER_GIVEN", 6012)
    ∷ ("OFFLINE_SESSION_REMOVED", 6013)
    ∷ ("EXPIRED", 6014)
    ∷ ("SERVER_CERTIFICATE_REQUIRED", 6015)
    ∷ ("INIT_DATA_TRANSFORM_ERROR", 6016)
    ∷ ("LOAD_INTERRUPTED", 7000)
    ∷ ("OPERATION_ABORTED", 7001)
    ∷ ("NO_VIDEO_ELEMENT", 7002)
    ∷ ("CAST_API_UNAVAILABLE", 8000)
    ∷ ("NO_CAST_RECEIVERS", 8001)
    ∷ ("ALREADY_CASTING", 8002)
    ∷ ("UNEXPECTED_CAST_ERROR", 8003)
    ∷ ("CAST_CANCELED_BY_USER", 8004)
    ∷ ("CAST_CONNECTION_TIMED_OUT", 8005)
    ∷ ("CAST_RECEIVER_APP_UNAVAILABLE", 8006)
    ∷ ("STORAGE_NOT_SUPPORTED", 9000)
    ∷ ("INDEXED_DB_ERROR", 9001)
    ∷ ("DEPRECATED_OPERATION_ABORTED", 9002)
    ∷ ("REQUESTED_ITEM_NOT_FOUND", 9003)
    ∷ ("MALFORMED_OFFLINE_URI", 9004)
    ∷ ("CANNOT_STORE_LIVE_OFFLINE", 9005)
    ∷ ("STORE_ALREADY_IN_PROGRESS", 9006)
    ∷ ("NO_INIT_DATA_FOR_OFFLINE", 9007)
    ∷ ("LOCAL_PLAYER_INSTANCE_REQUIRED", 9008)
    ∷ ("NEW_KEY_OPERATION_NOT_SUPPORTED", 9011)
    ∷ ("KEY_NOT_FOUND", 9012)
    ∷ ("MISSING_STORAGE_CELL", 9013)
    ∷ []

-- The loop of the constructor over the names of a table: the last name with the number counts.
unfoldable pub name_from : String → ℕ → Table → String
name_from found c [] = found
name_from found c ((name, n) ∷ t) = name_from (if n == c then name else found) c t

unfoldable pub name_of : ℕ → Table → String
name_of c t = name_from "UNKNOWN" c t

-- What the arguments after the code print as, and what `Array.prototype.toString` makes of them.
abbrev pub to_string : List String → String
to_string [] = ""
to_string (d ∷ []) = d
to_string (d ∷ e ∷ ds) = concat d (concat "," (to_string (e ∷ ds)))

pub record Error : Type 0 where
  pub severity : Severity
  pub category : ℕ
  pub code : ℕ
  pub arguments : List String
  pub handled : Bool
  pub message : String

abbrev pub message_of : String → String → List String → String
message_of e f ds =
    concat "Shaka Error "
      (concat e (concat "." (concat f (concat " (" (concat (to_string ds) ")")))))

unfoldable pub new : Severity → ℕ → ℕ → List String → Error
new s category code ds = record {
  severity = s;
  category = category;
  code = code;
  arguments = ds;
  handled = false;
  message = message_of (name_of category categories) (name_of code codes) ds;
}

-- The numbers of a table increase, from above `k` on.
abbrev pub increase_from : ℕ → Table → Bool
increase_from k [] = true
increase_from k ((name, n) ∷ t) = ltb k n && increase_from n t

name_from_above :
    (f : String) (c k : ℕ) (t : Table) → increase_from k t ≡ true → c ≤ k → name_from f c t ≡ f
unfolding name_from
name_from_above f c k [] h le = refl
name_from_above f c k ((name, n) ∷ t) h le =
    let e : (n == c) ≡ false = ground arith in
    rw e (name_from_above f c n t (ground arith) (ground arith))

some_pair :
    (m : String) (n : ℕ) (name : String) (c : ℕ)
    → ◌≡◌ {A = Option (String × ℕ)} (some (m, n)) (some (name, c))
    → (m ≡ name) × (n ≡ c)
some_pair m n name c g =
    let e : (m, n) ≡ (name, c) = some_inj.0 g in
    (ap {A = String × ℕ} (λ x. x.0) e, ap {A = String × ℕ} (λ x. x.1) e)

name_from_found :
    (f : String) (k : ℕ) (t : Table) (i : ℕ) (name : String) (c : ℕ)
    → increase_from k t ≡ true
    → get_elem? t i ≡ some (name, c)
    → name_from f c t ≡ name
unfolding name_from
name_from_found f k [] i name c h g = cc
name_from_found f k ((m, n) ∷ t) zero name c h g =
    let (e, q) = some_pair m n name c g in
    let r : (n == c) ≡ true = ground arith in
    let up : increase_from n t ≡ true = ground arith in
    let le : c ≤ n = omega arith in rw r (name_from_above m c n t up le ∙ e)
name_from_found f k ((m, n) ∷ t) (suc i) name c h g =
    name_from_found (if n == c then m else f) n t i name c (ground arith) g

-- The message of an error names its category and its code by their names in the tables.
pub new-message :
    (s : Severity) (ds : List String) (i j : ℕ) (e f : String) (category code : ℕ)
    → get_elem? categories i ≡ some (e, category)
    → get_elem? codes j ≡ some (f, code)
    → (new s category code ds).message ≡ message_of e f ds
unfolding new name_of
new-message s ds i j e f category code g h = rw (
  name_from_found "UNKNOWN" 0 categories i e category refl g,
  name_from_found "UNKNOWN" 0 codes j f code refl h,
)
