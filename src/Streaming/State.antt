-- ===== src/Streaming/State.antt =====
-- The state of class `StreamingEngine` (shaka/js/shaka-player.compiled.debug.js). Times are in
-- microseconds. Streams are objects, told apart by their ids and looked up in a store. A call of the
-- media source, of the network or of the player is an effect, kept in a list, the latest one first;
-- what a promise brings later is an operation of its own. A media state that is no longer in the map
-- is not followed further.
use shaka_player_embedded.Base.{
  ℕ, ◌==◌, Bool, true, false, not, ◌&&◌, Option, none, some, List, [], ◌∷◌, ◌++◌, any, select,
  find_first, if◌then◌else◌, ℤ, Number,
}
use shaka_player_embedded.Media.SegmentIndex.{SegmentReference}
use shaka_player_embedded.Streams.Types.{ContentType, same_type, text_type}

-- What the engine reads of a stream. `is_captions` is whether its MIME type is that of captions
-- inside the video; `init_size` is there when it has an initialisation segment.
pub record Stream : Type 0 where
  pub content_type : ContentType
  pub is_captions : Bool
  pub trick_mode : Option ℕ
  pub bandwidth : Option ℕ
  pub init_size : Option (Option ℤ)
  pub presentation_time_offset : ℤ
  pub find_position : ℤ → Option ℕ
  pub get_reference : ℕ → Option SegmentReference

-- The audio and the video of a variant.
pub record Variant : Type 0 where
  pub audio_stream : Option ℕ
  pub video_stream : Option ℕ

pub record Period : Type 0 where
  pub start_time : ℤ
  pub variants : List Variant
  pub text_streams : List ℕ

-- The manifest and the configuration, and what the player, the timeline and the media source answer
-- while an operation runs.
pub record World : Type 0 where
  pub streams : ℕ → Stream
  pub periods : List Period
  pub min_buffer_time : ℕ
  pub rebuffering_goal : ℕ
  pub buffering_goal : ℕ
  pub buffer_behind : ℤ
  pub ignores_text_failures : Bool
  pub always_streams_text : Bool
  pub time : ℤ
  pub duration : Number
  pub max_segment_duration : ℤ
  pub availability_start : ℤ
  pub availability_end : ℤ
  pub buffer_start : ContentType → Option ℤ
  pub buffer_end : ContentType → Option ℤ
  pub buffered_ahead : ContentType → ℕ
  pub is_buffered : ContentType → Bool
  pub bandwidth_estimate : ℕ
  pub bytes_remaining : ContentType → ℕ
  pub media_duration : ℤ

pub record MediaState : Type 0 where
  pub stream : ℕ
  pub content_type : ContentType
  pub last_stream : Option ℕ
  pub last_reference : Option SegmentReference
  pub restore_stream : Option ℕ
  pub needs_init_segment : Bool
  pub need_period : ℕ
  pub end_of_stream : Bool
  pub performing_update : Bool
  pub update_timer : Option ℕ
  pub waiting_to_clear : Bool
  pub safe_margin : ℕ
  pub waiting_to_flush : Bool
  pub clearing_buffer : Bool
  pub recovering : Bool
  pub has_error : Bool
  pub resume_at : ℤ
  pub has_operation : Bool

-- `createMediaState_`
abbrev pub create_media_state : World → ℕ → ℕ → ℤ → MediaState
create_media_state w stream period resume_at = record {
  stream = stream;
  content_type = (w.streams stream).content_type;
  last_stream = none;
  last_reference = none;
  restore_stream = none;
  needs_init_segment = true;
  need_period = period;
  end_of_stream = false;
  performing_update = false;
  update_timer = none;
  waiting_to_clear = false;
  safe_margin = 0;
  waiting_to_flush = false;
  clearing_buffer = false;
  recovering = false;
  has_error = false;
  resume_at = resume_at;
  has_operation = false;
}

pub data StreamingError : Type 0 where
  bad_http_status operation_aborted quota_exceeded invalid_streams_chosen : StreamingError
  other_error : ℕ → StreamingError

pub data Effect : Type 0 where
  fetch fetch_init : ContentType → ℕ → Effect
  set_stream_properties : ContentType → ℤ → ℤ → Number → Effect
  append_segment : ContentType → ℤ → ℤ → Effect
  remove_range : ContentType → ℤ → ℤ → Effect
  clear : ContentType → Bool → Effect
  abort : ContentType → Effect
  select_captions : ℕ → Effect
  reinit_text : ℕ → Effect
  init_media_source : List ℕ → Effect
  set_duration : ℤ → Effect
  create_index : ℕ → Effect
  setup_period_streams : ℕ → List ℕ → Effect
  choose_streams : ℕ → Effect
  report : StreamingError → Effect
  segment_appended can_switch startup_complete initial_streams_setup end_of_media : Effect

-- A period or a stream that is being set up, or has been.
abbrev pub Ready : Type 0
Ready = List (ℕ × Bool)

-- The buffering goals are scaled by `scale` hundredths.
pub record Engine : Type 0 where
  pub states : List MediaState
  pub ready_periods : Ready
  pub ready_streams : Ready
  pub startup_is_complete : Bool
  pub fatal_error : Bool
  pub destroyed : Bool
  pub unloading_text : Bool
  pub text_sequence : ℕ
  pub scale : ℕ
  pub effects : List Effect

abbrev pub new : Engine
new = record {
  states = [];
  ready_periods = [];
  ready_streams = [];
  startup_is_complete = false;
  fatal_error = false;
  destroyed = false;
  unloading_text = false;
  text_sequence = 0;
  scale = 100;
  effects = [];
}

abbrev pub emit : Effect → Engine → Engine
emit f e = record e { effects = f ∷ e.effects }

-- The map of media states: `get`, `set` on a key that is there or not, and `delete`.
abbrev pub is_of : ContentType → MediaState → Bool
is_of k m = same_type m.content_type k

abbrev pub get_state : ContentType → Engine → Option MediaState
get_state k e = find_first (is_of k) e.states

unfoldable pub replaced : MediaState → List MediaState → List MediaState
replaced m [] = []
replaced m (n ∷ ns) = (if is_of m.content_type n then m else n) ∷ replaced m ns

-- A change of a media state that is in the map.
abbrev pub put : MediaState → Engine → Engine
put m e = record e { states = replaced m e.states }

abbrev pub add_state : MediaState → Engine → Engine
add_state m e = record e { states = e.states ++ (m ∷ []) }

abbrev pub delete_state : ContentType → Engine → Engine
delete_state k e = record e { states = select (λ m. not (is_of k m)) e.states }

abbrev pub is_ready : ℕ → Ready → Bool
is_ready i [] = false
is_ready i ((j, b) ∷ rs) = if i == j then b else is_ready i rs

abbrev pub is_known : ℕ → Ready → Bool
is_known i rs = any (λ r. i == r.0) rs

abbrev pub make_ready : ℕ → Ready → Ready
make_ready i rs = (i, true) ∷ select (λ r. not (i == r.0)) rs

abbrev pub forget : ℕ → Ready → Ready
forget i rs = select (λ r. not (i == r.0)) rs

-- `isEmbeddedText_`
abbrev pub is_embedded_text : World → MediaState → Bool
is_embedded_text w m = is_of text_type m && (w.streams m.stream).is_captions

abbrev pub is_none {ℓ} : {A : Type ℓ} → Option A → Bool
is_none none = true
is_none (some a) = false

-- `isIdle_`
unfoldable pub is_idle : MediaState → Bool
is_idle m =
    not m.performing_update
    && is_none m.update_timer
    && not m.waiting_to_clear
    && not m.clearing_buffer

-- `scheduleUpdate_` and `cancelUpdate_`; the delay is in microseconds.
abbrev pub scheduled : ℕ → MediaState → MediaState
scheduled delay m = record m { update_timer = some delay }

abbrev pub cancelled : MediaState → MediaState
cancelled m = record m { update_timer = none }
