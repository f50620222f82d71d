-- ===== src/Streaming/Setup.antt =====
-- Starting and destroying class `StreamingEngine` (shaka/js/shaka-player.compiled.debug.js), and setting up
-- its streams and periods. An operation up to a promise asks by an effect, and the operation that the
-- promise brings has the same arguments.
use shaka_player_embedded.Base.{
  ℕ, suc, max, ◌==◌, Bool, true, false, not, ◌&&◌, ◌||◌, Option, none, some, List, [], ◌∷◌, ◌++◌,
  map, is_some, if◌then◌else◌, ℤ, pos, Number, fin, infinity,
}
use shaka_player_embedded.Streams.Types.{text_type}
use shaka_player_embedded.Streaming.State.{
  Variant, World, MediaState, create_media_state, StreamingError, invalid_streams_chosen, abort,
  init_media_source, set_duration, create_index, report, initial_streams_setup, Engine, emit,
  get_state, add_state, delete_state, is_known, make_ready, forget, is_none, scheduled, cancelled,
}
use shaka_player_embedded.Streaming.Needed.{find_period_for_time}

-- `setupStreams_`, up to its promises: the streams that are not known get an index.
unfoldable pub setup_streams : List ℕ → Engine → Engine
setup_streams [] e = e
setup_streams (s ∷ ss) e = setup_streams ss (
    if is_known s e.ready_streams
    then e
    else emit (create_index s) (record e { ready_streams = (s, false) ∷ e.ready_streams }))

-- The streams have their indices.
abbrev pub make_all_ready : List ℕ → Engine → Engine
make_all_ready [] e = e
make_all_ready (s ∷ ss) e =
    make_all_ready ss (record e { ready_streams = make_ready s e.ready_streams })

abbrev pub forget_all : List ℕ → Engine → Engine
forget_all [] e = e
forget_all (s ∷ ss) e = forget_all ss (record e { ready_streams = forget s e.ready_streams })

unfoldable pub streams_ready : List ℕ → Engine → Engine
streams_ready ss e = if e.destroyed then e else make_all_ready ss e

-- One of the streams has no index: none of them is known any more.
unfoldable pub streams_failed : List ℕ → Engine → Engine
streams_failed ss e = if e.destroyed then e else forget_all ss e

-- What `setupPeriod_` does when its turn has come.
unfoldable pub period_turn : List ℕ → Engine → Engine
period_turn ss e = if e.destroyed then e else setup_streams ss e

-- A period has been set up, or has not.
unfoldable pub period_ready : ℕ → List ℕ → Engine → Engine
period_ready i ss e =
    if e.destroyed
    then e
    else record (make_all_ready ss e) { ready_periods = make_ready i e.ready_periods }

unfoldable pub period_failed : ℕ → StreamingError → List ℕ → Engine → Engine
period_failed i error ss e =
    if e.destroyed
    then e
    else emit (report error) (record (forget_all ss e) { ready_periods = forget i e.ready_periods })

-- `setDuration_`: an infinite duration is one of 2^32 seconds.
unfoldable pub with_duration : World → Engine → Engine
with_duration w e = emit (set_duration (finite w.duration)) e
  where
    finite : Number → ℤ
    finite (fin d) = d
    finite infinity = pos 4294967296000000

-- `initStreams_`, up to its first promise, and the two operations that follow.
abbrev pub of_option : Option ℕ → List ℕ
of_option none = []
of_option (some s) = s ∷ []

unfoldable pub init_streams : Option ℕ → Option ℕ → Option ℕ → Engine → Engine
init_streams audio_stream video_stream text e =
    emit (init_media_source (of_option audio_stream ++ (of_option video_stream ++ of_option text)))
      e

unfoldable pub media_source_ready : World → List ℕ → Engine → Engine
media_source_ready w ss e = if e.destroyed then e else setup_streams ss (with_duration w e)

-- A media state for each stream whose type has none, in the period `i`.
abbrev pub add_states : World → ℕ → ℤ → List ℕ → Engine → Engine
add_states w i resume_at [] e = e
add_states w i resume_at (s ∷ ss) e = add_states w i resume_at ss (
    if is_some (get_state (w.streams s).content_type e)
    then e
    else add_state (scheduled 0 (create_media_state w s i resume_at)) e)

unfoldable pub streams_set_up : World → ℕ → ℤ → List ℕ → Engine → Engine
streams_set_up w i resume_at ss e =
    if e.destroyed then e else add_states w i resume_at ss (make_all_ready ss e)

-- `start`, given what the player has chosen; and what follows when the streams are set up.
abbrev pub audio_of : Option Variant → Option ℕ
audio_of none = none
audio_of (some v) = v.audio_stream

abbrev pub video_of : Option Variant → Option ℕ
video_of none = none
video_of (some v) = v.video_stream

unfoldable pub start : Option Variant → Option ℕ → Engine → Option StreamingError × Engine
start variant text e =
    if is_none variant && is_none text
    then (some invalid_streams_chosen, e)
    else (none, init_streams (audio_of variant) (video_of variant) text e)

unfoldable pub started : Engine → Engine
started e = if e.destroyed then e else emit initial_streams_setup e

-- `abortOperations_`
abbrev pub abort_operations : MediaState → Engine → Engine
abort_operations m e = if m.has_operation then emit (abort m.content_type) e else e

-- `destroy`, up to the promise that the requests have been aborted, and what follows.
abbrev pub abort_all : List MediaState → Engine → Engine
abort_all [] e = e
abort_all (m ∷ ms) e = abort_all ms (abort_operations m e)

unfoldable pub destroy : Engine → Engine
destroy e = abort_all e.states (record e { states = map cancelled e.states })

unfoldable pub destroyed_at_last : Engine → Engine
destroyed_at_last e = record e {
  states = [];
  ready_streams = [];
  ready_periods = [];
  destroyed = true;
}

-- `configure`: how often the backoff of a failure is tried.
abbrev pub failure_attempts : ℕ → ℕ
failure_attempts max_attempts = max max_attempts 2

-- `unloadTextStream`
abbrev pub unload_state : Option MediaState → Engine → Engine
unload_state none e = e
unload_state (some m) e = delete_state text_type (abort_operations m e)

unfoldable pub unload_text_stream : Engine → Engine
unload_text_stream e = unload_state (get_state text_type e) (record e { unloading_text = true })

-- `loadNewTextStream`, when the buffer is clear; when the media source is ready; and when the stream
-- is set up, `sequence` being the number of the load.
unfoldable pub text_cleared : ℕ → Engine → Engine
text_cleared s e =
    emit (init_media_source (s ∷ []))
      (record e { text_sequence = suc e.text_sequence; unloading_text = false })

unfoldable pub text_initialised : ℕ → Engine → Engine
text_initialised s e = if e.destroyed then e else setup_streams (s ∷ []) e

abbrev pub add_text : World → ℕ → Engine → Engine
add_text w s e =
    add_state (scheduled 0 (create_media_state w s (find_period_for_time w w.time) (pos 0))) e

unfoldable pub text_set_up : World → ℕ → Bool → ℕ → Engine → Engine
text_set_up w sequence is_visible s e =
    if e.destroyed
    then e
    else if e.text_sequence == sequence
        && not (is_some (get_state text_type e))
        && not e.unloading_text
        && (is_visible || w.always_streams_text)
    then add_text w s (make_all_ready (s ∷ []) e)
    else make_all_ready (s ∷ []) e
