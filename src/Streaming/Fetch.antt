-- ===== src/Streaming/Fetch.antt =====
-- What follows a fetch of class `StreamingEngine` (shaka/js/shaka-player.compiled.debug.js): the segment
-- is appended, or the fetch fails; and the start-up of the engine.
use shaka_player_embedded.Base.{
  ℕ, zero, suc, ◌-◌, ◌%◌, ◌≤◌, ◌≡◌, refl, ltb, Bool, true, false, not, ◌&&◌, ◌||◌, Option, none,
  some, List, [], ◌∷◌, map, any, is_some, if◌then◌else◌, ℤ, pos, ◌+ℤ◌, ◌-ℤ◌, leb_ℤ, max_ℤ, arith,
}
use shaka_player_embedded.Media.SegmentIndex.{SegmentReference}
use shaka_player_embedded.Streams.Types.{text_type}
use shaka_player_embedded.Streaming.State.{
  World, MediaState, StreamingError, operation_aborted, quota_exceeded, append_segment,
  remove_range, report, segment_appended, startup_complete, Engine, emit, is_of, put, delete_state,
  is_known, scheduled, cancelled,
}
use shaka_player_embedded.Streaming.Needed.{find_period_containing_stream}
use shaka_player_embedded.Streaming.Update.{every_state, setup_period}

-- `fetch_`: the request has come to an end.
unfoldable pub fetched : MediaState → Engine → Engine
fetched m e = put (record m { has_operation = false }) e

-- `evict_`: what is further behind the playhead than is kept is removed.
unfoldable pub evict : World → MediaState → Engine → Engine
evict w m e = elim (w.buffer_start m.content_type) [
  | none ↦ e
  | some start ↦
      let overflow = w.time -ℤ start -ℤ max_ℤ w.buffer_behind w.max_segment_duration in
      if leb_ℤ overflow (pos 0)
      then e
      else emit (remove_range m.content_type start (start +ℤ overflow)) e
]

-- `append_`, up to its promises, for a period that starts at `start`.
unfoldable pub append : World → ℤ → SegmentReference → MediaState → Engine → Engine
append w start r m e =
    if e.destroyed || e.fatal_error
    then e
    else emit (append_segment m.content_type (r.start_time +ℤ start) (r.end_time +ℤ start))
        (evict w m e)

-- The states that make the start-up complete.
abbrev pub is_started : MediaState → Bool
is_started m =
    is_of text_type m || not m.waiting_to_clear && not m.clearing_buffer && is_some m.last_reference

abbrev pub is_only_text : List MediaState → Bool
is_only_text (m ∷ []) = is_of text_type m
is_only_text _ = false

-- `setupPeriod_` of every period.
unfoldable pub setup_from : World → ℕ → ℕ → Engine → Engine
setup_from w i zero e = e
setup_from w i (suc k) e = setup_from w (suc i) k (setup_period w i e)

abbrev pub count {ℓ} : {A : Type ℓ} → List A → ℕ
count [] = 0
count (a ∷ as') = suc (count as')

abbrev pub setup_current : World → Option ℕ → Engine → Engine
setup_current w none e = e
setup_current w (some i) e = if is_known i e.ready_periods then e else setup_period w i e

-- `handleStartup_`; that streams can be switched is reported once the period is set up.
unfoldable pub handle_startup : World → ℕ → Engine → Engine
handle_startup w stream e =
    if e.startup_is_complete || is_only_text e.states
    then e
    else if every_state is_started e.states
    then emit startup_complete (
        setup_from w 0 (count w.periods) (
          setup_current w (find_period_containing_stream w stream)
            (record e { startup_is_complete = true })))
    else e

abbrev pub report_appended : Bool → Engine → Engine
report_appended waiting e = if waiting then e else emit segment_appended e

-- The segment of a stream has been appended.
unfoldable pub appended : World → ℕ → SegmentReference → MediaState → Engine → Engine
appended w stream r m e =
    if e.destroyed || e.fatal_error
    then e
    else handle_startup w stream (
        put
          (scheduled 0 (record m {
            last_stream = some stream;
            last_reference = some r;
            performing_update = false;
            recovering = false;
          }))
          (report_appended m.waiting_to_clear e))

-- The scale after one more of the failures, where it can be reduced further.
abbrev pub reduced : ℕ → Option ℕ
reduced scale =
    if ltb 20 scale then some (scale - 20) else if ltb 4 scale then some (scale - 4) else none

abbrev pub is_recovering_other : MediaState → List MediaState → Bool
is_recovering_other m ms = any (λ n. not (is_of m.content_type n) && n.recovering) ms

abbrev pub reduce_to : Option ℕ → MediaState → Engine → Engine
reduce_to none m e =
    emit (report quota_exceeded)
      (put (record m { has_error = true }) (record e { fatal_error = true }))
reduce_to (some s) m e =
    put (scheduled 4000000 (record m { recovering = true })) (record e { scale = s })

-- `handleQuotaExceeded_`: the buffering goals are reduced, until they cannot be any more.
unfoldable pub handle_quota_exceeded : MediaState → Engine → Engine
handle_quota_exceeded m e =
    if is_recovering_other m e.states
    then put (scheduled 4000000 m) e
    else reduce_to (reduced e.scale) m e

abbrev pub failed_init : Bool → MediaState → MediaState
failed_init init_failed m = if init_failed then record m { needs_init_segment = true } else m

abbrev pub handle_failure : World → StreamingError → MediaState → Engine → Engine
handle_failure w operation_aborted m e = put (scheduled 0 (cancelled m)) e
handle_failure w quota_exceeded m e = handle_quota_exceeded m e
handle_failure w error m e = emit (report error) (put (record m { has_error = true }) e)

-- A fetch or an append has failed; `handleStreamingError_` reports the error after a backoff.
unfoldable pub fetch_failed : World → Bool → StreamingError → MediaState → Engine → Engine
fetch_failed w init_failed error m e =
    let m1 = failed_init init_failed (record m { performing_update = false }) in
    if e.destroyed || e.fatal_error
    then e
    else if is_of text_type m && w.ignores_text_failures
    then delete_state text_type e
    else handle_failure w error m1 e

abbrev pub retried : MediaState → MediaState
retried m = if m.has_error then scheduled 100000 (record m { has_error = false }) else m

-- `retry`: whether the engine can go on.
unfoldable pub retry : Engine → Bool × Engine
retry e =
    if e.destroyed || e.fatal_error
    then (false, e)
    else (true, record e { states = map retried e.states })

abbrev pub IsScale : ℕ → ℕ → Type 0
IsScale old new = (4 ≤ new) × (new % 4 ≡ 0) × (new ≤ old)

reduce_to-IsScale :
    (o : Option ℕ) (m : MediaState) (e : Engine)
    → o ≡ reduced e.scale
    → 4 ≤ e.scale
    → e.scale % 4 ≡ 0
    → IsScale e.scale (reduce_to o m e).scale
reduce_to-IsScale none m e q h k = (h, k, omega arith)
reduce_to-IsScale (some s) m e q h k = ground arith

-- From a multiple of four hundredths that is positive, a quota error leaves the scale one, and does
-- not raise it.
handle_quota_exceeded-scale :
    (m : MediaState) (e : Engine)
    → 4 ≤ e.scale
    → e.scale % 4 ≡ 0
    → IsScale e.scale (handle_quota_exceeded m e).scale
unfolding handle_quota_exceeded
handle_quota_exceeded-scale m e h k = from_test (is_recovering_other m e.states)
  where
    from_test :
        (b : Bool)
        → IsScale e.scale
            (if b then put (scheduled 4000000 m) e else reduce_to (reduced e.scale) m e).scale
    from_test true = (h, k, omega arith)
    from_test false = reduce_to-IsScale (reduced e.scale) m e refl h k
