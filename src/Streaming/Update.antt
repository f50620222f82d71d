-- ===== src/Streaming/Update.antt =====
-- An update of class `StreamingEngine` (shaka/js/shaka-player.compiled.debug.js): what is fetched next,
-- and the clearing of a buffer. An operation takes the media state, which is in the map, and puts
-- the changed one back.
use shaka_player_embedded.Base.{
  ℕ, suc, ◌*◌, max, ◌==◌, leb, Bool, true, false, not, ◌&&◌, ◌||◌, Option, none, some, List, [],
  ◌∷◌, map, get_elem?, is_some, if◌then◌else◌, ℤ, pos, ◌+ℤ◌, ◌-ℤ◌, leb_ℤ, max_ℤ, Number, fin,
  infinity, min_number, add_number,
}
use shaka_player_embedded.Media.SegmentIndex.{SegmentReference}
use shaka_player_embedded.Streams.Types.{ContentType, same_type, video}
use shaka_player_embedded.Streaming.State.{
  World, MediaState, fetch, fetch_init, set_stream_properties, remove_range, clear, select_captions,
  setup_period_streams, end_of_media, Engine, emit, get_state, put, is_known, is_embedded_text,
  is_none, is_idle, scheduled, cancelled,
}
use shaka_player_embedded.Streaming.Needed.{
  same_id, period_streams, find_period_containing_stream, find_period_for_time, period_start,
  get_time_needed, get_segment_reference_needed,
}

abbrev pub every_state : (MediaState → Bool) → List MediaState → Bool
every_state p [] = true
every_state p (m ∷ ms) = p m && every_state p ms

-- `clearBuffer_`, up to the promise: a buffer is cleared up to the end, from the margin on.
unfoldable pub clear_buffer : World → Bool → ℕ → MediaState → Engine → Engine
clear_buffer w flush margin m e =
    emit
      (if margin == 0
        then clear m.content_type flush
        else remove_range m.content_type (w.time +ℤ pos margin) w.media_duration)
      (put
        (record m {
          waiting_to_clear = false;
          waiting_to_flush = false;
          safe_margin = 0;
          clearing_buffer = true;
        })
        e)

-- What follows when the buffer has been cleared.
unfoldable pub cleared : MediaState → Engine → Engine
cleared m e =
    if e.destroyed
    then e
    else put
        (scheduled 0 (record m {
          last_stream = none;
          last_reference = none;
          clearing_buffer = false;
          end_of_stream = false;
        }))
        e

abbrev pub window_start : World → ℕ → ℤ
window_start w i = max_ℤ (pos 0) (period_start w i -ℤ pos 100000)

abbrev pub window_end : World → ℕ → Number
window_end w i = elim (get_elem? w.periods (suc i)) [
  | none ↦ w.duration
  | some p ↦ fin (p.start_time +ℤ pos 10000)
]

-- `initSourceBuffer_`, up to its promises.
unfoldable pub init_source_buffer : World → ℕ → MediaState → Engine → Engine
init_source_buffer w i m e =
    let s = w.streams m.stream in
    let properties =
      set_stream_properties m.content_type (period_start w i -ℤ s.presentation_time_offset)
        (window_start w i) (window_end w i) in
    if not m.needs_init_segment
    then e
    else if is_some s.init_size
    then emit (fetch_init m.content_type m.stream) (emit properties e)
    else emit properties e

-- `fetchAndAppend_`, up to its promises.
unfoldable pub fetch_and_append : World → ℕ → SegmentReference → MediaState → Engine → Engine
fetch_and_append w i r m e = emit (fetch m.content_type r.position) (
    put (record m { performing_update = true; needs_init_segment = false; has_operation = true })
      (init_source_buffer w i m e))

-- What `update_` finds to do: the captions are inside the video, or everything is buffered, or
-- another period is needed, or there is nothing to do for a time, or a segment is needed.
pub data Decision : Type 0 where
  captions ended : Decision
  other_period : ℕ → Decision
  wait : ℕ → ℕ → Decision
  needs_segment : ℕ → SegmentReference → Decision

abbrev pub reaches : ℤ → Number → Bool
reaches t (fin d) = leb_ℤ d t
reaches t infinity = false

-- The least time that a media state needs, captions inside the video left aside.
unfoldable pub least_time_needed : World → List MediaState → Number
least_time_needed w [] = infinity
least_time_needed w (m ∷ ms) =
    let rest = least_time_needed w ms in
    if is_embedded_text w m then rest else min_number (fin (get_time_needed w m)) rest

abbrev pub is_goal_met : World → ℕ → MediaState → Bool
is_goal_met w scale m =
    leb (max (max w.min_buffer_time w.rebuffering_goal) w.buffering_goal * scale)
      (100 * w.buffered_ahead m.content_type)

abbrev pub in_order : World → Engine → MediaState → ℕ → Option SegmentReference → Decision
in_order w e m h none = wait h 1000000
in_order w e m h (some r) =
    if reaches (get_time_needed w m)
      (add_number (least_time_needed w e.states) w.max_segment_duration)
    then wait h 1000000
    else needs_segment h r

unfoldable pub decide : World → Engine → MediaState → Decision
decide w e m =
    let h = find_period_for_time w (get_time_needed w m) in
    if is_embedded_text w m
    then captions
    else if reaches (get_time_needed w m) w.duration
    then ended
    else if not (same_id (find_period_containing_stream w m.stream) h)
    then other_period h
    else if is_goal_met w e.scale m
    then wait h 500000
    else in_order w e m h (get_segment_reference_needed w m (w.buffer_end m.content_type) h)

abbrev pub ended_captions : World → MediaState → MediaState
ended_captions w m = if is_embedded_text w m then record m { end_of_stream = true } else m

abbrev pub again : ℕ → MediaState → MediaState
again delay m = scheduled delay (record m { has_error = false })

abbrev pub in_period : ℕ → MediaState → MediaState
in_period h m = record m { end_of_stream = false; need_period = h }

-- `update_`, and the scheduling of the next update.
unfoldable pub act : World → Decision → MediaState → Engine → Engine
act w captions m e = emit (select_captions m.stream) (put m e)
act w ended m e =
    let e1 =
      if same_type m.content_type video
      then record e { states = map (ended_captions w) e.states }
      else e in
    put (record m { end_of_stream = true }) e1
act w (other_period h) m e = put (in_period h m) e
act w (wait h delay) m e = put (again delay (in_period h m)) e
act w (needs_segment h r) m e =
    fetch_and_append w h r (record (in_period h m) { resume_at = pos 0 }) e

-- `setupPeriod_`, up to its promises.
unfoldable pub setup_period : World → ℕ → Engine → Engine
setup_period w i e =
    if is_known i e.ready_periods
    then e
    else emit
        (setup_period_streams i
          (elim (get_elem? w.periods i) [ none ↦ [] | some p ↦ period_streams w p ]))
        (record e { ready_periods = (i, false) ∷ e.ready_periods })

-- `handlePeriodTransition_`, up to the promise that the period is set up.
unfoldable pub handle_period_transition : World → MediaState → Engine → Engine
handle_period_transition w m e =
    let f = m.need_period in
    if not (same_id (find_period_containing_stream w m.stream) f)
      && every_state (λ n. n.need_period == f || is_embedded_text w n) e.states
      && every_state is_idle e.states
    then setup_period w f e
    else e

abbrev pub end_of_media_if : Engine → Engine
end_of_media_if e =
    if e.startup_is_complete && every_state (λ m. m.end_of_stream) e.states
    then emit end_of_media e
    else e

abbrev pub on_state : ContentType → (MediaState → Engine → Engine) → Engine → Engine
on_state k f e = elim (get_state k e) [ none ↦ e | some m ↦ f m e ]

abbrev pub transition_of : World → ContentType → Engine → Engine
transition_of w k e = on_state k (handle_period_transition w) e

-- `onUpdate_` of a state whose timer has run, when neither an update nor a clearing is under way.
unfoldable pub run_update : World → MediaState → Engine → Engine
run_update w m e =
    if m.waiting_to_clear
    then clear_buffer w m.waiting_to_flush m.safe_margin m e
    else end_of_media_if (transition_of w m.content_type (act w (decide w e m) m e))

unfoldable pub on_update : World → MediaState → Engine → Engine
on_update w m e =
    if e.destroyed || m.performing_update || is_none m.update_timer || m.clearing_buffer
    then e
    else run_update w (cancelled m) e
