-- ===== src/Streaming/Switch.antt =====
-- Seeking and switching in class `StreamingEngine` (shaka/js/shaka-player.compiled.debug.js).
use shaka_player_embedded.Base.{
  ℕ, zero, suc, ◌+◌, ◌*◌, max, ◌==◌, ltb, Bool, true, false, not, ◌&&◌, ◌||◌, Option, none, some,
  List, [], ◌∷◌, select, get_elem?, is_empty, if◌then◌else◌, ℤ, pos, ◌-ℤ◌, pos_part,
}
use shaka_player_embedded.Media.SegmentIndex.{SegmentReference, get_size}
use shaka_player_embedded.Streams.Types.{ContentType, same_type, text_type, video, audio}
use shaka_player_embedded.Streaming.State.{
  Variant, Period, World, MediaState, Effect, clear, abort, reinit_text, Engine, emit, is_of,
  get_state, put, is_ready, is_none, scheduled, cancelled,
}
use shaka_player_embedded.Streaming.Needed.{
  same_id, find_period_containing_stream, find_period_for_time, get_segment_reference_needed,
}
use shaka_player_embedded.Streaming.Update.{every_state, on_state, clear_buffer}

-- `forceClearBuffer_`: at once, or as soon as the update is done.
unfoldable pub force_clear_buffer : World → MediaState → Engine → Engine
force_clear_buffer w m e =
    if m.clearing_buffer || m.waiting_to_clear
    then e
    else if m.performing_update
    then put (record m { waiting_to_clear = true; safe_margin = 0 }) e
    else if is_none (w.buffer_start m.content_type)
    then (if is_none m.update_timer then put (scheduled 0 m) e else e)
    else clear_buffer w false 0 (cancelled m) e

abbrev pub clear_all : World → List MediaState → Engine → Engine
clear_all w [] e = e
clear_all w (m ∷ ms) e = clear_all w ms (force_clear_buffer w m e)

-- `seeked`: the buffers that do not hold the playhead are cleared. Where the states are in different
-- periods, one of them not holding it is enough to clear all.
unfoldable pub seeked : World → Engine → Engine
seeked w e =
    let unbuffered = select (λ m. not (w.is_buffered m.content_type)) e.states in
    if every_state (λ m. m.need_period == find_period_for_time w w.time) e.states
    then clear_all w unbuffered e
    else if is_empty unbuffered
    then e
    else clear_all w e.states e

-- The bits of a segment in millionths: its size, or its duration at the stream's bandwidth, which is
-- null when that is not known.
abbrev pub segment_bits : Option ℕ → Option SegmentReference → Option ℕ
segment_bits bandwidth none = some 0
segment_bits bandwidth (some r) = elim (size_of (get_size r)) [
  | some n ↦ some (8000000 * n)
  | none ↦ elim bandwidth [
    | none ↦ none
    | some b ↦ some (pos_part (r.end_time -ℤ r.start_time) * b)
  ]
]
  where
    size_of : Option ℤ → Option ℕ
    size_of (some (pos zero)) = none
    size_of (some (pos (suc n))) = some (suc n)
    size_of _ = none

abbrev pub init_bits : Option (Option ℤ) → ℕ
init_bits (some (some z)) = 8000000 * pos_part z
init_bits _ = 0

abbrev pub or_zero : Option ℤ → ℤ
or_zero none = pos 0
or_zero (some t) = t

-- Whether so many bits arrive before the playhead gets close to the end of the buffer, or more than
-- that is left of the request under way.
abbrev pub is_worth : World → MediaState → ℕ → Bool
is_worth w m bits =
    let slack =
      or_zero (w.buffer_end m.content_type)
      -ℤ w.time
      -ℤ pos (max w.min_buffer_time w.rebuffering_goal) in
    ltb bits (pos_part slack * w.bandwidth_estimate)
    || ltb bits (8000000 * w.bytes_remaining m.content_type)

-- `shouldAbortCurrentRequest_`
unfoldable pub should_abort : World → MediaState → ℕ → Bool
should_abort w m i =
    let s = w.streams m.stream in
    let reference = get_segment_reference_needed w m (w.buffer_end m.content_type) i in
    if not m.has_operation then false else elim (segment_bits s.bandwidth reference) [
      | none ↦ false
      | some bits ↦ is_worth w m (bits + init_bits s.init_size)
    ]

-- A switch during trick play is one to the trick mode of the stream, if it has one: the stream that
-- is switched to, and the media state.
abbrev pub in_trick_play : World → ℕ → MediaState → ℕ × MediaState
in_trick_play w s m = if is_none m.restore_stream then (s, m) else elim (w.streams s).trick_mode [
  | some t ↦ (t, record m { restore_stream = some s })
  | none ↦ (s, record m { restore_stream = none })
]

-- The clearing at the end of a switch.
unfoldable pub clear_for_switch : World → Bool → ℕ → MediaState → Engine → Engine
clear_for_switch w clears margin m e =
    if not clears
    then put m e
    else if m.clearing_buffer
    then put (record m { waiting_to_flush = true }) e
    else if m.performing_update
    then put (record m { waiting_to_clear = true; safe_margin = margin; waiting_to_flush = true }) e
    else clear_buffer w true margin (cancelled m) e

abbrev pub emit_if : Bool → Effect → Engine → Engine
emit_if b f e = if b then emit f e else e

-- The switch itself, to the stream `s` of the period `i`.
unfoldable pub switch_now : World → ℕ → ℕ → Bool → ℕ → MediaState → Engine → Engine
switch_now w i s clears margin m e =
    let m1 = record m { stream = s; needs_init_segment = true } in
    clear_for_switch w clears margin m1 (
      emit_if (should_abort w m1 i) (abort m.content_type)
        (emit_if (is_of text_type m) (reinit_text s) e))

abbrev pub switch_ready :
    World → Option ℕ → ℕ → Bool → ℕ → Bool → MediaState → Engine → Engine × Bool
switch_ready w none s clears margin force m e = (put m e, false)
switch_ready w (some i) s clears margin force m e =
    if not (is_ready i e.ready_periods)
      || not (is_ready s e.ready_streams)
      || m.stream == s && not force
    then (put m e, false)
    else (switch_now w i s clears margin m e, true)

abbrev pub switch_state : World → ℕ → Bool → ℕ → Bool → MediaState → Engine → Engine × Bool
switch_state w s clears margin force m e =
    let i = find_period_containing_stream w s in
    let p = in_trick_play w s m in
    if clears
      && not (same_id i m.need_period)
      && every_state (λ n. n.need_period == m.need_period) e.states
    then (clear_all w e.states e, true)
    else switch_ready w i p.0 clears margin force p.1 e

-- `loadNewTextStream`, up to the promise that the buffer is clear.
unfoldable pub load_new_text_stream : Engine → Engine
load_new_text_stream e = emit (clear text_type false) e

-- `switchInternal_(stream, clearBuffer, safeMargin, force)`: whether there is a switch.
unfoldable pub switch_internal : World → ℕ → Bool → ℕ → Bool → Engine → Engine × Bool
switch_internal w s clears margin force e = elim (get_state (w.streams s).content_type e) [
  | some m ↦ switch_state w s clears margin force m e
  | none ↦
      if same_type (w.streams s).content_type text_type && w.ignores_text_failures
      then (load_new_text_stream e, true)
      else (e, false)
]

abbrev pub switch_if : World → Option ℕ → Bool → ℕ → Engine × Bool → Engine × Bool
switch_if w none clears margin x = x
switch_if w (some s) clears margin (e, b) =
    let x = switch_internal w s clears margin false e in (x.0, b || x.1)

-- `switchVariant(variant, clearBuffer, safeMargin)`
unfoldable pub switch_variant : World → Variant → Bool → ℕ → Engine → Engine × Bool
switch_variant w v clears margin e =
    switch_if w v.audio_stream clears margin (switch_if w v.video_stream clears margin (e, false))

unfoldable pub switch_text_stream : World → ℕ → Engine → Engine × Bool
switch_text_stream w s e = switch_internal w s true 0 false e

unfoldable pub reload_text_stream : World → Engine → Engine
reload_text_stream w e =
    on_state text_type (λ m e1. (switch_internal w m.stream true 0 true e1).0) e

abbrev pub remember_stream : ℕ → MediaState → Engine → Engine
remember_stream s m e = put (record m { restore_stream = some s }) e

abbrev pub engage : World → MediaState → Engine → Engine
engage w m e = elim (w.streams m.stream).trick_mode [
  | none ↦ e
  | some t ↦
      if is_none m.restore_stream
      then on_state video (remember_stream m.stream) (switch_internal w t false 0 false e).0
      else e
]

abbrev pub disengage : World → MediaState → Engine → Engine
disengage w m e = elim m.restore_stream [
  | none ↦ e
  | some s ↦ (switch_internal w s true 0 false (put (record m { restore_stream = none }) e)).0
]

-- `setTrickPlay(on)`
unfoldable pub set_trick_play : World → Bool → Engine → Engine
set_trick_play w true e = on_state video (engage w) e
set_trick_play w false e = on_state video (disengage w) e

-- `getStream_`, of a type: the stream that plays outside of trick play.
unfoldable pub get_buffering_stream : ContentType → Engine → Option ℕ
get_buffering_stream k e = elim (get_state k e) [
  | none ↦ none
  | some m ↦ elim m.restore_stream [ some s ↦ some s | none ↦ some m.stream ]
]

-- `getBufferingPeriod`: the one of the video, or else of the audio.
unfoldable pub get_buffering_period : World → Engine → Option Period
get_buffering_period w e = elim (get_state video e) [
  | some m ↦ get_elem? w.periods m.need_period
  | none ↦ elim (get_state audio e) [ some m ↦ get_elem? w.periods m.need_period | none ↦ none ]
]
