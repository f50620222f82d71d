-- ===== src/Streaming/Transition.antt =====
-- The transition to a period that has been set up, in `handlePeriodTransition_` of class
-- `StreamingEngine` (shaka/js/shaka-player.compiled.debug.js).
use shaka_player_embedded.Base.{
  ℕ, ◌==◌, Bool, false, not, ◌&&◌, ◌||◌, Option, none, some, List, [], ◌∷◌, map, any, select,
  is_some, if◌then◌else◌,
}
use shaka_player_embedded.Streams.Types.{ContentType, same_type, text_type, video, audio}
use shaka_player_embedded.Streaming.State.{
  Variant, World, MediaState, invalid_streams_chosen, choose_streams, report, can_switch, Engine,
  emit, get_state, put, delete_state, is_embedded_text, is_idle, scheduled,
}
use shaka_player_embedded.Streaming.Needed.{same_id, find_period_containing_stream, period_start}
use shaka_player_embedded.Streaming.Update.{every_state, on_state}
use shaka_player_embedded.Streaming.Switch.{switch_internal}
use shaka_player_embedded.Streaming.Setup.{init_streams, audio_of, video_of}

-- The states that the transition was asked for, as far as they are in the map.
abbrev pub of_kinds : List ContentType → List MediaState → List MediaState
of_kinds ks ms = select (λ m. any (same_type m.content_type) ks) ms

abbrev pub can_go_to : World → ℕ → MediaState → Bool
can_go_to w f m =
    is_embedded_text w m
    || is_idle m && m.need_period == f && not (same_id (find_period_containing_stream w m.stream) f)

-- The period is set up: the player is asked for its streams, unless another transition is under way.
unfoldable pub period_set_up : World → ℕ → List ContentType → Engine → Engine
period_set_up w f ks e =
    if e.destroyed
    then e
    else if every_state (can_go_to w f) (of_kinds ks e.states)
    then emit (choose_streams f) e
    else e

-- The streams chosen, by type.
unfoldable pub chosen : Option Variant → Option ℕ → ContentType → Option ℕ
chosen variant text k =
    if same_type k video
    then video_of variant
    else if same_type k audio
    then audio_of variant
    else if same_type k text_type
    then text
    else none

-- A type that is played and for which there is no stream, and one that is not played and has one.
abbrev pub is_missing : (ContentType → Option ℕ) → MediaState → Bool
is_missing c m = not (is_some (c m.content_type)) && not (same_type m.content_type text_type)

abbrev pub is_unusable : (ContentType → Option ℕ) → Engine → ContentType → Bool
is_unusable c e k = is_some (c k) && not (is_some (get_state k e))

abbrev pub without_text : (ContentType → Option ℕ) → ContentType → Option ℕ
without_text c k = if same_type k text_type then none else c k

abbrev pub moved : World → ℕ → MediaState → MediaState
moved w f m =
    if is_embedded_text w m then record m { need_period = f; resume_at = period_start w f } else m

abbrev pub schedule_unless : World → Bool → MediaState → Engine → Engine
schedule_unless w was_embedded m e =
    if was_embedded && is_embedded_text w m then e else put (scheduled 0 m) e

-- A state goes to the stream chosen for it. A text state for which there is none is deleted.
abbrev pub go_to : World → ℕ → MediaState → Option ℕ → Engine → Engine
go_to w f m none e = delete_state m.content_type e
go_to w f m (some s) e =
    on_state m.content_type (schedule_unless w (is_embedded_text w m))
      (switch_internal w s false 0 false (put (moved w f m) e)).0

abbrev pub switch_kind : World → ℕ → (ContentType → Option ℕ) → ContentType → Engine → Engine
switch_kind w f c k e = on_state k (λ m e1. go_to w f m (c k) e1) e

abbrev pub switch_kinds : World → ℕ → (ContentType → Option ℕ) → List ContentType → Engine → Engine
switch_kinds w f c [] e = e
switch_kinds w f c (k ∷ ks) e = switch_kinds w f c ks (switch_kind w f c k e)

abbrev pub kinds_of : List MediaState → List ContentType
kinds_of ms = map (λ m. m.content_type) ms

abbrev pub switch_all : World → ℕ → (ContentType → Option ℕ) → Engine → Engine
switch_all w f c e = emit can_switch (switch_kinds w f c (kinds_of e.states) e)

-- The player has chosen. A text stream that has no state yet is started on its own.
unfoldable pub go_to_period : World → ℕ → Option Variant → Option ℕ → Engine → Engine
go_to_period w f variant text e =
    let c = chosen variant text in
    if any (is_missing c) e.states || is_unusable c e video || is_unusable c e audio
    then emit (report invalid_streams_chosen) e
    else if is_unusable c e text_type
    then switch_all w f (without_text c) (init_streams none none text e)
    else switch_all w f c e
