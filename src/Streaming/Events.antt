-- ===== src/Streaming/Events.antt =====
-- The life of class `StreamingEngine` (shaka/js/shaka-player.compiled.debug.js) as the events that reach
-- it: calls of the player, timers, and promises that are kept or broken. Each comes with the world it
-- finds.
use shaka_player_embedded.Base.{ℕ, Bool, Option, List, [], ◌∷◌, ℤ}
use shaka_player_embedded.Media.SegmentIndex.{SegmentReference}
use shaka_player_embedded.Streams.Types.{ContentType}
use shaka_player_embedded.Streaming.State.{Variant, World, StreamingError, Engine}
use shaka_player_embedded.Streaming.Update.{cleared, on_state, on_update}
use shaka_player_embedded.Streaming.Fetch.{fetched, append, appended, fetch_failed, retry}
use shaka_player_embedded.Streaming.Switch.{
  seeked, switch_variant, switch_text_stream, reload_text_stream, set_trick_play,
}
use shaka_player_embedded.Streaming.Setup.{
  streams_failed, period_turn, period_ready, period_failed, media_source_ready, streams_set_up,
  started, destroy, destroyed_at_last, unload_text_stream, text_cleared, text_initialised,
  text_set_up,
}
use shaka_player_embedded.Streaming.Transition.{period_set_up, go_to_period}

pub data Event : Type 0 where
  media_source_inits : World → List ℕ → Event
  streams_set_ups : World → ℕ → ℤ → List ℕ → Event
  streams_fail : List ℕ → Event
  starts : Event
  updates : World → ContentType → Event
  clears : ContentType → Event
  fetches : ContentType → Event
  appends : World → ContentType → ℤ → SegmentReference → Event
  is_appended : World → ContentType → ℕ → SegmentReference → Event
  fails : World → ContentType → Bool → StreamingError → Event
  retries : Event
  period_begins : List ℕ → Event
  period_ends : ℕ → List ℕ → Event
  period_fails : ℕ → StreamingError → List ℕ → Event
  period_waits : World → ℕ → List ContentType → Event
  player_chooses : World → ℕ → Option Variant → Option ℕ → Event
  seeks : World → Event
  switches : World → Variant → Bool → ℕ → Event
  switches_text : World → ℕ → Event
  reloads_text : World → Event
  tricks : World → Bool → Event
  unloads_text : Event
  text_clears : ℕ → Event
  text_inits : ℕ → Event
  text_sets_up : World → ℕ → Bool → ℕ → Event
  destroys ends : Event

abbrev pub step : Event → Engine → Engine
step (media_source_inits w ss) e = media_source_ready w ss e
step (streams_set_ups w i t ss) e = streams_set_up w i t ss e
step (streams_fail ss) e = streams_failed ss e
step starts e = started e
step (updates w k) e = on_state k (on_update w) e
step (clears k) e = on_state k cleared e
step (fetches k) e = on_state k fetched e
step (appends w k t r) e = on_state k (append w t r) e
step (is_appended w k s r) e = on_state k (appended w s r) e
step (fails w k b error) e = on_state k (fetch_failed w b error) e
step retries e = (retry e).1
step (period_begins ss) e = period_turn ss e
step (period_ends i ss) e = period_ready i ss e
step (period_fails i error ss) e = period_failed i error ss e
step (period_waits w f ks) e = period_set_up w f ks e
step (player_chooses w f v t) e = go_to_period w f v t e
step (seeks w) e = seeked w e
step (switches w v b margin) e = (switch_variant w v b margin e).0
step (switches_text w s) e = (switch_text_stream w s e).0
step (reloads_text w) e = reload_text_stream w e
step (tricks w b) e = set_trick_play w b e
step unloads_text e = unload_text_stream e
step (text_clears s) e = text_cleared s e
step (text_inits s) e = text_initialised s e
step (text_sets_up w sequence b s) e = text_set_up w sequence b s e
step destroys e = destroy e
step ends e = destroyed_at_last e

-- The engine after such events, from the one that the constructor builds.
unfoldable pub run : List Event → Engine → Engine
run [] e = e
run (t ∷ ts) e = run ts (step t e)
