-- ===== src/Streaming/Calm/Updates.antt =====
-- That the updates of class `StreamingEngine` (shaka/js/shaka-player.compiled.debug.js), and what follows
-- a fetch, clear no buffer while a segment is fetched.
use shaka_player_embedded.Base.{
  ℕ, ◌≡◌, refl, Bool, true, false, not, ◌||◌, if◌then◌else◌, is_some, map, arith,
}
use shaka_player_embedded.Media.SegmentIndex.{SegmentReference}
use shaka_player_embedded.Streams.Types.{ContentType, same_type, video}
use shaka_player_embedded.Streaming.State.{
  World, MediaState, end_of_media, Engine, is_known, is_embedded_text, is_none, cancelled,
}
use shaka_player_embedded.Streaming.Update.{
  clear_buffer, cleared, init_source_buffer, fetch_and_append, Decision, captions, ended,
  other_period, wait, needs_segment, decide, ended_captions, act, setup_period,
  handle_period_transition, end_of_media_if, transition_of, run_update, on_update,
}
use shaka_player_embedded.Streaming.Calm.{
  IsCalm, IsSafe, IsCalm-idle, IsCalm-uncleared, if-IsSafe, either-IsSafe, on_state-IsSafe,
  put-IsSafe, emit-IsSafe, map-IsCalm,
}

pub clear_buffer-IsSafe :
    (w : World) (flush : Bool) (margin : ℕ) (m : MediaState) (e : Engine)
    → m.performing_update ≡ false
    → IsSafe e
    → IsSafe (clear_buffer w flush margin m e)
unfolding clear_buffer
clear_buffer-IsSafe w flush margin m e h k = emit-IsSafe _ _ (put-IsSafe _ e (IsCalm-idle _ h) k)

pub cleared-IsSafe : (m : MediaState) (e : Engine) → IsSafe e → IsSafe (cleared m e)
unfolding cleared
cleared-IsSafe m e k = either-IsSafe e.destroyed _ _ k (put-IsSafe _ e (IsCalm-uncleared _ refl) k)

init_source_buffer-IsSafe :
    (w : World) (i : ℕ) (m : MediaState) (e : Engine)
    → IsSafe e
    → IsSafe (init_source_buffer w i m e)
unfolding init_source_buffer
init_source_buffer-IsSafe w i m e k = either-IsSafe (not m.needs_init_segment) _ _ k (
    either-IsSafe (is_some (w.streams m.stream).init_size) _ _ (emit-IsSafe _ _ (emit-IsSafe _ e k))
      (emit-IsSafe _ e k))

fetch_and_append-IsSafe :
    (w : World) (i : ℕ) (r : SegmentReference) (m : MediaState) (e : Engine)
    → m.clearing_buffer ≡ false
    → IsSafe e
    → IsSafe (fetch_and_append w i r m e)
unfolding fetch_and_append
fetch_and_append-IsSafe w i r m e h k =
    emit-IsSafe _ _ (put-IsSafe _ _ (IsCalm-uncleared _ h) (init_source_buffer-IsSafe w i m e k))

ended_captions-IsCalm : (w : World) (m : MediaState) → IsCalm m → IsCalm (ended_captions w m)
unfolding IsCalm
ended_captions-IsCalm w m h = from_test (is_embedded_text w m)
  where
    from_test : (b : Bool) → IsCalm (if b then record m { end_of_stream = true } else m)
    from_test true = h
    from_test false = h

end_captions-IsSafe :
    (w : World) (e : Engine)
    → IsSafe e
    → IsSafe (record e { states = map (ended_captions w) e.states })
unfolding IsSafe
end_captions-IsSafe w e k = map-IsCalm (ended_captions w) e.states (ended_captions-IsCalm w) k

act-IsSafe :
    (w : World) (d : Decision) (m : MediaState) (e : Engine)
    → m.clearing_buffer ≡ false
    → IsSafe e
    → IsSafe (act w d m e)
unfolding act
act-IsSafe w captions m e h k = emit-IsSafe _ _ (put-IsSafe m e (IsCalm-uncleared m h) k)
act-IsSafe w ended m e h k =
    put-IsSafe _ _ (IsCalm-uncleared _ h)
      (either-IsSafe (same_type m.content_type video) _ _ (end_captions-IsSafe w e k) k)
act-IsSafe w (other_period i) m e h k = put-IsSafe _ e (IsCalm-uncleared _ h) k
act-IsSafe w (wait i delay) m e h k = put-IsSafe _ e (IsCalm-uncleared _ h) k
act-IsSafe w (needs_segment i r) m e h k = fetch_and_append-IsSafe w i r _ e h k

pub setup_period-IsSafe : (w : World) (i : ℕ) (e : Engine) → IsSafe e → IsSafe (setup_period w i e)
unfolding setup_period IsSafe
setup_period-IsSafe w i e k = either-IsSafe (is_known i e.ready_periods) _ _ k k

handle_period_transition-IsSafe :
    (w : World) (m : MediaState) (e : Engine) → IsSafe e → IsSafe (handle_period_transition w m e)
unfolding handle_period_transition
handle_period_transition-IsSafe w m e k =
    either-IsSafe _ _ _ (setup_period-IsSafe w m.need_period e k) k

end_of_media_if-IsSafe : (e : Engine) → IsSafe e → IsSafe (end_of_media_if e)
end_of_media_if-IsSafe e k = either-IsSafe _ _ _ (emit-IsSafe end_of_media e k) k

transition_of-IsSafe :
    (w : World) (kind : ContentType) (e : Engine) → IsSafe e → IsSafe (transition_of w kind e)
transition_of-IsSafe w kind e k =
    on_state-IsSafe kind (handle_period_transition w) e
      (λ m c. handle_period_transition-IsSafe w m e k) k

run_update-IsSafe :
    (w : World) (m : MediaState) (e : Engine)
    → m.performing_update ≡ false
    → m.clearing_buffer ≡ false
    → IsSafe e
    → IsSafe (run_update w m e)
unfolding run_update
run_update-IsSafe w m e h h1 k =
    either-IsSafe m.waiting_to_clear _ _
      (clear_buffer-IsSafe w m.waiting_to_flush m.safe_margin m e h k)
      (end_of_media_if-IsSafe _
        (transition_of-IsSafe w m.content_type _ (act-IsSafe w (decide w e m) m e h1 k)))

-- The tests that an update passes.
only_last : (a b c d : Bool) → (a || b || c || d) ≡ false → (b ≡ false) × (d ≡ false)
only_last a b c d q = ground arith

pub on_update-IsSafe :
    (w : World) (m : MediaState) (e : Engine) → IsSafe e → IsSafe (on_update w m e)
unfolding on_update
on_update-IsSafe w m e k =
    if-IsSafe (e.destroyed || m.performing_update || is_none m.update_timer || m.clearing_buffer) _
      _ (λ q. k)
      (λ q.
        let o =
          only_last e.destroyed m.performing_update (is_none m.update_timer) m.clearing_buffer q in
        run_update-IsSafe w (cancelled m) e o.0 o.1 k)
