-- ===== src/Streaming/Calm/Fetches.antt =====
-- That what follows a fetch of class `StreamingEngine` (shaka/js/shaka-player.compiled.debug.js) clears no
-- buffer while a segment is fetched.
use shaka_player_embedded.Base.{
  ℕ, zero, suc, ◌≡◌, refl, Bool, true, false, ◌||◌, Option, none, some, if◌then◌else◌, ℤ, pos, ◌+ℤ◌,
  ◌-ℤ◌, max_ℤ, leb_ℤ, map,
}
use shaka_player_embedded.Media.SegmentIndex.{SegmentReference}
use shaka_player_embedded.Streams.Types.{text_type}
use shaka_player_embedded.Streaming.State.{
  World, MediaState, StreamingError, bad_http_status, operation_aborted, quota_exceeded,
  invalid_streams_chosen, other_error, remove_range, segment_appended, Engine, emit, is_known,
  scheduled,
}
use shaka_player_embedded.Streaming.Fetch.{
  fetched, evict, append, setup_from, count, setup_current, handle_startup, appended, reduced,
  reduce_to, handle_quota_exceeded, failed_init, handle_failure, fetch_failed, retried, retry,
}
use shaka_player_embedded.Streaming.Needed.{find_period_containing_stream}
use shaka_player_embedded.Streaming.Calm.{
  same_states-IsSafe, IsCalm, IsSafe, IsCalm-idle, either-IsSafe, put-IsSafe, emit-IsSafe,
  delete_state-IsSafe, map-IsCalm,
}
use shaka_player_embedded.Streaming.Calm.Updates.{setup_period-IsSafe}

pub fetched-IsSafe : (m : MediaState) (e : Engine) → IsCalm m → IsSafe e → IsSafe (fetched m e)
unfolding fetched IsCalm
fetched-IsSafe m e h k = put-IsSafe _ e h k

evict-IsSafe : (w : World) (m : MediaState) (e : Engine) → IsSafe e → IsSafe (evict w m e)
unfolding evict
evict-IsSafe w m e k = from_start (w.buffer_start m.content_type)
  where
    over : ℤ → ℤ
    over t = w.time -ℤ t -ℤ max_ℤ w.buffer_behind w.max_segment_duration

    from_start :
        (o : Option ℤ)
        → IsSafe (elim o [
          | none ↦ e
          | some t ↦
              if leb_ℤ (over t) (pos 0)
              then e
              else emit (remove_range m.content_type t (t +ℤ over t)) e
        ])
    from_start none = k
    from_start (some t) = either-IsSafe _ _ _ k (emit-IsSafe _ e k)

pub append-IsSafe :
    (w : World) (start : ℤ) (r : SegmentReference) (m : MediaState) (e : Engine)
    → IsSafe e
    → IsSafe (append w start r m e)
unfolding append
append-IsSafe w start r m e k = either-IsSafe _ _ _ k (emit-IsSafe _ _ (evict-IsSafe w m e k))

setup_from-IsSafe : (w : World) (i n : ℕ) (e : Engine) → IsSafe e → IsSafe (setup_from w i n e)
unfolding setup_from
setup_from-IsSafe w i zero e k = k
setup_from-IsSafe w i (suc n) e k = setup_from-IsSafe w (suc i) n _ (setup_period-IsSafe w i e k)

setup_current-IsSafe :
    (w : World) (o : Option ℕ) (e : Engine) → IsSafe e → IsSafe (setup_current w o e)
setup_current-IsSafe w none e k = k
setup_current-IsSafe w (some i) e k =
    either-IsSafe (is_known i e.ready_periods) _ _ k (setup_period-IsSafe w i e k)

handle_startup-IsSafe :
    (w : World) (stream : ℕ) (e : Engine) → IsSafe e → IsSafe (handle_startup w stream e)
unfolding handle_startup
handle_startup-IsSafe w stream e k = either-IsSafe _ _ _ k (
    either-IsSafe _ _ _
      (emit-IsSafe _ _ (
        setup_from-IsSafe w 0 (count w.periods) _ (
          setup_current-IsSafe w (find_period_containing_stream w stream) _
            (same_states-IsSafe e _ refl k))))
      k)

pub appended-IsSafe :
    (w : World) (stream : ℕ) (r : SegmentReference) (m : MediaState) (e : Engine)
    → IsSafe e
    → IsSafe (appended w stream r m e)
unfolding appended
appended-IsSafe w stream r m e k = either-IsSafe _ _ _ k (
    handle_startup-IsSafe w stream _ (
      put-IsSafe _ _ (IsCalm-idle _ refl)
        (either-IsSafe m.waiting_to_clear _ _ k (emit-IsSafe segment_appended e k))))

reduce_to-IsSafe :
    (o : Option ℕ) (m : MediaState) (e : Engine)
    → m.performing_update ≡ false
    → IsSafe e
    → IsSafe (reduce_to o m e)
unfolding IsSafe
reduce_to-IsSafe none m e h k =
    put-IsSafe (record m { has_error = true }) (record e { fatal_error = true }) (IsCalm-idle _ h) k
reduce_to-IsSafe (some s) m e h k =
    put-IsSafe (scheduled 4000000 (record m { recovering = true })) (record e { scale = s })
      (IsCalm-idle _ h) k

handle_quota_exceeded-IsSafe :
    (m : MediaState) (e : Engine)
    → m.performing_update ≡ false
    → IsSafe e
    → IsSafe (handle_quota_exceeded m e)
unfolding handle_quota_exceeded
handle_quota_exceeded-IsSafe m e h k =
    either-IsSafe _ _ _ (put-IsSafe _ e (IsCalm-idle _ h) k)
      (reduce_to-IsSafe (reduced e.scale) m e h k)

handle_failure-IsSafe :
    (w : World) (error : StreamingError) (m : MediaState) (e : Engine)
    → m.performing_update ≡ false
    → IsSafe e
    → IsSafe (handle_failure w error m e)
handle_failure-IsSafe w operation_aborted m e h k = put-IsSafe _ e (IsCalm-idle _ h) k
handle_failure-IsSafe w quota_exceeded m e h k = handle_quota_exceeded-IsSafe m e h k
handle_failure-IsSafe w bad_http_status m e h k =
    emit-IsSafe _ _ (put-IsSafe _ e (IsCalm-idle _ h) k)
handle_failure-IsSafe w invalid_streams_chosen m e h k =
    emit-IsSafe _ _ (put-IsSafe _ e (IsCalm-idle _ h) k)
handle_failure-IsSafe w (other_error n) m e h k =
    emit-IsSafe _ _ (put-IsSafe _ e (IsCalm-idle _ h) k)

failed_init_lem :
    (b : Bool) (m : MediaState)
    → m.performing_update ≡ false
    → (failed_init b m).performing_update ≡ false
failed_init_lem true m h = h
failed_init_lem false m h = h

pub fetch_failed-IsSafe :
    (w : World) (init_failed : Bool) (error : StreamingError) (m : MediaState) (e : Engine)
    → IsSafe e
    → IsSafe (fetch_failed w init_failed error m e)
unfolding fetch_failed
fetch_failed-IsSafe w init_failed error m e k = either-IsSafe _ _ _ k (
    either-IsSafe _ _ _ (delete_state-IsSafe text_type e k)
      (handle_failure-IsSafe w error _ e (failed_init_lem init_failed _ refl) k))

retried-IsCalm : (m : MediaState) → IsCalm m → IsCalm (retried m)
unfolding IsCalm
retried-IsCalm m h = from_test m.has_error
  where
    from_test :
        (b : Bool) → IsCalm (if b then scheduled 100000 (record m { has_error = false }) else m)
    from_test true = h
    from_test false = h

pub retry-IsSafe : (e : Engine) → IsSafe e → IsSafe (retry e).1
unfolding retry IsSafe
retry-IsSafe e k = from_test (e.destroyed || e.fatal_error)
  where
    from_test :
        (b : Bool)
        → let r : Bool × Engine =
            if b then (false, e) else (true, record e { states = map retried e.states }) in
          IsSafe r.1
    from_test true = k
    from_test false = map-IsCalm retried e.states retried-IsCalm k
