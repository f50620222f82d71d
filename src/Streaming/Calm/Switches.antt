-- ===== src/Streaming/Calm/Switches.antt =====
-- That a seek or a switch in class `StreamingEngine` (shaka/js/shaka-player.compiled.debug.js) clears no
-- buffer while a segment is fetched: it then waits for the fetch.
use shaka_player_embedded.Base.{
  ℕ, ◌≡◌, Bool, true, false, not, ◌||◌, Option, none, some, List, [], ◌∷◌, if◌then◌else◌, select,
  All, arith, All-select,
}
use shaka_player_embedded.Streams.Types.{text_type, video}
use shaka_player_embedded.Streaming.State.{
  Variant, World, MediaState, Effect, abort, reinit_text, Engine, is_of, get_state, put, is_none,
  cancelled,
}
use shaka_player_embedded.Streaming.Update.{on_state}
use shaka_player_embedded.Streaming.Needed.{find_period_containing_stream}
use shaka_player_embedded.Streaming.Switch.{
  force_clear_buffer, clear_all, seeked, in_trick_play, clear_for_switch, emit_if, switch_now,
  switch_ready, switch_state, load_new_text_stream, switch_internal, switch_if, switch_variant,
  switch_text_stream, reload_text_stream, remember_stream, engage, disengage, set_trick_play,
}
use shaka_player_embedded.Streaming.Calm.{
  IsCalm, IsSafe, IsCalm-idle, IsCalm-uncleared, if-IsSafe, either-IsSafe, IsCalmIfAny,
  get_state-IsCalm, on_state-IsSafe, put-IsSafe, emit-IsSafe,
}
use shaka_player_embedded.Streaming.Calm.Updates.{clear_buffer-IsSafe}

or_left : (a b : Bool) → (a || b) ≡ false → a ≡ false
or_left a b q = ground arith

pub force_clear_buffer-IsSafe :
    (w : World) (m : MediaState) (e : Engine)
    → IsCalm m
    → IsSafe e
    → IsSafe (force_clear_buffer w m e)
unfolding force_clear_buffer
force_clear_buffer-IsSafe w m e h k =
    if-IsSafe (m.clearing_buffer || m.waiting_to_clear) _ _ (λ q. k)
      (λ q.
        if-IsSafe m.performing_update _ _
          (λ p. put-IsSafe _ e (IsCalm-uncleared _ (or_left _ m.waiting_to_clear q)) k)
          (λ p.
            either-IsSafe _ _ _ (either-IsSafe _ _ _ (put-IsSafe _ e (IsCalm-idle _ p) k) k)
              (clear_buffer-IsSafe w false 0 (cancelled m) e p k)))

clear_all-IsSafe :
    (w : World) (ms : List MediaState) (e : Engine)
    → All IsCalm ms
    → IsSafe e
    → IsSafe (clear_all w ms e)
clear_all-IsSafe w [] e h k = k
clear_all-IsSafe w (m ∷ ms) e (h, hs) k =
    clear_all-IsSafe w ms _ hs (force_clear_buffer-IsSafe w m e h k)

clear_every-IsSafe : (w : World) (e : Engine) → IsSafe e → IsSafe (clear_all w e.states e)
unfolding IsSafe
clear_every-IsSafe w e k = clear_all-IsSafe w e.states e k k

clear_some-IsSafe :
    (w : World) (f : MediaState → Bool) (e : Engine)
    → IsSafe e
    → IsSafe (clear_all w (select f e.states) e)
unfolding IsSafe
clear_some-IsSafe w f e k =
    clear_all-IsSafe w (select f e.states) e (All-select IsCalm f e.states k) k

pub seeked-IsSafe : (w : World) (e : Engine) → IsSafe e → IsSafe (seeked w e)
unfolding seeked
seeked-IsSafe w e k =
    either-IsSafe _ _ _ (clear_some-IsSafe w (λ m. not (w.is_buffered m.content_type)) e k)
      (either-IsSafe _ _ _ k (clear_every-IsSafe w e k))

clear_for_switch-IsSafe :
    (w : World) (clears : Bool) (margin : ℕ) (m : MediaState) (e : Engine)
    → IsCalm m
    → IsSafe e
    → IsSafe (clear_for_switch w clears margin m e)
unfolding clear_for_switch IsCalm
clear_for_switch-IsSafe w clears margin m e h k =
    either-IsSafe (not clears) _ _ (put-IsSafe m e h k) (
      either-IsSafe m.clearing_buffer _ _ (put-IsSafe _ e h k) (
        if-IsSafe m.performing_update _ _ (λ p. put-IsSafe _ e h k)
          (λ p. clear_buffer-IsSafe w true margin (cancelled m) e p k)))

emit_if-IsSafe : (b : Bool) (f : Effect) (e : Engine) → IsSafe e → IsSafe (emit_if b f e)
emit_if-IsSafe b f e k = either-IsSafe b _ _ (emit-IsSafe f e k) k

switch_now-IsSafe :
    (w : World) (i s : ℕ) (clears : Bool) (margin : ℕ) (m : MediaState) (e : Engine)
    → IsCalm m
    → IsSafe e
    → IsSafe (switch_now w i s clears margin m e)
unfolding switch_now IsCalm
switch_now-IsSafe w i s clears margin m e h k = clear_for_switch-IsSafe w clears margin _ _ h (
    emit_if-IsSafe _ (abort m.content_type) _
      (emit_if-IsSafe (is_of text_type m) (reinit_text s) e k))

switch_ready-IsSafe :
    (w : World) (o : Option ℕ) (s : ℕ) (clears : Bool) (margin : ℕ) (force : Bool) (m : MediaState)
    (e : Engine)
    → IsCalm m
    → IsSafe e
    → IsSafe (switch_ready w o s clears margin force m e).0
switch_ready-IsSafe w none s clears margin force m e h k = put-IsSafe m e h k
switch_ready-IsSafe w (some i) s clears margin force m e h k = from_test _
  where
    from_test :
        (b : Bool)
        → let x : Engine × Bool =
            if b then (put m e, false) else (switch_now w i s clears margin m e, true) in
          IsSafe x.0
    from_test true = put-IsSafe m e h k
    from_test false = switch_now-IsSafe w i s clears margin m e h k

in_trick_play-IsCalm :
    (w : World) (s : ℕ) (m : MediaState) → IsCalm m → IsCalm (in_trick_play w s m).1
unfolding IsCalm
in_trick_play-IsCalm w s m h = from_test (is_none m.restore_stream) (w.streams s).trick_mode
  where
    from_test :
        (b : Bool) (o : Option ℕ)
        → let x : ℕ × MediaState = if b then (s, m) else elim o [
          | some t ↦ (t, record m { restore_stream = some s })
          | none ↦ (s, record m { restore_stream = none })
        ] in
          IsCalm x.1
    from_test true o = h
    from_test false none = h
    from_test false (some t) = h

switch_state-IsSafe :
    (w : World) (s : ℕ) (clears : Bool) (margin : ℕ) (force : Bool) (m : MediaState) (e : Engine)
    → IsCalm m
    → IsSafe e
    → IsSafe (switch_state w s clears margin force m e).0
switch_state-IsSafe w s clears margin force m e h k = from_test _
  where
    found : Option ℕ
    found = find_period_containing_stream w s

    from_test :
        (b : Bool)
        → let p = in_trick_play w s m in
          let x : Engine × Bool =
            if b
            then (clear_all w e.states e, true)
            else switch_ready w found p.0 clears margin force p.1 e in
          IsSafe x.0
    from_test true = clear_every-IsSafe w e k
    from_test false =
        switch_ready-IsSafe w found _ clears margin force _ e (in_trick_play-IsCalm w s m h) k

pub switch_internal-IsSafe :
    (w : World) (s : ℕ) (clears : Bool) (margin : ℕ) (force : Bool) (e : Engine)
    → IsSafe e
    → IsSafe (switch_internal w s clears margin force e).0
unfolding switch_internal IsCalmIfAny load_new_text_stream
switch_internal-IsSafe w s clears margin force e k =
    from_state (get_state (w.streams s).content_type e) (get_state-IsCalm _ e k) _
  where
    from_state :
        (o : Option MediaState)
        → IsCalmIfAny o
        → (b : Bool)
        → let x : Engine × Bool = elim o [
          | some m ↦ switch_state w s clears margin force m e
          | none ↦ if b then (load_new_text_stream e, true) else (e, false)
        ] in
          IsSafe x.0
    from_state (some m) h b = switch_state-IsSafe w s clears margin force m e h k
    from_state none h true = emit-IsSafe _ e k
    from_state none h false = k

switch_if-IsSafe :
    (w : World) (o : Option ℕ) (clears : Bool) (margin : ℕ) (x : Engine × Bool)
    → IsSafe x.0
    → IsSafe (switch_if w o clears margin x).0
switch_if-IsSafe w none clears margin x k = k
switch_if-IsSafe w (some s) clears margin (e, b) k =
    switch_internal-IsSafe w s clears margin false e k

pub switch_variant-IsSafe :
    (w : World) (v : Variant) (clears : Bool) (margin : ℕ) (e : Engine)
    → IsSafe e
    → IsSafe (switch_variant w v clears margin e).0
unfolding switch_variant
switch_variant-IsSafe w v clears margin e k =
    switch_if-IsSafe w v.audio_stream clears margin _
      (switch_if-IsSafe w v.video_stream clears margin (e, false) k)

pub switch_text_stream-IsSafe :
    (w : World) (s : ℕ) (e : Engine) → IsSafe e → IsSafe (switch_text_stream w s e).0
unfolding switch_text_stream
switch_text_stream-IsSafe w s e k = switch_internal-IsSafe w s true 0 false e k

pub reload_text_stream-IsSafe :
    (w : World) (e : Engine) → IsSafe e → IsSafe (reload_text_stream w e)
unfolding reload_text_stream
reload_text_stream-IsSafe w e k =
    on_state-IsSafe text_type (λ m e1. (switch_internal w m.stream true 0 true e1).0) e
      (λ m h. switch_internal-IsSafe w m.stream true 0 true e k) k

remember_stream-IsSafe :
    (s : ℕ) (m : MediaState) (e : Engine) → IsCalm m → IsSafe e → IsSafe (remember_stream s m e)
unfolding IsCalm
remember_stream-IsSafe s m e h k = put-IsSafe _ e h k

engage-IsSafe : (w : World) (m : MediaState) (e : Engine) → IsSafe e → IsSafe (engage w m e)
engage-IsSafe w m e k = from_trick (w.streams m.stream).trick_mode
  where
    from_trick :
        (o : Option ℕ)
        → IsSafe (elim o [
          | none ↦ e
          | some t ↦
              if is_none m.restore_stream
              then on_state video (remember_stream m.stream) (switch_internal w t false 0 false e).0
              else e
        ])
    from_trick none = k
    from_trick (some t) =
        let done = switch_internal-IsSafe w t false 0 false e k in
        either-IsSafe _ _ _
          (on_state-IsSafe video (remember_stream m.stream) _
            (λ n h. remember_stream-IsSafe m.stream n _ h done) done)
          k

disengage-IsSafe :
    (w : World) (m : MediaState) (e : Engine) → IsCalm m → IsSafe e → IsSafe (disengage w m e)
unfolding IsCalm
disengage-IsSafe w m e h k = from_restore m.restore_stream
  where
    from_restore :
        (o : Option ℕ)
        → IsSafe (elim o [
          | none ↦ e
          | some s ↦
              (switch_internal w s true 0 false (put (record m { restore_stream = none }) e)).0
        ])
    from_restore none = k
    from_restore (some s) = switch_internal-IsSafe w s true 0 false _ (put-IsSafe _ e h k)

pub set_trick_play-IsSafe :
    (w : World) (b : Bool) (e : Engine) → IsSafe e → IsSafe (set_trick_play w b e)
unfolding set_trick_play
set_trick_play-IsSafe w true e k =
    on_state-IsSafe video (engage w) e (λ m h. engage-IsSafe w m e k) k
set_trick_play-IsSafe w false e k =
    on_state-IsSafe video (disengage w) e (λ m h. disengage-IsSafe w m e h k) k
