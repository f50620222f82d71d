-- ===== src/Streaming/Calm/Setups.antt =====
-- That the setting up of streams in class `StreamingEngine` (shaka/js/shaka-player.compiled.debug.js), and
-- its end, clear no buffer while a segment is fetched.
use shaka_player_embedded.Base.{ℕ, refl, Bool, Option, none, some, List, [], ◌∷◌, ℤ, map}
use shaka_player_embedded.Streams.Types.{text_type}
use shaka_player_embedded.Streaming.State.{
  World, MediaState, abort, Engine, get_state, is_known, cancelled,
}
use shaka_player_embedded.Streaming.Setup.{
  setup_streams, make_all_ready, forget_all, add_states, abort_all, destroy, unload_state,
  unload_text_stream, text_set_up,
}
use shaka_player_embedded.Streaming.Calm.{
  IsCalm, IsSafe, IsCalm-idle, either-IsSafe, emit-IsSafe, add_state-IsSafe, delete_state-IsSafe,
  map-IsCalm, same_states-IsSafe,
}

pub setup_streams-IsSafe : (ss : List ℕ) (e : Engine) → IsSafe e → IsSafe (setup_streams ss e)
unfolding setup_streams
setup_streams-IsSafe [] e k = k
setup_streams-IsSafe (s ∷ ss) e k = setup_streams-IsSafe ss _ (
    either-IsSafe (is_known s e.ready_streams) _ _ k
      (emit-IsSafe _ _ (same_states-IsSafe e _ refl k)))

pub make_all_ready-IsSafe : (ss : List ℕ) (e : Engine) → IsSafe e → IsSafe (make_all_ready ss e)
make_all_ready-IsSafe [] e k = k
make_all_ready-IsSafe (s ∷ ss) e k = make_all_ready-IsSafe ss _ (same_states-IsSafe e _ refl k)

pub forget_all-IsSafe : (ss : List ℕ) (e : Engine) → IsSafe e → IsSafe (forget_all ss e)
forget_all-IsSafe [] e k = k
forget_all-IsSafe (s ∷ ss) e k = forget_all-IsSafe ss _ (same_states-IsSafe e _ refl k)

pub add_states-IsSafe :
    (w : World) (i : ℕ) (t : ℤ) (ss : List ℕ) (e : Engine)
    → IsSafe e
    → IsSafe (add_states w i t ss e)
add_states-IsSafe w i t [] e k = k
add_states-IsSafe w i t (s ∷ ss) e k =
    add_states-IsSafe w i t ss _
      (either-IsSafe _ _ _ k (add_state-IsSafe _ e (IsCalm-idle _ refl) k))

abort_all-IsSafe : (ms : List MediaState) (e : Engine) → IsSafe e → IsSafe (abort_all ms e)
abort_all-IsSafe [] e k = k
abort_all-IsSafe (m ∷ ms) e k =
    abort_all-IsSafe ms _
      (either-IsSafe m.has_operation _ _ (emit-IsSafe (abort m.content_type) e k) k)

pub destroy-IsSafe : (e : Engine) → IsSafe e → IsSafe (destroy e)
unfolding destroy IsSafe IsCalm
destroy-IsSafe e k =
    abort_all-IsSafe e.states (record e { states = map cancelled e.states })
      (map-IsCalm cancelled e.states (λ m h. h) k)

unload_state-IsSafe : (o : Option MediaState) (e : Engine) → IsSafe e → IsSafe (unload_state o e)
unload_state-IsSafe none e k = k
unload_state-IsSafe (some m) e k =
    delete_state-IsSafe text_type _
      (either-IsSafe m.has_operation _ _ (emit-IsSafe (abort m.content_type) e k) k)

pub unload_text_stream-IsSafe : (e : Engine) → IsSafe e → IsSafe (unload_text_stream e)
unfolding unload_text_stream
unload_text_stream-IsSafe e k =
    unload_state-IsSafe (get_state text_type e) _ (same_states-IsSafe e _ refl k)

pub text_set_up-IsSafe :
    (w : World) (n : ℕ) (b : Bool) (s : ℕ) (e : Engine) → IsSafe e → IsSafe (text_set_up w n b s e)
unfolding text_set_up
text_set_up-IsSafe w n b s e k =
    let done = make_all_ready-IsSafe (s ∷ []) e k in
    either-IsSafe _ _ _ k
      (either-IsSafe _ _ _ (add_state-IsSafe _ _ (IsCalm-idle _ refl) done) done)
