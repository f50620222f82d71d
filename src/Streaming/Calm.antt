-- ===== src/Streaming/Calm.antt =====
-- That no buffer is cleared while a segment of it is fetched or appended: what one change of a media
-- state of class `StreamingEngine` (shaka/js/shaka-player.compiled.debug.js) keeps.
pub mod Updates
pub mod Fetches
pub mod Switches
pub mod Setups
pub mod Events
use shaka_player_embedded.Base.{
  ◌≡◌, refl, sym, Bool, true, false, not, ◌&&◌, ◌||◌, Option, none, some, List, [], ◌∷◌, ◌++◌, map,
  All, All-select, find_first, select, is_some, if◌then◌else◌, ℕ,
}
use mathlib.Core.Path.{subst}
use shaka_player_embedded.Streams.Types.{ContentType, same_type}
use shaka_player_embedded.Streaming.State.{
  MediaState, Engine, Effect, emit, is_of, get_state, put, replaced, add_state, delete_state,
}
use shaka_player_embedded.Streaming.Update.{on_state}

unfoldable pub IsCalm : MediaState → Type 0
IsCalm m = (m.performing_update && m.clearing_buffer) ≡ false

unfoldable pub IsSafe : Engine → Type 0
IsSafe e = All IsCalm e.states

pub IsCalm-idle : (m : MediaState) → m.performing_update ≡ false → IsCalm m
unfolding IsCalm
IsCalm-idle m h = rw h refl

pub IsCalm-uncleared : (m : MediaState) → m.clearing_buffer ≡ false → IsCalm m
unfolding IsCalm
IsCalm-uncleared m h = from_test m.performing_update
  where
    from_test : (b : Bool) → (b && m.clearing_buffer) ≡ false
    from_test true = h
    from_test false = refl

-- A test that is passed on to both branches, and one that is not.
pub if-IsSafe :
    (b : Bool) (x y : Engine)
    → (b ≡ true → IsSafe x)
    → (b ≡ false → IsSafe y)
    → IsSafe (if b then x else y)
if-IsSafe true x y f g = f refl
if-IsSafe false x y f g = g refl

pub either-IsSafe : (b : Bool) (x y : Engine) → IsSafe x → IsSafe y → IsSafe (if b then x else y)
either-IsSafe true x y h k = h
either-IsSafe false x y h k = k

unfoldable pub IsCalmIfAny : Option MediaState → Type 0
IsCalmIfAny none = Unit
IsCalmIfAny (some m) = IsCalm m

keep-IsCalm :
    (b : Bool) (m : MediaState) (o : Option MediaState)
    → IsCalm m
    → IsCalmIfAny o
    → IsCalmIfAny (if b then some m else o)
unfolding IsCalmIfAny
keep-IsCalm true m o h k = h
keep-IsCalm false m o h k = k

find_first-IsCalm :
    (p : MediaState → Bool) (ms : List MediaState) → All IsCalm ms → IsCalmIfAny (find_first p ms)
unfolding IsCalmIfAny
find_first-IsCalm p [] h = tt
find_first-IsCalm p (m ∷ ms) (h, hs) =
    keep-IsCalm (p m) m (find_first p ms) h (find_first-IsCalm p ms hs)

pub get_state-IsCalm : (k : ContentType) (e : Engine) → IsSafe e → IsCalmIfAny (get_state k e)
unfolding IsSafe
get_state-IsCalm k e h = find_first-IsCalm (is_of k) e.states h

-- What keeps the engine safe on each media state keeps it safe on the one of a type.
pub on_state-IsSafe :
    (k : ContentType) (f : MediaState → Engine → Engine) (e : Engine)
    → ((m : MediaState) → IsCalm m → IsSafe (f m e))
    → IsSafe e
    → IsSafe (on_state k f e)
unfolding IsCalmIfAny
on_state-IsSafe k f e step h = from_state (get_state k e) (get_state-IsCalm k e h)
  where
    from_state :
        (o : Option MediaState) → IsCalmIfAny o → IsSafe (elim o [ none ↦ e | some m ↦ f m e ])
    from_state none q = h
    from_state (some m) q = step m q

pick-IsCalm : (b : Bool) (m n : MediaState) → IsCalm m → IsCalm n → IsCalm (if b then m else n)
pick-IsCalm true m n h k = h
pick-IsCalm false m n h k = k

replaced-IsCalm :
    (m : MediaState) (ms : List MediaState) → IsCalm m → All IsCalm ms → All IsCalm (replaced m ms)
unfolding replaced
replaced-IsCalm m [] h hs = tt
replaced-IsCalm m (n ∷ ns) h (k, ks) =
    (pick-IsCalm (is_of m.content_type n) m n h k, replaced-IsCalm m ns h ks)

pub put-IsSafe : (m : MediaState) (e : Engine) → IsCalm m → IsSafe e → IsSafe (put m e)
unfolding IsSafe
put-IsSafe m e h k = replaced-IsCalm m e.states h k

pub emit-IsSafe : (f : Effect) (e : Engine) → IsSafe e → IsSafe (emit f e)
unfolding IsSafe
emit-IsSafe f e h = h

snoc-IsCalm :
    (m : MediaState) (ms : List MediaState) → IsCalm m → All IsCalm ms → All IsCalm (ms ++ (m ∷ []))
snoc-IsCalm m [] h hs = (h, tt)
snoc-IsCalm m (n ∷ ns) h (k, ks) = (k, snoc-IsCalm m ns h ks)

pub add_state-IsSafe : (m : MediaState) (e : Engine) → IsCalm m → IsSafe e → IsSafe (add_state m e)
unfolding IsSafe
add_state-IsSafe m e h k = snoc-IsCalm m e.states h k

pub delete_state-IsSafe : (k : ContentType) (e : Engine) → IsSafe e → IsSafe (delete_state k e)
unfolding IsSafe
delete_state-IsSafe k e h = All-select IsCalm (λ m. not (is_of k m)) e.states h

pub map-IsCalm :
    (f : MediaState → MediaState) (ms : List MediaState)
    → ((m : MediaState) → IsCalm m → IsCalm (f m))
    → All IsCalm ms
    → All IsCalm (map f ms)
map-IsCalm f [] h hs = tt
map-IsCalm f (m ∷ ms) h (k, ks) = (h m k, map-IsCalm f ms h ks)

pub same_states-IsSafe : (d e : Engine) → e.states ≡ d.states → IsSafe d → IsSafe e
unfolding IsSafe
same_states-IsSafe d e q h = subst (All IsCalm) (sym q) h
