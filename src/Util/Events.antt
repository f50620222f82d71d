-- ===== src/Util/Events.antt =====
-- Classes `FakeEvent`, `FakeEventTarget` and `EventManager` (shaka/js/shaka-player.compiled.debug.js).
-- Listeners and targets are objects, told apart by numbers.
use Prim.Native.String.{String}
use shaka_player_embedded.Base.{
  ℕ, ◌==◌, Bool, true, false, not, ◌&&◌, Option, none, some, List, [], ◌∷◌, ◌++◌, if◌then◌else◌,
  select,
}
use shaka_player_embedded.Util.MultiMap
use shaka_player_embedded.Util.MultiMap.{MultiMap, or_nil}

pub record FakeEvent : Type 0 where
  pub event_type : String
  pub cancelable : Bool
  pub default_prevented : Bool
  pub is_stopped : Bool

abbrev pub new_event : String → FakeEvent
new_event event_type = record {
  event_type = event_type;
  cancelable = false;
  default_prevented = false;
  is_stopped = false;
}

unfoldable pub prevent_default : FakeEvent → FakeEvent
prevent_default e = if e.cancelable then record e { default_prevented = true } else e

unfoldable pub stop_immediate_propagation : FakeEvent → FakeEvent
stop_immediate_propagation e = record e { is_stopped = true }

-- `stopPropagation` does nothing.
abbrev pub stop_propagation : FakeEvent → FakeEvent
stop_propagation e = e

-- The listeners of a target, by the type of the event.
unfoldable pub add_event_listener : String → ℕ → MultiMap → MultiMap
add_event_listener event_type listener m = MultiMap.push event_type listener m

unfoldable pub remove_event_listener : String → ℕ → MultiMap → MultiMap
remove_event_listener event_type listener m = MultiMap.remove event_type listener m

-- `S` is what the listeners change; an exception of a listener is logged, and so no more than what
-- it has changed so far.
module _ {S : Type 0} (call : ℕ → FakeEvent → S → FakeEvent × S) where
  unfoldable pub call_each : List ℕ → FakeEvent → S → FakeEvent × S
  call_each [] e s = (e, s)
  call_each (l ∷ ls) e s =
      let x = call l e s in elim x.0.is_stopped [ true ↦ x | false ↦ call_each ls x.0 x.1 ]

  -- `dispatchEvent`, on a copy of the list of listeners: whether the default is prevented.
  unfoldable pub dispatch_event : MultiMap → FakeEvent → S → Bool × S
  dispatch_event m e s =
      let x = call_each (or_nil (MultiMap.get e.event_type m)) e s in (x.0.default_prevented, x.1)

-- A listener that is registered at a target.
pub record Binding : Type 0 where
  pub target : ℕ
  pub event_type : String
  pub listener : ℕ

-- The bindings of a manager, the latest one last, and whether it has been released. The map by types
-- is a list of bindings, since they carry their types.
pub record EventManager : Type 0 where
  pub bindings : List Binding
  pub is_released : Bool

abbrev pub new_manager : EventManager
new_manager = record { bindings = []; is_released = false }

module _ (same_type : String → String → Bool) where
  abbrev pub same_binding : Binding → Binding → Bool
  same_binding a b =
      a.target == b.target && same_type a.event_type b.event_type && a.listener == b.listener

  abbrev pub remove_binding : Binding → List Binding → List Binding
  remove_binding b bs = select (λ c. not (same_binding b c)) bs

  -- `listen`; the second state is what is registered at all targets.
  unfoldable pub listen : Binding → EventManager × List Binding → EventManager × List Binding
  listen b (m, world) =
      if m.is_released
      then (m, world)
      else (record m { bindings = m.bindings ++ (b ∷ []) }, world ++ (b ∷ []))

  -- A null listener stands for all of the target's.
  abbrev pub is_meant : ℕ → String → Option ℕ → Binding → Bool
  is_meant target event_type none b = b.target == target && same_type b.event_type event_type
  is_meant target event_type (some l) b =
      b.target == target && same_type b.event_type event_type && b.listener == l

  abbrev pub remove_all_of : List Binding → List Binding → List Binding
  remove_all_of [] world = world
  remove_all_of (b ∷ bs) world = remove_all_of bs (remove_binding b world)

  unfoldable pub unlisten :
      ℕ → String → Option ℕ → EventManager × List Binding → EventManager × List Binding
  unlisten target event_type l (m, world) = if m.is_released then (m, world) else (
    record m { bindings = select (λ b. not (is_meant target event_type l b)) m.bindings },
    remove_all_of (select (is_meant target event_type l) m.bindings) world,
  )

  unfoldable pub remove_all : EventManager × List Binding → EventManager × List Binding
  remove_all (m, world) =
      if m.is_released
      then (m, world)
      else (record m { bindings = [] }, remove_all_of m.bindings world)

  unfoldable pub release : EventManager × List Binding → EventManager × List Binding
  release s = let (m, world) = remove_all s in (record m { is_released = true }, world)

-- `convertOptions_`: the options, or only whether to capture where objects are not supported.
pub record Options : Type 0 where
  pub capture : Bool
  pub passive : Bool

pub data Given : Type 0 where
  nothing : Given
  flag : Bool → Given
  options : Options → Given

unfoldable pub convert_options : Bool → Given → Given
convert_options supports_object nothing = flag false
convert_options supports_object (flag b) = flag b
convert_options supports_object (options o) = if supports_object then options o else flag o.capture
