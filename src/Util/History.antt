-- ===== src/Util/History.antt =====
-- Classes `StateHistory`, `SwitchHistory` and `Stats` (shaka/js/shaka-player.compiled.debug.js), from
-- which the player's statistics are read.
pub mod Spans
pub mod Times
use Prim.Native.String.{String}
use text.Mathlib.Text.{◌==◌ as str_eq}
use shaka_player_embedded.Base.{
  ℕ, Bool, true, false, not, Option, none, some, List, [], ◌∷◌, ◌++◌, map, ◌==◌, if◌then◌else◌, ℤ,
  pos, ◌+ℤ◌, ◌-ℤ◌,
}

pub record Entry : Type 0 where
  pub timestamp : ℤ
  pub state : String
  pub duration : ℤ

pub record StateHistory : Type 0 where
  pub opened : Option Entry
  pub closed : List Entry

abbrev pub new : StateHistory
new = record { opened = none; closed = [] }

abbrev pub start : ℤ → String → Entry
start now a = record { timestamp = now; state = a; duration = pos 0 }

abbrev pub until : ℤ → Entry → Entry
until now e = record e { duration = now -ℤ e.timestamp }

-- `update(state)` at the time `now`, with `start_` and `update_`.
unfoldable pub update : ℤ → String → StateHistory → StateHistory
update now a h = elim h.opened [
  | none ↦ record h { opened = some (start now a) }
  | some e ↦
      if str_eq e.state a
      then record h { opened = some (until now e) }
      else record { opened = some (start now a); closed = h.closed ++ until now e ∷ [] }
]

abbrev pub share : String → Entry → ℤ
share a e = if str_eq e.state a then e.duration else pos 0

-- The loop of `getTimeSpentIn` over the closed entries.
unfoldable pub add_shares : String → ℤ → List Entry → ℤ
add_shares a b [] = b
add_shares a b (e ∷ es) = add_shares a (b +ℤ share a e) es

abbrev pub open_share : String → Option Entry → ℤ
open_share a none = pos 0
open_share a (some e) = share a e

unfoldable pub get_time_spent_in : String → StateHistory → ℤ
get_time_spent_in a h = add_shares a (open_share a h.opened) h.closed

abbrev pub to_list : Option Entry → List Entry
to_list none = []
to_list (some e) = e ∷ []

unfoldable pub get_copy : StateHistory → List Entry
get_copy h = h.closed ++ to_list h.opened

-- What the player's `SwitchHistory` needs of a variant or a text stream: `object` tells the objects
-- apart.
pub record Stream : Type 0 where
  pub object : ℕ
  pub id : ℕ
  pub bandwidth : ℕ

pub data SwitchType : Type 0 where
  variant_switch text_switch : SwitchType

pub record Switch : Type 0 where
  pub switch_timestamp : ℤ
  pub id : ℕ
  pub switch_type : SwitchType
  pub from_adaptation : Bool
  pub bandwidth : Option ℕ

pub record SwitchHistory : Type 0 where
  pub current_variant : Option Stream
  pub current_text : Option Stream
  pub history : List Switch

abbrev pub is_current : Stream → Option Stream → Bool
is_current a none = false
is_current a (some b) = b.object == a.object

unfoldable pub update_current_variant : ℤ → Stream → Bool → SwitchHistory → SwitchHistory
update_current_variant now a b h = if is_current a h.current_variant then h else record h {
  current_variant = some a;
  history =
      h.history
      ++ record {
        switch_timestamp = now;
        id = a.id;
        switch_type = variant_switch;
        from_adaptation = b;
        bandwidth = some a.bandwidth;
      }
        ∷ [];
}

unfoldable pub update_current_text : ℤ → Stream → Bool → SwitchHistory → SwitchHistory
update_current_text now a b h = if is_current a h.current_text then h else record h {
  current_text = some a;
  history =
      h.history
      ++ record {
        switch_timestamp = now;
        id = a.id;
        switch_type = text_switch;
        from_adaptation = b;
        bandwidth = none;
      }
        ∷ [];
}

-- Numbers that are NaN until they are set are `none`.
pub record Stats : Type 0 where
  pub width : Option ℕ
  pub height : Option ℕ
  pub total_dropped_frames : Option ℕ
  pub total_decoded_frames : Option ℕ
  pub total_corrupted_frames : Option ℕ
  pub load_latency_seconds : Option ℤ
  pub license_time_seconds : Option ℤ
  pub variant_bandwidth : Option ℕ
  pub bandwidth_estimate : Option ℕ
  pub state_history : StateHistory
  pub switch_history : SwitchHistory

pub record Blob : Type 0 where
  pub width : Option ℕ
  pub height : Option ℕ
  pub stream_bandwidth : Option ℕ
  pub decoded_frames : Option ℕ
  pub dropped_frames : Option ℕ
  pub corrupted_frames : Option ℕ
  pub estimated_bandwidth : Option ℕ
  pub load_latency : Option ℤ
  pub play_time : ℤ
  pub pause_time : ℤ
  pub buffering_time : ℤ
  pub license_time : Option ℤ
  pub state_history : List Entry
  pub switch_history : List Switch

unfoldable pub get_blob : Stats → Blob
get_blob s = record {
  width = s.width;
  height = s.height;
  stream_bandwidth = s.variant_bandwidth;
  decoded_frames = s.total_decoded_frames;
  dropped_frames = s.total_dropped_frames;
  corrupted_frames = s.total_corrupted_frames;
  estimated_bandwidth = s.bandwidth_estimate;
  load_latency = s.load_latency_seconds;
  play_time = get_time_spent_in "playing" s.state_history;
  pause_time = get_time_spent_in "paused" s.state_history;
  buffering_time = get_time_spent_in "buffering" s.state_history;
  license_time = s.license_time_seconds;
  state_history = get_copy s.state_history;
  switch_history = s.switch_history.history;
}

unfoldable pub set_dropped_frames : ℕ → ℕ → Stats → Stats
set_dropped_frames dropped decoded s = record s {
  total_dropped_frames = some dropped;
  total_decoded_frames = some decoded;
}

unfoldable pub set_resolution : ℕ → ℕ → Stats → Stats
set_resolution w h s = record s { width = some w; height = some h }

unfoldable pub set_corrupted_frames : ℕ → Stats → Stats
set_corrupted_frames n s = record s { total_corrupted_frames = some n }

unfoldable pub set_load_latency : ℤ → Stats → Stats
set_load_latency t s = record s { load_latency_seconds = some t }

unfoldable pub set_license_time : ℤ → Stats → Stats
set_license_time t s = record s { license_time_seconds = some t }

unfoldable pub set_variant_bandwidth : ℕ → Stats → Stats
set_variant_bandwidth b s = record s { variant_bandwidth = some b }

unfoldable pub set_bandwidth_estimate : ℕ → Stats → Stats
set_bandwidth_estimate b s = record s { bandwidth_estimate = some b }
