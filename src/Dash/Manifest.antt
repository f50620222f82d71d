-- ===== src/Dash/Manifest.antt =====
-- The manifest and its updates in class `DashParser` (shaka/js/shaka-player.compiled.debug.js). Times are in
-- milliseconds, those of the timeline in microseconds. Requests, and the parsing of XML, are effects
-- whose results are arguments.
use shaka_player_embedded.Base.{
  ℕ, ◌+◌, ◌*◌, ◌/◌, max, ltb, Bool, true, false, not, ◌&&◌, Option, none, some, List, [], ◌∷◌, map,
  is_empty, if◌then◌else◌, Text, text_of, same_text, or_text, or_empty, ℤ, pos, negsuc, ◌-ℤ◌, max_ℤ,
  ltb_ℤ, Number, fin, infinity,
}
use shaka_player_embedded.Media.Timeline as Timeline
use shaka_player_embedded.Media.Timeline.{PresentationTimeline}
use shaka_player_embedded.Dash.Xml.{find_children, parse_attr}
use shaka_player_embedded.Dash.Mpd.{or_number, positive}
use shaka_player_embedded.Dash.Periods.{DashPeriod, ParserState, Periods, includes}
use shaka_player_embedded.Dash.Parsing.{
  Platform, Parsing, fine, ◌>>=◌, contents_of, resolve_uris, duration_attr, present,
}

abbrev pub microseconds : ℤ → ℤ
microseconds (pos n) = pos (1000 * n)
microseconds (negsuc n) = negsuc (1000 * n + 999)

pub record DashOptions : Type 0 where
  pub ignore_min_buffer_time : Bool
  pub ignore_suggested_presentation_delay : Bool
  pub default_presentation_delay : ℕ
  pub auto_correct_drift : Bool
  pub availability_window_override : Option ℕ

-- What the attributes of the MPD element say.
pub record MpdInfo : Type 0 where
  pub min_buffer_time : Option ℕ
  pub update_period : ℤ
  pub availability_start_time : Option ℤ
  pub time_shift_buffer_depth : Option ℕ
  pub max_segment_duration : Option ℕ
  pub is_dynamic : Bool
  pub suggested_presentation_delay : Option ℕ

abbrev pub if_not : Bool → Option ℕ → Option ℕ
if_not true o = none
if_not false o = o

abbrev pub or_never : Option ℕ → ℤ
or_never none = negsuc 0
or_never (some n) = pos n

module _ (p : Platform) (date_of : Text → Option ℤ) (o : DashOptions) where
  -- The URIs of the manifest: those of its locations, if it has any.
  unfoldable pub located : Text → List Text → p.dom.Element → List Text
  located uri manifest_uris e =
      let ls = present (contents_of p (find_children p.dom e (text_of "Location"))) in
      if is_empty ls then manifest_uris else resolve_uris p (uri ∷ []) (map some ls)

  unfoldable pub mpd_info : p.dom.Element → MpdInfo
  mpd_info e = record {
    min_buffer_time =
        if_not o.ignore_min_buffer_time (duration_attr p e (text_of "minBufferTime") none);
    update_period = or_never (duration_attr p e (text_of "minimumUpdatePeriod") none);
    availability_start_time = parse_attr p.dom e (text_of "availabilityStartTime") date_of none;
    time_shift_buffer_depth = duration_attr p e (text_of "timeShiftBufferDepth") none;
    max_segment_duration = duration_attr p e (text_of "maxSegmentDuration") none;
    is_dynamic = not (
        same_text (or_text (or_empty (p.dom.attribute e (text_of "type"))) (text_of "static"))
          (text_of "static"));
    suggested_presentation_delay =
        if_not o.ignore_suggested_presentation_delay
          (duration_attr p e (text_of "suggestedPresentationDelay") none);
  }

abbrev pub in_timeline : ℕ → Number
in_timeline n = fin (pos (1000 * n))

-- The delay: what the manifest suggests, or one and a half of its buffer time, the default at least.
unfoldable pub delay_of : DashOptions → MpdInfo → ℕ
delay_of o i =
    or_number (max o.default_presentation_delay (3 * or_number 0 i.min_buffer_time / 2))
      i.suggested_presentation_delay

unfoldable pub timeline_of :
    DashOptions → MpdInfo → Option PresentationTimeline → PresentationTimeline
timeline_of o i (some t) = t
timeline_of o i none =
    Timeline.new (elim i.availability_start_time [ none ↦ none | some t ↦ some (microseconds t) ])
      (pos (1000 * delay_of o i)) o.auto_correct_drift

-- `setDuration(A || Infinity)`
abbrev pub length_or_infinity : Option ℤ → Number
length_or_infinity none = infinity
length_or_infinity (some (pos n)) = if ltb 0 n then in_timeline n else infinity
length_or_infinity (some (negsuc n)) = fin (microseconds (negsuc n))

abbrev pub or_override : Bool → Option ℕ → Option ℕ → Option ℕ
or_override true (some n) depth = some n
or_override live override depth = depth

abbrev pub window_of : Option ℕ → Number
window_of none = infinity
window_of (some n) = in_timeline n

-- What `processManifest_` tells the timeline behind the periods, of whose duration it learns whether
-- it is `derived`.
unfoldable pub tell_timeline :
    DashOptions → MpdInfo → Option ℤ → Bool → PresentationTimeline → PresentationTimeline
tell_timeline o i duration derived t =
    let still = Timeline.set_static (not i.is_dynamic) t in
    let measured =
      if i.is_dynamic && derived
      then still
      else Timeline.set_duration (length_or_infinity duration) still in
    let depth =
      or_override (Timeline.is_live measured) o.availability_window_override
        i.time_shift_buffer_depth in
    Timeline.notify_max_segment_duration
      (pos (1000 * or_number 1000 (positive i.max_segment_duration)))
      (Timeline.set_segment_availability_duration (window_of depth) measured)

pub record Manifest : Type 0 where
  pub presentation_timeline : PresentationTimeline
  pub periods : List DashPeriod
  pub min_buffer_time : ℕ

-- The periods of the manifest that the parser holds already.
abbrev pub periods_of : Option Manifest → Option (List DashPeriod)
periods_of none = none
periods_of (some m) = some m.periods

abbrev pub or_periods : Option (List DashPeriod) → List DashPeriod → List DashPeriod
or_periods none ps = ps
or_periods (some qs) ps = qs

-- The end of `processManifest_`: the first time there is a new manifest; later the one that is there
-- stays, with the periods that were added to it.
unfoldable pub make_manifest : MpdInfo → Periods → PresentationTimeline → Option Manifest → Manifest
make_manifest i ps t (some m) = record m {
  presentation_timeline = t;
  periods = or_periods ps.state.manifest m.periods;
}
make_manifest i ps t none = record {
  presentation_timeline = t;
  periods = ps.periods;
  min_buffer_time = or_number 0 i.min_buffer_time;
}

abbrev pub needs_clock : Option Manifest → PresentationTimeline → Bool
needs_clock (some m) t = false
needs_clock none t = Timeline.using_presentation_start_time t

abbrev pub old_timeline : Option Manifest → Option PresentationTimeline
old_timeline none = none
old_timeline (some m) = some m.presentation_timeline

-- What `processManifest_` leaves before it asks for the clock, which it does where `asks` says so.
pub record Processed : Type 0 where
  pub manifest : Manifest
  pub manifest_uris : List Text
  pub update_period : ℤ
  pub state : ParserState
  pub asks : Bool

module _ (p : Platform) (date_of : Text → Option ℤ) (o : DashOptions)
    (parse : Bool → List Text → p.dom.Element → ParserState → Parsing Periods) where
  abbrev pub processed : MpdInfo → List Text → Option Manifest → Periods → Processed
  processed i uris old ps =
      let t =
        tell_timeline o i ps.duration ps.duration_derived_from_periods
          (timeline_of o i (old_timeline old)) in
      record {
        manifest = make_manifest i ps t old;
        manifest_uris = uris;
        update_period = i.update_period;
        state = ps.state;
        asks = needs_clock old t;
      }

  -- `processManifest_(mpd, uri)`, where `parse` is `parsePeriods_`.
  unfoldable pub process_manifest :
      p.dom.Element → Text → List Text → Option Manifest → ParserState → Parsing Processed
  process_manifest e uri manifest_uris old s =
      let i = mpd_info p date_of o e in
      let uris = located p date_of o uri manifest_uris e in
      let bases =
        resolve_uris p (located p date_of o uri (uri ∷ []) e)
          (contents_of p (find_children p.dom e (text_of "BaseURL"))) in
      parse i.is_dynamic bases e (record s { manifest = periods_of old }) >>= λ ps.
      fine (processed i uris old ps)

abbrev pub with_clock : ℤ → Manifest → Manifest
with_clock offset m = record m {
  presentation_timeline = Timeline.set_clock_offset (microseconds offset) m.presentation_timeline;
}

-- The parser between its requests. The timer is what is left until it ticks, if it is set.
pub record DashParser : Type 0 where
  pub manifest_uris : List Text
  pub has_interface : Bool
  pub manifest : Option Manifest
  pub period_ids : List Text
  pub update_period : ℤ
  pub timer : Option ℤ

-- `requestManifest_`, of the URI that answered: one that is not known goes to the front.
unfoldable pub note_uri : Text → DashParser → DashParser
note_uri uri d =
    if d.has_interface && not (is_empty uri) && not (includes uri d.manifest_uris)
    then record d { manifest_uris = uri ∷ d.manifest_uris }
    else d

-- `setUpdateTimer_`, after an update that took so long, where updates take `average` on average.
unfoldable pub set_update_timer : ℤ → ℤ → DashParser → DashParser
set_update_timer took average d =
    if ltb_ℤ d.update_period (pos 0)
    then d
    else record d { timer = some (max_ℤ (max_ℤ (pos 3000) (d.update_period -ℤ took)) average) }

-- How a request for the manifest ends: with its duration, or with an error.
pub data Ended : Type 0 where
  took : ℤ → Ended
  fails : Ended

pub data Told : Type 0 where
  recoverable_error : Told

-- `onUpdate_`, when the request has ended: an error is told and counts as no time.
unfoldable pub after_update : Ended → ℤ → DashParser → DashParser × List Told
after_update (took t) average d = (if d.has_interface then set_update_timer t average d else d, [])
after_update fails average d =
    if d.has_interface
    then (set_update_timer (pos 0) average d, recoverable_error ∷ [])
    else (d, [])

-- `start`, when the request has ended; none is the error OPERATION_ABORTED.
unfoldable pub after_start : ℤ → ℤ → DashParser → Option DashParser
after_start t average d = if d.has_interface then some (set_update_timer t average d) else none

-- `stop`, where the operations that run are aborted.
unfoldable pub stop : DashParser → DashParser
stop d = record d {
  manifest_uris = [];
  has_interface = false;
  manifest = none;
  period_ids = [];
  timer = none;
}
