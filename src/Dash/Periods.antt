-- ===== src/Dash/Periods.antt =====
-- The periods of a manifest in class `DashParser` (shaka/js/shaka-player.compiled.debug.js).
use shaka_player_embedded.Base.{
  ℕ, Bool, true, false, not, ◌&&◌, ◌||◌, Option, none, some, List, [], ◌∷◌, ◌++◌, map, select,
  flatten, is_some, is_empty, if◌then◌else◌, Text, text_of, same_text, or_empty, ℤ, pos, ◌+ℤ◌, ◌-ℤ◌,
  min_ℤ,
}
use shaka_player_embedded.Dash.Xml.{find_children}
use shaka_player_embedded.Dash.Mpd.{or_number, positive}
use shaka_player_embedded.Dash.Protection as Protection
use shaka_player_embedded.Dash.Protection.{Context}
use shaka_player_embedded.Dash.Segments.{Checked}
use shaka_player_embedded.Dash.Frames.{Frame, create_frame}
use shaka_player_embedded.Dash.Representations.{DashStream, StreamInfo}
use shaka_player_embedded.Dash.AdaptationSets.{AdaptationSet, parse_adaptation_sets}
use shaka_player_embedded.Dash.Variants.{DashVariant, for_audios}
use shaka_player_embedded.Dash.Parsing.{
  Platform, Parsing, fine, failed, ◌>>=◌, natural_attr, duration_attr, dash_empty_period,
  dash_duplicate_representation_id,
}

pub record DashPeriod : Type 0 where
  pub start_time : ℤ
  pub text_streams : List DashStream
  pub variants : List DashVariant

-- What `onTimelineRegionAdded` is called with.
pub record EventRegion : Type 0 where
  pub scheme_id_uri : Text
  pub value : Text
  pub start_time : ℤ
  pub end_time : ℤ
  pub id : Text

pub record DashConfig : Type 0 where
  pub disable_audio : Bool
  pub disable_video : Bool
  pub disable_text : Bool
  pub ignore_empty_adaptation_set : Bool

-- What is told of a period: its start, its duration if it is known, and whether it is the last.
pub record PeriodInfo (E : Type 0) : Type 0 where
  pub start : ℤ
  pub duration : Option ℤ
  pub node : E
  pub is_last_period : Bool

abbrev pub cut_off : ℤ → Option ℤ → ℤ → ℤ
cut_off start none t = t
cut_off start (some d) t = min_ℤ t (start +ℤ d)

module _ (p : Platform) where
  -- An event of a stream, which is cut off at the end of the period.
  abbrev pub region_of : ℤ → Option ℤ → Text → Text → ℕ → p.dom.Element → EventRegion
  region_of start duration scheme value timescale e =
      let at_time =
        p.in_milliseconds (or_number 0 (natural_attr p e (text_of "presentationTime"))) timescale
        +ℤ start in
      let end_time =
        at_time
        +ℤ p.in_milliseconds (or_number 0 (natural_attr p e (text_of "duration"))) timescale in
      record {
        scheme_id_uri = scheme;
        value = value;
        start_time = cut_off start duration at_time;
        end_time = cut_off start duration end_time;
        id = or_empty (p.dom.attribute e (text_of "id"));
      }

  -- `parseEventStream_`
  unfoldable pub parse_event_stream : ℤ → Option ℤ → p.dom.Element → List EventRegion
  parse_event_stream start duration e =
      map
        (region_of start duration (or_empty (p.dom.attribute e (text_of "schemeIdUri")))
          (or_empty (p.dom.attribute e (text_of "value")))
          (or_number 1 (positive (natural_attr p e (text_of "timescale")))))
        (find_children p.dom e (text_of "Event"))

abbrev pub includes : Text → List Text → Bool
includes t [] = false
includes t (u ∷ us) = same_text u t || includes t us

abbrev pub has_duplicate : List Text → Bool
has_duplicate [] = false
has_duplicate (t ∷ ts) = includes t ts || has_duplicate ts

abbrev pub is_trick : AdaptationSet → Bool
is_trick s = not (is_empty (or_empty s.trick_mode_for))

abbrev pub with_trick : Option ℕ → DashStream → DashStream
with_trick v s = record s { trick_mode_video = v }

abbrev pub first_id : List DashStream → Option ℕ
first_id [] = none
first_id (s ∷ ss) = some s.id

-- The streams of the set that a trick mode set is for play its first stream.
abbrev pub tricked_by : AdaptationSet → AdaptationSet → AdaptationSet
tricked_by t s =
    if same_text s.id (or_empty t.trick_mode_for)
    then record s { streams = map (with_trick (first_id t.streams)) s.streams }
    else s

unfoldable pub add_tricks : List AdaptationSet → List AdaptationSet → List AdaptationSet
add_tricks [] ss = ss
add_tricks (t ∷ ts) ss = add_tricks ts (map (tricked_by t) ss)

-- `getSetsOfType_`
unfoldable pub get_sets_of_type : List AdaptationSet → Text → List AdaptationSet
get_sets_of_type ss t = select (λ s. same_text s.content_type t) ss

-- The sets of one kind; null stands for none, and for a kind that is switched off.
abbrev pub or_none : Bool → List AdaptationSet → List (Option AdaptationSet)
or_none disabled [] = none ∷ []
or_none disabled (s ∷ ss) = if disabled then none ∷ [] else map some (s ∷ ss)

abbrev pub texts_of : Bool → List AdaptationSet → List DashStream
texts_of true ss = []
texts_of false ss = flatten (map (λ s. s.streams) ss)

-- The period that the sets make, and the next id.
abbrev pub period_of : DashConfig → ℤ → List AdaptationSet → ℕ → Parsing (DashPeriod × ℕ)
period_of c start ss id =
    let sets = add_tricks (select is_trick ss) (select (λ s. not (is_trick s)) ss) in
    let videos = get_sets_of_type sets (text_of "video") in
    let audios = get_sets_of_type sets (text_of "audio") in
    let vs = for_audios (or_none c.disable_audio audios) (or_none c.disable_video videos) id in
    if is_empty videos && is_empty audios
    then failed dash_empty_period
    else fine (
      record {
        start_time = start;
        text_streams = texts_of c.disable_text (get_sets_of_type sets (text_of "text"));
        variants = vs.0;
      },
      vs.1,
    )

-- The parser's state, as far as the periods change it. `told` has the periods that were handed to
-- `filterNewPeriod`, `regions` the regions of events.
pub record ParserState : Type 0 where
  pub global_id : ℕ
  pub period_ids : List Text
  pub manifest : Option (List DashPeriod)
  pub told : List DashPeriod
  pub regions : List EventRegion

-- A period that is new goes into the manifest, if there is one.
abbrev pub into_manifest : DashPeriod → ParserState → ParserState
into_manifest k s = elim s.manifest [
  | none ↦ s
  | some ps ↦ record s { manifest = some (ps ++ k ∷ []); told = s.told ++ k ∷ [] }
]

unfoldable pub add_period : Text → DashPeriod → ParserState → ParserState
add_period id k s =
    if includes id s.period_ids
    then s
    else into_manifest k (record s { period_ids = s.period_ids ++ id ∷ [] })

-- What `parsePeriods_` answers. `filtered` says whether `filterAllPeriods` was called.
pub record Periods : Type 0 where
  pub periods : List DashPeriod
  pub duration : Option ℤ
  pub duration_derived_from_periods : Bool
  pub filtered : Bool
  pub state : ParserState

module _ (p : Platform)
    (create_stream : PeriodInfo p.dom.Element
      → p.dom.Element
      → Frame p.dom.Element
      → ℕ
      → Checked StreamInfo)
    (set_protection : List p.dom.Element → Protection.Protected Context)
    (protection : List p.dom.Element → Context → Protection.Protected (Option Text × Context))
    (c : DashConfig) (is_dynamic : Bool) (base_uris : List Text) where
  abbrev pub Period : Type 0
  Period = DashPeriod × Text × ParserState

  abbrev pub period_id : PeriodInfo p.dom.Element → Frame p.dom.Element → Text
  period_id i f =
      let id = or_empty f.id in
      if is_empty id then text_of "__shaka_period_" ++ p.show_seconds i.start else id

  abbrev pub with_sets :
      PeriodInfo p.dom.Element → Text → ParserState → List AdaptationSet × ℕ → Parsing Period
  with_sets i id s (ss, next) =
      if is_dynamic && has_duplicate (flatten (map (λ a. a.representation_ids) ss))
      then failed dash_duplicate_representation_id
      else period_of c i.start ss next >>= λ r. fine (r.0, id, record s { global_id = r.1 })

  abbrev pub note_events : PeriodInfo p.dom.Element → ParserState → ParserState
  note_events i s = record s {
    regions =
        s.regions
        ++ flatten (
            map (parse_event_stream p i.start i.duration)
              (find_children p.dom i.node (text_of "EventStream")));
  }

  -- `parsePeriod_`, with the period's id.
  unfoldable pub parse_period : PeriodInfo p.dom.Element → ParserState → Parsing Period
  parse_period i s = create_frame p i.node none (some base_uris) >>= λ f.
      parse_adaptation_sets p (create_stream i) set_protection protection
        c.ignore_empty_adaptation_set i.duration f
        (find_children p.dom i.node (text_of "AdaptationSet")) s.global_id
      >>= with_sets i (period_id i f) (note_events i s)

  abbrev pub to_next : ℤ → Option ℕ → Option ℤ
  to_next start none = none
  to_next start (some n) = some (pos n -ℤ start)

  abbrev pub or_time : Option ℤ → Option ℤ → Option ℤ
  or_time none b = b
  or_time (some a) b = some a

  abbrev pub as_time : Option ℕ → Option ℤ
  as_time none = none
  as_time (some n) = some (pos n)

  -- The start of a period: its own, or the end of the one before.
  abbrev pub start_of : p.dom.Element → ℤ → ℤ
  start_of e after = elim (duration_attr p e (text_of "start") none) [
    | none ↦ after
    | some n ↦ pos n
  ]

  -- How long a period is: up to the start of the next, or up to the end of the presentation, and
  -- else what it says itself.
  abbrev pub duration_of : Option ℕ → p.dom.Element → List p.dom.Element → ℤ → Option ℤ
  duration_of total e [] start =
      or_time (to_next start total) (as_time (duration_attr p e (text_of "duration") none))
  duration_of total e (n ∷ ns) start =
      or_time (to_next start (duration_attr p n (text_of "start") none))
        (as_time (duration_attr p e (text_of "duration") none))

  abbrev pub info_of : Option ℕ → p.dom.Element → List p.dom.Element → ℤ → PeriodInfo p.dom.Element
  info_of total e es after =
      let start = start_of e after in
      let duration = duration_of total e es start in
      record {
        start = start;
        duration = duration;
        node = e;
        is_last_period = not (is_some duration) || is_empty es;
      }

  -- The loop of `parsePeriods_`: where a period has no end, it is the last that is read. The end of
  -- the last one is null then.
  unfoldable pub walk_periods :
      Option ℕ
      → List p.dom.Element
      → ℤ
      → ParserState
      → Parsing (List DashPeriod × Option ℤ × ParserState)
  walk_periods total [] after s = fine ([], some after, s)
  walk_periods total (e ∷ es) after s =
      let i = info_of total e es after in
      parse_period i s >>= λ r.
      let state = add_period r.1 r.0 r.2 in
      elim i.duration [
        | none ↦ fine (r.0 ∷ [], none, state)
        | some d ↦ walk_periods total es (i.start +ℤ d) state >>= λ rest.
            fine (r.0 ∷ rest.0, rest.1, rest.2)
      ]

  unfoldable pub parse_periods : p.dom.Element → ParserState → Parsing Periods
  parse_periods mpd s =
      let total = duration_attr p mpd (text_of "mediaPresentationDuration") none in
      walk_periods total (find_children p.dom mpd (text_of "Period")) (pos 0) s >>= λ r.
      fine (record {
        periods = r.0;
        duration = elim total [ none ↦ r.1 | some t ↦ some (pos t) ];
        duration_derived_from_periods = not (is_some total);
        filtered = not (is_some r.2.manifest);
        state = r.2;
      })
