-- ===== src/Hls/Manifest.antt =====
-- The manifest and its updates in class `HlsParser` (shaka/js/shaka-player.compiled.debug.js). Times are in
-- microseconds. `rollover` is that of a transport stream's clock, 2 to the power of 33 ticks of
-- 1/90000 second; `now` is what `Date.now()` answers.
use shaka_player_embedded.Base.{
  ℕ, zero, suc, ◌+◌, ◌-◌, ◌*◌, leb, ltb, Bool, true, false, not, ◌&&◌, Option, none, some, List, [],
  ◌∷◌, map, is_empty, is_some, if◌then◌else◌, Text, text_of, ℤ, pos, pos_part, ◌-ℤ◌, max_ℤ, ltb_ℤ,
  Number, fin, infinity, min_number,
}
use shaka_player_embedded.Media.SegmentIndex as SegmentIndex
use shaka_player_embedded.Media.SegmentIndex.{SegmentReference, References}
use shaka_player_embedded.Media.Timeline as Timeline
use shaka_player_embedded.Media.Timeline.{PresentationTimeline}
use shaka_player_embedded.Streams.Types.{text_type}
use shaka_player_embedded.Hls.Tags.{Tag, get_first_tag_with_name}
use shaka_player_embedded.Hls.Playlist.{Playlist}
use shaka_player_embedded.Hls.Segments.{PresentationType, vod, live, is_live, Targets}
use shaka_player_embedded.Hls.Streams.{StreamInfo, end_of, position_of, is_media}
use shaka_player_embedded.Hls.Period.{HlsPeriod}
use shaka_player_embedded.Hls.Required.{
  Outcome, done, fail, ◌>>=◌, hls_aes_128_encryption_not_supported, hls_invalid_playlist_hierarchy,
  hls_master_playlist_not_provided, operation_aborted,
}

-- The first and the last of the start times, the last of the ends, and the shortest duration of what
-- is not text.
pub record Stamps : Type 0 where
  pub first_start : Number
  pub last_start : ℤ
  pub last_end : ℤ
  pub min_duration : Number

abbrev pub with_duration : StreamInfo → Number → Number
with_duration i d = elim i.stream.content_type [ text_type ↦ d | _ ↦ min_number d (fin i.duration) ]

unfoldable pub stamps_of : List StreamInfo → Stamps → Stamps
stamps_of [] s = s
stamps_of (i ∷ is) s = stamps_of is (record {
  first_start = min_number s.first_start (fin i.min_timestamp);
  last_start = max_ℤ s.last_start i.min_timestamp;
  last_end = max_ℤ s.last_end i.max_timestamp;
  min_duration = with_duration i s.min_duration;
})

-- `notifySegments_`: the lists of segments that the timeline was not told of yet.
unfoldable pub notify_segments : ℤ → List References → PresentationTimeline → PresentationTimeline
notify_segments now [] t = t
notify_segments now (rs ∷ rss) t =
    notify_segments now rss (Timeline.notify_segments now rs (pos 0) t)

-- `createPresentationTimeline_`
unfoldable pub create_presentation_timeline : ℤ → Targets → List References → PresentationTimeline
create_presentation_timeline now d rss = notify_segments now rss (
    if is_live d.presentation_type
    then Timeline.set_static false
        (Timeline.new (some (pos 0)) (pos (3 * d.max_target_duration)) true)
    else Timeline.set_static true (Timeline.new none (pos 0) true))

-- `for (t = 0; h >= p;) t += p, h -= p`, on fuel.
unfoldable pub whole_rollovers : ℕ → ℕ → ℕ → ℕ
whole_rollovers zero p h = 0
whole_rollovers (suc fuel) p h =
    let rest = p + whole_rollovers fuel p (h - p) in if leb p h then rest else 0

-- The stream is moved by `t`, and its offset says so.
abbrev pub rolled : ℤ → ℤ → StreamInfo → StreamInfo
rolled p t i =
    if ltb_ℤ i.min_timestamp p
    then record i {
      stream = record i.stream { presentation_time_offset = pos 0 -ℤ t };
      segment_index = SegmentIndex.offset t i.segment_index;
    }
    else i

-- Live streams that started behind a rollover of the clock move the others forward.
unfoldable pub compensate : ℕ → ℤ → List StreamInfo → List StreamInfo
compensate rollover last_start is =
    let h = pos_part last_start in
    let t = whole_rollovers h rollover h in
    if ltb 0 t then map (rolled (pos rollover) (pos t)) is else is

-- Where a recording is fitted to its shortest stream. An infinite length, which only a presentation
-- of text alone has, fits nothing.
abbrev pub fitted : Number → References → References
fitted infinity rs = rs
fitted (fin d) rs = SegmentIndex.fit d rs

-- Without any stream there is nothing to shift.
abbrev pub start_or_zero : Number → ℤ
start_or_zero infinity = pos 0
start_or_zero (fin t) = t

abbrev pub shifted : ℤ → Number → StreamInfo → StreamInfo
shifted g l i = record i {
  stream = record i.stream { presentation_time_offset = g };
  segment_index = fitted l (SegmentIndex.offset (pos 0 -ℤ g) i.segment_index);
}

-- The window of a live presentation: the delay, or what the configuration says.
abbrev pub live_window : PresentationType → Option ℤ → PresentationTimeline → PresentationTimeline
live_window live none t = Timeline.set_segment_availability_duration (fin t.presentation_delay) t
live_window live (some w) t = Timeline.set_segment_availability_duration (fin w) t
live_window _ o t = t

pub record HlsManifest : Type 0 where
  pub presentation_timeline : PresentationTimeline
  pub period : HlsPeriod
  pub infos : List StreamInfo
  pub update_delay : Number

-- The manifest of a period, once its playlists are read.
unfoldable pub manifest_of :
    ℤ → ℕ → Option ℤ → Targets → List References → List StreamInfo → HlsPeriod → HlsManifest
manifest_of now rollover override d rss is p =
    let s = stamps_of is (record {
      first_start = infinity;
      last_start = pos 0;
      last_end = pos 0;
      min_duration = infinity;
    }) in
    let g = start_or_zero s.first_start in
    let t = create_presentation_timeline now d rss in
    if is_live d.presentation_type
    then record {
      presentation_timeline = live_window d.presentation_type override t;
      period = p;
      infos = compensate rollover s.last_start is;
      update_delay = d.min_target_duration;
    }
    else record {
      presentation_timeline = Timeline.offset (pos 0 -ℤ g) (Timeline.set_duration s.min_duration t);
      period = p;
      infos = map (shifted g s.min_duration) is;
      update_delay = fin (pos 0);
    }

abbrev pub infos_in : List (Text × StreamInfo) → List StreamInfo
infos_in [] = []
infos_in ((uri, i) ∷ is) = i ∷ infos_in is

-- `parseManifest_`, of the master playlist, where `create` is `createPeriod_`; the player may have
-- stopped the parser meanwhile.
unfoldable pub parse_manifest :
    ℤ → ℕ → Option ℤ → Bool → (List Tag → Outcome HlsPeriod) → Playlist → Outcome HlsManifest
parse_manifest now rollover override has_interface create p =
    if is_media p.playlist_type
    then fail hls_master_playlist_not_provided
    else create p.tags >>= λ period.
        let m = period.maps in
        if not has_interface
        then fail operation_aborted
        else if m.state.aes_encrypted && is_empty period.variants
        then fail hls_aes_128_encryption_not_supported
        else done (
            manifest_of now rollover override m.state.targets m.state.segments_to_notify
              (infos_in m.by_uri) period)

-- `setPresentationType_`, on the timeline and on whether the timer of updates runs.
unfoldable pub set_presentation_type :
    PresentationType → Bool → PresentationTimeline → PresentationTimeline × Bool
set_presentation_type k runs t = (Timeline.set_static (not (is_live k)) t, runs && is_live k)

-- What an update of one stream leaves: the stream, the timeline, whether the timer runs, and the
-- type of the presentation.
pub record Updated : Type 0 where
  pub info : StreamInfo
  pub timeline : PresentationTimeline
  pub timer_runs : Bool
  pub presentation_type : PresentationType

abbrev pub ended : References → Updated → Updated
ended [] u = u
ended (r ∷ rs) u = record u {
  timeline =
      Timeline.set_duration (fin (end_of r rs))
        (set_presentation_type vod u.timer_runs u.timeline).0;
  timer_runs = (set_presentation_type vod u.timer_runs u.timeline).1;
  presentation_type = vod;
}

-- `SegmentIndex.replace` takes the new list for the old one.
abbrev pub replaced : Playlist → References → Updated → Updated
replaced p rs u =
    let new = record u { info = record u.info { segment_index = rs } } in
    if is_some (get_first_tag_with_name p.tags (text_of "EXT-X-ENDLIST")) then ended rs new else new

-- `updateStream_`, with the playlist that was fetched; `create` is `createSegments_`, from the number
-- of the media sequence on.
unfoldable pub update_stream :
    ℤ → (Text → ℕ) → (Playlist → ℕ → Outcome References) → Playlist → Updated → Outcome Updated
update_stream now integer create p u =
    if not (is_media p.playlist_type)
    then fail hls_invalid_playlist_hierarchy
    else create p
        (position_of integer (get_first_tag_with_name p.tags (text_of "EXT-X-MEDIA-SEQUENCE")))
      >>= λ rs. done (
          replaced p rs
            (record u { timeline = Timeline.notify_segments now rs (pos 0) u.timeline }))

-- `onUpdate_`, when the update has ended well or with an error: when the timer ticks next, and whether
-- the error is told.
unfoldable pub after_update : Bool → Bool → Number → Option Number × Bool
after_update has_interface true delay = (some delay, false)
after_update true false delay = (some (fin (pos 100000)), true)
after_update false false delay = (none, false)
