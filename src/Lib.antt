-- ===== src/Lib.antt =====
-- Shaka Player Embedded runs Shaka Player, a JavaScript media player, inside native applications.
-- This library models the JavaScript half: the debug build of the player that the repository
-- ships, shaka/js/shaka-player.compiled.debug.js, and proves what its components promise. Names
-- and line breaks of that file are the build's; the models keep its class, method and field names
-- in snake_case.
--
-- A JavaScript object is a record, a method a function that returns the new record, null an
-- Option. Times, which the program keeps as floating point seconds, are integers of microseconds,
-- or of the unit that a file names at its top, so sums and comparisons are exact and rounding is
-- not modelled; Infinity is a constructor of its own (Base/Int). NaN occurs only as the first
-- value of a statistic, where it is an Option. What the clock answers is an argument. Calls of the
-- logger and of goog.asserts.assert, which only writes to the console, are left out. Loops are
-- structural recursions on the list that they walk, and need no fuel, but for those that skip a
-- part of their input: over the boxes of an MP4 file, the elements of a WebM file, the
-- placeholders of a template, the attributes of an HLS tag, the packets of a transport stream and the
-- records of a PlayReady object. These run on fuel, one unit for each byte or code unit that is left,
-- and take one at least in each step. The loop over the bits of a channel mask has 31 units, one for
-- each bit but the sign. A request runs on its attempts.
--
-- The parts, and the files that model them:
--
-- - Media/SegmentIndex: classes SegmentReference and SegmentIndex, the list of a stream's segments
--   with find, get, offset, merge, replace, evict, fit and destroy. SegmentIndex/Merge has the
--   invariant and the laws of merge, Find those of find and get, Trim those of offset and evict,
--   Fit those of fit, and Session the states that any sequence of calls reaches.
-- - Media/Timeline: class PresentationTimeline, which learns from the segments (notifySegments)
--   and answers with the seek range and the availability window. Timeline/Segments has the laws of
--   notifySegments, Timeline/Window those of the ranges.
-- - Media/Tests: the theorems of Media at concrete inputs.
-- - Streams/Types, Codecs, Locale: the objects of a manifest, MimeUtils and LanguageUtils. Texts
--   are lists of code units (Base/Texts); Locale/Closest has the laws of findClosestLocale.
-- - Streams/Restrictions, Tracks, Selection: the parts of StreamUtils. Streams/Adaptation: class
--   AdaptationSet and its criteria, with the laws of a set in Adaptation/Set. Streams/Bandwidth
--   and Abr: the estimator, over the numbers of JavaScript as a parameter, and SimpleAbrManager,
--   with the laws of its choice in Abr/Choice. Streams/Drm: what audio and video are both protected by.
-- - Streams/Tests: the theorems of Streams at concrete inputs.
-- - Playback/Ranges: namespace TimeRangesUtils, which reads the buffered ranges of a media
--   element.
-- - Playback/Buffering, Stall, Gap, Rate and Regions: classes BufferingObserver, StallDetector
--   with its MediaElementImplementation, GapJumpingController, PlayRateController, and
--   RegionTimeline with RegionObserver. Gap/Safety has the laws of a poll that jumps,
--   Regions/Distinct those of adding and filtering regions. A poll takes what the media element,
--   the clock and the listeners answer as a record of readings.
-- - Playback/Periods: namespace Periods and class PeriodObserver.
-- - Playback/Tests: the theorems of Playback at concrete inputs.
-- - Util/History: classes StateHistory, SwitchHistory and Stats. History/Spans has the laws of the
--   entries of a state history, History/Times those of the statistics.
-- - Util/Errors: class Error with its tables. Util/Backoff: class Backoff, in whole milliseconds,
--   thousandths and whole factors, so that what it computes is exact.
-- - Util/MultiMap: class MultiMap, as a list of keys with their values. Util/Log: which loggers
--   write. Util/Timer: classes Timer and DelayedTick. Util/Events: FakeEvent, FakeEventTarget and
--   EventManager. Util/Arrays: ArrayUtils, Iterables and the message of FairPlayUtils.
-- - Util/Tests: the theorems of Util at concrete inputs.
-- - Binary/Reader: class DataViewReader; an exception is a value of Result. Binary/Mp4: class
--   Mp4Parser, with the client's handlers as a parameter and the loop over boxes on fuel. The fuel
--   is one step for each byte that is left, since a box has at least eight. Mp4/Loop has the laws
--   of the loop, Mp4/Stuck is about headers that give the size 0.
-- - Binary/Sidx: the "sidx" box. Binary/Pssh: class Pssh. Binary/Bytes and Utf16: Uint8ArrayUtils
--   and StringUtils. Binary/Ebml: classes EbmlParser and EbmlElement, with the bound on numbers in
--   Ebml/Bounds and the progress of the reader in Ebml/Progress. Binary/Webm: class
--   WebmSegmentIndexParser; its loops have one unit of fuel for each byte, which Webm/Total shows
--   to be enough.
-- - Binary/Samples: readInt32, the boxes that list samples, and the names of boxes.
-- - Binary/Tests: the theorems of Binary at concrete inputs.
-- - Dash/Xml: namespace XmlUtils, with the DOM as a parameter. Dash/Mpd and Template: namespace
--   MpdUtils, with the laws of a timeline in Mpd/Contiguous. Dash/SegmentList, SegmentTemplate and
--   SegmentBase: the namespaces of these names, with what they share in Dash/Segments and segments
--   of one duration in SegmentTemplate/Duration.
-- - Dash/Protection: namespace ContentProtection, with its elements in Protection/Elements.
-- - Dash/Parsing, Frames, Channels, Representations, AdaptationSets, Variants, Periods, Timing and
--   Manifest: class DashParser, over the DOM, goog.Uri and the numbers of the browser (Platform). A
--   frame is what an element inherits; an adaptation set has its representations, a period its sets
--   and their variants, and the manifest its periods and the timeline. Channels has the loop over the
--   bits of a channel mask, which may not end: that is the error never_ends. The network is left to
--   arguments, and createStream of the sources of segments is a parameter.
-- - Dash/Tests: the theorems of Dash at concrete inputs.
-- - Hls/Tags and Playlist: the tags and the text of a playlist.
-- - Hls/Required, Codecs, Segments, Keys and Streams: what class HlsParser makes of a media playlist,
--   its segments with their laws in Segments/Valid. Hls/Variants and Period: the variants and the
--   period of a master playlist. Hls/Manifest: the manifest, and its updates. Hls/TransportStream: the
--   start time of a transport stream, whose loop has one unit of fuel for each byte, which
--   TransportStream/Ends shows to be enough. Hls/Tests: a tag, a playlist, its segments and a packet at
--   concrete inputs.
-- - Captions/Cue: classes Cue and CueRegion. Captions/Settings, Vtt and Regions: class
--   VttTextParser. Captions/Engine and Displayer: classes TextEngine and SimpleTextDisplayer.
--   Captions/Tests: a cue as a test, and the theorem at a concrete input.
-- - Net/Requests: class NetworkingEngine, with the replies of the network as a parameter; the
--   attempts that the backoff allows are the fuel of a request. Net/DataUri: DataUriPlugin.
--   Net/Tests: a request at a concrete input.
-- - Streaming/State, Needed, Update, Fetch, Switch, Setup and Transition: class StreamingEngine.
--   The manifest, the configuration and what the player, the timeline and the media source answer
--   are a parameter, the world; a call that asks them for something is an effect, and what a
--   promise brings is an operation of its own. Streaming/Events has the sequences of operations,
--   Streaming/Calm that no buffer is cleared while a segment is fetched. Streaming/Tests: the
--   theorems at concrete inputs.
-- - Base: the shared helpers: tests on numbers, lists, integers and infinity.
--
-- The repository ships the same player a second time, as a minified build without asserts and logging
-- (shaka/js/shaka-player.compiled.js). Its functions are those of the debug build under short names, and
-- the definitions are models of both: what is said of the debug build holds of it too. No component is
-- modelled from it alone.
--
-- Not modelled: the vendored Jasmine, the JavaScript tests of the bindings, and the native C++ and Objective-C code,
-- which is in other languages. Of the debug build: browser glue (DRM, Cast, media source, polyfills);
-- goog.Uri, a copy of a file of the Closure library; TTML and captions in MP4 files, which build DOM
-- output; classes Player, Walker, OperationManager and offline storage, which chain promises over the
-- other parts; and in the parsers of HLS and DASH the requests themselves and createStream of the
-- sources of segments.
mod Base
pub mod Media
pub mod Streams
pub mod Playback
pub mod Util
pub mod Binary
pub mod Dash
pub mod Hls
pub mod Captions
pub mod Net
pub mod Streaming
