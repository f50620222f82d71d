-- ===== src/Binary/Sidx.antt =====
-- `Mp4SegmentIndexParser` (shaka/js/shaka-player.compiled.debug.js): the segments that a "sidx" box
-- lists. Times are in ticks of the box's timescale, since a quotient of doubles is not exact; the
-- presentation time offset, which the code subtracts in seconds, is an argument in ticks.
pub mod Layout
use shaka_player_embedded.Base.{
  ℕ, zero, suc, ◌+◌, ◌-◌, ◌*◌, ◌/◌, ◌%◌, ◌==◌, Bool, true, false, Option, none, some, List, [], ◌∷◌,
  ◌++◌, length, if◌then◌else◌, ℤ, pos, ◌-ℤ◌, Text,
}
use shaka_player_embedded.Binary.Reader.{
  Reader, Result, ok, throw, and_then, ◌>>=◌, fail_if, read_uint, read_uint32, read_uint64, skip,
  mp4_sidx_invalid_timescale, mp4_sidx_type_not_supported, mp4_sidx_wrong_box_type,
}
use shaka_player_embedded.Binary.Mp4.{Box}

pub record Entry : Type 0 where
  pub position : ℕ
  pub start_ticks : ℤ
  pub end_ticks : ℤ
  pub start_byte : ℕ
  pub end_byte : ℕ

-- A reference of the box: whether it is to another index, its size, and its duration in ticks.
pub record Item : Type 0 where
  pub is_index : Bool
  pub size : ℕ
  pub duration : ℕ

unfoldable pub read_item : Reader → Result (Item × Reader)
read_item r = do
  (l, r1) ← read_uint32 r
  (n, r2) ← read_uint32 r1
  r3 ← skip 4 r2
  ok (record { is_index = l / 2147483648 == 1; size = l % 2147483648; duration = n }, r3)

abbrev pub entry : ℕ → ℕ → ℕ → ℕ → Item → Entry
entry offset position ticks byte i = record {
  position = position;
  start_ticks = pos ticks -ℤ pos offset;
  end_ticks = pos (ticks + i.duration) -ℤ pos offset;
  start_byte = byte;
  end_byte = byte + i.size - 1;
}

-- The loop, for the items that are left: `ticks` and `byte` are where the next segment starts.
unfoldable pub read_entries : ℕ → ℕ → ℕ → ℕ → ℕ → Reader → Result (List Entry)
read_entries zero offset position ticks byte r = ok []
read_entries (suc k) offset position ticks byte r = do
  (i, r1) ← read_item r
  fail_if i.is_index mp4_sidx_type_not_supported (do
    es ← read_entries k offset (suc position) (ticks + i.duration) (byte + i.size) r1
    ok (entry offset position ticks byte i ∷ es))

abbrev pub read_start : ℕ → Reader → Result ((ℕ × ℕ) × Reader)
read_start zero r = do (g, r1) ← read_uint32 r; (h, r2) ← read_uint32 r1; ok ((g, h), r2)
read_start (suc v) r = do (g, r1) ← read_uint64 r; (h, r2) ← read_uint64 r1; ok ((g, h), r2)

abbrev pub version_of : Option ℕ → ℕ
version_of none = 0
version_of (some v) = v

-- `parseSIDX_(sidxOffset, presentationTimeOffset, uris, box)`: the timescale and the entries.
unfoldable pub parse_sidx : ℕ → ℕ → Box → Result (ℕ × List Entry)
parse_sidx sidx_offset offset box = do
  r0 ← skip 4 box.reader
  (timescale, r1) ← read_uint32 r0
  fail_if (timescale == 0) mp4_sidx_invalid_timescale (do
    (start, r2) ← read_start (version_of box.version) r1
    r3 ← skip 2 r2
    (k, r4) ← read_uint 2 r3
    es ← read_entries k offset 0 start.0 (sidx_offset + box.size + start.1) r4
    ok (timescale, es))

-- `Mp4SegmentIndexParser`: what the handler of "sidx" has left, or an error.
unfoldable pub sidx_result {ℓ} : {A : Type ℓ} → Option A → Result A
sidx_result none = throw mp4_sidx_wrong_box_type
sidx_result (some a) = ok a
