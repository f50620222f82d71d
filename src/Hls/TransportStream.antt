-- ===== src/Hls/TransportStream.antt =====
-- `getStartTimeFromTsSegment_` of class `HlsParser` (shaka/js/shaka-player.compiled.debug.js): the start time
-- of a segment that is a transport stream, in ticks of 1/90000 second.
pub mod Ends
use shaka_player_embedded.Base.{
  ℕ, zero, suc, ◌+◌, ◌-◌, ◌*◌, ◌/◌, ◌%◌, ◌≤◌, ◌<◌, ◌≡◌, ◌≢◌, refl, ◌==◌, Bool, true, false, not,
  ◌&&◌, ◌||◌, Option, none, some, List, length, if◌then◌else◌, arith, Bool-cases,
}
use shaka_player_embedded.Binary.Reader.{
  Reader, Result, ReadError, ok, throw, and_then, and_then-ok, new, bytes_at, read_uint,
  read_uint32, rewind, seek, skip,
}

-- What one packet comes to: the time, the reader at the next packet, or the error
-- HLS_COULD_NOT_PARSE_SEGMENT_START_TIME.
pub data Packet : Type 0 where
  time : ℕ → Packet
  next : Reader → Packet
  unparsable : Packet

abbrev pub sync_byte : ℕ
sync_byte = 71

-- The reader at a position, if a packet may start there.
unfoldable pub sync_at : ℕ → Reader → Result (Option Reader)
sync_at p r = and_then (seek p r) (λ r1.
    and_then (read_uint 1 r1)
      (λ x. if x.0 == sync_byte then and_then (rewind 1 x.1) (λ r2. ok (some r2)) else ok none))

abbrev pub or_sync : Result (Option Reader) → Option Reader → Result (Option Reader)
or_sync rest none = rest
or_sync rest (some r) = ok (some r)

abbrev pub packet_at : Option Reader → Packet
packet_at none = unparsable
packet_at (some r) = next r

-- To the next packet behind the one at `f`, which has 188, 192 or 204 bytes.
unfoldable pub sync_next : ℕ → Reader → Result Packet
sync_next f r = and_then (sync_at (f + 188) r) (λ a.
    and_then (or_sync (sync_at (f + 192) r) a)
      (λ b. and_then (or_sync (sync_at (f + 204) r) b) (λ c. ok (packet_at c))))

-- The parts of a time stamp of 33 bits.
abbrev pub time_of : ℕ → ℕ → ℕ → ℕ
time_of c h k = 1073741824 * (c / 2 % 8) + (h - h % 2) * 16384 + k / 2

-- The time stamp of a packet that starts an elementary stream.
unfoldable pub read_time : Reader → Result Packet
read_time r = and_then (skip 3 r) (λ r1. and_then (read_uint 1 r1) (λ flags.
    if flags.0 / 64 == 0 || flags.0 / 64 == 1
    then ok unparsable
    else and_then (read_uint 1 flags.1) (λ size.
      if size.0 == 0
      then ok unparsable
      else and_then (read_uint 1 size.1) (λ c.
        and_then (read_uint 2 c.1)
          (λ h. and_then (read_uint 2 h.1) (λ k. ok (time (time_of c.0 h.0 k.0))))))))

-- The reader behind the adaptation field, if there is one.
abbrev pub skip_field : Bool → Reader → Result Reader
skip_field false r = ok r
skip_field true r = and_then (read_uint 1 r) (λ x. skip x.0 x.1)

unfoldable pub read_start : ℕ → Reader → Result Packet
read_start f r = and_then (read_uint 1 r) (λ field.
    if field.0 / 16 % 4 == 0 || field.0 / 16 % 4 == 2
    then ok unparsable
    else and_then (skip_field (field.0 / 16 % 4 == 3) field.1) (λ r2.
      and_then (read_uint32 r2)
        (λ code. if code.0 / 256 == 1 then read_time code.1 else sync_next f code.1)))

-- One round of the loop: a packet of padding, one that starts an elementary stream, or another.
unfoldable pub read_packet : Reader → Result Packet
read_packet r = and_then (read_uint 1 r) (λ g.
    if not (g.0 == sync_byte)
    then ok unparsable
    else and_then (read_uint 2 g.1) (λ h.
      if h.0 % 8192 == 8191
      then sync_next r.position h.1
      else if h.0 / 16384 % 2 == 1
      then read_start r.position h.1
      else sync_next r.position h.1))

pub data StartTime : Type 0 where
  starts_at : ℕ → StartTime
  not_found : StartTime
  read_fails : ReadError → StartTime
  -- No outcome of the code: the fuel has run out.
  running : StartTime

abbrev pub after_with : (Reader → StartTime) → Result Packet → StartTime
after_with walk (throw e) = read_fails e
after_with walk (ok (time t)) = starts_at t
after_with walk (ok unparsable) = not_found
after_with walk (ok (next r)) = walk r

-- The loop, on fuel.
unfoldable pub walk_packets : ℕ → Reader → StartTime
walk_packets zero r = running
walk_packets (suc fuel) r = after_with (walk_packets fuel) (read_packet r)

unfoldable pub get_start_time_from_ts_segment : List ℕ → StartTime
get_start_time_from_ts_segment bs = walk_packets (suc (length bs)) (new bs false)
