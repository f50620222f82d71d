-- ===== src/Streaming/Tests.antt =====
-- The theorems about class `StreamingEngine` at concrete inputs: one period with a video and an audio
-- stream of segments of five seconds.
use shaka_player_embedded.Base.{
  ℕ, ◌*◌, ◌+◌, ◌/◌, false, ◌==◌, Option, none, some, List, [], ◌∷◌, if◌then◌else◌, ℤ, pos, pos_part,
  fin,
}
use shaka_player_embedded.Media.SegmentIndex.{SegmentReference}
use shaka_player_embedded.Streams.Types.{ContentType, audio, video}
use shaka_player_embedded.Streaming.State.{Stream, World, MediaState, create_media_state}
use shaka_player_embedded.Streaming.Events.{Event, streams_set_ups, updates, seeks}

abbrev segment : ℕ → SegmentReference
segment p = record {
  position = p;
  start_time = pos (p * 5000000);
  end_time = pos (p * 5000000 + 5000000);
  uris = [];
  start_byte = 0;
  end_byte = none;
}

abbrev stream_of : ContentType → Stream
stream_of k = record {
  content_type = k;
  is_captions = false;
  trick_mode = none;
  bandwidth = some 1000000;
  init_size = none;
  presentation_time_offset = pos 0;
  find_position = λ t. some (pos_part t / 5000000);
  get_reference = λ p. some (segment p);
}

-- The world at a time, where the media source holds what `start` says.
abbrev world_at : ℤ → (ContentType → Option ℤ) → World
world_at t start = record {
  streams = λ s. if s == 0 then stream_of audio else stream_of video;
  periods =
      record {
        start_time = pos 0;
        variants = record { audio_stream = some 0; video_stream = some 1 } ∷ [];
        text_streams = [];
      }
      ∷ [];
  min_buffer_time = 2000000;
  rebuffering_goal = 2000000;
  buffering_goal = 10000000;
  buffer_behind = pos 30000000;
  ignores_text_failures = false;
  always_streams_text = false;
  time = t;
  duration = fin (pos 60000000);
  max_segment_duration = pos 5000000;
  availability_start = pos 0;
  availability_end = pos 60000000;
  buffer_start = start;
  buffer_end = λ k. none;
  buffered_ahead = λ k. 0;
  is_buffered = λ k. false;
  bandwidth_estimate = 1000000;
  bytes_remaining = λ k. 0;
  media_duration = pos 60000000;
}

abbrev beginning : World
beginning = world_at (pos 0) (λ k. none)

abbrev after_a_while : World
after_a_while = world_at (pos 42000000) (λ k. some (pos 0))

abbrev waiting_video : MediaState
waiting_video = create_media_state beginning 1 0 (pos 0)

-- The streams are set up, the video is fetched, and the viewer seeks while it is.
abbrev seek_in_fetch : List Event
seek_in_fetch =
    streams_set_ups beginning 0 (pos 0) (0 ∷ 1 ∷ [])
    ∷ updates beginning video
    ∷ seeks after_a_while
    ∷ []
