-- ===== src/Util/Tests.antt =====
-- The theorems about the utilities at concrete inputs.
use shaka_player_embedded.Base.{◌≡◌, refl, inl, inr, false, none, some, List, [], ◌∷◌, pos, ◌+ℤ◌}
use shaka_player_embedded.Util.History
use shaka_player_embedded.Util.History.{
  Stats, StateHistory, get_blob, get_copy, get_time_spent_in, start,
}
use shaka_player_embedded.Util.History.Spans.{Update, Spans, run, run-Spans}
use shaka_player_embedded.Util.History.Times.{get_blob_times}
use shaka_player_embedded.Util.MultiMap.{MultiMap}
use shaka_player_embedded.Util.Backoff
use shaka_player_embedded.Util.Backoff.{Parameters, expected, run-expected}

abbrev first : Update
first = record { now = pos 2; state = "buffering" }

abbrev following : List Update
following =
    record { now = pos 5; state = "playing" }
    ∷ record { now = pos 9; state = "paused" }
    ∷ record { now = pos 12; state = "playing" }
    ∷ []

run-Spans_example : Spans (pos 2) (get_copy (run (first ∷ following) History.new)) (pos 12)
run-Spans_example = run-Spans first following

abbrev stats : Stats
stats = record {
  width = none;
  height = none;
  total_dropped_frames = none;
  total_decoded_frames = none;
  total_corrupted_frames = none;
  load_latency_seconds = none;
  license_time_seconds = none;
  variant_bandwidth = none;
  bandwidth_estimate = none;
  state_history = run (first ∷ following) History.new;
  switch_history = record { current_variant = none; current_text = none; history = [] };
}

get_blob_times_example :
    pos 2
      +ℤ ((get_blob stats).play_time
          +ℤ (get_blob stats).pause_time
          +ℤ (get_blob stats).buffering_time)
    ≡ pos 12
get_blob_times_example =
    get_blob_times first following stats
      (inr (inr refl), (inl refl, (inr (inl refl), (inl refl, tt)))) refl

abbrev playing : StateHistory
playing = record { opened = some (start (pos 3) "playing"); closed = [] }

abbrev parameters : Parameters
parameters = record {
  max_attempts = some 4;
  base_delay = none;
  backoff_factor = none;
  fuzz_factor = none;
}

run-expected_example :
    Backoff.run (500 ∷ 0 ∷ 999 ∷ 500 ∷ 500 ∷ []) (Backoff.new parameters false)
    ≡ expected (Backoff.new parameters false) 0 (500 ∷ 0 ∷ 999 ∷ 500 ∷ 500 ∷ [])
run-expected_example = run-expected parameters (500 ∷ 0 ∷ 999 ∷ 500 ∷ 500 ∷ [])

abbrev listeners : MultiMap
listeners = ("error", 1 ∷ 2 ∷ 1 ∷ []) ∷ ("loading", 3 ∷ []) ∷ []
