-- ===== src/Playback/Gap/Safety.antt =====
-- What a poll of `GapJumpingController` may do to the playhead.
use shaka_player_embedded.Base.{Option, none, some}
use shaka_player_embedded.Playback.Ranges.{Range}
use shaka_player_embedded.Playback.Gap.{GapJumpingController, Effect, nothing}

abbrev Outcome : Type 0
Outcome = GapJumpingController × Effect

-- The rest of the poll, for the range that is looked up.
abbrev looked_up : Option Range → GapJumpingController → (Range → Outcome) → Outcome
looked_up o g k = elim o [ none ↦ (g, nothing) | some r ↦ k r ]
