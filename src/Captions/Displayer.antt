-- ===== src/Captions/Displayer.antt =====
-- Class `SimpleTextDisplayer` (shaka/js/shaka-player.compiled.debug.js), over the cues of a text track.
-- Cues inside cues are not modelled, and the order in which the new cues are added is a parameter.
use shaka_player_embedded.Base.{
  Bool, true, false, ◌&&◌, Option, none, some, List, [], ◌∷◌, ◌++◌, any, if◌then◌else◌, ℤ, ltb_ℤ,
  leb_ℤ, ◌==ℤ◌, same_text,
}
use shaka_player_embedded.Captions.Cue.{Cue}

-- `removeWhere_`: the loop runs from the last cue to the first; the mode of the track is as before.
unfoldable pub remove_where : (Cue → Bool) → List Cue → List Cue
remove_where p [] = []
remove_where p (c ∷ cs) = let rest = remove_where p cs in if p c then rest else c ∷ rest

abbrev pub overlaps : ℤ → ℤ → Cue → Bool
overlaps a b c = ltb_ℤ c.start_time b && ltb_ℤ a c.end_time

-- `remove(start, end)`; null is a displayer that has been destroyed.
unfoldable pub remove : ℤ → ℤ → Option (List Cue) → Bool × Option (List Cue)
remove a b none = (false, none)
remove a b (some cs) = (true, some (remove_where (overlaps a b) cs))

abbrev pub same_cue : Cue → Cue → Bool
same_cue c d =
    d.start_time ==ℤ c.start_time && d.end_time ==ℤ c.end_time && same_text d.payload c.payload

-- `convertToTextTrackCue_`, which gives null for a cue that does not end after its start.
unfoldable pub convert_to_text_track_cue : Cue → Option Cue
convert_to_text_track_cue c = if leb_ℤ c.end_time c.start_time then none else some c

abbrev pub pushed : Option Cue → List Cue → List Cue
pushed none cs = cs
pushed (some c) cs = c ∷ cs

-- The cues that are not displayed yet.
unfoldable pub new_cues : List Cue → List Cue → List Cue
new_cues shown [] = []
new_cues shown (c ∷ cs) =
    let rest = new_cues shown cs in
    if any (same_cue c) shown then rest else pushed (convert_to_text_track_cue c) rest

unfoldable pub append : (List Cue → List Cue) → List Cue → List Cue → List Cue
append sort shown cs = shown ++ sort (new_cues shown cs)

unfoldable pub destroy : Option (List Cue) → Option (List Cue)
destroy cs = none

-- The mode of the track.
pub data Mode : Type 0 where
  showing hidden disabled : Mode

unfoldable pub set_text_visibility : Bool → Mode
set_text_visibility on = if on then showing else hidden

unfoldable pub is_text_visible : Mode → Bool
is_text_visible showing = true
is_text_visible _ = false
