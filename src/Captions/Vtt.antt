-- ===== src/Captions/Vtt.antt =====
-- The cues of class `VttTextParser` (shaka/js/shaka-player.compiled.debug.js). Times are in milliseconds.
use shaka_player_embedded.Base.{
  ℕ, zero, suc, ◌+◌, ◌-◌, ◌*◌, ◌==◌, ltb, Bool, true, false, not, ◌&&◌, ◌||◌, Option, none, some,
  List, [], ◌∷◌, length, if◌then◌else◌, ℤ, pos, ◌+ℤ◌, Text, text_of, same_text, is_empty, join,
}
use shaka_player_embedded.Dash.Template.{strip_prefix}
use shaka_player_embedded.Dash.Xml.{decimal, digits, is_digit}
use shaka_player_embedded.Captions.Cue.{Cue, CueRegion, new_cue}
use shaka_player_embedded.Captions.Settings.{is_blank, words_from, apply_settings}

-- `k` digits, and the separator behind them, if one is asked for.
unfoldable pub take_digits : ℕ → ℕ → Text → Option (ℕ × Text)
take_digits zero n s = some (n, s)
take_digits (suc k) n [] = none
take_digits (suc k) n (c ∷ s) =
    let rest = take_digits k (n * 10 + (c - b'0')) s in if is_digit c then rest else none

unfoldable pub expect : ℕ → Text → Option Text
expect d [] = none
expect d (c ∷ s) = if c == d then some s else none

abbrev pub in_range : ℕ → ℕ → ℕ → ℕ → Option ℕ
in_range h m s ms =
    if ltb 59 m || ltb 59 s then none else some (ms + 1000 * s + 60000 * m + 3600000 * h)

-- `(\d{2}):(\d{2})\.(\d{3})`, for the hours before it: the time, null when a part is above 59.
unfoldable pub minutes_on : ℕ → Text → Option (Option ℕ × Text)
minutes_on h s = elim (take_digits 2 0 s) [
  | none ↦ none
  | some (m, s1) ↦ elim (expect b':' s1) [
    | none ↦ none
    | some s2 ↦ elim (take_digits 2 0 s2) [
      | none ↦ none
      | some (sec, s3) ↦ elim (expect b'.' s3) [
        | none ↦ none
        | some s4 ↦ elim (take_digits 3 0 s4) [
          | none ↦ none
          | some (ms, s5) ↦ some (in_range h m sec ms, s5)
        ]
      ]
    ]
  ]
]

abbrev pub or_without_hours : Text → Option (Option ℕ × Text) → Option (Option ℕ × Text)
or_without_hours s none = minutes_on 0 s
or_without_hours s (some r) = some r

-- `parseTime_` at the start of a text: the time, and what is behind it.
unfoldable pub parse_time : Text → Option (Option ℕ × Text)
parse_time s =
    let p = digits s in
    or_without_hours s (
      if is_empty p.0
      then none
      else elim (expect b':' p.1) [ none ↦ none | some t ↦ minutes_on (decimal 0 p.0) t ])

abbrev pub skip_blanks : Text → Text
skip_blanks [] = []
skip_blanks (c ∷ s) = let rest = skip_blanks s in if is_blank c then rest else c ∷ s

abbrev pub starts_blank : Text → Bool
starts_blank [] = false
starts_blank (c ∷ s) = is_blank c

-- `[ \t]+-->[ \t]+`
unfoldable pub arrow : Text → Option Text
arrow s =
    if not (starts_blank s) then none else elim (strip_prefix (text_of "-->") (skip_blanks s)) [
      | none ↦ none
      | some t ↦ if starts_blank t then some (skip_blanks t) else none
    ]

-- The times of a cue, and the settings behind them; null is the error INVALID_TEXT_CUE.
unfoldable pub parse_times : Text → Option ((ℕ × ℕ) × Text)
parse_times s = elim (parse_time s) [
  | some (some a, s1) ↦ elim (arrow s1) [
    | some s2 ↦ elim (parse_time s2) [
      | some (some b, s3) ↦ some ((a, b), s3)
      | some (none, s3) ↦ none
      | none ↦ none
    ]
    | none ↦ none
  ]
  | some (none, s1) ↦ none
  | none ↦ none
]

pub data Block : Type 0 where
  no_cue invalid_text_cue : Block
  cue : Cue → Block

unfoldable pub contains : Text → Text → Bool
contains w [] = is_empty w
contains w (c ∷ s) =
    let rest = contains w s in elim (strip_prefix w (c ∷ s)) [ none ↦ rest | some t ↦ true ]

-- `/^NOTE($|[ \t])/`
abbrev pub is_note_end : Option Text → Bool
is_note_end none = false
is_note_end (some []) = true
is_note_end (some (c ∷ s)) = is_blank c

abbrev pub is_no_cue : Text → List Text → Bool
is_no_cue l ls =
    is_empty l && length ls == 0
    || is_note_end (strip_prefix (text_of "NOTE") l)
    || same_text l (text_of "STYLE")

module _ (trim : Text → Text) where
  abbrev pub timed_cue : Text → ℤ → List CueRegion → Text → List Text → Block
  timed_cue id offset rs l ls = elim (parse_times l) [
    | none ↦ invalid_text_cue
    | some ((a, b), settings) ↦
        cue
          (record (apply_settings rs (words_from [] settings)
            (new_cue (pos a +ℤ offset) (pos b +ℤ offset) (trim (join (text_of "\n") ls)))) {
              id = id;
            })
  ]

  -- Without an arrow the first line is the id. A block of the id alone is a TypeError of the code,
  -- and an invalid cue here.
  abbrev pub block_of : Bool → ℤ → List CueRegion → Text → List Text → Block
  block_of true offset rs l ls = timed_cue [] offset rs l ls
  block_of false offset rs l [] = invalid_text_cue
  block_of false offset rs l (m ∷ ls) = timed_cue l offset rs m ls

  -- `parseCue_`, on the lines of a block.
  unfoldable pub parse_cue : ℤ → List CueRegion → List Text → Block
  parse_cue offset rs [] = no_cue
  parse_cue offset rs (l ∷ ls) =
      if is_no_cue l ls then no_cue else block_of (contains (text_of "-->") l) offset rs l ls
