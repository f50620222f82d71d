-- ===== src/Captions/Settings.antt =====
-- The settings of a cue in class `VttTextParser` (shaka/js/shaka-player.compiled.debug.js).
use shaka_player_embedded.Base.{
  ℕ, ◌==◌, Bool, true, false, not, ◌&&◌, ◌||◌, Option, none, some, List, [], ◌∷◌, ◌++◌, find_first,
  if◌then◌else◌, Text, text_of, same_text, is_empty,
}
use shaka_player_embedded.Dash.Template.{strip_prefix}
use shaka_player_embedded.Dash.Xml.{digits, points}
use shaka_player_embedded.Captions.Cue.{
  Cue, CueRegion, LineAlign, PositionAlign, TextAlign, line_left, line_right, center, align_left,
  align_right, align_center, align_start, align_end, line_center, line_start, line_end, vertical_lr,
  vertical_rl, line_number, percentage,
}

-- A value among some words.
abbrev pub word_in {ℓ} : {A : Type ℓ} → List (Text × A) → Text → Option A
word_in [] s = none
word_in ((w, a) ∷ ws) s = let rest = word_in ws s in if same_text w s then some a else rest

abbrev pub text_aligns : List (Text × TextAlign)
text_aligns =
    (text_of "start", align_start)
    ∷ (text_of "middle", align_center)
    ∷ (text_of "center", align_center)
    ∷ (text_of "end", align_end)
    ∷ (text_of "left", align_left)
    ∷ (text_of "right", align_right)
    ∷ []

abbrev pub position_aligns : List (Text × PositionAlign)
position_aligns =
    (text_of "line-left", line_left)
    ∷ (text_of "line-right", line_right)
    ∷ (text_of "center", center)
    ∷ (text_of "start", line_left)
    ∷ (text_of "end", line_right)
    ∷ []

abbrev pub line_aligns : List (Text × LineAlign)
line_aligns =
    (text_of "start", line_start) ∷ (text_of "center", line_center) ∷ (text_of "end", line_end) ∷ []

-- `setTextAlign_`
unfoldable pub set_text_align : Text → Cue → Option Cue
set_text_align s c = elim (word_in text_aligns s) [
  | none ↦ none
  | some a ↦ some (record c { text_align = a })
]

-- `setVerticalWritingMode_`
unfoldable pub set_vertical_writing_mode : Text → Cue → Option Cue
set_vertical_writing_mode s c =
    if same_text s (text_of "lr")
    then some (record c { writing_mode = vertical_lr })
    else if same_text s (text_of "rl")
    then some (record c { writing_mode = vertical_rl })
    else none

-- `([\d.]+)%`, and what is behind it.
abbrev pub percent_end : Text → Text → Option (Text × Text)
percent_end n [] = none
percent_end n (c ∷ s) = if c == b'%' && not (is_empty n) then some (n, s) else none

unfoldable pub percent : Text → Option (Text × Text)
percent s = let p = points s in percent_end p.0 p.1

-- An alignment behind a comma, if there is one: `(?:,(...))?$`.
abbrev pub aligned {ℓ} : {A : Type ℓ} → List (Text × A) → A → Text → Option A
aligned words default [] = some default
aligned words default (c ∷ s) = let a = word_in words s in if c == b',' then a else none

unfoldable pub set_size : Text → Cue → Option Cue
set_size s c = elim (percent s) [
  | some (n, []) ↦ some (record c { size = n })
  | some (n, d ∷ t) ↦ none
  | none ↦ none
]

-- The position, and `setPositionAlign_`.
unfoldable pub set_position : Text → Cue → Option Cue
set_position s c = elim (percent s) [
  | none ↦ none
  | some (n, t) ↦ elim (aligned position_aligns c.position_align t) [
    | none ↦ none
    | some a ↦ some (record c { position = some n; position_align = a })
  ]
]

-- `getRegionById_`; an unknown region is ignored.
unfoldable pub get_region_by_id : List CueRegion → Text → Option CueRegion
get_region_by_id rs id = find_first (λ r. same_text r.id id) rs

unfoldable pub set_region : List CueRegion → Text → Cue → Option Cue
set_region rs s c = elim (get_region_by_id rs s) [
  | none ↦ some c
  | some r ↦ some (record c { region = r })
]

-- `(-?\d+)`, and what is behind it.
abbrev pub some_digits : Text → Text × Text → Option (Text × Text)
some_digits sign ([], s) = none
some_digits sign (d ∷ ds, s) = some (sign ++ (d ∷ ds), s)

abbrev pub integer : Text → Option (Text × Text)
integer [] = none
integer (c ∷ s) =
    if c == b'-' then some_digits (b'-' ∷ []) (digits s) else some_digits [] (digits (c ∷ s))

abbrev pub line_by_number : Text → Cue → Option Cue
line_by_number s c = elim (integer s) [
  | none ↦ none
  | some (n, t) ↦ elim (aligned line_aligns c.line_align t) [
    | none ↦ none
    | some a ↦ some (record c { line_interpretation = line_number; line = some n; line_align = a })
  ]
]

-- `parsedLineValueAndInterpretation_`, behind `line:`.
unfoldable pub set_line : Text → Cue → Option Cue
set_line s c = elim (percent s) [
  | none ↦ line_by_number s c
  | some (n, t) ↦ elim (aligned line_aligns c.line_align t) [
    | none ↦ none
    | some a ↦ some (record c { line_interpretation = percentage; line = some n; line_align = a })
  ]
]

abbrev pub or_else : Option Cue → Option Cue → Option Cue
or_else none d = d
or_else (some c) d = some c

abbrev pub behind : Text → (Text → Cue → Option Cue) → Text → Cue → Option Cue
behind prefix set s c = elim (strip_prefix prefix s) [ none ↦ none | some t ↦ set t c ]

-- `parseCueSetting`: null where the code answers false.
unfoldable pub parse_cue_setting : List CueRegion → Text → Cue → Option Cue
parse_cue_setting rs s c = or_else (behind (text_of "align:") set_text_align s c) (
    or_else (behind (text_of "vertical:") set_vertical_writing_mode s c) (
      or_else (behind (text_of "size:") set_size s c) (
        or_else (behind (text_of "position:") set_position s c) (
          or_else (behind (text_of "region:") (set_region rs) s c)
            (behind (text_of "line:") set_line s c)))))

abbrev pub is_blank : ℕ → Bool
is_blank c = c == 32 || c == 9

abbrev pub add_word : Text → List Text → List Text
add_word [] ws = ws
add_word (c ∷ w) ws = (c ∷ w) ∷ ws

-- The words of a line: `skipWhitespace` and `readWord` in turn.
unfoldable pub words_from : Text → Text → List Text
words_from w [] = add_word w []
words_from w (c ∷ s) = elim (is_blank c) [
  | true ↦ add_word w (words_from [] s)
  | false ↦ words_from (w ++ (c ∷ [])) s
]

-- The settings of a cue; one that is not valid is passed over.
unfoldable pub apply_settings : List CueRegion → List Text → Cue → Cue
apply_settings rs [] c = c
apply_settings rs (w ∷ ws) c = elim (parse_cue_setting rs w c) [
  | none ↦ apply_settings rs ws c
  | some d ↦ apply_settings rs ws d
]
