-- ===== src/Captions/Regions.antt =====
-- The regions of class `VttTextParser` (shaka/js/shaka-player.compiled.debug.js).
use shaka_player_embedded.Base.{
  ℕ, ltb, true, not, ◌&&◌, ◌||◌, Option, none, some, List, [], ◌∷◌, length, drop, if◌then◌else◌,
  Text, text_of, same_text, is_empty,
}
use shaka_player_embedded.Dash.Template.{strip_prefix}
use shaka_player_embedded.Dash.Xml.{decimal, digits}
use shaka_player_embedded.Captions.Cue.{CueRegion, new_region, units_lines}
use shaka_player_embedded.Captions.Settings.{words_from}
use shaka_player_embedded.Captions.Vtt.{expect}

-- A number of at most two digits, or 100, and `%`.
unfoldable pub region_percent : Text → Option (ℕ × Text)
region_percent s =
    let p = digits s in
    if is_empty p.0 || not (ltb (length p.0) 3 || same_text p.0 (text_of "100"))
    then none
    else elim (expect b'%' p.1) [ none ↦ none | some t ↦ some (decimal 0 p.0, t) ]

abbrev pub two_percents : Text → Option (ℕ × ℕ)
two_percents s = elim (region_percent s) [
  | none ↦ none
  | some (x, t) ↦ elim (expect b',' t) [
    | none ↦ none
    | some u ↦ elim (region_percent u) [
      | some (y, []) ↦ some (x, y)
      | some (y, c ∷ v) ↦ none
      | none ↦ none
    ]
  ]
]

-- `parseRegionSetting_`: null where the code answers false.
unfoldable pub parse_region_setting : Text → CueRegion → Option CueRegion
parse_region_setting s r = elim (strip_prefix (text_of "id=") s) [
  | some t ↦ some (record r { id = t })
  | none ↦ elim (strip_prefix (text_of "width=") s) [
    | some t ↦ elim (region_percent t) [
      | some (n, []) ↦ some (record r { width = n })
      | some (n, c ∷ u) ↦ none
      | none ↦ none
    ]
    | none ↦ elim (strip_prefix (text_of "lines=") s) [
      | some t ↦
          let p = digits t in
          if not (is_empty p.0) && is_empty p.1
          then some (record r { height = decimal 0 p.0; height_units = units_lines })
          else none
      | none ↦ elim (strip_prefix (text_of "regionanchor=") s) [
        | some t ↦ elim (two_percents t) [
          | some (x, y) ↦ some (record r { region_anchor_x = x; region_anchor_y = y })
          | none ↦ none
        ]
        | none ↦ elim (strip_prefix (text_of "viewportanchor=") s) [
          | some t ↦ elim (two_percents t) [
            | some (x, y) ↦ some (record r { viewport_anchor_x = x; viewport_anchor_y = y })
            | none ↦ none
          ]
          | none ↦
              if same_text s (text_of "scroll=up")
              then some (record r { scrolls_up = true })
              else none
        ]
      ]
    ]
  ]
]

unfoldable pub apply_region_settings : List Text → CueRegion → CueRegion
apply_region_settings [] r = r
apply_region_settings (w ∷ ws) r = elim (parse_region_setting w r) [
  | none ↦ apply_region_settings ws r
  | some q ↦ apply_region_settings ws q
]

-- `parseRegion_`; the first word is `Region:`.
unfoldable pub parse_region : Text → CueRegion
parse_region s = apply_region_settings (drop 1 (words_from [] s)) new_region
