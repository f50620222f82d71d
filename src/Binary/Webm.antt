-- ===== src/Binary/Webm.antt =====
-- `WebmSegmentIndexParser` (shaka/js/shaka-player.compiled.debug.js). Times are whole numbers of
-- nanoseconds, which the timecode scale counts. What a float is, its decoding, and its product with
-- the scale are parameters. The loops over elements run on fuel, one unit for each byte of the view.
pub mod Total
use shaka_player_embedded.Base.{
  ℕ, zero, suc, ◌+◌, ◌*◌, ◌==◌, Bool, true, false, not, Option, none, some, List, [], ◌∷◌, ◌++◌,
  length, if◌then◌else◌, ℤ, pos, ◌-ℤ◌,
}
use shaka_player_embedded.Binary.Bytes.{Bytes}
use shaka_player_embedded.Binary.Reader.{
  Result, ok, throw, and_then, ◌>>=◌, fail_if, stuck, webm_cue_time_element_missing,
  webm_cue_track_positions_element_missing, webm_cues_element_missing,
  webm_duration_element_missing, webm_ebml_header_element_missing, webm_info_element_missing,
  webm_segment_element_missing,
}
use shaka_player_embedded.Binary.Ebml.{
  Element, Parser, View, create_parser, get_float, get_offset, get_uint, has_more_elements,
  new_parser, parse_element,
}

abbrev pub ebml_id : ℕ
ebml_id = 440786851

abbrev pub segment_id : ℕ
segment_id = 408125543

abbrev pub info_id : ℕ
info_id = 357149030

abbrev pub timecode_scale_id : ℕ
timecode_scale_id = 2807729

abbrev pub duration_id : ℕ
duration_id = 17545

abbrev pub cues_id : ℕ
cues_id = 475249515

abbrev pub cue_point_id : ℕ
cue_point_id = 187

abbrev pub cue_time_id : ℕ
cue_time_id = 179

abbrev pub cue_track_positions_id : ℕ
cue_track_positions_id = 183

abbrev pub cue_cluster_position : ℕ
cue_cluster_position = 241

-- What the body of a loop does with an element, and whether it breaks.
abbrev pub Visit : Type 0 → Type 0
Visit S = Element → S → Result (Bool × S)

-- `while (parser.hasMoreData())`, over the elements.
unfoldable pub each_element : {S : Type 0} → Visit S → ℕ → Parser → S → Result S
each_element visit zero p s = if has_more_elements p then throw stuck else ok s
each_element visit (suc k) p s = elim (has_more_elements p) [
  | false ↦ ok s
  | true ↦ (do
    (e, p1) ← parse_element p
    (stop, s1) ← visit e s
    elim stop [ true ↦ ok s1 | false ↦ each_element visit k p1 s1 ])
]

-- The loop over the elements inside an element.
abbrev pub each_child : {S : Type 0} → Visit S → Element → S → Result S
each_child visit e s = each_element visit (length e.view.bytes) (create_parser e) s

abbrev pub found_or {ℓ} : {A : Type ℓ} → Option A → Result A → Result A
found_or none r = r
found_or (some a) r = ok a

abbrev pub visit_segment : Visit (Option Element)
visit_segment e s = if e.id == info_id then ok (true, some e) else ok (false, s)

-- `parseSegment_`, up to the element of the information.
unfoldable pub find_info : Element → Result Element
find_info e = do
  info ← each_child visit_segment e none
  found_or info (throw webm_info_element_missing)

pub record CuePoint : Type 0 where
  pub unscaled_time : ℕ
  pub relative_offset : ℕ

abbrev pub visit_position : Visit ℕ
visit_position e c =
    if e.id == cue_cluster_position
    then and_then (get_uint e) (λ n. ok (true, n))
    else ok (false, c)

unfoldable pub parse_cue_point : Element → Result CuePoint
parse_cue_point e = do
  (time, p) ← parse_element (create_parser e)
  fail_if (not (time.id == cue_time_id)) webm_cue_time_element_missing (do
    t ← get_uint time
    (positions, p1) ← parse_element p
    fail_if (not (positions.id == cue_track_positions_id)) webm_cue_track_positions_element_missing
        (do
          c ← each_child visit_position positions 0
          ok (record { unscaled_time = t; relative_offset = c })))

-- A segment; the end of the last one's bytes is null.
pub record Reference : Type 0 where
  pub position : ℕ
  pub start_time : ℤ
  pub end_time : ℤ
  pub start_byte : ℕ
  pub end_byte : Option ℤ

-- The time and the offset of the last cue point that was read, and the segments before it.
pub record Cues : Type 0 where
  pub last_cue : Option (ℕ × ℕ)
  pub references : List Reference

abbrev pub add_reference : Option (ℕ × ℕ) → ℤ → Option ℤ → ℤ → List Reference → List Reference
add_reference none end_time end_byte offset rs = rs
add_reference (some (t, b)) end_time end_byte offset rs =
    rs
    ++ (record {
      position = length rs;
      start_time = pos t -ℤ offset;
      end_time = end_time -ℤ offset;
      start_byte = b;
      end_byte = end_byte;
    }
        ∷ [])

-- One more cue point, at a time and an offset in the file.
unfoldable pub add_cue : ℤ → ℕ → ℕ → Cues → Cues
add_cue offset time byte s = record {
  last_cue = some (time, byte);
  references = add_reference s.last_cue (pos time) (some (pos byte -ℤ pos 1)) offset s.references;
}

abbrev pub visit_cue : ℕ → ℕ → ℤ → Visit Cues
visit_cue segment_offset scale offset e s =
    if e.id == cue_point_id
    then and_then (parse_cue_point e) (λ c.
      ok (false, add_cue offset (scale * c.unscaled_time) (segment_offset + c.relative_offset) s))
    else ok (false, s)

-- `parseCues_`
unfoldable pub parse_cues : Element → ℕ → ℕ → ℤ → ℤ → Result (List Reference)
parse_cues e segment_offset scale duration offset = do
  s ←
      each_child (visit_cue segment_offset scale offset) e
        (record { last_cue = none; references = [] })
  ok (add_reference s.last_cue duration none offset s.references)

module _ {F : Type 0} (decode : Bytes → F) (times_scale : F → ℕ → ℤ) where
  abbrev pub visit_info : Visit (ℕ × Option F)
  visit_info e s =
      if e.id == timecode_scale_id
      then and_then (get_uint e) (λ n. ok (false, (n, s.1)))
      else if e.id == duration_id
      then and_then (get_float decode e) (λ d. ok (false, (s.0, some d)))
      else ok (false, s)

  abbrev pub scaled : ℕ → Option F → Result (ℕ × ℤ)
  scaled scale none = throw webm_duration_element_missing
  scaled scale (some d) = ok (scale, times_scale d scale)

  -- `parseInfo_`: the timecode scale and the duration.
  unfoldable pub parse_info : Element → Result (ℕ × ℤ)
  parse_info e = do s ← each_child visit_info e (1000000, none); scaled s.0 s.1

  -- `parseSegment_`
  unfoldable pub parse_segment : Element → Result (ℕ × ℤ)
  parse_segment e = and_then (find_info e) parse_info

  abbrev pub whole : Bytes → View
  whole bs = record { byte_offset = 0; bytes = bs }

  -- `parseWebmContainer_`: the segment's offset, the timecode scale and the duration.
  unfoldable pub parse_webm_container : Bytes → Result (ℕ × (ℕ × ℤ))
  parse_webm_container bs = do
    (header, p) ← parse_element (new_parser (whole bs))
    fail_if (not (header.id == ebml_id)) webm_ebml_header_element_missing (do
      (segment, p1) ← parse_element p
      fail_if (not (segment.id == segment_id)) webm_segment_element_missing
          (do info ← parse_segment segment; ok (get_offset segment, info)))

  -- `parse(cuesData, initData, uris, scaledPresentationTimeOffset)`
  unfoldable pub parse_webm : Bytes → Bytes → ℤ → Result (List Reference)
  parse_webm cues_data init_data offset = do
    (segment_offset, info) ← parse_webm_container init_data
    (cues, p) ← parse_element (new_parser (whole cues_data))
    fail_if (not (cues.id == cues_id)) webm_cues_element_missing
        (parse_cues cues segment_offset info.0 info.1 offset)
