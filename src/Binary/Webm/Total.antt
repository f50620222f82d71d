-- ===== src/Binary/Webm/Total.antt =====
-- The parser of WebM files comes to an end on every input.
use shaka_player_embedded.Base.{
  ℕ, zero, suc, ◌+◌, ◌≤◌, ◌≡◌, refl, Bool, true, false, not, Option, none, some, length, arith, ℤ,
  ◌==◌,
}
use shaka_player_embedded.Binary.Bytes.{Bytes}
use shaka_player_embedded.Binary.Reader.{
  Result, ok, throw, and_then, stuck, has_more_data, get_length, webm_cue_time_element_missing,
  webm_cue_track_positions_element_missing, webm_cues_element_missing,
  webm_duration_element_missing, webm_ebml_header_element_missing, webm_info_element_missing,
  webm_segment_element_missing,
}
use shaka_player_embedded.Binary.Ebml.{
  Element, Parser, create_parser, get_float, get_uint, has_more_elements, new_parser, parse_element,
}
use shaka_player_embedded.Binary.Ebml.Progress.{
  IsAnswer, ok-IsAnswer, throw-IsAnswer, if-IsAnswer, and_then-IsAnswer, fail_if-IsAnswer,
  parse_element-IsAnswer, parse_element-IsPast, get_uint-IsAnswer, get_float-IsAnswer,
}
use shaka_player_embedded.Binary.Webm.{
  Visit, each_element, each_child, found_or, visit_segment, find_info, visit_position,
  parse_cue_point, visit_cue, parse_cues, visit_info, scaled, parse_info, parse_segment, whole,
  parse_webm_container, parse_webm, ebml_id, segment_id, info_id, timecode_scale_id, duration_id,
  cues_id, cue_point_id, cue_time_id, cue_track_positions_id, cue_cluster_position,
}

-- A body of a loop that comes to an end on every element.
abbrev pub Ends : {S : Type 0} → Visit S → Type 0
Ends {S = S} visit = (e : Element) (s : S) → IsAnswer (visit e s)

no_more : (p : Parser) → get_length p.reader ≤ p.reader.position → has_more_elements p ≡ false
unfolding has_more_data
no_more p h = ground arith

-- Each element takes bytes of the view, so its length is enough fuel.
each_element-IsAnswer :
    {S : Type 0} (visit : Visit S) (k : ℕ) (p : Parser) (s : S)
    → Ends visit
    → get_length p.reader ≤ p.reader.position + k
    → IsAnswer (each_element visit k p s)
unfolding each_element
each_element-IsAnswer visit zero p s h l = rw (no_more p (omega arith)) (ok-IsAnswer s)
each_element-IsAnswer {S = S} visit (suc k) p s h l =
    from_more (λ p1 s1 m. each_element-IsAnswer visit k p1 s1 h m) (has_more_elements p)
  where
    Rest : Type 0
    Rest =
        (p1 : Parser) (s1 : S)
        → get_length p1.reader ≤ p1.reader.position + k
        → IsAnswer (each_element visit k p1 s1)

    from_stop :
        Rest
        → (b : Bool) (p1 : Parser) (s1 : S) → get_length p1.reader ≤ p1.reader.position + k
        → IsAnswer (elim b [ true ↦ ok s1 | false ↦ each_element visit k p1 s1 ])
    from_stop rest true p1 s1 m = ok-IsAnswer s1
    from_stop rest false p1 s1 m = rest p1 s1 m

    from_more :
        Rest
        → (b : Bool)
        → IsAnswer (elim b [
          | false ↦ ok s
          | true ↦ and_then (parse_element p) (λ (e, p1).
              and_then
                (visit e s)
                (λ (stop, s1). elim stop [ true ↦ ok s1 | false ↦ each_element visit k p1 s1 ]))
        ])
    from_more rest false = ok-IsAnswer s
    from_more rest true = and_then-IsAnswer (parse_element p) _ (parse_element-IsAnswer p) (λ x e.
        and_then-IsAnswer (visit x.0 s) _ (h x.0 s)
          (λ y _. let b = parse_element-IsPast p e in from_stop rest y.0 x.1 y.1 (omega arith)))

each_child-IsAnswer :
    {S : Type 0} (visit : Visit S) (e : Element) (s : S)
    → Ends visit
    → IsAnswer (each_child visit e s)
unfolding new_parser shaka_player_embedded.Binary.Reader.new
each_child-IsAnswer visit e s h =
    each_element-IsAnswer visit (length e.view.bytes) (create_parser e) s h (omega arith)

find_info-IsAnswer : (e : Element) → IsAnswer (find_info e)
unfolding find_info
find_info-IsAnswer e =
    and_then-IsAnswer (each_child visit_segment e none) _
      (each_child-IsAnswer visit_segment e none (λ c s.
        if-IsAnswer (c.id == info_id) (ok (true, some c)) (ok (false, s)) (ok-IsAnswer _)
          (ok-IsAnswer _)))
      (λ info _. found info)
  where
    found : (o : Option Element) → IsAnswer (found_or o (throw webm_info_element_missing))
    found none = throw-IsAnswer Element webm_info_element_missing refl
    found (some a) = ok-IsAnswer a

visit_position-Ends : Ends visit_position
visit_position-Ends e c =
    if-IsAnswer (e.id == cue_cluster_position) _ _
      (and_then-IsAnswer (get_uint e) _ (get_uint-IsAnswer e) (λ n _. ok-IsAnswer (true, n)))
      (ok-IsAnswer (false, c))

parse_cue_point-IsAnswer : (e : Element) → IsAnswer (parse_cue_point e)
unfolding parse_cue_point
parse_cue_point-IsAnswer e =
    and_then-IsAnswer (parse_element (create_parser e)) _ (parse_element-IsAnswer (create_parser e))
      (λ x _. fail_if-IsAnswer (not (x.0.id == cue_time_id)) webm_cue_time_element_missing _ refl (
        and_then-IsAnswer (get_uint x.0) _ (get_uint-IsAnswer x.0) (λ t _.
          and_then-IsAnswer (parse_element x.1) _ (parse_element-IsAnswer x.1) (λ y _.
            fail_if-IsAnswer (not (y.0.id == cue_track_positions_id))
              webm_cue_track_positions_element_missing _ refl
              (and_then-IsAnswer (each_child visit_position y.0 0) _
                (each_child-IsAnswer visit_position y.0 0 visit_position-Ends)
                (λ c _. ok-IsAnswer _))))))

visit_cue-Ends : (o scale : ℕ) (offset : ℤ) → Ends (visit_cue o scale offset)
visit_cue-Ends o scale offset e s =
    if-IsAnswer (e.id == cue_point_id) _ _
      (and_then-IsAnswer (parse_cue_point e) _ (parse_cue_point-IsAnswer e) (λ c _. ok-IsAnswer _))
      (ok-IsAnswer (false, s))

parse_cues-IsAnswer :
    (e : Element) (o scale : ℕ) (duration offset : ℤ)
    → IsAnswer (parse_cues e o scale duration offset)
unfolding parse_cues
parse_cues-IsAnswer e o scale duration offset =
    and_then-IsAnswer (each_child (visit_cue o scale offset) e _) _
      (each_child-IsAnswer (visit_cue o scale offset) e _ (visit_cue-Ends o scale offset))
      (λ s _. ok-IsAnswer _)

module _ {F : Type 0} (decode : Bytes → F) (times_scale : F → ℕ → ℤ) where
  visit_info-Ends : Ends (visit_info decode times_scale)
  visit_info-Ends e s =
      if-IsAnswer (e.id == timecode_scale_id) _ _
        (and_then-IsAnswer (get_uint e) _ (get_uint-IsAnswer e) (λ n _. ok-IsAnswer _))
        (if-IsAnswer (e.id == duration_id) _ _
          (and_then-IsAnswer (get_float decode e) _ (get_float-IsAnswer decode e)
            (λ d _. ok-IsAnswer _))
          (ok-IsAnswer (false, s)))

  scaled-IsAnswer : (scale : ℕ) (d : Option F) → IsAnswer (scaled decode times_scale scale d)
  scaled-IsAnswer scale none = throw-IsAnswer (ℕ × ℤ) webm_duration_element_missing refl
  scaled-IsAnswer scale (some d) = ok-IsAnswer _

  parse_segment-IsAnswer : (e : Element) → IsAnswer (parse_segment decode times_scale e)
  unfolding parse_segment parse_info
  parse_segment-IsAnswer e = and_then-IsAnswer (find_info e) _ (find_info-IsAnswer e) (λ i _.
      and_then-IsAnswer (each_child (visit_info decode times_scale) i _) _
        (each_child-IsAnswer (visit_info decode times_scale) i _ visit_info-Ends)
        (λ s _. scaled-IsAnswer s.0 s.1))

  parse_webm_container-IsAnswer :
      (bs : Bytes) → IsAnswer (parse_webm_container decode times_scale bs)
  unfolding parse_webm_container
  parse_webm_container-IsAnswer bs =
      and_then-IsAnswer (parse_element (new_parser (whole decode times_scale bs))) _
        (parse_element-IsAnswer _)
        (λ x _. fail_if-IsAnswer (not (x.0.id == ebml_id)) webm_ebml_header_element_missing _ refl (
          and_then-IsAnswer (parse_element x.1) _ (parse_element-IsAnswer x.1) (λ y _.
            fail_if-IsAnswer (not (y.0.id == segment_id)) webm_segment_element_missing _ refl (
              and_then-IsAnswer (parse_segment decode times_scale y.0) _
                (parse_segment-IsAnswer y.0) (λ info _. ok-IsAnswer _)))))

  -- On every input the parser of WebM files returns segments or throws an error of its own: none of
  -- its loops runs out of fuel.
  pub parse_webm-IsAnswer :
      (cues init : Bytes) (offset : ℤ) → IsAnswer (parse_webm decode times_scale cues init offset)
  unfolding parse_webm
  parse_webm-IsAnswer cues init offset =
      and_then-IsAnswer (parse_webm_container decode times_scale init) _
        (parse_webm_container-IsAnswer init)
        (λ c _.
          and_then-IsAnswer (parse_element (new_parser (whole decode times_scale cues))) _
            (parse_element-IsAnswer _)
            (λ x _.
              fail_if-IsAnswer (not (x.0.id == cues_id)) webm_cues_element_missing _ refl
                (parse_cues-IsAnswer x.0 c.0 c.1.0 c.1.1 offset)))
