-- ===== src/Dash/Mpd.antt =====
-- Namespace `MpdUtils` (shaka/js/shaka-player.compiled.debug.js): inheritance, segment information and
-- the timeline. Times are in ticks of the timescale; the duration of the period is in milliseconds.
pub mod Contiguous
use shaka_player_embedded.Base.{
  ℕ, zero, suc, ◌+◌, ◌-◌, ◌*◌, ◌/◌, ◌==◌, Bool, true, false, Option, none, some, List, [], ◌∷◌,
  ◌++◌, map, is_some, to_list, if◌then◌else◌, ℤ, pos, negsuc, ◌+ℤ◌, ◌-ℤ◌, pos_part, neg_part, leb_ℤ,
  ◌==ℤ◌, Text, text_of, or_empty, is_empty,
}
use shaka_player_embedded.Dash.Xml.{
  Dom, find_child, find_children, parse_attr, parse_int, parse_non_negative_int, parse_positive_int,
}

-- An "S" element: its start, its duration and its repeat count.
pub record TimePoint : Type 0 where
  pub t : Option ℕ
  pub d : Option ℕ
  pub r : Option ℤ

-- A segment of the timeline; the code divides `start` and `end_time` by the timescale.
pub record TimelineEntry : Type 0 where
  pub start : ℤ
  pub end_time : ℤ
  pub unscaled_start : ℤ

abbrev pub Timeline : Type 0
Timeline = List TimelineEntry

-- `Math.ceil(x / m)`
abbrev pub ceil_div : ℕ → ℕ → ℕ
ceil_div x m = (x + m - 1) / m

abbrev pub thousand_times : ℤ → ℤ
thousand_times z = pos (1000 * pos_part z) -ℤ pos (1000 * neg_part z)

-- How often a segment is repeated up to the start of the next element. The start `l` has lost the
-- presentation time offset, and the next start `t` has not.
abbrev pub repeat_until : ℤ → ℕ → Option ℕ → Option ℕ
repeat_until l m none = none
repeat_until l m (some t) =
    if leb_ℤ (pos t) l then none else some (ceil_div (pos_part (pos t -ℤ l)) m - 1)

-- How often it is repeated up to the end of the period.
abbrev pub repeat_to_end : ℕ → Option ℕ → ℤ → ℕ → Option ℕ
repeat_to_end timescale none l m = none
repeat_to_end timescale (some ms) l m =
    let left = pos (ms * timescale) -ℤ thousand_times l in
    if leb_ℤ left (pos 0) then none else some (ceil_div (pos_part left) (1000 * m) - 1)

abbrev pub repeat_negative : ℕ → Option ℕ → ℤ → ℕ → List TimePoint → Option ℕ
repeat_negative timescale duration l m [] = repeat_to_end timescale duration l m
repeat_negative timescale duration l m (next ∷ ps) = repeat_until l m next.t

-- The repeat count, or nothing when the code ignores this element and what is left.
unfoldable pub repeat_count : ℕ → Option ℕ → ℤ → ℕ → Option ℤ → List TimePoint → Option ℕ
repeat_count timescale duration l m none ps = some 0
repeat_count timescale duration l m (some (pos n)) ps = some n
repeat_count timescale duration l m (some (negsuc n)) ps = repeat_negative timescale duration l m ps

-- The inner loop: `k` segments of `m` ticks from `l` on.
unfoldable pub push_entries : ℕ → ℤ → ℕ → Timeline → Timeline × ℤ
push_entries zero l m f = (f, l)
push_entries (suc k) l m f =
    let g = l +ℤ pos m in
    push_entries k g m (f ++ (record { start = l; end_time = g; unscaled_start = l } ∷ []))

unfoldable pub set_last_end : ℤ → Timeline → Timeline
set_last_end z [] = []
set_last_end z (e ∷ []) = record e { end_time = z } ∷ []
set_last_end z (e ∷ e' ∷ es) = e ∷ set_last_end z (e' ∷ es)

-- A gap or an overlap before `l` is closed at the segment before it.
abbrev pub close_gap : ℤ → Timeline × ℤ → Timeline
close_gap l s = if l ==ℤ s.1 then s.0 else set_last_end l s.0

abbrev pub start_of : ℕ → Option ℕ → ℤ → ℤ
start_of offset none g = g
start_of offset (some t) g = pos t -ℤ pos offset

abbrev pub positive : Option ℕ → Option ℕ
positive none = none
positive (some n) = if n == 0 then none else some n

abbrev pub repeated : ℤ → ℕ → Timeline × ℤ → Option ℕ → Option (Timeline × ℤ)
repeated l m s none = none
repeated l m s (some n) = some (push_entries (suc n) l m (close_gap l s))

abbrev pub with_duration :
    ℕ → Option ℕ → ℤ → Option ℤ → List TimePoint → Timeline × ℤ → Option ℕ → Option (Timeline × ℤ)
with_duration timescale duration l r ps s none = none
with_duration timescale duration l r ps s (some m) =
    repeated l m s (repeat_count timescale duration l m r ps)

-- One element: what it makes of the timeline so far and the end of its last segment, or nothing when
-- the loop breaks.
unfoldable pub add_point :
    ℕ → ℕ → Option ℕ → TimePoint → List TimePoint → Timeline × ℤ → Option (Timeline × ℤ)
add_point timescale offset duration p ps s =
    with_duration timescale duration (start_of offset p.t s.1) p.r ps s (positive p.d)

-- The loop over the elements.
unfoldable pub walk_points : ℕ → ℕ → Option ℕ → List TimePoint → Timeline × ℤ → Timeline
walk_points timescale offset duration [] s = s.0
walk_points timescale offset duration (p ∷ ps) s =
    elim (add_point timescale offset duration p ps s) [
      | none ↦ s.0
      | some s' ↦ walk_points timescale offset duration ps s'
    ]

-- `createTimeline`, on the attributes of the "S" elements.
unfoldable pub create_timeline : ℕ → ℕ → Option ℕ → List TimePoint → Timeline
create_timeline timescale offset duration ps =
    walk_points timescale offset duration ps ([], pos 0 -ℤ pos offset)

abbrev pub or_attribute : Option Text → Option Text → Option Text
or_attribute none b = b
or_attribute (some []) b = b
or_attribute (some (c ∷ s)) b = some (c ∷ s)

-- `reduce` by `a || b`.
abbrev pub first_attribute : List (Option Text) → Option Text
first_attribute [] = none
first_attribute (a ∷ []) = a
first_attribute (a ∷ as') = or_attribute a (first_attribute as')

abbrev pub first_element {ℓ} : {A : Type ℓ} → List (Option A) → Option A
first_element [] = none
first_element (none ∷ es) = first_element es
first_element (some e ∷ es) = some e

-- The element of the representation, that of the adaptation set and that of the period.
pub record Levels (E : Type 0) : Type 0 where
  pub representation : Option E
  pub adaptation_set : Option E
  pub period : Option E

abbrev pub levels : {E : Type 0} → Levels E → List E
levels l = to_list l.representation ++ to_list l.adaptation_set ++ to_list l.period

pub record SegmentInfo : Type 0 where
  pub timescale : ℕ
  pub segment_duration : Option ℕ
  pub start_number : ℕ
  pub presentation_time_offset : ℕ
  pub timeline : Option Timeline

abbrev pub or_number : ℕ → Option ℕ → ℕ
or_number n none = n
or_number n (some m) = m

module _ (dom : Dom) (number : Text → Option ℤ) where
  unfoldable pub inherit_attribute : Levels dom.Element → Text → Option Text
  inherit_attribute l name = first_attribute (map (λ e. dom.attribute e name) (levels l))

  unfoldable pub inherit_child : Levels dom.Element → Text → Option dom.Element
  inherit_child l name = first_element (map (λ e. find_child dom e name) (levels l))

  abbrev pub time_point : dom.Element → TimePoint
  time_point e = record {
    t = parse_attr dom e (text_of "t") (parse_non_negative_int number) none;
    d = parse_attr dom e (text_of "d") (parse_non_negative_int number) none;
    r = parse_attr dom e (text_of "r") (parse_int number) none;
  }

  abbrev pub timeline_of : ℕ → ℕ → Option ℕ → Option dom.Element → Option Timeline
  timeline_of timescale offset duration none = none
  timeline_of timescale offset duration (some e) = some (
      create_timeline timescale offset duration
        (map time_point (find_children dom e (text_of "S"))))

  abbrev pub inherit_positive : Levels dom.Element → Text → Option ℕ
  inherit_positive l name = parse_positive_int number (or_empty (inherit_attribute l name))

  abbrev pub inherit_natural : Levels dom.Element → Text → Option ℕ
  inherit_natural l name = parse_non_negative_int number (or_empty (inherit_attribute l name))

  -- `parseSegmentInfo(context, callback)`; offsets and durations are in ticks.
  unfoldable pub parse_segment_info : Levels dom.Element → Option ℕ → SegmentInfo
  parse_segment_info l duration =
      let timescale = or_number 1 (inherit_positive l (text_of "timescale")) in
      let offset = or_number 0 (inherit_natural l (text_of "presentationTimeOffset")) in
      record {
        timescale = timescale;
        segment_duration = inherit_positive l (text_of "duration");
        start_number =
            if is_some (inherit_attribute l (text_of "startNumber"))
            then or_number 1 (inherit_natural l (text_of "startNumber"))
            else 1;
        presentation_time_offset = offset;
        timeline =
            timeline_of timescale offset (positive duration)
              (inherit_child l (text_of "SegmentTimeline"));
      }
