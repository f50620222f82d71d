-- ===== src/Captions/Engine.antt =====
-- Class `TextEngine` (shaka/js/shaka-player.compiled.debug.js), less the closed captions. Times are in
-- milliseconds. The parser and the displayer are parameters.
use shaka_player_embedded.Base.{
  ◌≡◌, refl, ◌⊎◌, inl, inr, Bool, true, false, ◌&&◌, ◌||◌, Option, none, some, List, [], select,
  if◌then◌else◌, ℤ, pos, ◌-ℤ◌, ◌≤ℤ◌, ◌<ℤ◌, leb_ℤ, ltb_ℤ, max_ℤ, min_ℤ, Number, fin, infinity, arith,
  Bool-cases,
}
use shaka_player_embedded.Captions.Cue.{Cue}

pub record TextEngine : Type 0 where
  pub has_parser : Bool
  pub has_displayer : Bool
  pub timestamp_offset : ℤ
  pub append_window_start : ℤ
  pub append_window_end : Number
  pub buffer_start : Option ℤ
  pub buffer_end : Option ℤ

abbrev pub new : TextEngine
new = record {
  has_parser = false;
  has_displayer = true;
  timestamp_offset = pos 0;
  append_window_start = pos 0;
  append_window_end = infinity;
  buffer_start = none;
  buffer_end = none;
}

abbrev pub is_before : ℤ → Number → Bool
is_before t (fin e) = ltb_ℤ t e
is_before t infinity = true

abbrev pub cut : ℤ → Number → ℤ
cut t (fin e) = min_ℤ t e
cut t infinity = t

unfoldable pub set_timestamp_offset : ℤ → TextEngine → TextEngine
set_timestamp_offset t s = record s { timestamp_offset = t }

unfoldable pub set_append_window : ℤ → Number → TextEngine → TextEngine
set_append_window a b s = record s { append_window_start = a; append_window_end = b }

abbrev pub or_start : Option ℤ → ℤ → ℤ
or_start none t = t
or_start (some a) t = a

-- `appendBuffer` of a media segment from `a` to `b`, with the cues that the parser finds for the
-- offset: the cues that are displayed, and the engine after it.
unfoldable pub append_buffer : (ℤ → ℤ → ℤ → List Cue) → ℤ → ℤ → TextEngine → List Cue × TextEngine
append_buffer parse_media a b s =
    if s.has_parser && s.has_displayer
    then (
      select
          (λ c.
            leb_ℤ s.append_window_start c.start_time && is_before c.start_time s.append_window_end)
          (parse_media s.timestamp_offset a b),
      record s {
        buffer_start = some (or_start s.buffer_start (max_ℤ a s.append_window_start));
        buffer_end = some (cut b s.append_window_end);
      },
    )
    else ([], s)

-- What a removal from `a` to `b` leaves of the range from `x` to `y`.
abbrev pub shrink : ℤ → ℤ → ℤ → ℤ → Option ℤ × Option ℤ
shrink a b x y =
    if leb_ℤ b x || leb_ℤ y a
    then (some x, some y)
    else if leb_ℤ a x && leb_ℤ y b
    then (none, none)
    else if leb_ℤ a x && ltb_ℤ b y
    then (some b, some y)
    else if ltb_ℤ x a && leb_ℤ y b
    then (some x, some a)
    else (some x, some y)

abbrev pub range_left : ℤ → ℤ → Option ℤ → Option ℤ → Option ℤ × Option ℤ
range_left a b (some x) (some y) = shrink a b x y
range_left a b (some x) none = (some x, none)
range_left a b none e = (none, e)

-- `remove(start, end)`; `is_removed` is what the displayer answers.
unfoldable pub remove : Bool → ℤ → ℤ → TextEngine → TextEngine
remove is_removed a b s =
    if s.has_displayer && is_removed
    then record s {
      buffer_start = (range_left a b s.buffer_start s.buffer_end).0;
      buffer_end = (range_left a b s.buffer_start s.buffer_end).1;
    }
    else s

abbrev pub is_inside : ℤ → Option ℤ → Option ℤ → Bool
is_inside t (some x) (some y) = leb_ℤ x t && ltb_ℤ t y
is_inside t _ _ = false

unfoldable pub is_buffered : ℤ → TextEngine → Bool
is_buffered t s = is_inside t s.buffer_start s.buffer_end

abbrev pub ahead : ℤ → Option ℤ → ℤ → ℤ
ahead t none y = y -ℤ t
ahead t (some x) y = y -ℤ max_ℤ t x

-- `bufferedAheadOf`; the end is known only together with the start.
unfoldable pub buffered_ahead_of : ℤ → TextEngine → ℤ
buffered_ahead_of t s = elim s.buffer_end [
  | none ↦ pos 0
  | some y ↦ if ltb_ℤ y t then pos 0 else ahead t s.buffer_start y
]

unfoldable pub destroy : TextEngine → TextEngine
destroy s = record s { has_parser = false; has_displayer = false }

is_inside-shrink :
    (a b x y t : ℤ)
    → (t <ℤ a) ⊎ (b ≤ℤ t)
    → is_inside t (shrink a b x y).0 (shrink a b x y).1 ≡ is_inside t (some x) (some y)
is_inside-shrink a b x y t h = ground arith

is_inside-range_left :
    (a b t : ℤ) (x y : Option ℤ)
    → (t <ℤ a) ⊎ (b ≤ℤ t)
    → is_inside t (range_left a b x y).0 (range_left a b x y).1 ≡ is_inside t x y
is_inside-range_left a b t none y h = refl
is_inside-range_left a b t (some x) none h = refl
is_inside-range_left a b t (some x) (some y) h = is_inside-shrink a b x y t h

-- A removal changes nothing of what is buffered outside of the removed range.
pub is_buffered-remove :
    (is_removed : Bool) (a b t : ℤ) (s : TextEngine)
    → (t <ℤ a) ⊎ (b ≤ℤ t)
    → is_buffered t (remove is_removed a b s) ≡ is_buffered t s
unfolding is_buffered remove
is_buffered-remove is_removed a b t s h = elim (Bool-cases (s.has_displayer && is_removed)) [
  | inl e ↦ rw e (is_inside-range_left a b t s.buffer_start s.buffer_end h)
  | inr e ↦ rw e
]
