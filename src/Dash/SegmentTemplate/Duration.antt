-- ===== src/Dash/SegmentTemplate/Duration.antt =====
-- Segments of one duration: the position that is found for a time is that of the segment around it.
use shaka_player_embedded.Base.{
  ℕ, ◌+◌, ◌*◌, ◌/◌, ◌≤◌, ◌<◌, ◌≡◌, refl, Bool, true, false, Option, none, some, pos, ◌≤ℤ◌, ◌<ℤ◌,
  Text, arith, ap, if◌then◌else◌,
}
use mathlib.Core.Path.{subst}
use shaka_player_embedded.Dash.Mpd.{positive}
use shaka_player_embedded.Dash.Segments.{Representation, Segment}
use shaka_player_embedded.Dash.SegmentTemplate.{
  find_segment_position, get_segment_reference, is_after, cut_end, duration_segment,
}

-- The segment starts at or before the time, and ends after it.
abbrev pub Covers : ℕ → Segment → Type 0
Covers t s = (s.start_time ≤ℤ pos t) × (pos t <ℤ s.end_time)

quotient_bounds : (t d : ℕ) → 0 < d → (t / d * d ≤ t) × (t < t / d * d + d)
quotient_bounds t d h = grind arith

if_none-some :
    (b : Bool) (x p : ℕ)
    → ◌≡◌ {A = Option ℕ} (if b then none else some x) (some p)
    → (b ≡ false) × (x ≡ p)
if_none-some true x p h = cc
if_none-some false x p h = (refl, ap (value_or x) h)
  where
    value_or : ℕ → Option ℕ → ℕ
    value_or d none = d
    value_or d (some y) = y

is_after-le :
    (a t : ℕ) (limit : Option ℕ) → a ≤ t → is_after t limit ≡ false → is_after a limit ≡ false
is_after-le a t none h e = refl
is_after-le a t (some l) h e = ground arith

lt-cut_end : (t n : ℕ) (limit : Option ℕ) → t < n → is_after t limit ≡ false → t < cut_end n limit
lt-cut_end t n none h e = h
lt-cut_end t n (some l) h e = ground arith

-- For a time that has a position, the segment at that position exists and covers the time.
pub find-get_Covers :
    (r : Representation) (template : Text) (start_number : ℕ) (duration : Option ℕ) (d t p : ℕ)
    → 0 < d
    → find_segment_position duration d (pos t) ≡ some p
    → (s : Segment) × (get_segment_reference r template start_number duration d p ≡ some s)
      × Covers t s
unfolding find_segment_position get_segment_reference
find-get_Covers r template start_number duration d t p h e =
    let limit = positive duration in
    let (n, q) = if_none-some (is_after t limit) (t / d) p e in
    let (a, b) = quotient_bounds t d h in
    let k : p * d ≤ t = subst (λ x. x * d ≤ t) q a in
    let l : t < p * d + d = subst (λ x. t < x * d + d) q b in
    let m : is_after (p * d) limit ≡ false = is_after-le (p * d) t limit k n in
    (
      duration_segment r template start_number duration d p,
      rw m,
      (omega arith, omega (arith, lt-cut_end t (p * d + d) limit l n)),
    )
