-- ===== src/Playback/Ranges.antt =====
-- `shaka.media.TimeRangesUtils` (shaka/js/shaka-player.compiled.debug.js). A `TimeRanges` object is
-- the list of its ranges; every function answers for null what it answers for an empty object.
-- Times are in microseconds, so `1E-6` is 1.
use mathlib.Core.Path.{subst}
use shaka_player_embedded.Base.{
  ℕ, suc, ◌+◌, ◌≡◌, refl, inl, inr, Bool, true, false, ◌&&◌, ◌||◌, Option, none, some, List, [],
  ◌∷◌, arith, if◌then◌else◌, get_elem?, ℤ, pos, ◌+ℤ◌, ◌-ℤ◌, ◌≤ℤ◌, ◌<ℤ◌, ltb_ℤ, leb_ℤ, max_ℤ,
  +ℤ_parts, -ℤ_parts, Bool-cases, ◌∙◌, ap,
}

pub record Range : Type 0 where
  pub start : ℤ
  pub end : ℤ

abbrev pub Ranges : Type 0
Ranges = List Range

-- `1 == a.length && 1E-6 > a.end(0) - a.start(0)`
unfoldable pub is_trivial : Ranges → Bool
is_trivial (r ∷ []) = ltb_ℤ (r.end -ℤ r.start) (pos 1)
is_trivial _ = false

abbrev pub start_at_zero : Range → Ranges → ℤ
start_at_zero r [] = if ltb_ℤ r.start (pos 0) then pos 0 else r.start
start_at_zero r (q ∷ rs) = r.start

abbrev pub first_start : Ranges → Option ℤ
first_start [] = none
first_start (r ∷ rs) = some (start_at_zero r rs)

unfoldable pub buffer_start : Ranges → Option ℤ
buffer_start rs = if is_trivial rs then none else first_start rs

abbrev pub last_end : Ranges → Option ℤ
last_end [] = none
last_end (r ∷ []) = some r.end
last_end (r ∷ q ∷ rs) = last_end (q ∷ rs)

unfoldable pub buffer_end : Ranges → Option ℤ
buffer_end rs = if is_trivial rs then none else last_end rs

abbrev pub is_past : ℤ → Option ℤ → Bool
is_past t none = true
is_past t (some e) = ltb_ℤ e t

abbrev pub reaches : ℤ → ℤ → Ranges → Bool
reaches t tolerance [] = false
reaches t tolerance (r ∷ rs) = leb_ℤ r.start (t +ℤ tolerance)

unfoldable pub is_buffered : Ranges → ℤ → ℤ → Bool
is_buffered rs t tolerance =
    if is_trivial rs || is_past t (last_end rs) then false else reaches t tolerance rs

-- What `bufferedAheadOf` adds for one range.
abbrev pub part_ahead : ℤ → Range → ℤ
part_ahead t r = r.end -ℤ max_ℤ r.start t

abbrev pub add_unless_stopped : ℤ → Range → Bool × ℤ → Bool × ℤ
add_unless_stopped t r (true, c) = (true, c)
add_unless_stopped t r (false, c) =
    if ltb_ℤ t r.end then (false, c +ℤ part_ahead t r) else (true, c)

-- The loop of `bufferedAheadOf`, from the last range on: whether it has stopped, and its sum.
unfoldable pub ahead_from_last : ℤ → Ranges → Bool × ℤ
ahead_from_last t [] = (false, pos 0)
ahead_from_last t (r ∷ rs) = add_unless_stopped t r (ahead_from_last t rs)

unfoldable pub buffered_ahead_of : Ranges → ℤ → ℤ
buffered_ahead_of rs t = if is_trivial rs then pos 0 else (ahead_from_last t rs).1

-- The test of `getGapIndex` on the range before: there is none, or it ends at most `c` past `t`.
abbrev pub is_near : ℤ → ℤ → Option ℤ → Bool
is_near c t none = true
is_near c t (some e) = leb_ℤ (e -ℤ t) c

-- The loop of `getGapIndex`; `before` is the end of the range at `i - 1`.
unfoldable pub gap_from : ℤ → ℤ → ℕ → Option ℤ → Ranges → Option ℕ
gap_from c t i before [] = none
gap_from c t i before (r ∷ rs) =
    let rest = gap_from c t (suc i) (some r.end) rs in
    if ltb_ℤ t r.start && is_near c t before then some i else rest

-- `is_coarse`: the platform is Edge, IE, Tizen or a Chromecast, where gaps are wider.
abbrev pub gap_tolerance : Bool → ℤ
gap_tolerance is_coarse = if is_coarse then pos 500000 else pos 100000

unfoldable pub get_gap_index : Bool → Ranges → ℤ → Option ℕ
get_gap_index is_coarse rs t =
    if is_trivial rs then none else gap_from (gap_tolerance is_coarse) t 0 none rs

-- `getBufferedInfo` copies the ranges.
unfoldable pub get_buffered_info : Ranges → Ranges
get_buffered_info [] = []
get_buffered_info (r ∷ rs) = record { start = r.start; end = r.end } ∷ get_buffered_info rs

-- Ranges as a browser reports them: none is reversed, and each ends before the next one starts.
abbrev pub IsSorted : Ranges → Type 0
IsSorted [] = Unit
IsSorted (r ∷ []) = r.start ≤ℤ r.end
IsSorted (r ∷ q ∷ rs) = (r.start ≤ℤ r.end) × (r.end <ℤ q.start) × IsSorted (q ∷ rs)

-- The buffered time after `t`, with every range looked at: each one counts from `t` on, if at all.
abbrev pub clipped : ℤ → Range → ℤ
clipped t r = max_ℤ (pos 0) (r.end -ℤ max_ℤ r.start t)

unfoldable pub time_after : ℤ → Ranges → ℤ
time_after t [] = pos 0
time_after t (r ∷ rs) = time_after t rs +ℤ clipped t r

IsSorted-tail : (r : Range) (rs : Ranges) → IsSorted (r ∷ rs) → IsSorted rs
IsSorted-tail r [] h = tt
IsSorted-tail r (q ∷ rs) h = h.2

-- If the loop stops at or behind a range, that range starts at or before `t`.
stopped-le :
    (t : ℤ) (r : Range) (rs : Ranges)
    → IsSorted (r ∷ rs)
    → (ahead_from_last t (r ∷ rs)).0 ≡ true
    → r.start ≤ℤ t
unfolding ahead_from_last
stopped-le t r [] h e = ground arith
stopped-le t r (q ∷ rs) h e = stopped_before (ahead_from_last t (q ∷ rs)) (stopped-le t q rs h.2) e
  where
    stopped_before :
        (w : Bool × ℤ)
        → (w.0 ≡ true → q.start ≤ℤ t)
        → (add_unless_stopped t r w).0 ≡ true
        → r.start ≤ℤ t
    stopped_before (true, c) k l = let m : q.start ≤ℤ t = k refl in omega arith
    stopped_before (false, c) k l = ground arith

ended :
    (t : ℤ) (r : Range) (rs : Ranges)
    → IsSorted (r ∷ rs)
    → (ahead_from_last t rs).0 ≡ true
    → r.end ≤ℤ t
ended t r [] h e = unfold ahead_from_last in absurd (cc)
ended t r (q ∷ rs) h e = let m : q.start ≤ℤ t = stopped-le t q rs h.2 e in omega arith

sum_step :
    (t : ℤ) (r : Range) (w : Bool × ℤ)
    → r.start ≤ℤ r.end
    → (w.0 ≡ true → r.end ≤ℤ t)
    → (add_unless_stopped t r w).1 ≡ w.1 +ℤ clipped t r
sum_step t r (true, c) h k =
    let m : r.end ≤ℤ t = k refl in
    ground (arith, -ℤ_parts r.end (max_ℤ r.start t), +ℤ_parts c (clipped t r))
sum_step t r (false, c) h k =
    ground (arith, -ℤ_parts r.end (max_ℤ r.start t), +ℤ_parts c (clipped t r))

start-le-end : (r : Range) (rs : Ranges) → IsSorted (r ∷ rs) → r.start ≤ℤ r.end
start-le-end r [] h = h
start-le-end r (q ∷ rs) h = h.0

ahead-time_after : (t : ℤ) (rs : Ranges) → IsSorted rs → (ahead_from_last t rs).1 ≡ time_after t rs
unfolding time_after ahead_from_last
ahead-time_after t [] h = refl
ahead-time_after t (r ∷ rs) h =
    sum_step t r (ahead_from_last t rs) (start-le-end r rs h) (ended t r rs h)
    ∙ ap (λ c. c +ℤ clipped t r) (ahead-time_after t rs (IsSorted-tail r rs h))

-- On sorted ranges, apart from a single empty one, `bufferedAheadOf` is the whole buffered time after
-- `t`, although its loop stops at the first range that ends at or before `t`.
pub buffered_ahead_of-time_after :
    (rs : Ranges) (t : ℤ)
    → IsSorted rs
    → is_trivial rs ≡ false
    → buffered_ahead_of rs t ≡ time_after t rs
unfolding buffered_ahead_of
buffered_ahead_of-time_after rs t h k = rw k (ahead-time_after t rs h)

gap_from-some :
    (c t : ℤ) (i : ℕ) (before : Option ℤ) (rs : Ranges) {d : ℕ}
    → gap_from c t i before rs ≡ some d
    → (k : ℕ) × (r : Range) × (d ≡ i + k) × (get_elem? rs k ≡ some r) × (t <ℤ r.start)
unfolding gap_from
gap_from-some c t i before [] h = cc
gap_from-some c t i before (r ∷ rs) {d} h =
    elim (Bool-cases (ltb_ℤ t r.start && is_near c t before)) [
      | inl e ↦ (0, r, ground arith, refl, ground arith)
      | inr e ↦
          let (k, q, n, g, l) = gap_from-some c t (suc i) (some r.end) rs {d = d} (ground arith) in
          (suc k, q, omega arith, g, l)
    ]

-- `getGapIndex` gives the index of a range that starts after the time.
pub get_gap_index-some :
    (b : Bool) (t : ℤ) (rs : Ranges) {d : ℕ}
    → get_gap_index b rs t ≡ some d
    → (r : Range) × (get_elem? rs d ≡ some r) × (t <ℤ r.start)
unfolding get_gap_index
get_gap_index-some b t rs {d} h =
    let (k, r, n, g, l) = gap_from-some (gap_tolerance b) t 0 none rs {d = d} (ground arith) in
    let e : k ≡ d = omega arith in (r, subst (λ j. get_elem? rs j ≡ some r) e g, l)
