-- ===== src/Media/Timeline/Segments.antt =====
-- What `notifySegments` of `PresentationTimeline` makes the timeline know.
use shaka_player_embedded.Base.{
  ◌≡◌, refl, inl, inr, true, Option, some, [], ◌∷◌, arith, All, ℤ, pos, ◌+ℤ◌, ◌-ℤ◌, ◌≤ℤ◌, max_ℤ,
  min_ℤ, ltb_ℤ-cases, +ℤ_parts, int_laws,
}
use shaka_player_embedded.Media.SegmentIndex.{SegmentReference, References}
use shaka_player_embedded.Media.SegmentIndex.Merge.{Chain, IsValid}
use shaka_player_embedded.Media.Timeline.{
  PresentationTimeline, or_zero, min_option, notify_min_segment_start_time, longest, last_end,
  notify_segments, correct_drift, corrected_start, get_live_edge,
}

abbrev pub length_of : SegmentReference → ℤ
length_of r = r.end_time -ℤ r.start_time

longest-ge : (m : ℤ) (rs : References) → m ≤ℤ longest m rs
unfolding longest
longest-ge m [] = omega arith
longest-ge m (r ∷ rs) = ground (arith, longest-ge (max_ℤ m (length_of r)) rs)

longest_bound : (m : ℤ) (rs : References) → All (λ r. length_of r ≤ℤ longest m rs) rs
unfolding longest
longest_bound m [] = tt
longest_bound m (r ∷ rs) = (
  ground (arith, longest-ge (max_ℤ m (length_of r)) rs),
  longest_bound (max_ℤ m (length_of r)) rs,
)

longest_of_bound : (m : ℤ) (rs : References) → All (λ r. length_of r ≤ℤ m) rs → longest m rs ≡ m
unfolding longest
longest_of_bound m [] h = refl
longest_of_bound m (r ∷ rs) (k, h) = elim (ltb_ℤ-cases m (length_of r)) [
  | inl (t, l) ↦ absurd (omega arith)
  | inr (t, l) ↦ rw t (longest_of_bound m rs h)
]

drift : (n c e m : ℤ) → n +ℤ c -ℤ m -ℤ (n +ℤ c -ℤ e -ℤ m) ≡ e
drift n c e m = omega int_laws

edge-correct_drift :
    (now : ℤ) (u : PresentationTimeline) {s : ℤ}
    → u.presentation_start_time ≡ some s
    → u.auto_correct_drift ≡ true
    → get_live_edge now (correct_drift now u) ≡ max_ℤ (pos 0) (or_zero u.max_segment_end_time)
unfolding get_live_edge
edge-correct_drift now u h k =
    rw (h, k, drift now u.clock_offset (or_zero u.max_segment_end_time) u.max_segment_duration)

corrected_twice :
    (now : ℤ) (u : PresentationTimeline)
    → corrected_start now (record u { presentation_start_time = corrected_start now u })
      ≡ corrected_start now u
corrected_twice now u = ground arith

correct_drift_twice :
    (now : ℤ) (u : PresentationTimeline)
    → correct_drift now (correct_drift now u) ≡ correct_drift now u
correct_drift_twice now u = λ i. record u { presentation_start_time = corrected_twice now u i }

max_twice : (a b : ℤ) → max_ℤ (max_ℤ a b) b ≡ max_ℤ a b
max_twice a b = ground arith

min_twice : (m : Option ℤ) (a : ℤ) → min_ℤ (min_option m a) a ≡ min_option m a
min_twice m a = ground arith

Chain-start :
    (m b : ℤ) (r : SegmentReference) (rs : References)
    → m ≤ℤ r.start_time +ℤ b
    → Chain r rs
    → All (λ q. m ≤ℤ q.start_time +ℤ b) rs
Chain-start m b r [] h c = tt
Chain-start m b r (q ∷ qs) h c =
    let k : m ≤ℤ q.start_time +ℤ b =
      omega (arith, +ℤ_parts r.start_time b, +ℤ_parts q.start_time b) in
    (k, Chain-start m b q qs k c.3)

module _ (now period_start : ℤ) (r : SegmentReference) (rs : References)
    (t : PresentationTimeline) where
  abbrev noted : PresentationTimeline
  noted = notify_segments now (r ∷ rs) period_start t

  -- Where the start time is known and drift is corrected, the live edge that is computed at the same
  -- moment is the end of the last known segment, or 0 if that is negative.
  pub get_live_edge-notify_segments :
      {s : ℤ}
      → t.presentation_start_time ≡ some s
      → t.auto_correct_drift ≡ true
      → get_live_edge now noted ≡ max_ℤ (pos 0) (or_zero noted.max_segment_end_time)
  unfolding notify_segments
  get_live_edge-notify_segments h k = edge-correct_drift now _ h k

  -- The noted bounds take in every segment of a valid list: none starts before the noted start, is
  -- longer than the noted duration, or ends, if it is the last, after the noted end.
  pub notify_segments_bounds :
      IsValid (r ∷ rs)
      → All (λ q. or_zero noted.min_segment_start_time ≤ℤ q.start_time +ℤ period_start) (r ∷ rs)
        × All (λ q. length_of q ≤ℤ noted.max_segment_duration) (r ∷ rs)
        × (last_end r rs +ℤ period_start ≤ℤ or_zero noted.max_segment_end_time)
  unfolding notify_segments notify_min_segment_start_time
  notify_segments_bounds v = (
    (
      ground arith,
      Chain-start (or_zero noted.min_segment_start_time) period_start r rs (ground arith) v.1,
    ),
    longest_bound t.max_segment_duration (r ∷ rs),
    ground arith,
  )

  -- Noting the same segments again at the same moment changes nothing.
  pub notify_segments_idempotent : notify_segments now (r ∷ rs) period_start noted ≡ noted
  unfolding notify_segments notify_min_segment_start_time
  notify_segments_idempotent =
      rw
        (
          longest_of_bound (longest t.max_segment_duration (r ∷ rs)) (r ∷ rs)
              (longest_bound t.max_segment_duration (r ∷ rs)),
          max_twice (or_zero t.max_segment_end_time) (last_end r rs +ℤ period_start),
          min_twice t.min_segment_start_time (r.start_time +ℤ period_start),
        )
        (correct_drift_twice now _)
