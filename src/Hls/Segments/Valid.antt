-- ===== src/Hls/Segments/Valid.antt =====
-- That the segments which class `HlsParser` (shaka/js/shaka-player.compiled.debug.js) makes of a playlist are
-- what class `SegmentIndex` expects.
use Prim.Native.String.{String}
use mathlib.Core.Path.{subst}
use shaka_player_embedded.Base.{
  ℕ, suc, ◌≡◌, refl, sym, ap, ◌∙◌, Option, none, some, List, [], ◌∷◌, Text, All, ℤ, pos, ◌+ℤ◌, ◌<ℤ◌,
  int_laws,
}
use shaka_player_embedded.Media.SegmentIndex.{SegmentReference, References}
use shaka_player_embedded.Media.SegmentIndex.Merge.{IsValid}
use shaka_player_embedded.Hls.Tags.{Tag}
use shaka_player_embedded.Hls.Playlist.{Segment, PlaylistType}
use shaka_player_embedded.Hls.Required.{Outcome, done, fail, ◌>>=◌}
use shaka_player_embedded.Hls.Segments.{
  InitSegmentReference, create_init_segment_reference, from_start, create_segments, duration_of,
  reference_of, create_segment_reference, segments_from,
}

grows : (a d : ℤ) → pos 0 <ℤ d → a <ℤ a +ℤ d
grows a d h = omega int_laws

module _ (seconds : Text → ℤ) (integer : Text → ℕ) (string_of : Text → String) where
  -- A duration, where there is one, is positive.
  abbrev pub IsPositive : Outcome ℤ → Type 0
  IsPositive (done d) = pos 0 <ℤ d
  IsPositive (fail error) = Unit

  -- What one segment makes.
  abbrev pub Made : ℕ → ℤ → Outcome SegmentReference → Type 0
  Made position start (fail error) = Unit
  Made position start (done r) =
      (r.position ≡ position) × (r.start_time ≡ start) × (r.start_time <ℤ r.end_time)

  reference_of-Made :
      (uri : Text) (position : ℕ) (start : ℤ) (o : Outcome ℤ) (range : Outcome (ℕ × Option ℕ))
      → IsPositive o
      → Made position start (
          o >>= λ d.
          range >>= λ q. done (reference_of seconds integer string_of uri position start d q))
  reference_of-Made uri position start (fail error) range h = tt
  reference_of-Made uri position start (done d) (fail error) h = tt
  reference_of-Made uri position start (done d) (done q) h = (refl, refl, grows start d h)

  create_segment_reference-Made :
      (previous : Option SegmentReference) (s : Segment) (position : ℕ) (start : ℤ)
      → IsPositive (duration_of seconds integer string_of s)
      → Made position start
          (create_segment_reference seconds integer string_of previous s position start)
  unfolding create_segment_reference
  create_segment_reference-Made previous s position start h =
      reference_of-Made s.absolute_uri position start (duration_of seconds integer string_of s) _ h

  -- The references that follow one at `position`, which ends at `start`.
  abbrev Follows : ℕ → ℤ → Outcome References → Type 0
  Follows position start (fail error) = Unit
  Follows position start (done []) = Unit
  Follows position start (done (r ∷ rs)) =
      (r.position ≡ position) × (r.start_time ≡ start) × IsValid (r ∷ rs)

  cons-Follows :
      (position : ℕ) (start : ℤ) (r : SegmentReference) (o : Outcome References)
      → Made position start (done r)
      → Follows (suc position) r.end_time o
      → Follows position start (o >>= λ rs. done (r ∷ rs))
  cons-Follows position start r (fail error) h k = tt
  cons-Follows position start r (done []) h k = (h.0, h.1, (h.2, tt))
  cons-Follows position start r (done (s ∷ rs)) (p, q, l) (p1, q1, v) =
      (p, q, (l, (p1 ∙ ap suc (sym p), rw q1 l, v.0, v.1)))

  segments_from-Follows :
      (previous : Option SegmentReference) (position : ℕ) (start : ℤ) (ss : List Segment)
      → All (λ s. IsPositive (duration_of seconds integer string_of s)) ss
      → Follows position start (segments_from seconds integer string_of previous position start ss)
  unfolding segments_from
  segments_from-Follows previous position start [] h = tt
  segments_from-Follows previous position start (s ∷ ss) (h, hs) =
      from_made (create_segment_reference seconds integer string_of previous s position start)
        (create_segment_reference-Made previous s position start h)
        (λ r. segments_from-Follows (some r) (suc position) r.end_time ss hs)
    where
      from_made :
          (o : Outcome SegmentReference)
          → Made position start o
          → ((r : SegmentReference)
              → Follows
                  (suc position)
                  r.end_time
                  (segments_from seconds integer string_of (some r) (suc position) r.end_time ss))
          → Follows position start (
              o >>= λ r.
              segments_from seconds integer string_of (some r) (suc position) r.end_time ss
              >>= λ rs. done (r ∷ rs))
      from_made (fail error) m rest = tt
      from_made (done r) m rest = cons-Follows position start r _ m (rest r)

  Follows-IsValid :
      (position : ℕ) (start : ℤ) (rs : References) → Follows position start (done rs) → IsValid rs
  Follows-IsValid position start [] k = tt
  Follows-IsValid position start (r ∷ rs) k = k.2

  -- An outcome, if it is one, is valid.
  abbrev Sound : Outcome References → Type 0
  Sound (fail error) = Unit
  Sound (done rs) = IsValid rs

  Follows-Sound :
      (position : ℕ) (start : ℤ) (o : Outcome References) → Follows position start o → Sound o
  Follows-Sound position start (fail error) k = tt
  Follows-Sound position start (done rs) k = Follows-IsValid position start rs k

  module _ (absolute : Text → Text)
      (find_start : Option InitSegmentReference → SegmentReference → Outcome ℤ) (position : ℕ)
      (s : Segment) (rest : List Segment)
      (h : All (λ t. IsPositive (duration_of seconds integer string_of t)) (s ∷ rest)) where
    segments_from-Sound :
        (o : Outcome ℤ)
        → Sound (o >>= λ t. segments_from seconds integer string_of none position t (s ∷ rest))
    segments_from-Sound (fail error) = tt
    segments_from-Sound (done t) =
        Follows-Sound position t _ (segments_from-Follows none position t (s ∷ rest) h)

    from_start-Sound :
        (r : SegmentReference) (o : Outcome (Option InitSegmentReference))
        → Sound (
            o >>= λ init.
            from_start seconds integer string_of find_start init position (s ∷ rest) r)
    from_start-Sound r (fail error) = tt
    from_start-Sound r (done init) = segments_from-Sound (find_start init r)

    create_segment_reference-Sound :
        (tags : List Tag) (o : Outcome SegmentReference)
        → Sound (
            o >>= λ r.
            create_init_segment_reference seconds integer string_of absolute tags >>= λ init.
            from_start seconds integer string_of find_start init position (s ∷ rest) r)
    create_segment_reference-Sound tags (fail error) = tt
    create_segment_reference-Sound tags (done r) =
        from_start-Sound r (create_init_segment_reference seconds integer string_of absolute tags)

  -- Where every duration in the segments of a playlist is positive, the references that are made of
  -- them make a valid index: the positions follow one another and the start times increase strictly.
  pub create_segments-IsValid :
      (absolute : Text → Text)
      (find_start : Option InitSegmentReference → SegmentReference → Outcome ℤ) (uri : Text)
      (k : PlaylistType) (tags : List Tag) (ss : List Segment) (position : ℕ) (rs : References)
      → All (λ t. IsPositive (duration_of seconds integer string_of t)) ss
      → create_segments seconds integer string_of absolute find_start
          (record { absolute_uri = uri; playlist_type = k; tags = tags; segments = some ss })
          position
        ≡ done rs
      → IsValid rs
  unfolding create_segments
  create_segments-IsValid absolute find_start uri k tags [] position rs h q = subst Sound q tt
  create_segments-IsValid absolute find_start uri k tags (s ∷ rest) position rs h q =
      subst Sound q (
        create_segment_reference-Sound absolute find_start position s rest h tags
          (create_segment_reference seconds integer string_of none s position (pos 0)))
