-- ===== src/Playback/Regions/Distinct.antt =====
-- Similar regions in a `RegionTimeline`, as regions are added and filtered.
use shaka_player_embedded.Base.{
  ◌≡◌, refl, Bool, true, false, Option, none, some, List, [], ◌∷◌, ◌++◌, if◌then◌else◌, All, ℤ,
  ltb_ℤ,
}
use shaka_player_embedded.Playback.Regions.{
  Region, is_similar, find_similar_region, add_if_new, add_region, filter_by_seek_range,
}

-- No two regions of the list are similar.
abbrev pub IsDistinct : List Region → Type 0
IsDistinct [] = Unit
IsDistinct (r ∷ rs) = All (λ q. is_similar r q ≡ false) rs × IsDistinct rs

else_none :
    (b : Bool) (c : Region) (o : Option Region)
    → (if b then some c else o) ≡ none
    → (b ≡ false) × (o ≡ none)
else_none true c o h = cc
else_none false c o h = (refl, h)

find_similar_region-none :
    (a : Region) (rs : List Region)
    → find_similar_region a rs ≡ none
    → All (λ q. is_similar q a ≡ false) rs
unfolding find_similar_region
find_similar_region-none a [] h = tt
find_similar_region-none a (c ∷ rs) h =
    let (e, k) = else_none (is_similar c a) c (find_similar_region a rs) h in
    (e, find_similar_region-none a rs k)

snoc-All :
    (p : Region) (a : Region) (rs : List Region)
    → All (λ q. is_similar p q ≡ false) rs
    → is_similar p a ≡ false
    → All (λ q. is_similar p q ≡ false) (rs ++ a ∷ [])
snoc-All p a [] h e = (e, tt)
snoc-All p a (r ∷ rs) (f, h) e = (f, snoc-All p a rs h e)

snoc-IsDistinct :
    (a : Region) (rs : List Region)
    → IsDistinct rs
    → All (λ q. is_similar q a ≡ false) rs
    → IsDistinct (rs ++ a ∷ [])
snoc-IsDistinct a [] d h = (tt, tt)
snoc-IsDistinct a (r ∷ rs) (p, d) (e, h) = (snoc-All r a rs p e, snoc-IsDistinct a rs d h)

add_region-IsDistinct :
    (a : Region) (rs : List Region) → IsDistinct rs → IsDistinct (add_region a rs).0
unfolding add_region
add_region-IsDistinct a rs d = go (find_similar_region a rs) refl
  where
    go : (o : Option Region) → find_similar_region a rs ≡ o → IsDistinct (add_if_new o a rs).0
    go none e = snoc-IsDistinct a rs d (find_similar_region-none a rs e)
    go (some c) e = d

if-All :
    (P : Region → Type 0) (b : Bool) (r : Region) (rs : List Region)
    → P r
    → All P rs
    → All P (if b then rs else r ∷ rs)
if-All P true r rs p h = h
if-All P false r rs p h = (p, h)

filter_by_seek_range-All :
    (P : Region → Type 0) (s : ℤ) (rs : List Region) → All P rs → All P (filter_by_seek_range s rs)
unfolding filter_by_seek_range
filter_by_seek_range-All P s [] h = tt
filter_by_seek_range-All P s (r ∷ rs) (p, h) =
    if-All P (ltb_ℤ r.end_time s) r (filter_by_seek_range s rs) p
      (filter_by_seek_range-All P s rs h)

if-IsDistinct :
    (b : Bool) (r : Region) (rs : List Region)
    → IsDistinct (r ∷ rs)
    → IsDistinct (if b then rs else r ∷ rs)
if-IsDistinct true r rs d = d.1
if-IsDistinct false r rs d = d

filter_by_seek_range-IsDistinct :
    (s : ℤ) (rs : List Region) → IsDistinct rs → IsDistinct (filter_by_seek_range s rs)
unfolding filter_by_seek_range
filter_by_seek_range-IsDistinct s [] d = tt
filter_by_seek_range-IsDistinct s (r ∷ rs) (p, d) =
    if-IsDistinct (ltb_ℤ r.end_time s) r (filter_by_seek_range s rs) (
      filter_by_seek_range-All (λ q. is_similar r q ≡ false) s rs p,
      filter_by_seek_range-IsDistinct s rs d,
    )

-- What happens to a timeline: the parser adds a region, or the timer filters by the seek range.
pub data Step : Type 0 where
  add : Region → Step
  filter : ℤ → Step

abbrev pub run : List Step → List Region → List Region
run [] rs = rs
run (add a ∷ ss) rs = run ss (add_region a rs).0
run (filter s ∷ ss) rs = run ss (filter_by_seek_range s rs)

-- However regions are added and filtered, the timeline never holds two similar regions.
pub run-IsDistinct : (ss : List Step) (rs : List Region) → IsDistinct rs → IsDistinct (run ss rs)
run-IsDistinct [] rs d = d
run-IsDistinct (add a ∷ ss) rs d = run-IsDistinct ss _ (add_region-IsDistinct a rs d)
run-IsDistinct (filter s ∷ ss) rs d = run-IsDistinct ss _ (filter_by_seek_range-IsDistinct s rs d)
