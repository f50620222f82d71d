-- ===== src/Playback/Regions.antt =====
-- Classes `RegionTimeline` and `RegionObserver` (shaka/js/shaka-player.compiled.debug.js): the timed
-- metadata of the manifest, and the events when the playhead enters, leaves or skips a region.
pub mod Distinct
use Prim.Native.String.{String}
use text.Mathlib.Text.{◌==◌ as str_eq}
use shaka_player_embedded.Base.{
  ℕ, ◌≡◌, refl, ◌==◌, Bool, true, false, not, ◌&&◌, Option, none, some, List, [], ◌∷◌, ◌++◌,
  if◌then◌else◌, All, ℤ, ltb_ℤ, ◌==ℤ◌,
}

-- `object` tells the objects apart, as the keys of a Map or the members of a Set do.
pub record Region : Type 0 where
  pub object : ℕ
  pub scheme_id_uri : String
  pub id : String
  pub start_time : ℤ
  pub end_time : ℤ

unfoldable pub is_similar : Region → Region → Bool
is_similar c a =
    str_eq c.scheme_id_uri a.scheme_id_uri
    && str_eq c.id a.id
    && c.start_time ==ℤ a.start_time
    && c.end_time ==ℤ a.end_time

unfoldable pub find_similar_region : Region → List Region → Option Region
find_similar_region a [] = none
find_similar_region a (c ∷ rs) = if is_similar c a then some c else find_similar_region a rs

abbrev pub add_if_new : Option Region → Region → List Region → List Region × Bool
add_if_new none a rs = (rs ++ a ∷ [], true)
add_if_new (some c) a rs = (rs, false)

-- `addRegion`: the regions, and whether the listener is told of a new one.
unfoldable pub add_region : Region → List Region → List Region × Bool
add_region a rs = add_if_new (find_similar_region a rs) a rs

-- `filterBySeekRange_`, with the start of the seek range.
unfoldable pub filter_by_seek_range : ℤ → List Region → List Region
filter_by_seek_range start [] = []
filter_by_seek_range start (r ∷ rs) =
    let rest = filter_by_seek_range start rs in if ltb_ℤ r.end_time start then rest else r ∷ rest

pub data RelativePosition : Type 0 where
  before_the_region in_the_region after_the_region : RelativePosition

unfoldable pub determine_position_relative_to : Region → ℤ → RelativePosition
determine_position_relative_to r t =
    if ltb_ℤ t r.start_time
    then before_the_region
    else if ltb_ℤ r.end_time t
    then after_the_region
    else in_the_region

pub data Event : Type 0 where
  enter exit skip : Event

-- `weWere` is null in the first rule, which a region that was not seen yet meets too.
pub record Rule : Type 0 where
  pub we_were : Option RelativePosition
  pub we_are : RelativePosition
  pub invoke : Event

abbrev pub rule : Option RelativePosition → RelativePosition → Event → Rule
rule f g e = record { we_were = f; we_are = g; invoke = e }

abbrev pub rules : List Rule
rules =
    rule none in_the_region enter
    ∷ rule (some before_the_region) in_the_region enter
    ∷ rule (some after_the_region) in_the_region enter
    ∷ rule (some in_the_region) before_the_region exit
    ∷ rule (some in_the_region) after_the_region exit
    ∷ rule (some before_the_region) after_the_region skip
    ∷ rule (some after_the_region) before_the_region skip
    ∷ []

abbrev pub same_position : RelativePosition → RelativePosition → Bool
same_position before_the_region before_the_region = true
same_position in_the_region in_the_region = true
same_position after_the_region after_the_region = true
same_position _ _ = false

abbrev pub same_option : Option RelativePosition → Option RelativePosition → Bool
same_option none none = true
same_option (some f) (some g) = same_position f g
same_option _ _ = false

-- The inner loop of `poll`: the listeners that are called.
unfoldable pub invoked : Option RelativePosition → RelativePosition → List Rule → List Event
invoked f g [] = []
invoked f g (k ∷ ks) =
    let rest = invoked f g ks in
    if same_option k.we_were f && same_position k.we_are g then k.invoke ∷ rest else rest

-- `oldPosition_`, a Map by object.
abbrev pub Positions : Type 0
Positions = List (ℕ × RelativePosition)

unfoldable pub get : ℕ → Positions → Option RelativePosition
get k [] = none
get k ((j, p) ∷ m) = if j == k then some p else get k m

unfoldable pub set : ℕ → RelativePosition → Positions → Positions
set k p m = (k, p) ∷ m

abbrev pub tell : Region → List Event → List (Region × Event)
tell r [] = []
tell r (e ∷ es) = (r, e) ∷ tell r es

-- `poll(position)`: the positions it notes, and the listeners it calls with each region.
unfoldable pub poll : ℤ → List Region → Positions → Positions × List (Region × Event)
poll t [] m = (m, [])
poll t (r ∷ rs) m =
    let g = determine_position_relative_to r t in
    let rest = poll t rs (set r.object g m) in
    (rest.0, tell r (invoked (get r.object m) g rules) ++ rest.1)

-- What the listeners should be told, from the two positions alone.
abbrev pub is_inside : Option RelativePosition → Bool
is_inside (some in_the_region) = true
is_inside _ = false

abbrev pub is_crossing : Option RelativePosition → RelativePosition → Bool
is_crossing (some before_the_region) after_the_region = true
is_crossing (some after_the_region) before_the_region = true
is_crossing _ _ = false

abbrev pub expected : Option RelativePosition → RelativePosition → List Event
expected f g =
    if not (is_inside f) && is_inside (some g)
    then enter ∷ []
    else if is_inside f && not (is_inside (some g))
    then exit ∷ []
    else if is_crossing f g
    then skip ∷ []
    else []

-- The table of rules calls exactly one listener when the playhead comes into a region, leaves it or
-- passes over it between two polls, and none otherwise.
pub invoked-expected :
    (f : Option RelativePosition) (g : RelativePosition) → invoked f g rules ≡ expected f g
unfolding invoked
invoked-expected none before_the_region = refl
invoked-expected none in_the_region = refl
invoked-expected none after_the_region = refl
invoked-expected (some before_the_region) before_the_region = refl
invoked-expected (some before_the_region) in_the_region = refl
invoked-expected (some before_the_region) after_the_region = refl
invoked-expected (some in_the_region) before_the_region = refl
invoked-expected (some in_the_region) in_the_region = refl
invoked-expected (some in_the_region) after_the_region = refl
invoked-expected (some after_the_region) before_the_region = refl
invoked-expected (some after_the_region) in_the_region = refl
invoked-expected (some after_the_region) after_the_region = refl
