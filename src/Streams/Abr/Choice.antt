-- ===== src/Streams/Abr/Choice.antt =====
-- Which variant `chooseVariant` picks.
use shaka_player_embedded.Base.{
  ℕ, ◌*◌, ◌≤◌, ltb, ◌≡◌, refl, ◌⊎◌, inl, inr, Bool, true, false, Option, none, some, List, [], ◌∷◌,
  head?, to_list, is_empty, All, if◌then◌else◌, Bool-cases, arith,
}
use shaka_player_embedded.Streams.Types.{Variant}
use shaka_player_embedded.Streams.Abr.{
  Config, SimpleAbrManager, insert, sort, filter_and_sort_variants, allowed, candidates, fits,
  choose_from, choose_variant,
}

abbrev IsLowest : Variant → List Variant → Type 0
IsLowest v vs = All (λ w. v.bandwidth ≤ w.bandwidth) vs

abbrev IsSorted : List Variant → Type 0
IsSorted [] = Unit
IsSorted (v ∷ vs) = IsLowest v vs × IsSorted vs

lower-IsLowest :
    (v w : Variant) (vs : List Variant) → v.bandwidth ≤ w.bandwidth → IsLowest w vs → IsLowest v vs
lower-IsLowest v w [] l h = tt
lower-IsLowest v w (u ∷ vs) l (p, h) = (omega arith, lower-IsLowest v w vs l h)

insert-IsLowest :
    (w v : Variant) (vs : List Variant)
    → w.bandwidth ≤ v.bandwidth
    → IsLowest w vs
    → IsLowest w (insert v vs)
unfolding insert
insert-IsLowest w v [] l h = (l, tt)
insert-IsLowest w v (u ∷ vs) l (p, h) = elim (Bool-cases (ltb u.bandwidth v.bandwidth)) [
  | inl e ↦ rw e (p, insert-IsLowest w v vs l h)
  | inr e ↦ rw e (l, (p, h))
]

insert-IsSorted : (v : Variant) (vs : List Variant) → IsSorted vs → IsSorted (insert v vs)
unfolding insert
insert-IsSorted v [] h = (tt, tt)
insert-IsSorted v (u ∷ vs) (p, h) = elim (Bool-cases (ltb u.bandwidth v.bandwidth)) [
  | inl e ↦ rw e (insert-IsLowest u v vs (ground arith) p, insert-IsSorted v vs h)
  | inr e ↦
      let l : v.bandwidth ≤ u.bandwidth = ground arith in
      rw e ((l, lower-IsLowest v u vs l p), (p, h))
]

sort-IsSorted : (vs : List Variant) → IsSorted (sort vs)
unfolding sort
sort-IsSorted [] = tt
sort-IsSorted (v ∷ vs) = insert-IsSorted v (sort vs) (sort-IsSorted vs)

single-IsSorted : (o : Option Variant) → IsSorted (to_list o)
single-IsSorted none = tt
single-IsSorted (some v) = (tt, tt)

if-IsSorted :
    (b : Bool) (vs ws : List Variant) → IsSorted vs → IsSorted ws → IsSorted (if b then vs else ws)
if-IsSorted true vs ws h k = h
if-IsSorted false vs ws h k = k

candidates-IsSorted : (c : Config) (vs : List Variant) → IsSorted (candidates c vs)
unfolding candidates filter_and_sort_variants
candidates-IsSorted c vs =
    let b = filter_and_sort_variants (some c.restrictions) vs in
    let all = filter_and_sort_variants none vs in
    if-IsSorted (is_empty b) (to_list (head? all)) b (single-IsSorted (head? all))
      (sort-IsSorted (allowed (some c.restrictions) vs))

-- A choice that the estimate carries, or the lowest of the candidates.
abbrev pub IsChoice : Config → ℕ → List Variant → Variant → Type 0
IsChoice c estimate vs v =
    (v.bandwidth * 1000 ≤ estimate * c.bandwidth_downgrade_target) ⊎ IsLowest v vs

-- The loop starts from a choice, and each variant that it takes is one.
choose_from-IsChoice :
    (c : Config) (estimate : ℕ) (all : List Variant) (u : Variant) (vs : List Variant)
    → IsChoice c estimate all u
    → (v : Variant) × (choose_from c estimate (some u) vs ≡ some v) × IsChoice c estimate all v
unfolding choose_from
choose_from-IsChoice c estimate all u [] h = (u, refl, h)
choose_from-IsChoice c estimate all u (w ∷ vs) h =
    elim (Bool-cases (fits c estimate w (head? vs))) [
      | inl f ↦
          let (v, e, k) = choose_from-IsChoice c estimate all w vs (inl (ground arith)) in
          (v, rw f e, k)
      | inr f ↦ let (v, e, k) = choose_from-IsChoice c estimate all u vs h in (v, rw f e, k)
    ]

from_first :
    (c : Config) (estimate : ℕ) (b : List Variant)
    → IsSorted b
    → is_empty b ≡ false
    → (v : Variant) × (choose_from c estimate (head? b) b ≡ some v) × IsChoice c estimate b v
from_first c estimate [] s n = cc
from_first c estimate (w ∷ b) s n =
    choose_from-IsChoice c estimate (w ∷ b) w (w ∷ b) (inr (omega arith, s.0))

insert-not_empty : (v : Variant) (vs : List Variant) → is_empty (insert v vs) ≡ false
unfolding insert
insert-not_empty v [] = refl
insert-not_empty v (w ∷ ws) = elim (Bool-cases (ltb w.bandwidth v.bandwidth)) [
  | inl e ↦ rw e
  | inr e ↦ rw e
]

head_not_empty : (vs : List Variant) → is_empty vs ≡ false → is_empty (to_list (head? vs)) ≡ false
head_not_empty [] h = h
head_not_empty (v ∷ vs) h = refl

sort-not_empty : (vs : List Variant) → is_empty vs ≡ false → is_empty (sort vs) ≡ false
unfolding sort
sort-not_empty [] h = h
sort-not_empty (v ∷ vs) h = insert-not_empty v (sort vs)

if_not_empty :
    (b all : List Variant)
    → is_empty all ≡ false
    → is_empty (if is_empty b then to_list (head? all) else b) ≡ false
if_not_empty [] all h = head_not_empty all h
if_not_empty (v ∷ b) all h = refl

candidates-not_empty :
    (c : Config) (vs : List Variant) → is_empty vs ≡ false → is_empty (candidates c vs) ≡ false
unfolding candidates filter_and_sort_variants
candidates-not_empty c vs h =
    if_not_empty (sort (allowed (some c.restrictions) vs)) (sort vs) (sort-not_empty vs h)

-- With any variant at all, one is chosen. The estimate carries it, at the downgrade target, or it has
-- the lowest bandwidth of the candidates.
pub choose_variant-IsChoice :
    (now estimate : ℕ) (m : SimpleAbrManager)
    → is_empty m.variants ≡ false
    → (v : Variant) × ((choose_variant now estimate m).1 ≡ some v)
      × IsChoice m.config estimate (candidates m.config m.variants) v
unfolding choose_variant
choose_variant-IsChoice now estimate m h =
    from_first m.config estimate (candidates m.config m.variants)
      (candidates-IsSorted m.config m.variants) (candidates-not_empty m.config m.variants h)
