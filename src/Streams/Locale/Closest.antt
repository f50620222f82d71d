-- ===== src/Streams/Locale/Closest.antt =====
-- Which locale `findClosestLocale` picks.
use shaka_player_embedded.Base.{
  ℕ, suc, ◌≤◌, ◌<◌, ◌≡◌, refl, ◌⊎◌, inl, inr, Bool, true, false, Option, none, some, List, [], ◌∷◌,
  get_elem?, map, if◌then◌else◌, Bool-cases, All, arith, Text, same_text,
}
use shaka_player_embedded.Streams.Locale.{
  is_parent_of, is_sibling_of, find_by, otherwise, closest, normalize, find_closest_locale,
}

-- How far a locale is from the wanted one: 0 is the same, 1 its language alone, 2 another region of the
-- language, 3 a region where only the language is wanted, and 4 unrelated.
unfoldable pub distance : Text → Text → ℕ
distance d g =
    if same_text g d
    then 0
    else if is_parent_of g d
    then 1
    else if is_sibling_of g d
    then 2
    else if is_parent_of d g
    then 3
    else 4

data Has {ℓ} {A : Type ℓ} (a : A) : List A → Type ℓ where
  here : (xs : List A) → Has a (a ∷ xs)
  there : (b : A) (xs : List A) → Has a xs → Has a (b ∷ xs)

All-of {ℓ} : {A : Type ℓ} (P : A → Type 0) (xs : List A) → ((a : A) → Has a xs → P a) → All P xs
All-of P [] f = tt
All-of P (a ∷ xs) f = (f a (here xs), All-of P xs (λ b h. f b (there a xs h)))

-- What a loop answers: nothing, when no member passes, or a member that does.
abbrev Fails : (Text → Bool) → List Text → Type 0
Fails f gs = (g : Text) → Has g gs → f g ≡ false

Fails-cons :
    (f : Text → Bool) (g : Text) (gs : List Text) → f g ≡ false → Fails f gs → Fails f (g ∷ gs)
Fails-cons f g gs e k _ (here _) = e
Fails-cons f g gs e k h (there _ _ i) = k h i

Fails-nil : (f : Text → Bool) → Fails f []
Fails-nil f g h = elim h [ ]

find_by-cases :
    (f : Text → Bool) (gs : List Text)
    → (find_by f gs ≡ none) × Fails f gs
      ⊎ ((g : Text) × (find_by f gs ≡ some g) × (f g ≡ true) × Has g gs)
unfolding find_by
find_by-cases f [] = inl (refl, Fails-nil f)
find_by-cases f (g ∷ gs) = elim (Bool-cases (f g)) [
  | inl e ↦ inr (g, rw e, e, here gs)
  | inr e ↦ elim (find_by-cases f gs) [
    | inl (k, a) ↦ inl (rw (e, k), Fails-cons f g gs e a)
    | inr (h, k, m, i) ↦ inr (h, rw (e, k), m, there g gs i)
  ]
]

-- A locale of the list that is as near as any, if any is related to the wanted one.
abbrev pub IsClosest : Text → List Text → Option Text → Type 0
IsClosest d gs none = All (λ h. distance d h ≡ 4) gs
IsClosest d gs (some g) =
    (distance d g < 4)
    × All (λ h. distance d g ≤ distance d h) gs
    × ((i : ℕ) × (get_elem? gs i ≡ some g))

index_of {ℓ} : {A : Type ℓ} {a : A} {xs : List A} → Has a xs → (i : ℕ) × (get_elem? xs i ≡ some a)
index_of (here xs) = (0, refl)
index_of (there b xs h) = let (i, e) = index_of h in (suc i, e)

near :
    (d : Text) (gs : List Text) (n : ℕ) (g : Text)
    → n < 4
    → distance d g ≤ n
    → Has g gs
    → ((h : Text) → Has h gs → n ≤ distance d h)
    → IsClosest d gs (some g)
near d gs n g l m i f = (
  omega arith,
  All-of (λ h. distance d g ≤ distance d h) gs (λ h k. omega (arith, f h k)),
  index_of i,
)

module _ (d g : Text) where
  at_most_0 : same_text g d ≡ true → distance d g ≤ 0
  unfolding distance
  at_most_0 e = ground arith

  at_most_1 : is_parent_of g d ≡ true → distance d g ≤ 1
  unfolding distance
  at_most_1 e = ground arith

  at_most_2 : is_sibling_of g d ≡ true → distance d g ≤ 2
  unfolding distance
  at_most_2 e = ground arith

  at_most_3 : is_parent_of d g ≡ true → distance d g ≤ 3
  unfolding distance
  at_most_3 e = ground arith

  at_least_1 : same_text g d ≡ false → 1 ≤ distance d g
  unfolding distance
  at_least_1 e = ground arith

  at_least_2 : same_text g d ≡ false → is_parent_of g d ≡ false → 2 ≤ distance d g
  unfolding distance
  at_least_2 e f = ground arith

  at_least_3 :
      same_text g d ≡ false
      → is_parent_of g d ≡ false
      → is_sibling_of g d ≡ false
      → 3 ≤ distance d g
  unfolding distance
  at_least_3 e f h = ground arith

  unrelated :
      same_text g d ≡ false
      → is_parent_of g d ≡ false
      → is_sibling_of g d ≡ false
      → is_parent_of d g ≡ false
      → distance d g ≡ 4
  unfolding distance
  unrelated e f h k = ground arith

module _ (d : Text) (gs : List Text) (f0 : Fails (λ g. same_text g d) gs) where
  after_parents :
      Fails (λ g. is_parent_of g d) gs
      → IsClosest d gs
          (otherwise (find_by (λ g. is_sibling_of g d) gs) (find_by (λ g. is_parent_of d g) gs))
  after_parents f1 = elim (find_by-cases (λ g. is_sibling_of g d) gs) [
    | inr (g, e, m, i) ↦
        rw e (
          near d gs 2 g (omega arith) (at_most_2 d g m) i (λ h k. at_least_2 d h (f0 h k) (f1 h k)))
    | inl (e, f2) ↦ rw e (elim (find_by-cases (λ g. is_parent_of d g) gs) [
      | inr (g, e', m, i) ↦ rw e' (
          near d gs 3 g (omega arith) (at_most_3 d g m) i
            (λ h k. at_least_3 d h (f0 h k) (f1 h k) (f2 h k)))
      | inl (e', f3) ↦ rw e' (
          All-of (λ h. distance d h ≡ 4) gs
            (λ h k. unrelated d h (f0 h k) (f1 h k) (f2 h k) (f3 h k)))
    ])
  ]

  after_same : IsClosest d gs (
      otherwise
        (find_by (λ g. is_parent_of g d) gs)
        (otherwise (find_by (λ g. is_sibling_of g d) gs) (find_by (λ g. is_parent_of d g) gs)))
  after_same = elim (find_by-cases (λ g. is_parent_of g d) gs) [
    | inr (g, e, m, i) ↦
        rw e (near d gs 1 g (omega arith) (at_most_1 d g m) i (λ h k. at_least_1 d h (f0 h k)))
    | inl (e, f1) ↦ rw e (after_parents f1)
  ]

closest-IsClosest : (d : Text) (gs : List Text) → IsClosest d gs (closest d gs)
unfolding closest
closest-IsClosest d gs = elim (find_by-cases (λ g. same_text g d) gs) [
  | inr (g, e, m, i) ↦ rw e (near d gs 0 g (omega arith) (at_most_0 d g m) i (λ h k. omega arith))
  | inl (e, f0) ↦ rw e (after_same d gs f0)
]

-- The locale that is picked is a member of the normalized list, is related to the wanted one, and no
-- member is nearer to it. None is picked when every member is unrelated.
pub find_closest_locale-IsClosest :
    (a : Text) (b : List Text) → IsClosest (normalize a) (map normalize b) (find_closest_locale a b)
unfolding find_closest_locale
find_closest_locale-IsClosest a b = closest-IsClosest (normalize a) (map normalize b)
