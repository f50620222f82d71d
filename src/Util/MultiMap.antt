-- ===== src/Util/MultiMap.antt =====
-- Class `MultiMap` (shaka/js/shaka-player.compiled.debug.js), which keeps the listeners of an event
-- target. Keys are in the order of their first push; values are objects, told apart by a number.
use Prim.Native.String.{String}
use text.Mathlib.Text.{◌==◌ as str_eq}
use text.Mathlib.TextEquality.{eq_iff}
use shaka_player_embedded.Base.{
  ℕ, ◌≡◌, refl, sym, ap, ◌∙◌, inl, inr, ◌==◌, Bool, true, false, Option, none, some, List, [], ◌∷◌,
  ◌++◌, not, if◌then◌else◌, Bool-cases,
}

abbrev pub MultiMap : Type 0
MultiMap = List (String × List ℕ)

unfoldable pub push : String → ℕ → MultiMap → MultiMap
push a b [] = (a, b ∷ []) ∷ []
push a b ((k, bs) ∷ m) =
    let rest = push a b m in if str_eq k a then (k, bs ++ b ∷ []) ∷ m else (k, bs) ∷ rest

unfoldable pub get : String → MultiMap → Option (List ℕ)
get a [] = none
get a ((k, bs) ∷ m) = if str_eq k a then some bs else get a m

unfoldable pub get_all : MultiMap → List ℕ
get_all [] = []
get_all ((k, bs) ∷ m) = bs ++ get_all m

-- The loop of `remove`: every value that is the same goes.
unfoldable pub without : ℕ → List ℕ → List ℕ
without b [] = []
without b (c ∷ cs) = let rest = without b cs in if c == b then rest else c ∷ rest

unfoldable pub remove : String → ℕ → MultiMap → MultiMap
remove a b [] = []
remove a b ((k, bs) ∷ m) =
    let rest = remove a b m in if str_eq k a then (k, without b bs) ∷ m else (k, bs) ∷ rest

unfoldable pub clear : MultiMap → MultiMap
clear m = []

abbrev pub or_nil : Option (List ℕ) → List ℕ
or_nil none = []
or_nil (some bs) = bs

-- What a map of lists should hold under a key after a change at the key `a`.
abbrev pub at_key : Bool → (List ℕ → List ℕ) → List ℕ → List ℕ
at_key true f bs = f bs
at_key false f bs = bs

same_key : (k a c : String) → str_eq k a ≡ true → str_eq a c ≡ str_eq k c
same_key k a c e = ap (λ z. str_eq z c) (sym ((eq_iff k a).0 e))

other_key : (k a c : String) → str_eq k a ≡ false → str_eq k c ≡ true → str_eq a c ≡ false
other_key k a c e f = elim (Bool-cases (str_eq a c)) [
  | inr g ↦ g
  | inl g ↦
      let h : k ≡ a = (eq_iff k c).0 f ∙ sym ((eq_iff a c).0 g) in
      let t : str_eq k a ≡ true = (eq_iff k a).1 h in cc
]

-- After a push, a key has the values it had, and the key that was pushed to has the new one last.
pub get-push :
    (c a : String) (b : ℕ) (m : MultiMap)
    → or_nil (get c (push a b m)) ≡ at_key (str_eq a c) (λ bs. bs ++ b ∷ []) (or_nil (get c m))
unfolding get push
get-push c a b [] = elim (Bool-cases (str_eq a c)) [ inl e ↦ rw e | inr e ↦ rw e ]
get-push c a b ((k, bs) ∷ m) = elim (Bool-cases (str_eq k a)) [
  | inl e ↦ elim (Bool-cases (str_eq k c)) [
    | inl f ↦ rw (e, same_key k a c e, f)
    | inr f ↦ rw (e, same_key k a c e, f)
  ]
  | inr e ↦ elim (Bool-cases (str_eq k c)) [
    | inl f ↦ rw (e, other_key k a c e f, f)
    | inr f ↦ rw (e, f) (get-push c a b m)
  ]
]

-- The values that pass a test.
abbrev pub select : (ℕ → Bool) → List ℕ → List ℕ
select f [] = []
select f (c ∷ cs) = if f c then c ∷ select f cs else select f cs

without-select : (b : ℕ) (cs : List ℕ) → without b cs ≡ select (λ c. not (c == b)) cs
unfolding without
without-select b [] = refl
without-select b (c ∷ cs) = elim (Bool-cases (c == b)) [
  | inl e ↦ rw e (without-select b cs)
  | inr e ↦ rw e (ap (λ z. c ∷ z) (without-select b cs))
]

-- After a removal, the key that was removed from has those of its values that differ from the value,
-- and every other key has the values it had.
pub get-remove :
    (c a : String) (b : ℕ) (m : MultiMap)
    → or_nil (get c (remove a b m))
      ≡ at_key (str_eq a c) (select (λ z. not (z == b))) (or_nil (get c m))
unfolding get remove
get-remove c a b [] = elim (Bool-cases (str_eq a c)) [ inl e ↦ rw e | inr e ↦ rw e ]
get-remove c a b ((k, bs) ∷ m) = elim (Bool-cases (str_eq k a)) [
  | inl e ↦ elim (Bool-cases (str_eq k c)) [
    | inl f ↦ rw (e, same_key k a c e, f) (without-select b bs)
    | inr f ↦ rw (e, same_key k a c e, f)
  ]
  | inr e ↦ elim (Bool-cases (str_eq k c)) [
    | inl f ↦ rw (e, other_key k a c e f, f)
    | inr f ↦ rw (e, f) (get-remove c a b m)
  ]
]
