-- ===== src/Util/Arrays.antt =====
-- Namespace `ArrayUtils` and class `Iterables` (shaka/js/shaka-player.compiled.debug.js), and the message
-- of `FairPlayUtils`.
use shaka_player_embedded.Base.{
  ℕ, ◌+◌, ◌/◌, ◌%◌, ◌==◌, Bool, true, false, ◌&&◌, Option, none, some, List, [], ◌∷◌, ◌++◌,
  if◌then◌else◌, length, Text,
}
use shaka_player_embedded.Binary.Bytes.{Bytes}
use shaka_player_embedded.Binary.Utf16.{to_utf16}

module _ {A : Type 0} where
  -- `Iterables`
  unfoldable pub map_all {κ} : {B : Type κ} → (A → B) → List A → List B
  map_all f [] = []
  map_all f (a ∷ as') = f a ∷ map_all f as'

  unfoldable pub every : (A → Bool) → List A → Bool
  every p [] = true
  every p (a ∷ as') = let rest = every p as' in if p a then rest else false

  unfoldable pub some_of : (A → Bool) → List A → Bool
  some_of p [] = false
  some_of p (a ∷ as') = let rest = some_of p as' in if p a then true else rest

  unfoldable pub filter : (A → Bool) → List A → List A
  filter p [] = []
  filter p (a ∷ as') = let rest = filter p as' in if p a then a ∷ rest else rest

  unfoldable pub count : (A → Bool) → List A → ℕ
  count p [] = 0
  count p (a ∷ as') = (if p a then 1 else 0) + count p as'

  -- `remove`: the first of the elements that are the same.
  unfoldable pub remove_first : (A → Bool) → List A → List A
  remove_first is_same [] = []
  remove_first is_same (b ∷ bs) =
      let rest = remove_first is_same bs in if is_same b then bs else b ∷ rest

  -- The last element takes the place of the one that is found, and goes from the end.
  abbrev pub last_and_rest : A → List A → A × List A
  last_and_rest a [] = (a, [])
  last_and_rest a (b ∷ bs) = let p = last_and_rest b bs in (p.0, a ∷ p.1)

  abbrev pub take_out_at : List A → List A
  take_out_at [] = []
  take_out_at (b ∷ []) = []
  take_out_at (b ∷ c ∷ cs) = let q = last_and_rest c cs in q.0 ∷ q.1

  unfoldable pub take_out : (A → Bool) → List A → Option (List A)
  take_out is_same [] = none
  take_out is_same (b ∷ bs) =
      let rest = take_out is_same bs in
      if is_same b
      then some (take_out_at (b ∷ bs))
      else elim rest [ none ↦ none | some cs ↦ some (b ∷ cs) ]

  abbrev pub match_each : (A → A → Bool) → List A → List A → Bool
  match_each same [] bs = length bs == 0
  match_each same (a ∷ as') bs = elim (take_out (same a) bs) [
    | none ↦ false
    | some cs ↦ match_each same as' cs
  ]

  -- `hasSameElements(a, b, compareFn)`
  unfoldable pub has_same_elements : (A → A → Bool) → List A → List A → Bool
  has_same_elements same as' bs = length as' == length bs && match_each same as' bs

-- `setUint32` with the low byte first.
abbrev pub little_uint32 : ℕ → Bytes
little_uint32 n = n % 256 ∷ n / 256 % 256 ∷ n / 65536 % 256 ∷ n / 16777216 % 256 ∷ []

abbrev pub with_length : Bytes → Bytes
with_length bs = little_uint32 (length bs) ++ bs

-- `initDataTransform(initData, contentId, cert)`, with the text of the initialisation data and the
-- bytes of the content id; null where the certificate is missing.
unfoldable pub init_data_transform : Text → Bytes → Option Bytes → Option Bytes
init_data_transform init content_id none = none
init_data_transform init content_id (some cert) =
    if length cert == 0
    then none
    else some (with_length (to_utf16 init true) ++ with_length content_id ++ with_length cert)
