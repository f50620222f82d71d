-- ===== src/Dash/Xml.antt =====
-- Namespace `XmlUtils` (shaka/js/shaka-player.compiled.debug.js). The DOM and what `Number` and `Date.parse`
-- make of a text are the browser's, and parameters.
use shaka_player_embedded.Base.{
  ℕ, ◌+◌, ◌-◌, ◌*◌, ◌==◌, leb, Bool, true, false, not, ◌&&◌, ◌||◌, Option, none, some, List, [],
  ◌∷◌, if◌then◌else◌, Text, same_text, is_empty, select, ℤ, pos,
}

pub data Node (E : Type 0) : Type 0 where
  text_node cdata_node : Text → Node E
  element_node : E → Node E
  other_node : Node E

-- What the code asks of an element.
pub record Dom : Type 1 where
  pub Element : Type 0
  pub child_nodes : Element → List (Node Element)
  pub tag_name : Element → Text
  pub local_name : Element → Text
  pub namespace_of : Element → Text
  pub attribute : Element → Text → Option Text
  pub attribute_ns : Element → Text → Text → Option Text
  pub text_content : Element → Text

abbrev pub elements : {E : Type 0} → List (Node E) → List E
elements [] = []
elements (element_node e ∷ ns) = e ∷ elements ns
elements (_ ∷ ns) = elements ns

abbrev pub only {ℓ} : {A : Type ℓ} → List A → Option A
only (a ∷ []) = some a
only _ = none

abbrev pub is_text : {E : Type 0} → Node E → Bool
is_text (text_node s) = true
is_text (cdata_node s) = true
is_text _ = false

abbrev pub all_text : {E : Type 0} → List (Node E) → Bool
all_text [] = true
all_text (n ∷ ns) = is_text n && all_text ns

module _ (d : Dom) where
  unfoldable pub find_children : d.Element → Text → List d.Element
  find_children e name = select (λ c. same_text (d.tag_name c) name) (elements (d.child_nodes e))

  -- The only child of the name; null when there is none, or more than one.
  unfoldable pub find_child : d.Element → Text → Option d.Element
  find_child e name = only (find_children e name)

  unfoldable pub find_children_ns : d.Element → Text → Text → List d.Element
  find_children_ns e ns name =
      select (λ c. same_text (d.local_name c) name && same_text (d.namespace_of c) ns)
        (elements (d.child_nodes e))

  unfoldable pub find_child_ns : d.Element → Text → Text → Option d.Element
  find_child_ns e ns name = only (find_children_ns e ns name)

  abbrev pub get_attribute_ns : d.Element → Text → Text → Option Text
  get_attribute_ns e ns name = d.attribute_ns e ns name

  -- `getContents`, with the trimming as a parameter.
  unfoldable pub get_contents : (Text → Text) → d.Element → Option Text
  get_contents trim e = if all_text (d.child_nodes e) then some (trim (d.text_content e)) else none

  -- `parseAttr(elem, name, parseFunction, defaultValue)`
  unfoldable pub parse_attr {ℓ} :
      {A : Type ℓ} → d.Element → Text → (Text → Option A) → Option A → Option A
  parse_attr e name parse default = elim (d.attribute e name) [
    | none ↦ default
    | some s ↦ elim (parse s) [ none ↦ default | some a ↦ some a ]
  ]

-- The readings of whole numbers; `number` is `Number` where its value is one, and `none` elsewhere.
module _ (number : Text → Option ℤ) where
  unfoldable pub parse_int : Text → Option ℤ
  parse_int s = number s

  abbrev pub if_positive : Option ℤ → Option ℕ
  if_positive (some (pos n)) = if n == 0 then none else some n
  if_positive _ = none

  unfoldable pub parse_positive_int : Text → Option ℕ
  parse_positive_int s = if_positive (number s)

  abbrev pub if_not_negative : Option ℤ → Option ℕ
  if_not_negative (some (pos n)) = some n
  if_not_negative _ = none

  unfoldable pub parse_non_negative_int : Text → Option ℕ
  parse_non_negative_int s = if_not_negative (number s)

abbrev pub is_digit : ℕ → Bool
is_digit c = leb b'0' c && leb c b'9'

-- The digits that a text starts with, and the rest.
unfoldable pub digits : Text → Text × Text
digits [] = ([], [])
digits (c ∷ s) = let p = digits s in if is_digit c then (c ∷ p.0, p.1) else ([], c ∷ s)

-- The value of decimal digits, behind a number that is read already.
abbrev pub decimal : ℕ → Text → ℕ
decimal n [] = n
decimal n (c ∷ s) = decimal (n * 10 + (c - b'0')) s

abbrev pub range_end : Text → Text → Option (ℕ × ℕ)
range_end from [] = none
range_end from (c ∷ s) =
    let p = digits s in
    if c == b'-' && not (is_empty p.0) then some (decimal 0 from, decimal 0 p.0) else none

-- The range at the start of a text, if there is one.
unfoldable pub range_at : Text → Option (ℕ × ℕ)
range_at s = let p = digits s in if is_empty p.0 then none else range_end p.0 p.1

-- `parseRange`: the first range in the text.
unfoldable pub parse_range : Text → Option (ℕ × ℕ)
parse_range [] = none
parse_range (c ∷ s) = elim (range_at (c ∷ s)) [ some r ↦ some r | none ↦ parse_range s ]

-- A part of a duration: a number of digits, maybe none, with a letter behind it; or nothing.
abbrev pub part_end : ℕ → Text → Text × Text → ℕ × Text
part_end letter s (ds, []) = (0, s)
part_end letter s (ds, c ∷ rest) = if c == letter then (decimal 0 ds, rest) else (0, s)

unfoldable pub part : ℕ → Text → ℕ × Text
part letter s = part_end letter s (digits s)

-- The digits and points that a text starts with.
unfoldable pub points : Text → Text × Text
points [] = ([], [])
points (c ∷ s) = let p = points s in if is_digit c || c == b'.' then (c ∷ p.0, p.1) else ([], c ∷ s)

module _ (milliseconds : Text → Option ℕ) where
  abbrev pub seconds_end : Text → Text × Text → Option (ℕ × Text)
  seconds_end s (ds, []) = some (0, s)
  seconds_end s (ds, c ∷ rest) =
      if not (c == b'S')
      then some (0, s)
      else if is_empty ds
      then some (0, rest)
      else elim (milliseconds ds) [ none ↦ none | some n ↦ some (n, rest) ]

  abbrev pub at_end : ℕ → Option (ℕ × Text) → Option ℕ
  at_end n (some (m, [])) = some (n + m)
  at_end n _ = none

  -- The hours, minutes and seconds behind a T, for the milliseconds before them.
  abbrev pub parse_time : ℕ → Text → Option ℕ
  parse_time n [] = some n
  parse_time n (c ∷ s) =
      let hours = part b'H' s in
      let minutes = part b'M' hours.1 in
      if c == b'T'
      then at_end (n + 3600000 * hours.0 + 60000 * minutes.0)
          (seconds_end minutes.1 (points minutes.1))
      else none

  -- `parseDuration`, in milliseconds; what `Number` makes of the seconds is a parameter.
  unfoldable pub parse_duration : Text → Option ℕ
  parse_duration [] = none
  parse_duration (c ∷ s) =
      let years = part b'Y' s in
      let months = part b'M' years.1 in
      let days = part b'D' months.1 in
      if c == b'P'
      then parse_time (31536000000 * years.0 + 2592000000 * months.0 + 86400000 * days.0) days.1
      else none
