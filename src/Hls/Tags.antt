-- ===== src/Hls/Tags.antt =====
-- Classes `Tag` and `Attribute`, namespace `Utils` of `shaka.hls`, and the parsing of one tag
-- (shaka/js/shaka-player.compiled.debug.js).
use shaka_player_embedded.Base.{
  ℕ, zero, suc, ◌==◌, Bool, true, false, not, ◌&&◌, Option, none, some, List, [], ◌∷◌, ◌++◌, map,
  length, drop, select, head?, if◌then◌else◌, Text, text_of, same_text, is_empty, join,
}

pub record Attribute : Type 0 where
  pub name : Text
  pub value : Text

-- A tag; the value is null where there is none.
pub record Tag : Type 0 where
  pub id : ℕ
  pub name : Text
  pub attributes : List Attribute
  pub value : Option Text

unfoldable pub add_attribute : Attribute → Tag → Tag
add_attribute a t = record t { attributes = t.attributes ++ (a ∷ []) }

unfoldable pub get_attribute : Text → Tag → Option Attribute
get_attribute name t = head? (select (λ a. same_text a.name name) t.attributes)

-- `getAttributeValue(name, defaultValue)`, where an empty default is null.
unfoldable pub get_attribute_value : Text → Option Text → Tag → Option Text
get_attribute_value name default t = elim (get_attribute name t) [
  | some a ↦ some a.value
  | none ↦ elim default [ none ↦ none | some d ↦ if is_empty d then none else some d ]
]

unfoldable pub filter_tags_by_name : List Tag → Text → List Tag
filter_tags_by_name ts name = select (λ t. same_text t.name name) ts

unfoldable pub get_first_tag_with_name : List Tag → Text → Option Tag
get_first_tag_with_name ts name = head? (filter_tags_by_name ts name)

abbrev pub has_value : Text → Option Attribute → Bool
has_value v none = false
has_value v (some a) = same_text a.value v

-- `findMediaTags`; where a tag has no such attribute the code throws a TypeError, and it is left out
-- here.
unfoldable pub find_media_tags : List Tag → Text → Text → List Tag
find_media_tags ts media_type group =
    select
      (λ t.
        has_value media_type (get_attribute (text_of "TYPE") t)
        && has_value group (get_attribute (text_of "GROUP-ID") t))
      ts

unfoldable pub starts_with : Text → Text → Bool
starts_with [] s = true
starts_with (c ∷ p) [] = false
starts_with (c ∷ p) (d ∷ s) = c == d && starts_with p s

-- `isComment`, of one line.
unfoldable pub is_comment : Text → Bool
is_comment s = starts_with (text_of "#") s && not (starts_with (text_of "#EXT") s)

-- `toString` of an attribute and of a tag; `is_number` is whether `Number` of a text is one.
module _ (is_number : Text → Bool) where
  unfoldable pub show_attribute : Attribute → Text
  show_attribute a =
      a.name
      ++ text_of "="
      ++ (if is_number a.value then a.value else b'"' ∷ a.value ++ (b'"' ∷ []))

  abbrev pub with_value : Option Text → List Text → List Text
  with_value none ss = ss
  with_value (some v) ss = if is_empty v then ss else v ∷ ss

  unfoldable pub show_tag : Tag → Text
  show_tag t =
      let parts = with_value t.value (map show_attribute t.attributes) in
      (b'#' ∷ t.name) ++ (if is_empty parts then [] else b':' ∷ join (text_of ",") parts)

-- The longest start of a text without some code units, and the rest.
unfoldable pub span : (ℕ → Bool) → Text → Text × Text
span p [] = ([], [])
span p (c ∷ s) = let r = span p s in if p c then (c ∷ r.0, r.1) else ([], c ∷ s)

abbrev pub is_not : ℕ → ℕ → Bool
is_not d c = not (c == d)

-- `(?:,|$)`: what is behind a comma, or behind the end of the text.
abbrev pub separator : Text → Option Text
separator [] = some []
separator (c ∷ s) = if c == b',' then some s else none

-- The value of a tag, up to a comma, if there is no `=` in it: `/^([^,=]+)(?:,|$)/`.
unfoldable pub read_value : Text → Option (Text × Text)
read_value s =
    let r = span (λ c. is_not b',' c && is_not b'=' c) s in
    if is_empty r.0 then none else elim (separator r.1) [ none ↦ none | some t ↦ some (r.0, t) ]

-- `"([^"]*)"`, with the quotes; and what follows has to be a separator.
abbrev pub quoted_end : Text → Text → Option (Text × Text)
quoted_end v [] = none
quoted_end v (c ∷ s) = elim (separator s) [ none ↦ none | some t ↦ some (v, t) ]

unfoldable pub quoted : Text → Option (Text × Text)
quoted [] = none
quoted (c ∷ s) = let r = span (is_not b'"') s in if c == b'"' then quoted_end r.0 r.1 else none

-- `([^",]*)`, and a separator.
unfoldable pub unquoted : Text → Option (Text × Text)
unquoted s =
    let r = span (λ c. is_not b'"' c && is_not b',' c) s in
    elim (separator r.1) [ none ↦ none | some t ↦ some (r.0, t) ]

abbrev pub attribute_end : Text → Text → Option (Attribute × Text)
attribute_end name [] = none
attribute_end name (e ∷ s) = elim (quoted s) [
  | some (v, t) ↦ some (record { name = name; value = v }, t)
  | none ↦ elim (unquoted s) [
    | some (v, t) ↦ some (record { name = name; value = v }, t)
    | none ↦ none
  ]
]

-- One attribute: `/([^=]+)=(?:"([^"]*)"|([^",]*))(?:,|$)/`, at the place of the reader.
unfoldable pub read_attribute : Text → Option (Attribute × Text)
read_attribute s =
    let r = span (is_not b'=') s in if is_empty r.0 then none else attribute_end r.0 r.1

-- The loop over the attributes, on fuel for the code units that are left.
unfoldable pub read_attributes : ℕ → Text → List Attribute
read_attributes zero s = []
read_attributes (suc k) s = elim (read_attribute s) [
  | none ↦ []
  | some (a, t) ↦ a ∷ read_attributes k t
]

abbrev pub tag_of : ℕ → Text → Text → Tag
tag_of id name s = elim (read_value s) [
  | none ↦ record { id = id; name = name; attributes = read_attributes (length s) s; value = none }
  | some (v, t) ↦ record {
    id = id;
    name = name;
    attributes = read_attributes (length t) t;
    value = some v;
  }
]

-- `parseTag`; null is the error INVALID_HLS_TAG.
unfoldable pub parse_tag : ℕ → Text → Option Tag
parse_tag id s =
    let r = span (is_not b':') (drop 1 s) in
    if starts_with (text_of "#EXT") s then some (tag_of id r.0 (drop 1 r.1)) else none
