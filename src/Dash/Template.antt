-- ===== src/Dash/Template.antt =====
-- `fillUriTemplate` of `MpdUtils` (shaka/js/shaka-player.compiled.debug.js). A time is a whole number.
use shaka_player_embedded.Base.{
  ℕ, zero, suc, ◌+◌, ◌-◌, ◌/◌, ◌%◌, ◌≤◌, ◌≡◌, ◌==◌, ltb, Bool, true, false, ◌&&◌, ◌||◌, not, Option,
  none, some, [], ◌∷◌, ◌++◌, length, take, if◌then◌else◌, Text, text_of, is_empty, to_upper, arith,
}
use shaka_player_embedded.Dash.Xml.{decimal, digits}

pub data Identifier : Type 0 where
  representation_id number bandwidth time no_identifier : Identifier

-- What the placeholders stand for; null where there is no value.
pub record Values : Type 0 where
  pub id : Option Text
  pub number : Option ℕ
  pub bandwidth : Option ℕ
  pub time : Option ℕ

unfoldable pub strip_prefix : Text → Text → Option Text
strip_prefix [] s = some s
strip_prefix (c ∷ p) [] = none
strip_prefix (c ∷ p) (d ∷ s) = let rest = strip_prefix p s in if c == d then rest else none

abbrev pub or_next : Identifier → Option Text → Identifier × Text → Identifier × Text
or_next i none next = next
or_next i (some s) next = (i, s)

-- The identifier at the start of a text, and what is behind it.
unfoldable pub identifier : Text → Identifier × Text
identifier s = or_next representation_id (strip_prefix (text_of "RepresentationID") s) (
    or_next number (strip_prefix (text_of "Number") s) (
      or_next bandwidth (strip_prefix (text_of "Bandwidth") s)
        (or_next time (strip_prefix (text_of "Time") s) (no_identifier, s))))

abbrev pub is_specifier : ℕ → Bool
is_specifier c = c == b'd' || c == b'i' || c == b'o' || c == b'u' || c == b'x' || c == b'X'

-- A width and a letter.
abbrev pub Format : Type 0
Format = Option (ℕ × ℕ)

-- The end of a placeholder: the `$`.
abbrev pub closed : Format → Text → Option (Format × Text)
closed f [] = none
closed f (c ∷ s) = if c == b'$' then some (f, s) else none

abbrev pub specified : Text → Text → Option (Format × Text)
specified width [] = none
specified width (c ∷ s) =
    if is_specifier c && not (is_empty width) then closed (some (decimal 0 width, c)) s else none

-- `%0`, a width and a letter, if they are there; then the `$`.
unfoldable pub format : Text → Option (Format × Text)
format s = elim (strip_prefix (text_of "%0") s) [
  | none ↦ closed none s
  | some t ↦ let p = digits t in specified p.0 p.1
]

unfoldable pub digits_of : ℕ → ℕ → ℕ → Text → Text
digits_of zero base n s = s
digits_of (suc fuel) base n s =
    let d = n % base in
    let t = (if ltb d 10 then b'0' + d else b'a' + (d - 10)) ∷ s in
    let rest = digits_of fuel base (n / base) t in if n / base == 0 then t else rest

-- `toString(base)`; a number has no more digits than its value and one.
unfoldable pub to_string : ℕ → ℕ → Text
to_string base n = digits_of (suc n) base n []

abbrev pub zeros : ℕ → Text → Text
zeros zero s = s
zeros (suc n) s = b'0' ∷ zeros n s

-- Zeros in front, up to the width, which is 1 when it is missing or 0.
unfoldable pub pad : ℕ → Text → Text
pad width s = zeros ((if width == 0 then 1 else width) - length s) s

abbrev pub show_number : ℕ → ℕ → Text
show_number letter n =
    if letter == b'o'
    then to_string 8 n
    else if letter == b'x'
    then to_string 16 n
    else if letter == b'X'
    then to_upper (to_string 16 n)
    else to_string 10 n

abbrev pub show_value : Format → ℕ → Text
show_value none n = pad 1 (show_number b'd' n)
show_value (some (width, letter)) n = pad width (show_number letter n)

-- A representation's id has no width, and is in upper case for the letter X.
abbrev pub show_id : Format → Text → Text
show_id none s = pad 1 s
show_id (some (width, letter)) s = pad 1 (if letter == b'X' then to_upper s else s)

abbrev pub value_of : Format → Option ℕ → Option Text
value_of f none = none
value_of f (some n) = some (show_value f n)

-- What a placeholder is replaced by; null when it stays.
unfoldable pub replacement : Values → Identifier → Format → Option Text
replacement v representation_id f = elim v.id [ none ↦ none | some s ↦ some (show_id f s) ]
replacement v number f = value_of f v.number
replacement v bandwidth f = value_of f v.bandwidth
replacement v time f = value_of f v.time
replacement v no_identifier none = some (b'$' ∷ [])
replacement v no_identifier (some f) = none

-- The replacement of all placeholders, on fuel for the code units that are left.
unfoldable pub fill : ℕ → Values → Text → Text
fill zero v s = s
fill (suc fuel) v [] = []
fill (suc fuel) v (c ∷ s) = elim (c == b'$') [
  | false ↦ c ∷ fill fuel v s
  | true ↦ elim (format (identifier s).1) [
    | none ↦ c ∷ fill fuel v s
    | some (f, rest) ↦ elim (replacement v (identifier s).0 f) [
      | none ↦ c ∷ take (length s - length rest) s ++ fill fuel v rest
      | some t ↦ t ++ fill fuel v rest
    ]
  ]
]

-- `fillUriTemplate(uriTemplate, representationId, number, bandwidth, time)`
unfoldable pub fill_uri_template : Text → Values → Text
fill_uri_template s v = fill (length s) v s

length-zeros : (n : ℕ) (s : Text) → length (zeros n s) ≡ n + length s
length-zeros zero s = omega arith
length-zeros (suc n) s = omega (arith, length-zeros n s)

-- A padded number has the width that is asked for, or more.
pub pad_width : (width : ℕ) (s : Text) → width ≤ length (pad width s)
unfolding pad
pad_width width s = ground (arith, length-zeros ((if width == 0 then 1 else width) - length s) s)
