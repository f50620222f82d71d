-- ===== src/Dash/Parsing.antt =====
-- What the parts of class `DashParser` (shaka/js/shaka-player.compiled.debug.js) share: its errors, and what
-- it asks of the browser and of goog.Uri. Times are in milliseconds, frame rates in thousandths.
use shaka_player_embedded.Base.{ℕ, Bool, Option, none, some, List, [], ◌∷◌, map, flatten, Text, ℤ}
use shaka_player_embedded.Dash.Xml.{
  Dom, get_contents, parse_attr, parse_duration, parse_non_negative_int,
}
use shaka_player_embedded.Dash.Protection.{ProtectionError}
use shaka_player_embedded.Dash.Segments.{ManifestError}
use shaka_player_embedded.Base.{trim}

-- `never_ends` is no error of the code: it stands for a loop that runs on for ever.
pub data DashError : Type 0 where
  dash_empty_period dash_empty_adaptation_set dash_duplicate_representation_id : DashError
  dash_invalid_xml operation_aborted never_ends : DashError
  segment_error : ManifestError → DashError
  protection_error : ProtectionError → DashError

pub data Parsing {ℓ} (A : Type ℓ) : Type ℓ where
  fine : A → Parsing A
  failed : DashError → Parsing A

infixl 5 ◌>>=◌
abbrev pub ◌>>=◌ {ℓ κ} : {A : Type ℓ} {B : Type κ} → Parsing A → (A → Parsing B) → Parsing B
fine a >>= f = f a
failed x >>= f = failed x

-- `parse_int radix text` is `parseInt`, null for NaN; `division` is `evalDivision`;
-- `in_milliseconds n scale` is `n / scale` seconds, `show_seconds` what `+` makes of a time in a text;
-- `resolve` is that of goog.Uri, `toString` included; `is_type_supported` is that of `TextEngine`.
pub record Platform : Type 1 where
  pub dom : Dom
  pub number : Text → Option ℤ
  pub milliseconds : Text → Option ℕ
  pub parse_int : ℕ → Text → Option ℤ
  pub division : Text → Option ℕ
  pub in_milliseconds : ℕ → ℕ → ℤ
  pub show_seconds : ℤ → Text
  pub resolve : Text → Option Text → Text
  pub is_type_supported : Text → Bool

-- `filter(isNotNull)`
abbrev pub present {ℓ} : {A : Type ℓ} → List (Option A) → List A
present [] = []
present (none ∷ os) = present os
present (some a ∷ os) = a ∷ present os

module _ (p : Platform) where
  abbrev pub contents_of : List p.dom.Element → List (Option Text)
  contents_of es = map (get_contents p.dom trim) es

  -- `resolveUris`: each reference against each base.
  unfoldable pub resolve_uris : List Text → List (Option Text) → List Text
  resolve_uris bases [] = bases
  resolve_uris bases (r ∷ rs) = flatten (map (λ base. map (p.resolve base) (r ∷ rs)) bases)

  abbrev pub natural_attr : p.dom.Element → Text → Option ℕ
  natural_attr e name = parse_attr p.dom e name (parse_non_negative_int p.number) none

  abbrev pub duration_attr : p.dom.Element → Text → Option ℕ → Option ℕ
  duration_attr e name default = parse_attr p.dom e name (parse_duration p.milliseconds) default
