-- ===== src/Streams/Abr.antt =====
-- Class `SimpleAbrManager` (shaka/js/shaka-player.compiled.debug.js), which picks the variant that suits
-- the bandwidth. What its estimator answers (Bandwidth) is an argument, in bits per second. The
-- targets are in thousandths, and a quotient by a target is written as a product.
pub mod Choice
use shaka_player_embedded.Base.{
  ℕ, ◌*◌, ◌-◌, leb, ltb, Bool, true, false, not, ◌&&◌, Option, none, some, List, [], ◌∷◌, select,
  head?, to_list, is_empty, is_some, if◌then◌else◌,
}
use shaka_player_embedded.Streams.Types.{Variant}
use shaka_player_embedded.Streams.Restrictions.{Restrictions, meets_restrictions}

pub record Config : Type 0 where
  pub restrictions : Restrictions
  pub bandwidth_downgrade_target : ℕ
  pub bandwidth_upgrade_target : ℕ
  pub switch_interval_ms : ℕ

pub record SimpleAbrManager : Type 0 where
  pub enabled : Bool
  pub variants : List Variant
  pub startup_complete : Bool
  pub last_time_chosen_ms : Option ℕ
  pub config : Config

unfoldable pub new : Config → SimpleAbrManager
new c = record {
  enabled = false;
  variants = [];
  startup_complete = false;
  last_time_chosen_ms = none;
  config = c;
}

unfoldable pub stop : SimpleAbrManager → SimpleAbrManager
stop m = record m { enabled = false; variants = []; last_time_chosen_ms = none }

-- A stable sort by bandwidth, the lowest first.
unfoldable pub insert : Variant → List Variant → List Variant
insert v [] = v ∷ []
insert v (w ∷ ws) =
    let rest = insert v ws in if ltb w.bandwidth v.bandwidth then w ∷ rest else v ∷ w ∷ ws

unfoldable pub sort : List Variant → List Variant
sort [] = []
sort (v ∷ vs) = insert v (sort vs)

abbrev pub allowed : Option Restrictions → List Variant → List Variant
allowed none vs = vs
allowed (some r) vs =
    select (λ v. meets_restrictions v r (record { width = none; height = none })) vs

-- `filterAndSortVariants_`
unfoldable pub filter_and_sort_variants : Option Restrictions → List Variant → List Variant
filter_and_sort_variants r vs = sort (allowed r vs)

-- The variants that are looked at: where none meets the restrictions, the one of lowest bandwidth.
unfoldable pub candidates : Config → List Variant → List Variant
candidates c vs =
    let b = filter_and_sort_variants (some c.restrictions) vs in
    if is_empty b then to_list (head? (filter_and_sort_variants none vs)) else b

-- The upper end of a variant's range comes from the next one; there is none behind the last.
abbrev pub is_below_next : Config → ℕ → Option Variant → Bool
is_below_next c estimate none = true
is_below_next c estimate (some n) = leb (estimate * c.bandwidth_upgrade_target) (n.bandwidth * 1000)

abbrev pub fits : Config → ℕ → Variant → Option Variant → Bool
fits c estimate e n =
    leb (e.bandwidth * 1000) (estimate * c.bandwidth_downgrade_target) && is_below_next c estimate n

-- The loop of `chooseVariant`.
unfoldable pub choose_from : Config → ℕ → Option Variant → List Variant → Option Variant
choose_from c estimate chosen [] = chosen
choose_from c estimate chosen (e ∷ es) =
    choose_from c estimate (if fits c estimate e (head? es) then some e else chosen) es

-- Sorting without restrictions is in place.
abbrev pub variants_after : Config → List Variant → List Variant
variants_after c vs =
    if is_empty (filter_and_sort_variants (some c.restrictions) vs)
    then filter_and_sort_variants none vs
    else vs

-- `chooseVariant()` at the time `now`.
unfoldable pub choose_variant : ℕ → ℕ → SimpleAbrManager → SimpleAbrManager × Option Variant
choose_variant now estimate m =
    let b = candidates m.config m.variants in
    (
      record m { variants = variants_after m.config m.variants; last_time_chosen_ms = some now },
      choose_from m.config estimate (head? b) b,
    )

unfoldable pub enable : SimpleAbrManager → SimpleAbrManager
enable m = record m { enabled = true }

unfoldable pub disable : SimpleAbrManager → SimpleAbrManager
disable m = record m { enabled = false }

unfoldable pub set_variants : List Variant → SimpleAbrManager → SimpleAbrManager
set_variants vs m = record m { variants = vs }

unfoldable pub configure : Config → SimpleAbrManager → SimpleAbrManager
configure c m = record m { config = c }

abbrev pub elapsed : ℕ → Option ℕ → ℕ
elapsed now none = now
elapsed now (some t) = now - t

-- What `suggestStreams_` does: nothing, or a switch to the variant that it chooses.
unfoldable pub suggest_streams :
    Bool → ℕ → ℕ → SimpleAbrManager → SimpleAbrManager × Option (Option Variant)
suggest_streams has_good_estimate now estimate m =
    let started = record m { startup_complete = true } in
    let chosen = choose_variant now estimate started in
    if not m.startup_complete
    then if has_good_estimate then (chosen.0, some chosen.1) else (m, none)
    else if ltb (elapsed now m.last_time_chosen_ms) m.config.switch_interval_ms
    then (m, none)
    else (chosen.0, some chosen.1)

-- `segmentDownloaded`, once the estimator has its sample.
unfoldable pub segment_downloaded :
    Bool → ℕ → ℕ → SimpleAbrManager → SimpleAbrManager × Option (Option Variant)
segment_downloaded has_good_estimate now estimate m =
    if is_some m.last_time_chosen_ms && m.enabled
    then suggest_streams has_good_estimate now estimate m
    else (m, none)
