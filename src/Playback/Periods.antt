-- ===== src/Playback/Periods.antt =====
-- Namespace `Periods` and class `PeriodObserver` (shaka/js/shaka-player.compiled.debug.js): which period
-- of the manifest the playhead is in.
use shaka_player_embedded.Base.{
  ℕ, ◌≡◌, refl, ap, ◌⊎◌, inl, inr, ◌==◌, Bool, true, false, not, Option, none, some, List, [], ◌∷◌,
  ◌++◌, if◌then◌else◌, All, ℤ, leb_ℤ, leb_ℤ-cases, ◌≤ℤ◌, ◌<ℤ◌,
}

-- `object` tells the objects apart; the variants are objects that are not looked into here.
pub record Period : Type 0 where
  pub object : ℕ
  pub start_time : ℤ
  pub variants : List ℕ

unfoldable pub get_all_variants_from : List Period → List ℕ
get_all_variants_from [] = []
get_all_variants_from (p ∷ ps) = p.variants ++ get_all_variants_from ps

-- The loop of `findPeriodForTime`, with the period it has found so far.
unfoldable pub find_from : Option Period → ℤ → List Period → Option Period
find_from found t [] = found
find_from found t (p ∷ ps) = find_from (if leb_ℤ p.start_time t then some p else found) t ps

unfoldable pub find_period_for_time : List Period → ℤ → Option Period
find_period_for_time ps t = find_from none t ps

abbrev pub first_of : List Period → Option Period
first_of [] = none
first_of (p ∷ ps) = some p

abbrev pub or_first : Option Period → List Period → Option Period
or_first none ps = first_of ps
or_first (some p) ps = some p

-- `findCurrentPeriod_`: a time before the first period is in it.
unfoldable pub find_current_period : List Period → ℤ → Option Period
find_current_period ps t = or_first (find_period_for_time ps t) ps

abbrev pub same_object : Option Period → Option Period → Bool
same_object none none = true
same_object (some p) (some q) = p.object == q.object
same_object _ _ = false

-- `poll(position)`: the current period after it, and whether the listener is called with it.
unfoldable pub poll : ℤ → List Period → Option Period → Option Period × Bool
poll t ps current = let found = find_current_period ps t in (found, not (same_object current found))

-- A period of the list that has started at `t`, when none of those after it has.
pub record IsLastStarted (t : ℤ) (ps : List Period) (p : Period) : Type 0 where
  pub before : List Period
  pub after : List Period
  pub is_split : ps ≡ before ++ p ∷ after
  pub has_started : p.start_time ≤ℤ t
  pub not_started : All (λ q. t <ℤ q.start_time) after

abbrev further :
    (t : ℤ) (ps : List Period) (q p : Period) → IsLastStarted t ps p → IsLastStarted t (q ∷ ps) p
further t ps q p l = record {
  before = q ∷ l.before;
  after = l.after;
  is_split = ap (λ z. q ∷ z) l.is_split;
  has_started = l.has_started;
  not_started = l.not_started;
}

find_from-cases :
    (o : Option Period) (t : ℤ) (ps : List Period)
    → (find_from o t ps ≡ o) × All (λ q. t <ℤ q.start_time) ps
      ⊎ ((p : Period) × (find_from o t ps ≡ some p) × IsLastStarted t ps p)
unfolding find_from
find_from-cases o t [] = inl (refl, tt)
find_from-cases o t (q ∷ ps) = elim (leb_ℤ-cases q.start_time t) [
  | inl (e, l) ↦ elim (find_from-cases (some q) t ps) [
    | inl (f, a) ↦ inr (
      q,
      rw (e, f),
      record { before = []; after = ps; is_split = refl; has_started = l; not_started = a },
    )
    | inr (p, f, a) ↦ inr (p, rw (e, f), further t ps q p a)
  ]
  | inr (e, l) ↦ elim (find_from-cases o t ps) [
    | inl (f, a) ↦ inl (rw (e, f), (l, a))
    | inr (p, f, a) ↦ inr (p, rw (e, f), further t ps q p a)
  ]
]

-- The current period is the last one of the manifest that has started, or the first one where none
-- has started.
pub find_current_period-cases :
    (t : ℤ) (ps : List Period)
    → (find_current_period ps t ≡ first_of ps) × All (λ q. t <ℤ q.start_time) ps
      ⊎ ((p : Period) × (find_current_period ps t ≡ some p) × IsLastStarted t ps p)
unfolding find_current_period find_period_for_time
find_current_period-cases t ps = elim (find_from-cases none t ps) [
  | inl (e, a) ↦ inl (rw e, a)
  | inr (p, e, a) ↦ inr (p, rw e, a)
]
