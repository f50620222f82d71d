-- ===== src/Playback/Rate.antt =====
-- Class `PlayRateController` (shaka/js/shaka-player.compiled.debug.js). Where the browser has no
-- rate, the player plays by moving the playhead on a timer. Rates are in thousandths.
use shaka_player_embedded.Base.{
  ◌≡◌, refl, sym, ◌⊎◌, inl, inr, Bool, true, false, Option, none, some, arith, if◌then◌else◌, ℤ,
  pos, leb_ℤ, leb_ℤ-cases, ◌==ℤ◌, ◌<ℤ◌, eq_of_parts, Bool-cases,
}

-- The controller with what it drives: `harness_rate` is what `getRate` answers, and `is_ticking` says
-- that the timer, which moves the playhead, runs.
pub record PlayRateController : Type 0 where
  pub is_buffering : Bool
  pub rate : ℤ
  pub is_ticking : Bool
  pub harness_rate : ℤ

-- The media element accepts some rates; `setRate` throws at any other.
module _ (is_supported : ℤ → Bool) where
  unfoldable pub new : ℤ → PlayRateController
  new r = record { is_buffering = false; rate = r; is_ticking = false; harness_rate = r }

  unfoldable pub calculate_current_rate : PlayRateController → ℤ
  calculate_current_rate c = if c.is_buffering then pos 0 else c.rate

  -- `applyRate_`; `none` is an exception.
  unfoldable pub apply_rate : ℤ → PlayRateController → Option PlayRateController
  apply_rate a c =
      if c.harness_rate ==ℤ a
      then some c
      else if is_supported a
      then some (record c { harness_rate = a })
      else none

  -- The end of `apply_`, by the timer.
  unfoldable pub apply_by_timer : PlayRateController → Option PlayRateController
  apply_by_timer c = apply_rate (pos 0) (record c { is_ticking = true })

  abbrev pub catch :
      Option PlayRateController → Option PlayRateController → Option PlayRateController
  catch none handler = handler
  catch (some c) handler = some c

  abbrev pub stopped : PlayRateController → PlayRateController
  stopped c = record c { is_ticking = false }

  unfoldable pub apply : PlayRateController → Option PlayRateController
  apply c =
      if leb_ℤ (pos 0) (calculate_current_rate c)
      then catch (apply_rate (calculate_current_rate c) (stopped c)) (apply_by_timer (stopped c))
      else apply_by_timer (stopped c)

  unfoldable pub set_buffering : Bool → PlayRateController → Option PlayRateController
  set_buffering b c = apply (record c { is_buffering = b })

  unfoldable pub set : ℤ → PlayRateController → Option PlayRateController
  set r c = apply (record c { rate = r })

  -- `release` stops the timer and lets go of the harness.
  unfoldable pub release : PlayRateController → PlayRateController
  release c = stopped c

  -- Asking for a rate gives it, unless the element does not support it.
  apply_rate-cases :
      (a : ℤ) (c : PlayRateController)
      → (apply_rate a c ≡ some (record c { harness_rate = a }))
        ⊎ (is_supported a ≡ false) × (apply_rate a c ≡ none)
  unfolding apply_rate
  apply_rate-cases a c = elim (Bool-cases (c.harness_rate ==ℤ a)) [
    | inl e ↦
        let q : c.harness_rate ≡ a = eq_of_parts c.harness_rate a (ground arith) in
        inl (rw (e, sym q))
    | inr e ↦ elim (Bool-cases (is_supported a)) [
      | inl f ↦ inl (rw (e, f))
      | inr f ↦ inr (f, rw (e, f))
    ]
  ]

  -- The element plays at the wanted rate by itself, or stands still while the timer moves the playhead,
  -- which happens only for a rate that is negative or not supported, and never while buffering.
  abbrev pub IsApplied : PlayRateController → Type 0
  IsApplied c =
      (c.is_ticking ≡ false) × (c.harness_rate ≡ calculate_current_rate c)
      ⊎ (c.is_ticking ≡ true)
        × (c.harness_rate ≡ pos 0)
        × (c.is_buffering ≡ false)
        × ((c.rate <ℤ pos 0) ⊎ (is_supported c.rate ≡ false))

  -- The timer takes over where the element can stand still.
  apply_by_timer_lem :
      (c : PlayRateController)
      → is_supported (pos 0) ≡ true
      → apply_by_timer c ≡ some (record c { is_ticking = true; harness_rate = pos 0 })
  unfolding apply_by_timer
  apply_by_timer_lem c h = elim (apply_rate-cases (pos 0) (record c { is_ticking = true })) [
    | inl e ↦ e
    | inr (f, _) ↦ cc
  ]

  -- A rate that is not supported, or negative, is not the rate of buffering.
  unsupported_rate :
      (b : Bool) (r : ℤ)
      → is_supported (pos 0) ≡ true
      → is_supported (if b then pos 0 else r) ≡ false
      → (b ≡ false) × (is_supported r ≡ false)
  unsupported_rate true r h u = cc
  unsupported_rate false r h u = (refl, u)

  negative_rate :
      (b : Bool) (r : ℤ) → (if b then pos 0 else r) <ℤ pos 0 → (b ≡ false) × (r <ℤ pos 0)
  negative_rate true r lt = ground arith
  negative_rate false r lt = (refl, lt)

  -- Where the element can stand still, applying the rate does not throw, keeps the wanted rate and the
  -- buffering flag, and leaves the element at the wanted rate or the timer in charge.
  pub apply-IsApplied :
      (c : PlayRateController)
      → is_supported (pos 0) ≡ true
      → (c' : PlayRateController) × (apply c ≡ some c')
        × IsApplied c'
        × (c'.rate ≡ c.rate)
        × (c'.is_buffering ≡ c.is_buffering)
  unfolding apply calculate_current_rate
  apply-IsApplied c h = elim (leb_ℤ-cases (pos 0) (calculate_current_rate c)) [
    | inl (e, le) ↦ elim (apply_rate-cases (calculate_current_rate c) (stopped c)) [
      | inl k ↦ (_, rw (e, k), inl (refl, refl), refl, refl)
      | inr (u, k) ↦
          let m = apply_by_timer_lem (stopped c) h in
          let (x, y) = unsupported_rate c.is_buffering c.rate h u in
          (_, rw (e, k, m), inr (refl, refl, x, inr y), refl, refl)
    ]
    | inr (e, lt) ↦
        let m = apply_by_timer_lem (stopped c) h in
        let (x, y) = negative_rate c.is_buffering c.rate lt in
        (_, rw (e, m), inr (refl, refl, x, inl y), refl, refl)
  ]
