-- ===== src/Util/History/Spans.antt =====
-- How the entries of a `StateHistory` cover the time.
use Prim.Native.String.{String}
use text.Mathlib.Text.{◌==◌ as str_eq}
use shaka_player_embedded.Base.{
  ◌≡◌, refl, sym, inl, inr, some, List, [], ◌∷◌, ◌++◌, arith, Bool-cases, ℤ, pos, ◌+ℤ◌, ◌-ℤ◌,
  +ℤ_parts, -ℤ_parts, eq_of_parts,
}
use shaka_player_embedded.Util.History.{Entry, StateHistory, new, start, until, update, get_copy}

-- The entries follow one another without a gap, from `s` to `t`.
abbrev pub Spans : ℤ → List Entry → ℤ → Type 0
Spans s [] t = s ≡ t
Spans s (e ∷ es) t = (e.timestamp ≡ s) × Spans (s +ℤ e.duration) es t

-- Updates, each with its time.
pub record Update : Type 0 where
  pub now : ℤ
  pub state : String

abbrev pub run : List Update → StateHistory → StateHistory
run [] h = h
run (u ∷ us) h = run us (update u.now u.state h)

abbrev pub last_now : ℤ → List Update → ℤ
last_now t [] = t
last_now t (u ∷ us) = last_now u.now us

to_now : (a b : ℤ) → a +ℤ (b -ℤ a) ≡ b
to_now a b = eq_of_parts (a +ℤ (b -ℤ a)) b (ground (arith, +ℤ_parts a (b -ℤ a), -ℤ_parts b a))

add_zero : (a : ℤ) → a +ℤ pos 0 ≡ a
add_zero a = eq_of_parts (a +ℤ pos 0) a (ground (arith, +ℤ_parts a (pos 0)))

-- Entries that end with `e` reach to its start, and it to the end.
Spans-snoc :
    (s t : ℤ) (es : List Entry) (e : Entry)
    → Spans s (es ++ e ∷ []) t
    → Spans s es e.timestamp × (e.timestamp +ℤ e.duration ≡ t)
Spans-snoc s t [] e (h, k) = (sym h, rw h k)
Spans-snoc s t (f ∷ es) e (h, k) = let (l, m) = Spans-snoc (s +ℤ f.duration) t es e k in ((h, l), m)

snoc-Spans :
    (s t : ℤ) (es : List Entry) (e : Entry)
    → Spans s es e.timestamp
    → e.timestamp +ℤ e.duration ≡ t
    → Spans s (es ++ e ∷ []) t
snoc-Spans s t [] e h k = (sym h, rw h k)
snoc-Spans s t (f ∷ es) e (h, l) k = (h, snoc-Spans (s +ℤ f.duration) t es e l k)

-- A history that has begun at `s` and was updated last at `t`.
abbrev Covers : ℤ → ℤ → StateHistory → Type 0
Covers s t h =
    (e : Entry) × (h.opened ≡ some e)
    × Spans s h.closed e.timestamp
    × (e.timestamp +ℤ e.duration ≡ t)

update-Covers :
    (s t now : ℤ) (a : String) (h : StateHistory) → Covers s t h → Covers s now (update now a h)
unfolding update
update-Covers s t now a h (e, o, c, d) = elim (Bool-cases (str_eq e.state a)) [
  | inl k ↦ (until now e, rw (o, k), rw (o, k) c, to_now e.timestamp now)
  | inr k ↦ (
    start now a,
    rw (o, k),
    rw (o, k) (snoc-Spans s now h.closed (until now e) c (to_now e.timestamp now)),
    add_zero now,
  )
]

run-Covers :
    (us : List Update) (s t : ℤ) (h : StateHistory)
    → Covers s t h
    → Covers s (last_now t us) (run us h)
run-Covers [] s t h c = c
run-Covers (u ∷ us) s t h c =
    run-Covers us s u.now (update u.now u.state h) (update-Covers s t u.now u.state h c)

-- From the first update on, the entries of the copy follow one another without a gap, up to the last
-- update.
pub run-Spans :
    (u : Update) (us : List Update) → Spans u.now (get_copy (run (u ∷ us) new)) (last_now u.now us)
unfolding get_copy update
run-Spans u us =
    let begun = update u.now u.state new in
    let (e, o, c, d) =
      run-Covers us u.now u.now begun (start u.now u.state, refl, refl, add_zero u.now) in
    rw o (snoc-Spans u.now (last_now u.now us) (run us begun).closed e c d)
