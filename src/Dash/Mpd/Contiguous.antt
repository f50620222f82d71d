-- ===== src/Dash/Mpd/Contiguous.antt =====
-- The segments of a timeline follow one another without a gap.
use shaka_player_embedded.Base.{
  ℕ, zero, suc, ◌≡◌, refl, sym, ap, ◌∙◌, true, Option, none, some, List, [], ◌∷◌, ◌++◌, ℤ, pos,
  ◌+ℤ◌, ◌-ℤ◌, ◌==ℤ◌, int_laws, Bool-cases, inl, inr,
}
use mathlib.Core.Path.{subst}
use shaka_player_embedded.Dash.Mpd.{
  TimePoint, TimelineEntry, Timeline, close_gap, create_timeline, positive, push_entries,
  repeat_count, set_last_end, start_of, walk_points, add_point, with_duration, repeated,
}

-- The first segment starts at `a`, each other one where the one before it ends, the last ends at `b`.
abbrev Runs : ℤ → Timeline → ℤ → Type 0
Runs a [] b = a ≡ b
Runs a (e ∷ es) b = (e.start ≡ a) × Runs e.end_time es b

abbrev pub Follows : ℤ → Timeline → Type 0
Follows a [] = Unit
Follows a (e ∷ es) = (e.start ≡ a) × Follows e.end_time es

-- Each segment but the first starts where the one before it ends.
abbrev pub IsContiguous : Timeline → Type 0
IsContiguous [] = Unit
IsContiguous (e ∷ es) = Follows e.end_time es

Runs-snoc :
    (a b : ℤ) (es : Timeline) (e : TimelineEntry)
    → Runs a es b
    → e.start ≡ b
    → Runs a (es ++ (e ∷ [])) e.end_time
Runs-snoc a b [] e h k = (k ∙ sym h, refl)
Runs-snoc a b (x ∷ es) e (h, r) k = (h, Runs-snoc x.end_time b es e r k)

push_entries-Runs :
    (k : ℕ) (a l : ℤ) (m : ℕ) (es : Timeline)
    → Runs a es l
    → Runs a (push_entries k l m es).0 (push_entries k l m es).1
unfolding push_entries
push_entries-Runs zero a l m es h = h
push_entries-Runs (suc k) a l m es h =
    push_entries-Runs k a (l +ℤ pos m) m (es ++ _) (Runs-snoc a l es _ h refl)

set_last_end-Runs :
    (a b z : ℤ) (e : TimelineEntry) (es : Timeline)
    → Runs a (e ∷ es) b
    → Runs a (set_last_end z (e ∷ es)) z
unfolding set_last_end
set_last_end-Runs a b z e [] (h, r) = (h, refl)
set_last_end-Runs a b z e (x ∷ es) (h, r) = (h, set_last_end-Runs e.end_time b z x es r)

Runs-Follows : (a b : ℤ) (es : Timeline) → Runs a es b → Follows a es
Runs-Follows a b [] h = tt
Runs-Follows a b (e ∷ es) (h, r) = (h, Runs-Follows e.end_time b es r)

-- The timeline so far ends where the state says.
abbrev State : Timeline × ℤ → Type 0
State s = (a : ℤ) × Runs a s.0 s.1

same_integer : (a b : ℤ) → (a ==ℤ b) ≡ true → a ≡ b
same_integer a b h = grind int_laws

set_last_end-State : (l g : ℤ) (f : Timeline) → State (f, g) → State (set_last_end l f, l)
unfolding set_last_end
set_last_end-State l g [] (a, h) = (l, refl)
set_last_end-State l g (e ∷ es) (a, h) = (a, set_last_end-Runs a g l e es h)

close_gap-State : (l : ℤ) (s : Timeline × ℤ) → State s → State (close_gap l s, l)
close_gap-State l (f, g) h = elim (Bool-cases (l ==ℤ g)) [
  | inl e ↦ rw e (subst (λ z. State (f, z)) (sym (same_integer l g e)) h)
  | inr e ↦ rw e (set_last_end-State l g f h)
]

State-IsContiguous : (f : Timeline) (g : ℤ) → State (f, g) → IsContiguous f
State-IsContiguous [] g h = tt
State-IsContiguous (e ∷ es) g (a, (h, r)) = Runs-Follows e.end_time g es r

State-some :
    (s s' : Timeline × ℤ) → State s → ◌≡◌ {A = Option (Timeline × ℤ)} (some s) (some s') → State s'
State-some s s' h e = subst State (ap (or_else s) e) h
  where
    or_else : Timeline × ℤ → Option (Timeline × ℤ) → Timeline × ℤ
    or_else d none = d
    or_else d (some x) = x

repeated-State :
    (l : ℤ) (m : ℕ) (s : Timeline × ℤ) (o : Option ℕ) {s' : Timeline × ℤ}
    → State s
    → repeated l m s o ≡ some s'
    → State s'
repeated-State l m s none h e = cc
repeated-State l m s (some n) {s'} h e =
    let (a, c) = close_gap-State l s h in
    State-some (push_entries (suc n) l m (close_gap l s)) s'
      (a, push_entries-Runs (suc n) a l m (close_gap l s) c) e

add_point-State :
    (timescale offset : ℕ) (duration : Option ℕ) (p : TimePoint) (ps : List TimePoint)
    (s : Timeline × ℤ) {s' : Timeline × ℤ}
    → State s
    → add_point timescale offset duration p ps s ≡ some s'
    → State s'
unfolding add_point
add_point-State timescale offset duration p ps s {s'} h = from_duration (positive p.d)
  where
    l : ℤ
    l = start_of offset p.t s.1

    from_duration :
        (o : Option ℕ) → with_duration timescale duration l p.r ps s o ≡ some s' → State s'
    from_duration none e = cc
    from_duration (some m) e = repeated-State l m s (repeat_count timescale duration l m p.r ps) h e

walk_points-IsContiguous :
    (timescale offset : ℕ) (duration : Option ℕ) (ps : List TimePoint) (s : Timeline × ℤ)
    → State s
    → IsContiguous (walk_points timescale offset duration ps s)
unfolding walk_points
walk_points-IsContiguous timescale offset duration [] s h = State-IsContiguous s.0 s.1 h
walk_points-IsContiguous timescale offset duration (p ∷ ps) s h =
    from_step (λ s' k. walk_points-IsContiguous timescale offset duration ps s' k)
      (add_point timescale offset duration p ps s)
      (λ s' e. add_point-State timescale offset duration p ps s h e)
  where
    from_step :
        ((s' : Timeline × ℤ)
          → State s'
          → IsContiguous (walk_points timescale offset duration ps s'))
        → (o : Option (Timeline × ℤ)) → ((s' : Timeline × ℤ) → o ≡ some s' → State s')
        → IsContiguous
            (elim o [ none ↦ s.0 | some s' ↦ walk_points timescale offset duration ps s' ])
    from_step rest none k = State-IsContiguous s.0 s.1 h
    from_step rest (some s') k = rest s' (k s' refl)

pub create_timeline-IsContiguous :
    (timescale offset : ℕ) (duration : Option ℕ) (ps : List TimePoint)
    → IsContiguous (create_timeline timescale offset duration ps)
unfolding create_timeline
create_timeline-IsContiguous timescale offset duration ps =
    walk_points-IsContiguous timescale offset duration ps ([], pos 0 -ℤ pos offset) (_, refl)
