-- ===== src/Util/History/Times.antt =====
-- The times that `getBlob` reads from the state history.
use Prim.Native.String.{String}
use text.Mathlib.Text.{◌==◌ as str_eq}
use shaka_player_embedded.Base.{
  ◌≡◌, refl, sym, ap, ◌⊎◌, inl, inr, Bool, true, false, Option, none, some, List, [], ◌∷◌, ◌++◌,
  if◌then◌else◌, All, arith, ◌∙◌, ℤ, pos, ◌+ℤ◌, +ℤ_parts, eq_of_parts,
}
use shaka_player_embedded.Util.History.{
  Entry, StateHistory, new, start, until, update, share, add_shares, open_share, get_time_spent_in,
  to_list, get_copy, Stats, get_blob,
}
use shaka_player_embedded.Util.History.Spans.{Spans, Update, run, last_now, run-Spans}

-- The time that the entries of a list spend in a state, and the time of all of them.
unfoldable pub time_in : String → List Entry → ℤ
time_in a [] = pos 0
time_in a (e ∷ es) = share a e +ℤ time_in a es

unfoldable pub total : List Entry → ℤ
total [] = pos 0
total (e ∷ es) = e.duration +ℤ total es

+ℤ_assoc : (a b c : ℤ) → (a +ℤ b) +ℤ c ≡ a +ℤ (b +ℤ c)
+ℤ_assoc a b c =
    eq_of_parts (a +ℤ b +ℤ c) (a +ℤ (b +ℤ c))
      (ground (arith, +ℤ_parts (a +ℤ b) c, +ℤ_parts a b, +ℤ_parts a (b +ℤ c), +ℤ_parts b c))

+ℤ_comm : (a b : ℤ) → a +ℤ b ≡ b +ℤ a
+ℤ_comm a b = eq_of_parts (a +ℤ b) (b +ℤ a) (ground (arith, +ℤ_parts a b, +ℤ_parts b a))

+ℤ_zero : (a : ℤ) → a +ℤ pos 0 ≡ a
+ℤ_zero a = eq_of_parts (a +ℤ pos 0) a (ground (arith, +ℤ_parts a (pos 0)))

add_shares-time_in : (a : String) (b : ℤ) (es : List Entry) → add_shares a b es ≡ time_in a es +ℤ b
unfolding add_shares time_in
add_shares-time_in a b [] = sym (+ℤ_comm (pos 0) b ∙ +ℤ_zero b)
add_shares-time_in a b (e ∷ es) =
    add_shares-time_in a (b +ℤ share a e) es
    ∙ eq_of_parts (time_in a es +ℤ (b +ℤ share a e)) (share a e +ℤ time_in a es +ℤ b) (
        ground (
          arith,
          +ℤ_parts (time_in a es) (b +ℤ share a e),
          +ℤ_parts b (share a e),
          +ℤ_parts (share a e +ℤ time_in a es) b,
          +ℤ_parts (share a e) (time_in a es),
        ))

time_in-append :
    (a : String) (xs ys : List Entry) → time_in a (xs ++ ys) ≡ time_in a xs +ℤ time_in a ys
unfolding time_in
time_in-append a [] ys = sym (+ℤ_comm (pos 0) (time_in a ys) ∙ +ℤ_zero (time_in a ys))
time_in-append a (e ∷ es) ys =
    ap (λ z. share a e +ℤ z) (time_in-append a es ys)
    ∙ sym (+ℤ_assoc (share a e) (time_in a es) (time_in a ys))

time_in-to_list : (a : String) (o : Option Entry) → time_in a (to_list o) ≡ open_share a o
unfolding time_in
time_in-to_list a none = refl
time_in-to_list a (some e) = +ℤ_zero (share a e)

-- The time that `getTimeSpentIn` answers is the sum over the entries of the copy in that state.
pub get_time_spent_in-time_in :
    (a : String) (h : StateHistory) → get_time_spent_in a h ≡ time_in a (get_copy h)
unfolding get_time_spent_in get_copy
get_time_spent_in-time_in a h =
    add_shares-time_in a (open_share a h.opened) h.closed
    ∙ ap (λ z. time_in a h.closed +ℤ z) (sym (time_in-to_list a h.opened))
    ∙ sym (time_in-append a h.closed (to_list h.opened))

Spans-total : (s t : ℤ) (es : List Entry) → Spans s es t → s +ℤ total es ≡ t
unfolding total
Spans-total s t [] h = +ℤ_zero s ∙ h
Spans-total s t (e ∷ es) (h, k) =
    sym (+ℤ_assoc s e.duration (total es)) ∙ Spans-total (s +ℤ e.duration) t es k

-- The states in which the player is once something is loaded.
abbrev pub IsPlayerState : String → Type 0
IsPlayerState a = (a ≡ "playing") ⊎ (a ≡ "paused") ⊎ (a ≡ "buffering")

abbrev IsPlayed : Entry → Type 0
IsPlayed e = IsPlayerState e.state

abbrev shared : String → ℤ → String → ℤ
shared s d a = if str_eq s a then d else pos 0

three_shares :
    (s : String) (d : ℤ)
    → IsPlayerState s
    → shared s d "playing" +ℤ shared s d "paused" +ℤ shared s d "buffering" ≡ d
unfolding ◌+ℤ◌
three_shares s d (inl h) = rw h (+ℤ_zero (d +ℤ pos 0) ∙ +ℤ_zero d)
three_shares s d (inr (inl h)) = rw h (+ℤ_zero (pos 0 +ℤ d) ∙ (+ℤ_comm (pos 0) d ∙ +ℤ_zero d))
three_shares s d (inr (inr h)) = rw h (+ℤ_comm (pos 0) d ∙ +ℤ_zero d)

sum_of_three :
    (p q b x y z d t : ℤ)
    → p +ℤ q +ℤ b ≡ d
    → x +ℤ y +ℤ z ≡ t
    → (p +ℤ x) +ℤ (q +ℤ y) +ℤ (b +ℤ z) ≡ d +ℤ t
sum_of_three p q b x y z d t h k =
    rw (sym h, sym k)
      (eq_of_parts ((p +ℤ x) +ℤ (q +ℤ y) +ℤ (b +ℤ z)) (p +ℤ q +ℤ b +ℤ (x +ℤ y +ℤ z)) (
        ground (
          arith,
          +ℤ_parts ((p +ℤ x) +ℤ (q +ℤ y)) (b +ℤ z),
          +ℤ_parts (p +ℤ x) (q +ℤ y),
          +ℤ_parts p x,
          +ℤ_parts q y,
          +ℤ_parts b z,
          +ℤ_parts (p +ℤ q +ℤ b) (x +ℤ y +ℤ z),
          +ℤ_parts (p +ℤ q) b,
          +ℤ_parts p q,
          +ℤ_parts (x +ℤ y) z,
          +ℤ_parts x y,
        )))

three_times :
    (es : List Entry)
    → All IsPlayed es
    → time_in "playing" es +ℤ time_in "paused" es +ℤ time_in "buffering" es ≡ total es
unfolding time_in total ◌+ℤ◌
three_times [] h = refl
three_times (e ∷ es) (p, h) =
    sum_of_three (share "playing" e) (share "paused" e) (share "buffering" e) (time_in "playing" es)
      (time_in "paused" es) (time_in "buffering" es) e.duration (total es)
      (three_shares e.state e.duration p) (three_times es h)

append-All : (xs ys : List Entry) → All IsPlayed xs → All IsPlayed ys → All IsPlayed (xs ++ ys)
append-All [] ys h k = k
append-All (x ∷ xs) ys (p, h) k = (p, append-All xs ys h k)

abbrev ArePlayed : StateHistory → Type 0
ArePlayed h = All IsPlayed h.closed × All IsPlayed (to_list h.opened)

-- An update with an entry at hand, by whether the state is the same.
replace-ArePlayed :
    (b : Bool) (now : ℤ) (a : String) (h : StateHistory) (e : Entry)
    → IsPlayerState a
    → All IsPlayed h.closed
    → IsPlayed e
    → ArePlayed (
        if b
        then record h { opened = some (until now e) }
        else record { opened = some (start now a); closed = h.closed ++ until now e ∷ [] })
replace-ArePlayed true now a h e p c q = (c, (q, tt))
replace-ArePlayed false now a h e p c q =
    (append-All h.closed (until now e ∷ []) c (q, tt), (p, tt))

update-ArePlayed :
    (now : ℤ) (a : String) (o : Option Entry) (es : List Entry)
    → IsPlayerState a
    → ArePlayed (record { opened = o; closed = es })
    → ArePlayed (update now a (record { opened = o; closed = es }))
unfolding update
update-ArePlayed now a none es p (c, q) = (c, (p, tt))
update-ArePlayed now a (some e) es p (c, (q, _)) =
    replace-ArePlayed (str_eq e.state a) now a (record { opened = some e; closed = es }) e p c q

run-ArePlayed :
    (us : List Update) (h : StateHistory)
    → All (λ u. IsPlayerState u.state) us
    → ArePlayed h
    → ArePlayed (run us h)
run-ArePlayed [] h p k = k
run-ArePlayed (u ∷ us) h (q, p) k =
    run-ArePlayed us (update u.now u.state h) p
      (update-ArePlayed u.now u.state h.opened h.closed q k)

get_copy-IsPlayed : (h : StateHistory) → ArePlayed h → All IsPlayed (get_copy h)
unfolding get_copy
get_copy-IsPlayed h (c, q) = append-All h.closed (to_list h.opened) c q

-- In the statistics of a player that has only been playing, paused or buffering, the times of the
-- three add up, with the time of the first update, to that of the last one: no time is lost or
-- counted twice.
pub get_blob_times :
    (u : Update) (us : List Update) (s : Stats)
    → All (λ v. IsPlayerState v.state) (u ∷ us)
    → s.state_history ≡ run (u ∷ us) new
    → u.now +ℤ ((get_blob s).play_time +ℤ (get_blob s).pause_time +ℤ (get_blob s).buffering_time)
      ≡ last_now u.now us
unfolding get_blob
get_blob_times u us s p e =
    let h = run (u ∷ us) new in
    let q = run-ArePlayed (u ∷ us) new p (tt, tt) in
    rw
      (
        e,
        get_time_spent_in-time_in "playing" h,
        get_time_spent_in-time_in "paused" h,
        get_time_spent_in-time_in "buffering" h,
        three_times (get_copy h) (get_copy-IsPlayed h q),
      )
      (Spans-total u.now (last_now u.now us) (get_copy h) (run-Spans u us))
