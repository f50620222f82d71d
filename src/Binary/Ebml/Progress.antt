-- ===== src/Binary/Ebml/Progress.antt =====
-- An element is read with progress, and no read is out of fuel.
use shaka_player_embedded.Base.{
  ℕ, zero, suc, ◌+◌, ◌-◌, ◌≤◌, ◌≡◌, refl, sym, ltb, Bool, true, false, [], ◌∷◌, length,
  if◌then◌else◌, arith, ◌==◌,
}
use mathlib.Core.Path.{subst}
use shaka_player_embedded.Binary.Bytes.{Bytes}
use shaka_player_embedded.Binary.Reader.{
  Reader, Result, ReadError, ok, throw, and_then, and_then-ok, fail_if, fail_if-ok, get_length,
  moved_to, Reaches, read_uint, read_uint-Reaches, skip, skip_to, bytes_at, stuck, ebml_overflow,
  js_integer_overflow, ok_pair, if_throw-ok, buffer_read_out_of_bounds,
  ebml_bad_floating_point_size,
}
use shaka_player_embedded.Binary.Ebml.{
  Element, Parser, element_size, clipped, get_float, get_uint, get_vint_value,
  is_dynamic_size_value, parse_element, parse_id, parse_vint, read_uint8s, vint_length, bytes_left,
}

-- The reader has moved on by `n` or more, inside the same view.
abbrev pub IsPast : ℕ → Reader → Reader → Type 0
IsPast n r r' =
    (get_length r' ≡ get_length r) × (r.position + n ≤ r'.position) × (r'.position ≤ get_length r)

Reaches-IsPast : (n : ℕ) (r r' : Reader) → Reaches (r.position + n) r r' → IsPast n r r'
Reaches-IsPast n r r' (q, e, a, b) = subst (IsPast n r) (sym e) (refl, a, b)

read_uint8s-IsPast :
    (k : ℕ) (r : Reader) {bs : Bytes} {r' : Reader}
    → r.position ≤ get_length r
    → read_uint8s k r ≡ ok (bs, r')
    → IsPast 0 r r'
unfolding read_uint8s
read_uint8s-IsPast zero r {bs} {r'} l h =
    subst (IsPast 0 r) (sym (ok_pair [] r bs r' h).1) (refl, omega arith, l)
read_uint8s-IsPast (suc k) r {bs} {r'} l h =
    let (x, e, m) = and_then-ok (read_uint 1 r) _ h in
    let (y, f, n) = and_then-ok (read_uint8s k x.1) _ m in
    let a = Reaches-IsPast 1 r x.1 (read_uint-Reaches 1 r e) in
    let b = read_uint8s-IsPast k x.1 (omega arith) f in
    subst (IsPast 0 r) (sym (ok_pair (x.0 ∷ y.0) y.1 bs r' n).1)
      (omega arith, omega arith, omega arith)

parse_vint-IsPast :
    (r : Reader) {v : Bytes} {r' : Reader} → parse_vint r ≡ ok (v, r') → IsPast 1 r r'
unfolding parse_vint
parse_vint-IsPast r {v} {r'} h =
    let (x, e, m) = and_then-ok (read_uint 1 r) _ h in
    let (_, n) = fail_if-ok (ltb 8 (vint_length x.0)) ebml_overflow _ m in
    let (y, f, q) = and_then-ok (read_uint8s (vint_length x.0 - 1) x.1) _ n in
    let a = Reaches-IsPast 1 r x.1 (read_uint-Reaches 1 r e) in
    let b = read_uint8s-IsPast (vint_length x.0 - 1) x.1 (omega arith) f in
    subst (IsPast 1 r) (sym (ok_pair (x.0 ∷ y.0) y.1 v r' q).1)
      (omega arith, omega arith, omega arith)

parse_id-IsPast : (r : Reader) {n : ℕ} {r' : Reader} → parse_id r ≡ ok (n, r') → IsPast 1 r r'
unfolding parse_id
parse_id-IsPast r {n} {r'} h =
    let (x, e, m) = and_then-ok (parse_vint r) _ h in
    let (_, q) = fail_if-ok (ltb 7 (length x.0)) ebml_overflow _ m in
    subst (IsPast 1 r) (sym (ok_pair _ x.1 n r' q).1) (parse_vint-IsPast r e)

skip-IsPast : (n : ℕ) (r : Reader) {r' : Reader} → skip n r ≡ ok r' → IsPast 0 r r'
unfolding skip skip_to
skip-IsPast n r {r'} h =
    let (t, e) =
      if_throw-ok (ltb (get_length r) (r.position + n)) buffer_read_out_of_bounds
        (moved_to (r.position + n) r) r' h in
    subst (IsPast 0 r) e (refl, omega arith, ground arith)

-- An element takes two bytes or more.
pub parse_element-IsPast :
    (p : Parser) {e : Element} {p' : Parser}
    → parse_element p ≡ ok (e, p')
    → IsPast 2 p.reader p'.reader
unfolding parse_element
parse_element-IsPast p {e} {p'} h =
    let (x, e1, m) = and_then-ok (parse_id p.reader) _ h in
    let (v, e2, n) = and_then-ok (parse_vint x.1) _ m in
    let (size, e3, o) = and_then-ok (element_size v.0 v.1) _ n in
    let (r3, e4, q) = and_then-ok (skip (clipped size v.1) v.1) _ o in
    let a = parse_id-IsPast p.reader e1 in
    let b = parse_vint-IsPast x.1 e2 in
    let c = skip-IsPast (clipped size v.1) v.1 e4 in
    subst (λ s. IsPast 2 p.reader s.reader) (sym (ok_pair _ (record p { reader = r3 }) e p' q).1)
      (omega arith, omega arith, omega arith)

-- Whether an error says that a loop is out of fuel.
abbrev pub is_stuck : ReadError → Bool
is_stuck stuck = true
is_stuck _ = false

-- A result of the code: no loop has run out of fuel.
unfoldable pub IsAnswer {ℓ} : {A : Type ℓ} → Result A → Type 0
IsAnswer (ok a) = Unit
IsAnswer (throw e) = is_stuck e ≡ false

pub ok-IsAnswer {ℓ} : {A : Type ℓ} (a : A) → IsAnswer (ok a)
unfolding IsAnswer
ok-IsAnswer a = tt

pub throw-IsAnswer {ℓ} :
    (A : Type ℓ) (e : ReadError) → is_stuck e ≡ false → IsAnswer {A = A} (throw e)
unfolding IsAnswer
throw-IsAnswer A e h = h

pub if-IsAnswer {ℓ} :
    {A : Type ℓ} (b : Bool) (x y : Result A)
    → IsAnswer x
    → IsAnswer y
    → IsAnswer (if b then x else y)
if-IsAnswer true x y h k = h
if-IsAnswer false x y h k = k

pub and_then-IsAnswer {ℓ κ} :
    {A : Type ℓ} {B : Type κ} (x : Result A) (k : A → Result B)
    → IsAnswer x
    → ((a : A) → x ≡ ok a → IsAnswer (k a))
    → IsAnswer (and_then x k)
unfolding IsAnswer
and_then-IsAnswer (ok a) k h f = f a refl
and_then-IsAnswer (throw e) k h f = h

pub fail_if-IsAnswer {ℓ} :
    {A : Type ℓ} (b : Bool) (e : ReadError) (x : Result A)
    → is_stuck e ≡ false
    → IsAnswer x
    → IsAnswer (fail_if b e x)
unfolding IsAnswer
fail_if-IsAnswer true e x h k = h
fail_if-IsAnswer false e x h k = k

read_uint-IsAnswer : (n : ℕ) (r : Reader) → IsAnswer (read_uint n r)
unfolding read_uint bytes_at IsAnswer
read_uint-IsAnswer n r = ground arith

read_uint8s-IsAnswer : (k : ℕ) (r : Reader) → IsAnswer (read_uint8s k r)
unfolding read_uint8s
read_uint8s-IsAnswer zero r = ok-IsAnswer ([], r)
read_uint8s-IsAnswer (suc k) r =
    and_then-IsAnswer (read_uint 1 r) _ (read_uint-IsAnswer 1 r) (λ x e.
      and_then-IsAnswer (read_uint8s k x.1) _ (read_uint8s-IsAnswer k x.1) (λ y f. ok-IsAnswer _))

parse_vint-IsAnswer : (r : Reader) → IsAnswer (parse_vint r)
unfolding parse_vint
parse_vint-IsAnswer r = and_then-IsAnswer (read_uint 1 r) _ (read_uint-IsAnswer 1 r) (λ x e.
    fail_if-IsAnswer (ltb 8 (vint_length x.0)) ebml_overflow _ refl (
      and_then-IsAnswer (read_uint8s (vint_length x.0 - 1) x.1) _
        (read_uint8s-IsAnswer (vint_length x.0 - 1) x.1) (λ y f. ok-IsAnswer _)))

parse_id-IsAnswer : (r : Reader) → IsAnswer (parse_id r)
unfolding parse_id
parse_id-IsAnswer r =
    and_then-IsAnswer (parse_vint r) _ (parse_vint-IsAnswer r)
      (λ x e. fail_if-IsAnswer (ltb 7 (length x.0)) ebml_overflow _ refl (ok-IsAnswer _))

get_vint_value-IsAnswer : (v : Bytes) → IsAnswer (get_vint_value v)
unfolding get_vint_value
get_vint_value-IsAnswer [] = ok-IsAnswer 0
get_vint_value-IsAnswer (a ∷ bs) = fail_if-IsAnswer _ js_integer_overflow _ refl (ok-IsAnswer _)

element_size-IsAnswer : (v : Bytes) (r : Reader) → IsAnswer (element_size v r)
element_size-IsAnswer v r =
    if-IsAnswer (is_dynamic_size_value v) (ok (bytes_left r)) (get_vint_value v) (ok-IsAnswer _)
      (get_vint_value-IsAnswer v)

skip-IsAnswer : (n : ℕ) (r : Reader) → IsAnswer (skip n r)
unfolding skip skip_to IsAnswer
skip-IsAnswer n r = ground arith

pub parse_element-IsAnswer : (p : Parser) → IsAnswer (parse_element p)
unfolding parse_element
parse_element-IsAnswer p =
    and_then-IsAnswer (parse_id p.reader) _ (parse_id-IsAnswer p.reader) (λ x _.
      and_then-IsAnswer (parse_vint x.1) _ (parse_vint-IsAnswer x.1) (λ v _.
        and_then-IsAnswer (element_size v.0 v.1) _ (element_size-IsAnswer v.0 v.1) (λ size _.
          and_then-IsAnswer (skip (clipped size v.1) v.1) _ (skip-IsAnswer (clipped size v.1) v.1)
            (λ r3 _. ok-IsAnswer _))))

pub get_uint-IsAnswer : (e : Element) → IsAnswer (get_uint e)
unfolding get_uint
get_uint-IsAnswer e =
    fail_if-IsAnswer _ ebml_overflow _ refl
      (fail_if-IsAnswer _ js_integer_overflow _ refl (ok-IsAnswer _))

pub get_float-IsAnswer {ℓ} :
    {F : Type ℓ} (decode : Bytes → F) (e : Element) → IsAnswer (get_float decode e)
unfolding get_float
get_float-IsAnswer {F = F} decode e =
    if-IsAnswer (length e.view.bytes == 4) _ _ (ok-IsAnswer (decode e.view.bytes)) (
      if-IsAnswer (length e.view.bytes == 8) _ _ (ok-IsAnswer (decode e.view.bytes))
        (throw-IsAnswer F ebml_bad_floating_point_size refl))
