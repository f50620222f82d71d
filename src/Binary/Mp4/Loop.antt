-- ===== src/Binary/Mp4/Loop.antt =====
-- What the loop over the boxes of an MP4 file does to its reader, and when it ends.
use mathlib.Core.Path.{subst}
use shaka_player_embedded.Base.{
  ℕ, zero, suc, ◌+◌, ◌-◌, ◌/◌, ◌%◌, ◌≤◌, min, ◌==◌, ltb, ◌≡◌, refl, sym, ap, ◌∙◌, ◌⊎◌, inl, inr,
  Bool, true, false, not, ◌&&◌, Option, none, some, List, [], if◌then◌else◌, arith, Bool-cases,
}
use shaka_player_embedded.Binary.Reader.{
  ReadError, Reader, Result, ok, throw, and_then-ok, ok_pair, has_more_data, get_length, moved_to,
  read_bytes, read_uint32, read_uint64, skip_to, Reaches, read_uint-Reaches, read_bytes-Reaches,
  read_uint64-Reaches,
}
use shaka_player_embedded.Binary.Mp4.{
  BoxType, basic_box, full_box, Handler, Definitions, box_size, read_header, full_header,
  VersionAndFlags, box_end, read_body, parse_body, parse_defined, parse_next, parse_all,
}

abbrev position_of : Reader → ℕ
position_of r = r.position

-- One move after another.
Reaches-trans :
    (p : ℕ) (r r1 r2 : Reader) (n : ℕ)
    → Reaches p r r1
    → Reaches (r1.position + n) r1 r2
    → Reaches (p + n) r r2
Reaches-trans p r r1 r2 n (q, e, l, m) (q', e', l', m') =
    let at : r1.position ≡ q = ap position_of e in
    let len : get_length r1 ≡ get_length r = ap get_length e in
    (q', e' ∙ ap (moved_to q') e, omega arith, omega arith)

Reaches-after : (p p' : ℕ) (r r1 r2 : Reader) → Reaches p r r1 → Reaches p' r1 r2 → Reaches p' r r2
Reaches-after p p' r r1 r2 (q, e, l, m) (q', e', l', m') =
    let len : get_length r1 ≡ get_length r = ap get_length e in
    (q', e' ∙ ap (moved_to q') e, l', omega arith)

Reaches-length : (p : ℕ) (r r1 : Reader) → Reaches p r r1 → get_length r1 ≡ get_length r
Reaches-length p r r1 (q, e, l, m) = ap get_length e

no_more : (r : Reader) → get_length r ≤ r.position → has_more_data r ≡ false
unfolding has_more_data
no_more r l = ground arith

stays : (r : Reader) → r.position ≤ get_length r → Reaches (r.position + 0) r r
stays r l = (r.position, refl, omega arith, l)

Reaches-bound : (p : ℕ) (r r1 : Reader) → Reaches p r r1 → r1.position ≤ get_length r1
Reaches-bound p r r1 (q, e, l, m) =
    let at : r1.position ≡ q = ap position_of e in
    let len : get_length r1 ≡ get_length r = ap get_length e in omega arith

same_reader {ℓ} :
    {A : Type ℓ} (a v : A) (r r' : Reader)
    → r.position ≤ get_length r
    → ◌≡◌ {A = Result (A × Reader)} (ok (a, r)) (ok (v, r'))
    → Reaches (r.position + 0) r r'
same_reader a v r r' l h =
    subst (λ q. Reaches (r.position + 0) r q) (sym (ok_pair a r v r' h).1) (stays r l)

moved_less : (p n : ℕ) (r r' : Reader) → Reaches (p + n) r r' → Reaches (p + 0) r r'
moved_less p n r r' (q, e, l, m) = (q, e, omega arith, m)

-- The three cases of `box_size`.
by_size :
    (b c : Bool) (rest size : ℕ) (r : Reader) (v : ℕ) (r' : Reader)
    → r.position ≤ get_length r
    → ◌≡◌ {A = Result (ℕ × Reader)}
        (if b then ok (rest, r) else if c then read_uint64 r else ok (size, r))
        (ok (v, r'))
    → Reaches (r.position + 0) r r'
by_size true c rest size r v r' l h = same_reader rest v r r' l h
by_size false true rest size r v r' l h = moved_less r.position 8 r r' (read_uint64-Reaches r h)
by_size false false rest size r v r' l h = same_reader size v r r' l h

start_Reaches : (p : ℕ) (r r1 : Reader) → Reaches p r r1 → p ≤ r1.position
start_Reaches p r r1 (q, e, l, m) = let at : r1.position ≡ q = ap position_of e in omega arith

box_size-Reaches :
    (start size : ℕ) (r : Reader) {v : ℕ} {r' : Reader}
    → r.position ≤ get_length r
    → box_size start size r ≡ ok (v, r')
    → Reaches (r.position + 0) r r'
box_size-Reaches start size r {v} {r'} l h =
    by_size (size == 0) (size == 1) (get_length r - start) size r v r' l h

read_header-Reaches :
    (r : Reader) {v : ℕ × ℕ} {r' : Reader}
    → read_header r ≡ ok (v, r')
    → Reaches (r.position + 4 + 4 + 0) r r'
unfolding read_header
read_header-Reaches r {v} {r'} h =
    let (x, e, k) = and_then-ok (read_uint32 r) _ h in
    let (y, f, m) = and_then-ok (read_uint32 x.1) _ k in
    let (z, g, n) = and_then-ok (box_size r.position x.0 y.1) _ m in
    let a = read_uint-Reaches 4 r e in
    let b = read_uint-Reaches 4 x.1 f in
    let ab = Reaches-trans (r.position + 4) r x.1 y.1 4 a b in
    let c = box_size-Reaches r.position x.0 y.1 (Reaches-bound (r.position + 4 + 4) r y.1 ab) g in
    let d = Reaches-trans (r.position + 4 + 4) r y.1 z.1 0 ab c in
    subst (λ q. Reaches (r.position + 4 + 4 + 0) r q) (sym (ok_pair (z.0, y.0) z.1 v r' n).1) d

full_header-Reaches :
    (t : BoxType) (r : Reader) {v : VersionAndFlags} {r' : Reader}
    → r.position ≤ get_length r
    → full_header t r ≡ ok (v, r')
    → Reaches (r.position + 0) r r'
full_header-Reaches basic_box r {v} {r'} l h = same_reader (none, none) v r r' l h
full_header-Reaches full_box r {v} {r'} l h =
    let (x, e, k) = and_then-ok (read_uint32 r) _ h in
    let flags : VersionAndFlags = (some (x.0 / 16777216), some (x.0 % 16777216)) in
    subst (λ q. Reaches (r.position + 0) r q) (sym (ok_pair flags x.1 v r' k).1)
      (moved_less r.position 4 r x.1 (read_uint-Reaches 4 r e))

by_body :
    (b : Bool) (n : ℕ) (r : Reader) (v : List ℕ) (r' : Reader)
    → r.position ≤ get_length r
    → ◌≡◌ {A = Result (List ℕ × Reader)} (if b then read_bytes n r else ok ([], r)) (ok (v, r'))
    → Reaches (r.position + 0) r r'
by_body true n r v r' l h = moved_less r.position n r r' (read_bytes-Reaches n r h)
by_body false n r v r' l h = same_reader [] v r r' l h

read_body-Reaches :
    (end : ℕ) (r : Reader) {v : List ℕ} {r' : Reader}
    → r.position ≤ get_length r
    → read_body end r ≡ ok (v, r')
    → Reaches (r.position + 0) r r'
read_body-Reaches end r {v} {r'} l h = by_body (ltb r.position end) (end - r.position) r v r' l h

ok_inj : (a b : Reader) → ok a ≡ ok b → a ≡ b
ok_inj a b h = ap reader_of h
  where
    reader_of : Result Reader → Reader
    reader_of (ok y) = y
    reader_of (throw e) = a

weaker : (p p' : ℕ) (r r' : Reader) → p' ≤ p → Reaches p r r' → Reaches p' r r'
weaker p p' r r' k (q, e, l, m) = (q, e, omega arith, m)

skip_to-ok :
    (p : ℕ) (r : Reader) {r' : Reader}
    → skip_to p r ≡ ok r'
    → (r' ≡ moved_to p r) × (p ≤ get_length r)
unfolding skip_to
skip_to-ok p r {r'} h = elim (Bool-cases (ltb (get_length r) p)) [
  | inl e ↦ cc
  | inr e ↦ (sym (ok_inj (moved_to p r) r' (ground arith)), ground arith)
]

module _ {S : Type 0} (definitions : Definitions S) (is_done : S → Bool) where
  parse_body-Reaches :
      (d : BoxType × Handler S) (a start : ℕ) (b : Bool) (size : ℕ) (r : Reader) (s : S)
      {r' : Reader} {s' : S}
      → r.position ≤ get_length r
      → parse_body definitions is_done d a start b size r s ≡ ok (r', s')
      → Reaches (r.position + 0) r r'
  parse_body-Reaches d a start b size r s {r'} {s'} l h =
      let (x, e, k) = and_then-ok (full_header d.0 r) _ h in
      let (y, f, m) = and_then-ok (read_body (box_end b (start + size) x.1) x.1) _ k in
      let (z, g, n) = and_then-ok (d.1 _ s) _ m in
      let u = full_header-Reaches d.0 r l e in
      let v =
        read_body-Reaches (box_end b (start + size) x.1) x.1
          (Reaches-bound (r.position + 0) r x.1 u) f in
      let w = Reaches-trans (r.position + 0) r x.1 y.1 0 u v in
      subst (λ q. Reaches (r.position + 0) r q) (sym (ok_pair y.1 z r' s' n).0)
        (weaker (r.position + 0 + 0) (r.position + 0) r y.1 (omega arith) w)

  parse_defined-Reaches :
      (o : Option (BoxType × Handler S)) (a start : ℕ) (b : Bool) (size : ℕ) (r : Reader) (s : S)
      {r' : Reader} {s' : S}
      → start + 8 ≤ r.position
      → r.position ≤ get_length r
      → 1 ≤ size
      → parse_defined definitions is_done o a start b size r s ≡ ok (r', s')
      → Reaches (start + 1) r r'
  parse_defined-Reaches none a start b size r s {r'} {s'} k l z h =
      let (x, e, n) = and_then-ok (skip_to (min (start + size) (get_length r)) r) _ h in
      let (f, g) = skip_to-ok (min (start + size) (get_length r)) r e in
      subst (λ q. Reaches (start + 1) r q) (sym (ok_pair x s r' s' n).0)
        (min (start + size) (get_length r), f, omega arith, g)
  parse_defined-Reaches (some d) a start b size r s {r'} {s'} k l z h =
      weaker (r.position + 0) (start + 1) r r' (omega arith)
        (parse_body-Reaches d a start b size r s l h)

-- The header gives a size of 0, which only one of 64 bits can be.
unfoldable pub has_empty_box : Reader → Bool
has_empty_box r = elim (read_header r) [ ok h ↦ h.0.0 == 0 | throw e ↦ false ]

has_empty_box-header :
    (r : Reader) (h : (ℕ × ℕ) × Reader) → has_empty_box r ≡ false → read_header r ≡ ok h → 1 ≤ h.0.0
unfolding has_empty_box
has_empty_box-header r h k e =
    let q : (h.0.0 == 0) ≡ false = rw (has_empty_box, e) at k in ground arith

Result-cases {ℓ} :
    {A : Type ℓ} (x : Result A) → ((a : A) × (x ≡ ok a)) ⊎ ((e : ReadError) × (x ≡ throw e))
Result-cases (ok a) = inl (a, refl)
Result-cases (throw e) = inr (e, refl)

module _ {S : Type 0} (definitions : Definitions S) (is_done : S → Bool) where
  -- A box that is parsed moves the reader forward, inside its view, where its header does not give the
  -- size 0.
  pub parse_next-Reaches :
      (a : ℕ) (r : Reader) (b : Bool) (s : S) {r' : Reader} {s' : S}
      → has_empty_box r ≡ false
      → parse_next definitions is_done a r b s ≡ ok (r', s')
      → Reaches (r.position + 1) r r'
  unfolding parse_next
  parse_next-Reaches a r b s {r'} {s'} k h =
      let (x, e, n) = and_then-ok (read_header r) _ h in
      let u = read_header-Reaches r e in
      let at = start_Reaches (r.position + 4 + 4 + 0) r x.1 u in
      let v =
        parse_defined-Reaches definitions is_done (definitions x.0.1) a r.position b x.0.0 x.1 s
          (omega arith) (Reaches-bound (r.position + 4 + 4 + 0) r x.1 u)
          (has_empty_box-header r x k e) n in
      Reaches-after (r.position + 4 + 4 + 0) (r.position + 1) r x.1 r' u v

  -- The loop ends: fuel for the bytes that are left is enough, where no box has the size 0.
  pub parse_all_enough :
      (fuel a : ℕ) (r : Reader) (b : Bool) (s : S)
      → get_length r ≤ r.position + fuel
      → ((p : ℕ) → has_empty_box (moved_to p r) ≡ false)
      → (x : Result (Reader × S)) × (parse_all definitions is_done fuel a r b s ≡ some x)
  unfolding parse_all
  parse_all_enough zero a r b s l h = (ok (r, s), rw (no_more r (omega arith)))
  parse_all_enough (suc fuel) a r b s l h = elim (Bool-cases (has_more_data r && not (is_done s))) [
    | inr e ↦ (ok (r, s), rw e)
    | inl e ↦ elim (Result-cases (parse_next definitions is_done a r b s)) [
      | inr (f, g) ↦ (throw f, rw (e, g))
      | inl (x, g) ↦
          let u = parse_next-Reaches a r b s (h r.position) g in
          let at = start_Reaches (r.position + 1) r x.0 u in
          let len = Reaches-length (r.position + 1) r x.0 u in
          let (y, k) =
            parse_all_enough fuel a x.0 b x.1 (omega arith)
              (λ p. ap (λ z. has_empty_box (moved_to p z)) u.1 ∙ h p) in
          (y, rw (e, g) k)
    ]
  ]
