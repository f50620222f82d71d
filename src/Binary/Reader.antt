-- ===== src/Binary/Reader.antt =====
-- Class `DataViewReader` (shaka/js/shaka-player.compiled.debug.js). A view is the list of its bytes.
use shaka_player_embedded.Base.{
  ℕ, suc, ◌+◌, ◌-◌, ◌*◌, ◌≤◌, ◌≡◌, refl, sym, ap, ◌==◌, ltb, leb, Bool, true, false, List, [], ◌∷◌,
  length, take, drop, if◌then◌else◌, arith,
}

-- The errors that the readers throw.
pub data ReadError : Type 0 where
  buffer_read_out_of_bounds js_integer_overflow : ReadError
  ebml_overflow ebml_bad_floating_point_size : ReadError
  webm_cues_element_missing webm_ebml_header_element_missing webm_segment_element_missing :
      ReadError
  webm_info_element_missing webm_duration_element_missing : ReadError
  webm_cue_time_element_missing webm_cue_track_positions_element_missing : ReadError
  mp4_sidx_wrong_box_type mp4_sidx_invalid_timescale mp4_sidx_type_not_supported : ReadError
  bad_encoding unable_to_detect_encoding : ReadError
  -- No error of the code: a loop has run out of fuel.
  stuck : ReadError

pub data Result {ℓ} (A : Type ℓ) : Type ℓ where
  ok : A → Result A
  throw : ReadError → Result A

abbrev pub and_then {ℓ κ} : {A : Type ℓ} {B : Type κ} → Result A → (A → Result B) → Result B
and_then (ok a) k = k a
and_then (throw e) k = throw e

infixl 5 ◌>>=◌
abbrev pub ◌>>=◌ {ℓ κ} : {A : Type ℓ} {B : Type κ} → Result A → (A → Result B) → Result B
m >>= k = and_then m k

-- `if (b) throw ...`, and what follows.
abbrev pub fail_if {ℓ} : {A : Type ℓ} → Bool → ReadError → Result A → Result A
fail_if true e x = throw e
fail_if false e x = x

pub fail_if-ok {ℓ} :
    {A : Type ℓ} (b : Bool) (e : ReadError) (x : Result A) {a : A}
    → fail_if b e x ≡ ok a
    → (b ≡ false) × (x ≡ ok a)
fail_if-ok true e x h = cc
fail_if-ok false e x h = (refl, h)

pub ok_inj {ℓ} : {A : Type ℓ} (a b : A) → ◌≡◌ {A = Result A} (ok a) (ok b) → a ≡ b
ok_inj {A = A} a b h = ap value_of h
  where
    value_of : Result A → A
    value_of (ok x) = x
    value_of (throw e) = a

pub if_throw-ok {ℓ} :
    {A : Type ℓ} (b : Bool) (e : ReadError) (x y : A)
    → ◌≡◌ {A = Result A} (if b then throw e else ok x) (ok y)
    → (b ≡ false) × (x ≡ y)
if_throw-ok true e x y h = cc
if_throw-ok false e x y h = (refl, ok_inj x y h)

pub and_then-ok {ℓ κ} :
    {A : Type ℓ} {B : Type κ} (x : Result A) (k : A → Result B) {b : B}
    → and_then x k ≡ ok b
    → (a : A) × (x ≡ ok a) × (k a ≡ ok b)
and_then-ok (ok a) k h = (a, refl, h)
and_then-ok (throw e) k h = cc

pub record Reader : Type 0 where
  pub bytes : List ℕ
  pub little_endian : Bool
  pub position : ℕ

unfoldable pub new : List ℕ → Bool → Reader
new bytes little = record { bytes = bytes; little_endian = little; position = 0 }

abbrev pub get_length : Reader → ℕ
get_length r = length r.bytes

unfoldable pub has_more_data : Reader → Bool
has_more_data r = ltb r.position (get_length r)

abbrev pub moved_to : ℕ → Reader → Reader
moved_to p r = record r { position = p }

-- What `getUint8`, `getUint16` and `getUint32` make of the bytes.
abbrev pub big : ℕ → List ℕ → ℕ
big a [] = a
big a (b ∷ bs) = big (a * 256 + b) bs

abbrev pub little : List ℕ → ℕ
little [] = 0
little (b ∷ bs) = b + 256 * little bs

abbrev pub value : Bool → List ℕ → ℕ
value e bs = if e then little bs else big 0 bs

-- The `n` bytes from position `p` on, where the view has them.
unfoldable pub bytes_at : ℕ → ℕ → List ℕ → Result (List ℕ)
bytes_at p n bs =
    if leb (p + n) (length bs) then ok (take n (drop p bs)) else throw buffer_read_out_of_bounds

-- `readBytes`
unfoldable pub read_bytes : ℕ → Reader → Result (List ℕ × Reader)
read_bytes n r =
    and_then (bytes_at r.position n r.bytes) (λ bs. ok (bs, moved_to (r.position + n) r))

-- `readUint8`, `readUint16` and `readUint32`, for 1, 2 and 4 bytes.
unfoldable pub read_uint : ℕ → Reader → Result (ℕ × Reader)
read_uint n r =
    and_then (bytes_at r.position n r.bytes)
      (λ bs. ok (value r.little_endian bs, moved_to (r.position + n) r))

abbrev pub read_uint32 : Reader → Result (ℕ × Reader)
read_uint32 r = read_uint 4 r

-- The high half of a number of 64 bits may have 21 bits, so that the number fits a double.
abbrev pub from_halves : ℕ → ℕ → Reader → Result (ℕ × Reader)
from_halves high low r =
    if ltb 2097151 high
    then throw js_integer_overflow
    else ok (high * 4294967296 + low, moved_to (r.position + 8) r)

unfoldable pub read_uint64 : Reader → Result (ℕ × Reader)
read_uint64 r = and_then (bytes_at r.position 4 r.bytes) (λ first.
    and_then (bytes_at (r.position + 4) 4 r.bytes) (λ second.
      if r.little_endian
      then from_halves (little second) (little first) r
      else from_halves (big 0 first) (big 0 second) r))

-- `skip` by `p - position`, which need not be positive: the assertion does not stop it.
unfoldable pub skip_to : ℕ → Reader → Result Reader
skip_to p r = if ltb (get_length r) p then throw buffer_read_out_of_bounds else ok (moved_to p r)

unfoldable pub skip : ℕ → Reader → Result Reader
skip a r = skip_to (r.position + a) r

unfoldable pub rewind : ℕ → Reader → Result Reader
rewind a r =
    if ltb r.position a then throw buffer_read_out_of_bounds else ok (moved_to (r.position - a) r)

unfoldable pub seek : ℕ → Reader → Result Reader
seek a r = if ltb (get_length r) a then throw buffer_read_out_of_bounds else ok (moved_to a r)

-- The bytes before the first 0, or all of them.
abbrev pub until_zero : List ℕ → List ℕ
until_zero [] = []
until_zero (b ∷ bs) = let rest = until_zero bs in if b == 0 then [] else b ∷ rest

-- `readTerminatedString`, up to the decoding of UTF-8.
unfoldable pub read_terminated : Reader → List ℕ × Reader
read_terminated r =
    let bs = until_zero (drop r.position r.bytes) in (bs, moved_to (suc (r.position + length bs)) r)

-- A read moves the position by what it reads, inside the view.
pub bytes_at-ok :
    (p n : ℕ) (bs : List ℕ) {xs : List ℕ} → bytes_at p n bs ≡ ok xs → p + n ≤ length bs
unfolding bytes_at
bytes_at-ok p n bs h = ground arith

pub ok_pair {ℓ κ} :
    {A : Type ℓ} {B : Type κ} (a : A) (b : B) (c : A) (d : B)
    → ◌≡◌ {A = Result (A × B)} (ok (a, b)) (ok (c, d))
    → (c ≡ a) × (d ≡ b)
ok_pair {A = A} {B = B} a b c d h = (sym (ap (first a) h), sym (ap (second b) h))
  where
    first : A → Result (A × B) → A
    first x (ok y) = y.0
    first x (throw e) = x

    second : B → Result (A × B) → B
    second x (ok y) = y.1
    second x (throw e) = x

pub read_uint-ok :
    (n : ℕ) (r : Reader) {v : ℕ} {r' : Reader}
    → read_uint n r ≡ ok (v, r')
    → (r' ≡ moved_to (r.position + n) r) × (r.position + n ≤ get_length r)
unfolding read_uint
read_uint-ok n r {v} {r'} h =
    let (bs, e, k) =
      and_then-ok (bytes_at r.position n r.bytes)
        (λ bs. ok (value r.little_endian bs, moved_to (r.position + n) r)) h in
    (
      (ok_pair (value r.little_endian bs) (moved_to (r.position + n) r) v r' k).1,
      bytes_at-ok r.position n r.bytes e,
    )

-- A reader that has moved, to no place before `p`, inside its view.
abbrev pub Reaches : ℕ → Reader → Reader → Type 0
Reaches p r r' = (q : ℕ) × (r' ≡ moved_to q r) × (p ≤ q) × (q ≤ get_length r)

pub read_uint-Reaches :
    (n : ℕ) (r : Reader) {v : ℕ} {r' : Reader}
    → read_uint n r ≡ ok (v, r')
    → Reaches (r.position + n) r r'
read_uint-Reaches n r h = let (e, l) = read_uint-ok n r h in (r.position + n, e, omega arith, l)

pub read_bytes-Reaches :
    (n : ℕ) (r : Reader) {v : List ℕ} {r' : Reader}
    → read_bytes n r ≡ ok (v, r')
    → Reaches (r.position + n) r r'
unfolding read_bytes
read_bytes-Reaches n r {v} {r'} h =
    let (bs, e, k) =
      and_then-ok (bytes_at r.position n r.bytes) (λ bs. ok (bs, moved_to (r.position + n) r)) h in
    let m = ok_pair bs (moved_to (r.position + n) r) v r' k in
    (r.position + n, m.1, omega arith, bytes_at-ok r.position n r.bytes e)

else_ok :
    (b : Bool) (x y : ℕ × Reader)
    → (if b then throw js_integer_overflow else ok x) ≡ ok y
    → ok x ≡ ok y
else_ok true x y h = cc
else_ok false x y h = h

from_halves-Reaches :
    (high low : ℕ) (r : Reader) {w : ℕ} {r' : Reader}
    → r.position + 4 + 4 ≤ get_length r
    → from_halves high low r ≡ ok (w, r')
    → Reaches (r.position + 8) r r'
from_halves-Reaches high low r {w} {r'} l h =
    let v = high * 4294967296 + low in
    let m = moved_to (r.position + 8) r in
    let k = else_ok (ltb 2097151 high) (v, m) (w, r') h in
    (r.position + 8, (ok_pair v m w r' k).1, omega arith, omega arith)

ordered :
    (e : Bool) (x y : List ℕ) (r : Reader) {v : ℕ} {r' : Reader}
    → r.position + 4 + 4 ≤ get_length r
    → (if e then from_halves (little y) (little x) r else from_halves (big 0 x) (big 0 y) r)
      ≡ ok (v, r')
    → Reaches (r.position + 8) r r'
ordered true x y r l h = from_halves-Reaches (little y) (little x) r l h
ordered false x y r l h = from_halves-Reaches (big 0 x) (big 0 y) r l h

pub read_uint64-Reaches :
    (r : Reader) {v : ℕ} {r' : Reader} → read_uint64 r ≡ ok (v, r') → Reaches (r.position + 8) r r'
unfolding read_uint64
read_uint64-Reaches r {v} {r'} h =
    let (x, e, k) = and_then-ok (bytes_at r.position 4 r.bytes) _ h in
    let (y, f, m) = and_then-ok (bytes_at (r.position + 4) 4 r.bytes) _ k in
    let l = bytes_at-ok (r.position + 4) 4 r.bytes f in ordered r.little_endian x y r l m
