-- ===== src/Binary/Ebml.antt =====
-- Classes `EbmlParser` and `EbmlElement` (shaka/js/shaka-player.compiled.debug.js). The tests of bits
-- are written as arithmetic on bytes.
pub mod Bounds
pub mod Progress
use shaka_player_embedded.Base.{
  ℕ, zero, suc, ◌+◌, ◌-◌, ◌/◌, ◌%◌, ◌^◌, ◌==◌, ltb, leb, Bool, true, false, not, ◌&&◌, Option, some,
  List, [], ◌∷◌, length, take, drop, any, if◌then◌else◌,
}
use shaka_player_embedded.Binary.Bytes.{Bytes, equal}
use shaka_player_embedded.Binary.Reader.{
  Reader, Result, ok, throw, and_then, ◌>>=◌, fail_if, new, has_more_data, get_length, read_uint,
  skip, big, ebml_overflow, ebml_bad_floating_point_size, js_integer_overflow,
}

-- A `DataView`: some bytes of a buffer, and where they start in it.
pub record View : Type 0 where
  pub byte_offset : ℕ
  pub bytes : Bytes

pub record Parser : Type 0 where
  pub view : View
  pub reader : Reader

pub record Element : Type 0 where
  pub id : ℕ
  pub view : View

unfoldable pub new_parser : View → Parser
new_parser v = record { view = v; reader = new v.bytes false }

-- `createParser`
abbrev pub create_parser : Element → Parser
create_parser e = new_parser e.view

abbrev pub has_more_elements : Parser → Bool
has_more_elements p = has_more_data p.reader

-- `a & 1 << k`
abbrev pub has_bit : ℕ → ℕ → Bool
has_bit a k = a / (2 ^ k) % 2 == 1

-- The loop over `b`, with `k` bits left.
unfoldable pub first_bit : ℕ → ℕ → ℕ → ℕ
first_bit zero b a = b
first_bit (suc k) b a = if has_bit a (8 - b) then b else first_bit k (suc b) a

-- The length of a number from its first byte; 9 when no bit is set.
abbrev pub vint_length : ℕ → ℕ
vint_length a = first_bit 8 1 a

unfoldable pub read_uint8s : ℕ → Reader → Result (Bytes × Reader)
read_uint8s zero r = ok ([], r)
read_uint8s (suc k) r = do (b, r1) ← read_uint 1 r; (bs, r2) ← read_uint8s k r1; ok (b ∷ bs, r2)

unfoldable pub parse_vint : Reader → Result (Bytes × Reader)
parse_vint r = do
  (a, r1) ← read_uint 1 r
  fail_if (ltb 8 (vint_length a)) ebml_overflow
      (do (bs, r2) ← read_uint8s (vint_length a - 1) r1; ok (a ∷ bs, r2))

unfoldable pub parse_id : Reader → Result (ℕ × Reader)
parse_id r = do (v, r1) ← parse_vint r; fail_if (ltb 7 (length v)) ebml_overflow (ok (big 0 v, r1))

-- `b & 224`, of a byte.
abbrev pub has_top_bits : Bytes → Bool
has_top_bits [] = false
has_top_bits (b ∷ bs) = not (b / 32 % 8 == 0)

-- `getVintValue_`; the first byte loses the bit that gives the length.
unfoldable pub get_vint_value : Bytes → Result ℕ
get_vint_value [] = ok 0
get_vint_value (a ∷ bs) =
    fail_if (length bs == 7 && has_top_bits bs) js_integer_overflow
      (ok (big (a % (2 ^ (7 - length bs))) bs))

abbrev pub dynamic_sizes : List Bytes
dynamic_sizes =
    (255 ∷ [])
    ∷ (127 ∷ 255 ∷ [])
    ∷ (63 ∷ 255 ∷ 255 ∷ [])
    ∷ (31 ∷ 255 ∷ 255 ∷ 255 ∷ [])
    ∷ (15 ∷ 255 ∷ 255 ∷ 255 ∷ 255 ∷ [])
    ∷ (7 ∷ 255 ∷ 255 ∷ 255 ∷ 255 ∷ 255 ∷ [])
    ∷ (3 ∷ 255 ∷ 255 ∷ 255 ∷ 255 ∷ 255 ∷ 255 ∷ [])
    ∷ (1 ∷ 255 ∷ 255 ∷ 255 ∷ 255 ∷ 255 ∷ 255 ∷ 255 ∷ [])
    ∷ []

unfoldable pub is_dynamic_size_value : Bytes → Bool
is_dynamic_size_value v = any (λ d. equal (some v) (some d)) dynamic_sizes

abbrev pub bytes_left : Reader → ℕ
bytes_left r = get_length r - r.position

abbrev pub element_size : Bytes → Reader → Result ℕ
element_size v r = if is_dynamic_size_value v then ok (bytes_left r) else get_vint_value v

-- A body that goes past the end of the view is cut off there.
abbrev pub clipped : ℕ → Reader → ℕ
clipped size r = if leb (r.position + size) (get_length r) then size else bytes_left r

abbrev pub element_at : View → ℕ → ℕ → ℕ → Element
element_at v id position size = record {
  id = id;
  view = record {
    byte_offset = v.byte_offset + position;
    bytes = take size (drop position v.bytes);
  };
}

unfoldable pub parse_element : Parser → Result (Element × Parser)
parse_element p = do
  (id, r1) ← parse_id p.reader
  (v, r2) ← parse_vint r1
  size ← element_size v r2
  r3 ← skip (clipped size r2) r2
  ok (element_at p.view id r2.position (clipped size r2), record p { reader = r3 })

abbrev pub get_offset : Element → ℕ
get_offset e = e.view.byte_offset

unfoldable pub get_uint : Element → Result ℕ
get_uint e =
    let bs = e.view.bytes in
    fail_if (ltb 8 (length bs)) ebml_overflow
      (fail_if (length bs == 8 && has_top_bits bs) js_integer_overflow (ok (big 0 bs)))

-- `getFloat`; the two decodings of `DataView` are a parameter.
unfoldable pub get_float {ℓ} : {F : Type ℓ} → (Bytes → F) → Element → Result F
get_float decode e =
    let n = length e.view.bytes in
    if n == 4
    then ok (decode e.view.bytes)
    else if n == 8
    then ok (decode e.view.bytes)
    else throw ebml_bad_floating_point_size
