-- ===== src/Binary/Utf16.antt =====
-- Namespace `StringUtils` (shaka/js/shaka-player.compiled.debug.js): texts in UTF-16, and the guess of an
-- encoding. `fromCharCode` is the identity on lists of code units. What the browser makes of UTF-8 is
-- a parameter.
use shaka_player_embedded.Base.{
  ℕ, suc, ◌+◌, ◌*◌, ◌/◌, ◌%◌, ◌≡◌, ◌==◌, leb, Bool, true, false, not, ◌&&◌, Option, none, some, [],
  ◌∷◌, length, drop, get_elem?, if◌then◌else◌, arith, Text,
}
use shaka_player_embedded.Binary.Bytes.{Bytes}
use shaka_player_embedded.Binary.Reader.{Result, ok, throw, bad_encoding, unable_to_detect_encoding}

-- `getUint16` and `setUint16` of one code unit.
abbrev pub unit_of : Bool → ℕ → ℕ → ℕ
unit_of little a b = if little then a + 256 * b else a * 256 + b

abbrev pub bytes_of : Bool → ℕ → Bytes → Bytes
bytes_of little c rest =
    if little then c % 256 ∷ c / 256 % 256 ∷ rest else c / 256 % 256 ∷ c % 256 ∷ rest

unfoldable pub to_utf16 : Text → Bool → Bytes
to_utf16 [] little = []
to_utf16 (c ∷ s) little = bytes_of little c (to_utf16 s little)

-- The code units of the pairs of bytes; a single byte behind them is left out.
unfoldable pub units : Bytes → Bool → Text
units [] little = []
units (a ∷ []) little = []
units (a ∷ b ∷ bs) little = unit_of little a b ∷ units bs little

-- `fromUTF16(data, littleEndian, noThrow)`
unfoldable pub from_utf16 : Bytes → Bool → Bool → Result Text
from_utf16 bs little no_throw =
    if not no_throw && not (length bs % 2 == 0) then throw bad_encoding else ok (units bs little)

abbrev pub byte_is : ℕ → ℕ → Bytes → Bool
byte_is i v bs = elim (get_elem? bs i) [ none ↦ false | some b ↦ b == v ]

-- Whether the byte is printable ASCII, or is not there.
abbrev pub is_plain : ℕ → Bytes → Bool
is_plain i bs = elim (get_elem? bs i) [ none ↦ true | some b ↦ leb 32 b && leb b 126 ]

abbrev pub has_utf8_mark : Bytes → Bool
has_utf8_mark bs = byte_is 0 239 bs && byte_is 1 187 bs && byte_is 2 191 bs

module _ (decode_utf8 : Bytes → Option Text) where
  -- `fromUTF8`: a byte-order mark is dropped; what cannot be decoded is an error.
  unfoldable pub from_utf8 : Bytes → Result Text
  from_utf8 bs = elim (decode_utf8 (if has_utf8_mark bs then drop 3 bs else bs)) [
    | none ↦ throw bad_encoding
    | some s ↦ ok s
  ]

  unfoldable pub from_bytes_auto_detect : Bytes → Result Text
  from_bytes_auto_detect bs =
      if has_utf8_mark bs
      then from_utf8 bs
      else if byte_is 0 254 bs && byte_is 1 255 bs
      then from_utf16 (drop 2 bs) false false
      else if byte_is 0 255 bs && byte_is 1 254 bs
      then from_utf16 (drop 2 bs) true false
      else if byte_is 0 0 bs && byte_is 2 0 bs
      then from_utf16 bs false false
      else if byte_is 1 0 bs && byte_is 3 0 bs
      then from_utf16 bs true false
      else if is_plain 0 bs && is_plain 1 bs && is_plain 2 bs && is_plain 3 bs
      then from_utf8 bs
      else throw unable_to_detect_encoding

is_even_step : (n : ℕ) → suc (suc n) % 2 ≡ n % 2
is_even_step n = omega arith
