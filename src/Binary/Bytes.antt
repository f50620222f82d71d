-- ===== src/Binary/Bytes.antt =====
-- Namespace `Uint8ArrayUtils` (shaka/js/shaka-player.compiled.debug.js), less the encodings of the
-- browser (`btoa` and `atob`).
use shaka_player_embedded.Base.{
  ℕ, ◌+◌, ◌-◌, ◌*◌, ◌/◌, ◌%◌, ◌<◌, ◌≡◌, refl, ltb, leb, Bool, true, false, ◌&&◌, Option, none, some,
  List, [], ◌∷◌, flatten, All, if◌then◌else◌, arith, Text, same_text,
}

abbrev pub Bytes : Type 0
Bytes = List ℕ

-- A digit of `toString(16)`.
unfoldable pub hex_digit : ℕ → ℕ
hex_digit d = if ltb d 10 then b'0' + d else b'a' + (d - 10)

-- The two digits of a byte: `toString(16)`, with a 0 before a single digit.
unfoldable pub to_hex : Bytes → Text
to_hex [] = []
to_hex (b ∷ bs) = hex_digit (b / 16) ∷ hex_digit (b % 16) ∷ to_hex bs

-- What `parseInt` makes of one digit in base 16; `none` is no digit.
unfoldable pub digit_value : ℕ → Option ℕ
digit_value c =
    if leb b'0' c && leb c b'9'
    then some (c - b'0')
    else if leb b'a' c && leb c b'f'
    then some (c - b'a' + 10)
    else if leb b'A' c && leb c b'F'
    then some (c - b'A' + 10)
    else none

-- `parseInt` of two characters: it stops at the first that is no digit, and NaN is stored as 0.
unfoldable pub byte_of : Option ℕ → Option ℕ → ℕ
byte_of none d = 0
byte_of (some c) none = c
byte_of (some c) (some d) = c * 16 + d

-- `fromHex`; the last digit of an odd number of them is out of the array.
unfoldable pub from_hex : Text → Bytes
from_hex [] = []
from_hex (c ∷ []) = []
from_hex (c ∷ d ∷ s) = byte_of (digit_value c) (digit_value d) ∷ from_hex s

-- `equal`, of arrays that may be null.
unfoldable pub equal : Option Bytes → Option Bytes → Bool
equal none none = true
equal (some a) (some b) = same_text a b
equal _ _ = false

unfoldable pub concat : List Bytes → Bytes
concat bss = flatten bss

digit_value-hex_digit : (d : ℕ) → d < 16 → digit_value (hex_digit d) ≡ some d
unfolding digit_value hex_digit
digit_value-hex_digit d h = ground arith

byte_of_halves : (b : ℕ) → byte_of (some (b / 16)) (some (b % 16)) ≡ b
unfolding byte_of
byte_of_halves b = omega arith

-- Bytes come back from their hexadecimal digits.
pub from_hex-to_hex : (bs : Bytes) → All (λ b. b < 256) bs → from_hex (to_hex bs) ≡ bs
unfolding from_hex to_hex
from_hex-to_hex [] h = refl
from_hex-to_hex (b ∷ bs) (l, h) = rw (
  digit_value-hex_digit (b / 16) (omega arith),
  digit_value-hex_digit (b % 16) (omega arith),
  byte_of_halves b,
  from_hex-to_hex bs h,
)
