-- ===== src/Dash/Channels.antt =====
-- The audio channels of an element in class `DashParser`
-- (shaka/js/shaka-player.compiled.debug.js).
use shaka_player_embedded.Base.{
  inl, inr, ◌⊎◌, ap, ◌∙◌, ℕ, zero, suc, ◌+◌, ◌-◌, ◌*◌, ◌/◌, ◌%◌, ◌≤◌, ◌<◌, ◌≡◌, refl, max, ◌==◌,
  leb, not, ◌||◌, Option, none, some, List, [], ◌∷◌, arith, length, select, if◌then◌else◌, Text,
  text_of, same_text, is_empty, split, or_empty, trim, ℤ, pos, negsuc,
}
use native.Mathlib.Decide.{dec_lt}
use shaka_player_embedded.Dash.Parsing.{Platform, Parsing, fine, failed, never_ends}

-- A number as the 32 bits that the bit operators of JavaScript see.
abbrev pub to_word : ℤ → ℕ
to_word (pos n) = n % 4294967296
to_word (negsuc n) = 4294967295 - n % 4294967296

-- `e >>= 1`, which keeps the sign.
abbrev pub shift_right : ℕ → ℕ
shift_right w = if leb 2147483648 w then w / 2 + 2147483648 else w / 2

-- `for (a = 0; e;) e & 1 && ++a, e >>= 1`, on fuel; none where the fuel runs out.
unfoldable pub count_bits : ℕ → ℕ → ℕ → Option ℕ
count_bits zero a w = if w == 0 then some a else none
count_bits (suc fuel) a w =
    let rest = count_bits fuel (a + w % 2) (shift_right w) in if w == 0 then some a else rest

-- The number of texts between runs of spaces.
abbrev pub count_words : Text → ℕ
count_words s = max 1 (length (select (λ t. not (is_empty t)) (split b' ' (trim s))))

abbrev pub or_skip : Option ℤ → Option ℤ
or_skip (some (pos zero)) = none
or_skip n = n

abbrev pub counted : Option ℕ → Parsing (Option ℤ)
counted none = failed never_ends
counted (some n) = fine (some (pos n))

-- 31 steps are enough for a word without a sign.
abbrev pub bits_in : Option ℤ → Parsing (Option ℤ)
bits_in none = fine none
bits_in (some e) = counted (count_bits 31 0 (to_word e))

module _ (p : Platform) where
  -- What an element says by a scheme that is known; null goes on to the next element.
  abbrev pub channels_by : Text → Text → Parsing (Option ℤ)
  channels_by scheme value =
      if same_text scheme (text_of "urn:mpeg:dash:outputChannelPositionList:2012")
      then fine (some (pos (count_words value)))
      else if same_text scheme (text_of "urn:mpeg:dash:23003:3:audio_channel_configuration:2011")
          || same_text scheme (text_of "urn:dts:dash:audio_channel_configuration:2012")
      then fine (or_skip (p.parse_int 10 value))
      else if same_text scheme (text_of "tag:dolby.com,2014:dash:audio_channel_configuration:2011")
          || same_text scheme (text_of "urn:dolby:dash:audio_channel_configuration:2011")
      then bits_in (or_skip (p.parse_int 16 value))
      else fine none

  abbrev pub channels_in : p.dom.Element → Parsing (Option ℤ)
  channels_in e =
      let scheme = or_empty (p.dom.attribute e (text_of "schemeIdUri")) in
      let value = or_empty (p.dom.attribute e (text_of "value")) in
      if is_empty scheme || is_empty value then fine none else channels_by scheme value

  -- `parseAudioChannels_`
  unfoldable pub parse_audio_channels : List p.dom.Element → Parsing (Option ℤ)
  parse_audio_channels [] = fine none
  parse_audio_channels (e ∷ es) =
      let rest = parse_audio_channels es in
      elim (channels_in e) [
        | failed x ↦ failed x
        | fine (some n) ↦ fine (some n)
        | fine none ↦ rest
      ]

-- Where bit 31 is set no fuel is enough.
pub count_bits_stuck : (fuel a w : ℕ) → 2147483648 ≤ w → w < 4294967296 → count_bits fuel a w ≡ none
unfolding count_bits
count_bits_stuck zero a w h k = ground arith
count_bits_stuck (suc fuel) a w h k =
    ground (arith, count_bits_stuck fuel (a + w % 2) (w / 2 + 2147483648))

-- The bits of a word that are set, by digits.
abbrev pub ones : ℕ → ℕ → ℕ
ones zero w = 0
ones (suc n) w = w % 2 + ones n (w / 2)

abbrev pub power : ℕ → ℕ
power zero = 1
power (suc n) = 2 * power n

ones-zero : (n : ℕ) → ones n 0 ≡ 0
ones-zero zero = refl
ones-zero (suc n) = omega (arith, ones-zero n)

-- With fuel for its bits, the loop over a word whose bit 31 is clear counts the bits that are set.
pub count_bits-ones :
    (fuel a w : ℕ) → w < power fuel → w < 2147483648 → count_bits fuel a w ≡ some (a + ones fuel w)
unfolding count_bits
count_bits-ones zero a w h k = ground arith
count_bits-ones (suc fuel) a w h k =
    ground (arith, ones-zero fuel, count_bits-ones fuel (a + w % 2) (w / 2))

zero_plus : (n : ℕ) → 0 + n ≡ n
zero_plus n = omega arith

-- The loop over the bits of a word of 32 bits: where bit 31 is clear, 31 rounds give the number of
-- bits that are set, and where it is set no number of rounds is enough, since the shift keeps the
-- sign.
pub count_bits_cases :
    (w : ℕ)
    → w < 4294967296
    → (w < 2147483648) × (count_bits 31 0 w ≡ some (ones 31 w))
      ⊎ (2147483648 ≤ w) × ((fuel : ℕ) → count_bits fuel 0 w ≡ none)
count_bits_cases w h = elim (dec_lt w 2147483648) [
  | yes l ↦ inl (l, count_bits-ones 31 0 w l l ∙ ap some (zero_plus (ones 31 w)))
  | no g ↦ inr (omega arith, λ fuel. count_bits_stuck fuel 0 w (omega arith) h)
]
