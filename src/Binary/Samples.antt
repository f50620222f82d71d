-- ===== src/Binary/Samples.antt =====
-- The boxes "tfhd" and "trun" in class `Mp4VttParser`, with `readInt32` of `DataViewReader`, and the
-- names of boxes in class `Mp4Parser` (shaka/js/shaka-player.compiled.debug.js).
use shaka_player_embedded.Base.{
  ℕ, zero, suc, ◌+◌, ◌*◌, ◌/◌, ◌%◌, ◌<◌, ◌≡◌, ltb, Bool, true, false, Option, none, some, List, [],
  ◌∷◌, if◌then◌else◌, ℤ, pos, ◌-ℤ◌, Text, arith,
}
use shaka_player_embedded.Binary.Reader.{Reader, Result, ok, and_then, ◌>>=◌, read_uint32, skip}
use shaka_player_embedded.Binary.Ebml.{has_bit}

-- `readInt32`, in two's complement.
abbrev pub signed : ℕ → ℤ
signed n = if ltb n 2147483648 then pos n else pos n -ℤ pos 4294967296

unfoldable pub read_int32 : Reader → Result (ℤ × Reader)
read_int32 r = and_then (read_uint32 r) (λ x. ok (signed x.0, x.1))

abbrev pub skip_if : Bool → ℕ → Reader → Result Reader
skip_if true n r = skip n r
skip_if false n r = ok r

abbrev pub read_if :
    {A : Type 0} → Bool → (Reader → Result (A × Reader)) → Reader → Result (Option A × Reader)
read_if true read r = and_then (read r) (λ x. ok (some x.0, x.1))
read_if false read r = ok (none, r)

-- `parseTFHD_`: the duration of a sample that the box gives.
unfoldable pub parse_tfhd : ℕ → Reader → Result (Option ℕ × Reader)
parse_tfhd flags r = do
  r1 ← skip 4 r
  r2 ← skip_if (has_bit flags 0) 8 r1
  r3 ← skip_if (has_bit flags 1) 4 r2
  read_if (has_bit flags 3) read_uint32 r3

pub record Sample : Type 0 where
  pub duration : Option ℕ
  pub sample_size : Option ℕ
  pub time_offset : Option ℤ

abbrev pub read_offset : ℕ → Reader → Result (ℤ × Reader)
read_offset zero r = and_then (read_uint32 r) (λ x. ok (pos x.0, x.1))
read_offset (suc v) r = read_int32 r

unfoldable pub read_sample : ℕ → ℕ → Reader → Result (Sample × Reader)
read_sample version flags r = do
  (d, r1) ← read_if (has_bit flags 8) read_uint32 r
  (n, r2) ← read_if (has_bit flags 9) read_uint32 r1
  r3 ← skip_if (has_bit flags 10) 4 r2
  (o, r4) ← read_if (has_bit flags 11) (read_offset version) r3
  ok (record { duration = d; sample_size = n; time_offset = o }, r4)

unfoldable pub read_samples : ℕ → ℕ → ℕ → Reader → Result (List Sample × Reader)
read_samples zero version flags r = ok ([], r)
read_samples (suc k) version flags r = do
  (s, r1) ← read_sample version flags r
  (ss, r2) ← read_samples k version flags r1
  ok (s ∷ ss, r2)

-- `parseTRUN_`
unfoldable pub parse_trun : ℕ → ℕ → Reader → Result (List Sample × Reader)
parse_trun version flags r = do
  (k, r1) ← read_uint32 r
  r2 ← skip_if (has_bit flags 0) 4 r1
  r3 ← skip_if (has_bit flags 2) 4 r2
  read_samples k version flags r3

-- `typeFromString_`, of a name of four bytes: shifting and joining bits is this on bytes.
unfoldable pub type_from_string : ℕ → Text → ℕ
type_from_string n [] = n
type_from_string n (c ∷ s) = type_from_string (n * 256 + c) s

unfoldable pub type_to_string : ℕ → Text
type_to_string n = n / 16777216 % 256 ∷ n / 65536 % 256 ∷ n / 256 % 256 ∷ n % 256 ∷ []

four :
    (a b c d a' b' c' d' : ℕ)
    → a' ≡ a
    → b' ≡ b
    → c' ≡ c
    → d' ≡ d
    → ◌≡◌ {A = Text} (a' ∷ b' ∷ c' ∷ d' ∷ []) (a ∷ b ∷ c ∷ d ∷ [])
four a b c d a' b' c' d' h i j k = rw (h, i, j, k)

-- The name of a box comes back from its number.
pub type_to_string-type_from_string :
    (a b c d : ℕ)
    → a < 256
    → b < 256
    → c < 256
    → d < 256
    → type_to_string (type_from_string 0 (a ∷ b ∷ c ∷ d ∷ [])) ≡ a ∷ b ∷ c ∷ d ∷ []
unfolding type_to_string type_from_string
type_to_string-type_from_string a b c d h i j k =
    four a b c d _ _ _ _ (omega arith) (omega arith) (omega arith) (omega arith)
