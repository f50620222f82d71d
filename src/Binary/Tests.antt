-- ===== src/Binary/Tests.antt =====
-- The theorems about the binary formats at concrete inputs.
use shaka_player_embedded.Base.{
  ℕ, zero, suc, ◌+◌, ◌<◌, ◌==◌, leb, ◌≡◌, refl, Bool, false, none, some, List, [], ◌∷◌,
  if◌then◌else◌, arith, ℤ, pos, ◌-ℤ◌, ◌^◌, ◌*◌, length,
}
use shaka_player_embedded.Binary.Reader.{
  Reader, Result, buffer_read_out_of_bounds, throw, ok, new, get_length, has_more_data, read_uint,
  read_bytes, read_uint64, bytes_at, moved_to, Reaches, skip, skip_to,
}
use shaka_player_embedded.Binary.Bytes.{Bytes, equal, from_hex, to_hex, from_hex-to_hex}
use shaka_player_embedded.Binary.Ebml.{
  first_bit, get_float, get_uint, get_vint_value, is_dynamic_size_value, new_parser, parse_element,
  parse_id, parse_vint, read_uint8s,
}
use shaka_player_embedded.Binary.Ebml.Bounds.{get_vint_value-bound}
use shaka_player_embedded.Binary.Ebml.Progress.{IsAnswer}
use shaka_player_embedded.Binary.Webm.{
  parse_webm, parse_webm_container, parse_segment, parse_info, parse_cues, parse_cue_point,
  find_info, each_element, add_cue,
}
use shaka_player_embedded.Binary.Webm.Total.{parse_webm-IsAnswer}
use shaka_player_embedded.Binary.Mp4.{
  basic_box, Handler, Definitions, read_header, parse_next, parse_all,
}
use shaka_player_embedded.Binary.Mp4.Loop.{has_empty_box, parse_next-Reaches, parse_all_enough}
use shaka_player_embedded.Binary.Mp4.Stuck.{parse_all_stuck}

-- A box "free" (1718773093) with two bytes, and a box "mdat" (1835295092) with a size of 64 bits.
abbrev boxes : List ℕ
boxes = 0 ∷ 0 ∷ 0 ∷ 10 ∷ 102 ∷ 114 ∷ 101 ∷ 101 ∷ 7 ∷ 8 ∷ 0 ∷ 0 ∷ 0 ∷ 8 ∷ 102 ∷ 114 ∷ 101 ∷ 101 ∷ []

abbrev empty : List ℕ
empty = 0 ∷ 0 ∷ 0 ∷ 1 ∷ 109 ∷ 100 ∷ 97 ∷ 116 ∷ 0 ∷ 0 ∷ 0 ∷ 0 ∷ 0 ∷ 0 ∷ 0 ∷ 0 ∷ []

-- The client counts the boxes "free".
abbrev count_box : Handler ℕ
count_box box n = ok (suc n)

abbrev count_free : Definitions ℕ
count_free t = if t == 1718773093 then some (basic_box, count_box) else none

abbrev never : ℕ → Bool
never n = false

abbrev at : ℕ → Reader
at p = moved_to p (new boxes false)

next_runs : parse_next count_free never 0 (at 0) false 0 ≡ ok (at 10, 1)
unfolding parse_next read_header read_uint bytes_at read_bytes new
next_runs = refl

parse_next-Reaches_example : Reaches 1 (at 0) (at 10)
unfolding has_empty_box read_header read_uint bytes_at new
parse_next-Reaches_example = parse_next-Reaches count_free never 0 (at 0) false 0 refl next_runs

stuck_header : read_header (new empty false) ≡ ok ((0, 1835295092), moved_to 16 (new empty false))
unfolding read_header read_uint read_uint64 bytes_at new
stuck_header = refl

parse_all_stuck_example : parse_all count_free never 1000 0 (new empty false) false 0 ≡ none
unfolding new has_more_data
parse_all_stuck_example =
    parse_all_stuck count_free never 1000 0 16 1835295092 (new empty false) false 0 refl refl
      stuck_header refl

abbrev one_box : List ℕ
one_box = 0 ∷ 0 ∷ 0 ∷ 8 ∷ 102 ∷ 114 ∷ 101 ∷ 101 ∷ []

short_read :
    (r : Reader) → get_length r < r.position + 4 → read_uint 4 r ≡ throw buffer_read_out_of_bounds
unfolding read_uint bytes_at
short_read r l = let e : leb (r.position + 4) (get_length r) ≡ false = ground arith in rw e

short_header :
    (r : Reader) → get_length r < r.position + 4 → read_header r ≡ throw buffer_read_out_of_bounds
unfolding read_header
short_header r l = rw (short_read r l)

short_view : (r : Reader) → get_length r < r.position + 4 → has_empty_box r ≡ false
unfolding has_empty_box
short_view r l = rw (has_empty_box, short_header r l)

no_empty_box : (p : ℕ) → has_empty_box (moved_to p (new one_box false)) ≡ false
unfolding has_empty_box read_header read_uint bytes_at new
no_empty_box zero = refl
no_empty_box (suc zero) = refl
no_empty_box (suc (suc zero)) = refl
no_empty_box (suc (suc (suc zero))) = refl
no_empty_box (suc (suc (suc (suc zero)))) = refl
no_empty_box (suc (suc (suc (suc (suc p))))) =
    short_view (moved_to (suc (suc (suc (suc (suc p))))) (new one_box false)) (omega arith)

parse_all_enough_example :
    (x : Result (Reader × ℕ)) × (parse_all count_free never 8 0 (new one_box false) false 0
      ≡ some x)
unfolding new
parse_all_enough_example =
    parse_all_enough count_free never 8 0 (new one_box false) false 0 (omega arith) no_empty_box

from_hex-to_hex_example : from_hex (to_hex (0 ∷ 175 ∷ 255 ∷ [])) ≡ 0 ∷ 175 ∷ 255 ∷ []
from_hex-to_hex_example =
    from_hex-to_hex (0 ∷ 175 ∷ 255 ∷ []) (omega arith, (omega arith, (omega arith, tt)))

-- Eight bytes, with the largest second byte that is let through.
abbrev largest : Bytes
largest = 1 ∷ 31 ∷ 255 ∷ 255 ∷ 255 ∷ 255 ∷ 255 ∷ 255 ∷ []

largest_value : get_vint_value largest ≡ ok 9007199254740991
unfolding get_vint_value
largest_value = refl

get_vint_value-bound_example : 9007199254740991 < 2 ^ 53
get_vint_value-bound_example =
    get_vint_value-bound largest
      (
        omega arith,
        (
          omega arith,
          (
            omega arith,
            (omega arith, (omega arith, (omega arith, (omega arith, (omega arith, tt))))),
          ),
        ),
      )
      (omega arith) largest_value

-- A header, and a segment with a duration of four bytes.
abbrev webm_init : Bytes
webm_init =
    26 ∷ 69 ∷ 223 ∷ 163 ∷ 128 ∷ 24 ∷ 83 ∷ 128 ∷ 103 ∷ 140 ∷ 21 ∷ 73 ∷ 169 ∷ 102 ∷ 135 ∷ 68 ∷ 137
    ∷ 132 ∷ 1 ∷ 2 ∷ 3 ∷ 4 ∷ []

-- A list of one cue point: the time 5, at the place 9 of the segment.
abbrev webm_cues : Bytes
webm_cues = 28 ∷ 83 ∷ 187 ∷ 107 ∷ 138 ∷ 187 ∷ 136 ∷ 179 ∷ 129 ∷ 5 ∷ 183 ∷ 131 ∷ 241 ∷ 129 ∷ 9 ∷ []

abbrev four_bytes : Bytes → ℕ
four_bytes bs = length bs

abbrev in_scale : ℕ → ℕ → ℤ
in_scale n scale = pos (n * scale)

webm_test :
    parse_webm four_bytes in_scale webm_cues webm_init (pos 0)
    ≡ ok (
        record {
          position = 0;
          start_time = pos 5000000;
          end_time = pos 4000000;
          start_byte = 19;
          end_byte = none;
        }
        ∷ [])
unfolding parse_webm parse_webm_container parse_segment parse_info parse_cues parse_cue_point
    find_info each_element add_cue new_parser parse_element parse_id parse_vint read_uint8s
    first_bit get_vint_value is_dynamic_size_value get_uint get_float new has_more_data read_uint
    bytes_at skip skip_to equal ◌-ℤ◌
webm_test = refl

parse_webm-IsAnswer_example : IsAnswer (parse_webm four_bytes in_scale webm_cues webm_init (pos 0))
parse_webm-IsAnswer_example = parse_webm-IsAnswer four_bytes in_scale webm_cues webm_init (pos 0)
