-- ===== src/Binary/Mp4/Stuck.antt =====
-- The loop over boxes at a header with the size 0.
use shaka_player_embedded.Base.{ℕ, zero, suc, ◌+◌, min, ltb, ◌≡◌, Bool, true, false, none, arith}
use shaka_player_embedded.Binary.Reader.{Reader, ok, has_more_data, get_length, moved_to, skip_to}
use shaka_player_embedded.Binary.Mp4.{Definitions, read_header, parse_next, parse_all}

skip_to_start :
    (q : ℕ) (r : Reader)
    → has_more_data r ≡ true
    → skip_to (min (r.position + 0) (get_length r)) (moved_to q r) ≡ ok r
unfolding skip_to has_more_data
skip_to_start q r h =
    let e : min (r.position + 0) (get_length r) ≡ r.position = ground arith in
    let f : ltb (get_length r) r.position ≡ false = ground arith in rw (e, f)

module _ {S : Type 0} (definitions : Definitions S) (is_done : S → Bool) where
  parse_next_empty :
      (a q t : ℕ) (r : Reader) (b : Bool) (s : S)
      → has_more_data r ≡ true
      → read_header r ≡ ok ((0, t), moved_to q r)
      → definitions t ≡ none
      → parse_next definitions is_done a r b s ≡ ok (r, s)
  unfolding parse_next
  parse_next_empty a q t r b s m h d = rw (h, d, skip_to_start q r m)

  -- At a box without a handler whose header gives the size 0, which takes a size of 64 bits, the
  -- parser does not move: no fuel is enough.
  pub parse_all_stuck :
      (fuel a q t : ℕ) (r : Reader) (b : Bool) (s : S)
      → has_more_data r ≡ true
      → is_done s ≡ false
      → read_header r ≡ ok ((0, t), moved_to q r)
      → definitions t ≡ none
      → parse_all definitions is_done fuel a r b s ≡ none
  unfolding parse_all
  parse_all_stuck zero a q t r b s m n h d = rw (m, n)
  parse_all_stuck (suc fuel) a q t r b s m n h d =
      rw (m, n, parse_next_empty a q t r b s m h d) (parse_all_stuck fuel a q t r b s m n h d)
