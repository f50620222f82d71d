-- ===== src/Binary/Mp4.antt =====
-- Class `Mp4Parser` (shaka/js/shaka-player.compiled.debug.js): the loop over boxes, with the handlers
-- that its client has registered.
pub mod Loop
pub mod Stuck
use shaka_player_embedded.Base.{
  ℕ, zero, suc, ◌+◌, ◌-◌, ◌/◌, ◌%◌, min, ◌==◌, ltb, Bool, true, false, not, ◌&&◌, Option, none,
  some, List, [], ◌∷◌, if◌then◌else◌,
}
use shaka_player_embedded.Binary.Reader.{
  Reader, Result, ok, throw, and_then, new, has_more_data, get_length, read_bytes, read_uint32,
  read_uint64, skip_to,
}

pub data BoxType : Type 0 where
  basic_box full_box : BoxType

-- What a handler is given; the version and the flags are null for a basic box.
pub record Box : Type 0 where
  pub partial_okay : Bool
  pub version : Option ℕ
  pub flags : Option ℕ
  pub reader : Reader
  pub size : ℕ
  pub start : ℕ

-- `S` is what the handlers keep, the parser's flag `done_` included.
abbrev pub Handler : Type 0 → Type 0
Handler S = Box → S → Result S

-- `headers_` and `boxDefinitions_`, by the type of a box as a number.
abbrev pub Definitions : Type 0 → Type 0
Definitions S = ℕ → Option (BoxType × Handler S)

-- `size`, with the reader behind the header: 0 means all that is left, 1 a size of 64 bits.
abbrev pub box_size : ℕ → ℕ → Reader → Result (ℕ × Reader)
box_size start size r =
    if size == 0
    then ok (get_length r - start, r)
    else if size == 1
    then read_uint64 r
    else ok (size, r)

-- The header of a box: its size and its type.
unfoldable pub read_header : Reader → Result ((ℕ × ℕ) × Reader)
read_header r = and_then (read_uint32 r) (λ size. and_then (read_uint32 size.1) (λ box_type.
    and_then (box_size r.position size.0 box_type.1)
      (λ sized. ok ((sized.0, box_type.0), sized.1))))

abbrev pub VersionAndFlags : Type 0
VersionAndFlags = Option ℕ × Option ℕ

abbrev pub full_header : BoxType → Reader → Result (VersionAndFlags × Reader)
full_header basic_box r = ok ((none, none), r)
full_header full_box r =
    and_then (read_uint32 r) (λ x. ok ((some (x.0 / 16777216), some (x.0 % 16777216)), x.1))

-- The body of the box, which may be cut off if that is okay.
abbrev pub box_end : Bool → ℕ → Reader → ℕ
box_end partial_okay end r = if partial_okay && ltb (get_length r) end then get_length r else end

abbrev pub read_body : ℕ → Reader → Result (List ℕ × Reader)
read_body end r = if ltb r.position end then read_bytes (end - r.position) r else ok ([], r)

module _ {S : Type 0} (definitions : Definitions S) (is_done : S → Bool) where
  abbrev pub parse_body : BoxType × Handler S → ℕ → ℕ → Bool → ℕ → Reader → S → Result (Reader × S)
  parse_body d abs_start start partial_okay size r s = and_then (full_header d.0 r) (λ header.
      and_then (read_body (box_end partial_okay (start + size) header.1) header.1) (λ body.
        and_then
          (d.1
            (record {
              partial_okay = partial_okay;
              version = header.0.0;
              flags = header.0.1;
              reader = new body.0 false;
              size = size;
              start = start + abs_start;
            })
            s)
          (λ s'. ok (body.1, s'))))

  abbrev pub parse_defined :
      Option (BoxType × Handler S) → ℕ → ℕ → Bool → ℕ → Reader → S → Result (Reader × S)
  parse_defined none abs_start start partial_okay size r s =
      and_then (skip_to (min (start + size) (get_length r)) r) (λ r'. ok (r', s))
  parse_defined (some d) abs_start start partial_okay size r s =
      parse_body d abs_start start partial_okay size r s

  -- `parseNext(absStart, reader, partialOkay)`
  unfoldable pub parse_next : ℕ → Reader → Bool → S → Result (Reader × S)
  parse_next abs_start r partial_okay s =
      and_then (read_header r)
        (λ h. parse_defined (definitions h.0.1) abs_start r.position partial_okay h.0.0 h.1 s)

  -- The loop of `parse` and of `children`, on fuel: `none` is out of fuel.
  unfoldable pub parse_all : ℕ → ℕ → Reader → Bool → S → Option (Result (Reader × S))
  parse_all zero abs_start r partial_okay s =
      if has_more_data r && not (is_done s) then none else some (ok (r, s))
  parse_all (suc fuel) abs_start r partial_okay s =
      if has_more_data r && not (is_done s)
      then elim (parse_next abs_start r partial_okay s) [
        | ok x ↦ parse_all fuel abs_start x.0 partial_okay x.1
        | throw e ↦ some (throw e)
      ]
      else some (ok (r, s))

  -- `parse(data, partialOkay)`; it clears the flag `done_` first, which is in `s`.
  unfoldable pub parse : ℕ → List ℕ → Bool → S → Option (Result (Reader × S))
  parse fuel data_bytes partial_okay s = parse_all fuel 0 (new data_bytes false) partial_okay s

  -- `children(box)`, the handler of a box that contains boxes.
  unfoldable pub children : ℕ → Box → S → Option (Result (Reader × S))
  children fuel box s =
      parse_all fuel (box.start + elim box.flags [ none ↦ 8 | some f ↦ 12 ]) box.reader
        box.partial_okay s
