-- ===== src/Dash/Timing.antt =====
-- The clock offset of a live manifest in class `DashParser` (shaka/js/shaka-player.compiled.debug.js), in
-- milliseconds. What a request for a time answers is a parameter.
use shaka_player_embedded.Base.{
  Bool, false, ◌||◌, Option, none, some, List, [], ◌∷◌, is_empty, if◌then◌else◌, Text, text_of,
  same_text, or_empty, ℤ, pos, ◌-ℤ◌,
}

-- The answer of a time server: its `date` header, and its text.
pub record TimeAnswer : Type 0 where
  pub date_header : Option Text
  pub text : Text

pub data Method : Type 0 where
  head get : Method

-- What an element says: a scheme and a value.
pub record UtcTiming : Type 0 where
  pub scheme : Option Text
  pub value : Option Text

abbrev pub is_scheme : Option Text → Text → Bool
is_scheme none s = false
is_scheme (some t) s = same_text t s

-- `request` is the fetch from the URIs that a value resolves to, none where it fails; `date_of` is
-- `Date.parse`, none for NaN; `now` is `Date.now()`.
module _ (request : Method → Option Text → Option TimeAnswer) (date_of : Text → Option ℤ)
    (now : ℤ) where
  -- A text that is no date gives no offset.
  abbrev pub offset_at : Text → ℤ
  offset_at s = elim (date_of s) [ none ↦ pos 0 | some t ↦ t -ℤ now ]

  abbrev pub answered : Method → TimeAnswer → ℤ
  answered get a = offset_at a.text
  answered head a = let s = or_empty a.date_header in if is_empty s then pos 0 else offset_at s

  -- `requestForTiming_`; none where the request fails.
  unfoldable pub request_for_timing : Method → Option Text → Option ℤ
  request_for_timing m value = elim (request m value) [ none ↦ none | some a ↦ some (answered m a) ]

  -- What one element gives; none where it is rejected, and the next one is asked.
  unfoldable pub offset_by : UtcTiming → Option ℤ
  offset_by u =
      if is_scheme u.scheme (text_of "urn:mpeg:dash:utc:http-head:2014")
        || is_scheme u.scheme (text_of "urn:mpeg:dash:utc:http-head:2012")
      then request_for_timing head u.value
      else if is_scheme u.scheme (text_of "urn:mpeg:dash:utc:http-xsdate:2014")
          || is_scheme u.scheme (text_of "urn:mpeg:dash:utc:http-iso:2014")
          || is_scheme u.scheme (text_of "urn:mpeg:dash:utc:http-xsdate:2012")
          || is_scheme u.scheme (text_of "urn:mpeg:dash:utc:http-iso:2012")
      then request_for_timing get u.value
      else if is_scheme u.scheme (text_of "urn:mpeg:dash:utc:direct:2014")
          || is_scheme u.scheme (text_of "urn:mpeg:dash:utc:direct:2012")
      then some (offset_at (or_empty u.value))
      else none

  -- `createFallbackPromiseChain`: the first that is not rejected.
  unfoldable pub first_offset : List UtcTiming → Option ℤ
  first_offset [] = none
  first_offset (u ∷ us) =
      let rest = first_offset us in elim (offset_by u) [ none ↦ rest | some t ↦ some t ]

  abbrev pub or_sync : Text → List UtcTiming → List UtcTiming
  or_sync sync_uri [] =
      if is_empty sync_uri
      then []
      else record {
        scheme = some (text_of "urn:mpeg:dash:utc:http-head:2014");
        value = some sync_uri;
      }
        ∷ []
  or_sync sync_uri (u ∷ us) = u ∷ us

  -- `parseUtcTiming_`, where `sync_uri` is `config.dash.clockSyncUri`: no offset where all fail.
  unfoldable pub parse_utc_timing : Text → List UtcTiming → ℤ
  parse_utc_timing sync_uri us = elim (first_offset (or_sync sync_uri us)) [
    | none ↦ pos 0
    | some t ↦ t
  ]
