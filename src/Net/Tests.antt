-- ===== src/Net/Tests.antt =====
-- The theorem about requests at a concrete input.
use shaka_player_embedded.Base.{
  ℕ, ◌≡◌, refl, Bool, true, false, List, [], ◌∷◌, Text, text_of, to_lower, lower,
}
use shaka_player_embedded.Net.Requests.{
  Outcome, Scheme, failure, is_supported, make_request_with_retry, make_request_with_retry-failures,
  plugin_error, recoverable,
}

abbrev https : Scheme
https = record { name = text_of "https"; priority = 3; plugin = 0 }

abbrev always_https : Text → Text
always_https u = text_of "https"

abbrev bad_status : ℕ → Text → Outcome Text
bad_status j u = failure (plugin_error recoverable j)

abbrev never_destroyed : ℕ → Bool
never_destroyed j = false

abbrev two_uris : List Text
two_uris = text_of "https://a" ∷ text_of "https://b" ∷ []

is_supported-https :
    (e : ℕ) → is_supported (https ∷ []) always_https bad_status never_destroyed two_uris e ≡ true
unfolding is_supported to_lower lower
is_supported-https e = refl

make_request_with_retry-failures_example :
    make_request_with_retry (https ∷ []) always_https bad_status never_destroyed two_uris 3
    ≡ (failure (plugin_error recoverable 2), 0 ∷ 1 ∷ 0 ∷ [])
make_request_with_retry-failures_example =
    make_request_with_retry-failures (https ∷ []) always_https bad_status never_destroyed two_uris 3
      (λ j. j) is_supported-https (λ j. refl) (λ j u. refl)
