-- ===== src/Net/Requests.antt =====
-- Class `NetworkingEngine` (shaka/js/shaka-player.compiled.debug.js): plugins, filters, and a request
-- with its retries. What the promises answer, in the order in which the code asks, is a parameter:
-- the reply to an attempt, and whether the engine has been destroyed by then. `goog.Uri` is one too.
use shaka_player_embedded.Base.{
  ℕ, zero, suc, ◌+◌, ◌%◌, ◌≡◌, ◌==◌, leb, Bool, true, false, not, Option, none, some, List, [], ◌∷◌,
  ◌++◌, length, get_elem?, find_first, is_some, select, if◌then◌else◌, Text, same_text, to_lower,
}

pub data Severity : Type 0 where
  recoverable critical : Severity

-- An error; `code` tells the errors of the plugins and filters apart.
pub data NetError : Type 0 where
  operation_aborted unsupported_scheme request_filter_error no_error : NetError
  response_filter_error : Severity → NetError
  plugin_error : Severity → ℕ → NetError

abbrev pub severity : NetError → Severity
severity (response_filter_error s) = s
severity (plugin_error s n) = s
severity _ = critical

pub data Outcome (A : Type 0) : Type 0 where
  success : A → Outcome A
  failure : NetError → Outcome A

-- A plugin for a scheme, with its priority.
pub record Scheme : Type 0 where
  pub name : Text
  pub priority : ℕ
  pub plugin : ℕ

abbrev pub scheme_of : List Scheme → Text → Option Scheme
scheme_of ss name = find_first (λ s. same_text s.name name) ss

abbrev pub without_scheme : Text → List Scheme → List Scheme
without_scheme name ss = select (λ s. not (same_text s.name name)) ss

abbrev pub priority_or : Option ℕ → ℕ
priority_or none = 3
priority_or (some p) = if p == 0 then 3 else p

-- `registerScheme(scheme, plugin, priority)`: a plugin of a higher priority stays.
unfoldable pub register_scheme : Text → ℕ → Option ℕ → List Scheme → List Scheme
register_scheme name plugin p ss =
    let s : Scheme = record { name = name; priority = priority_or p; plugin = plugin } in
    elim (scheme_of ss name) [
      | none ↦ s ∷ ss
      | some old ↦ if leb old.priority s.priority then s ∷ without_scheme name ss else ss
    ]

unfoldable pub unregister_scheme : Text → List Scheme → List Scheme
unregister_scheme name ss = without_scheme name ss

-- The filters, told apart by numbers, and whether the engine is destroyed.
pub record Engine : Type 0 where
  pub is_destroyed : Bool
  pub request_filters : List ℕ
  pub response_filters : List ℕ

abbrev pub new : Engine
new = record { is_destroyed = false; request_filters = []; response_filters = [] }

abbrev pub add_to_set : ℕ → List ℕ → List ℕ
add_to_set f fs = if is_some (find_first (λ g. g == f) fs) then fs else fs ++ (f ∷ [])

abbrev pub take_from_set : ℕ → List ℕ → List ℕ
take_from_set f fs = select (λ g. not (g == f)) fs

unfoldable pub register_request_filter : ℕ → Engine → Engine
register_request_filter f e = record e { request_filters = add_to_set f e.request_filters }

unfoldable pub unregister_request_filter : ℕ → Engine → Engine
unregister_request_filter f e = record e { request_filters = take_from_set f e.request_filters }

unfoldable pub clear_all_request_filters : Engine → Engine
clear_all_request_filters e = record e { request_filters = [] }

unfoldable pub register_response_filter : ℕ → Engine → Engine
register_response_filter f e = record e { response_filters = add_to_set f e.response_filters }

unfoldable pub unregister_response_filter : ℕ → Engine → Engine
unregister_response_filter f e = record e { response_filters = take_from_set f e.response_filters }

unfoldable pub clear_all_response_filters : Engine → Engine
clear_all_response_filters e = record e { response_filters = [] }

-- `destroy`, up to the abortion of the pending requests.
unfoldable pub destroy : Engine → Engine
destroy e = record { is_destroyed = true; request_filters = []; response_filters = [] }

abbrev pub request_error : NetError → NetError
request_error operation_aborted = operation_aborted
request_error _ = request_filter_error

abbrev pub response_error : NetError → NetError
response_error operation_aborted = operation_aborted
response_error e = response_filter_error (severity e)

-- The filters in turn, on what they change; the first that fails ends it.
unfoldable pub run_filters :
    {A : Type 0} → (NetError → NetError) → (ℕ → A → Outcome A) → List ℕ → A → Outcome A
run_filters wrap apply [] a = success a
run_filters wrap apply (f ∷ fs) a = elim (apply f a) [
  | success b ↦ run_filters wrap apply fs b
  | failure e ↦ failure (wrap e)
]

abbrev pub uri_at : List Text → ℕ → Text
uri_at uris d = elim (get_elem? uris d) [ none ↦ [] | some u ↦ u ]

-- The result, and the indices of the URIs that were asked for.
abbrev pub Sent : Type 0 → Type 0
Sent R = Outcome R × List ℕ

abbrev pub asked : {R : Type 0} → ℕ → Sent R → Sent R
asked d (r, ds) = (r, d ∷ ds)

abbrev pub is_recoverable : NetError → Bool
is_recoverable e = elim (severity e) [ recoverable ↦ true | critical ↦ false ]

-- No attempt is left: whether the scheme is supported and the engine destroyed, and the last error.
unfoldable pub given_up : {R : Type 0} → Bool → Bool → NetError → Sent R
given_up false is_gone last = (failure unsupported_scheme, [])
given_up true true last = (failure operation_aborted, [])
given_up true false last = (failure last, [])

-- What follows a failed attempt, with whether the engine has been destroyed meanwhile.
unfoldable pub failed_attempt :
    {R : Type 0} → Bool → ℕ → NetError → Bool → (NetError → Sent R) → Sent R
failed_attempt true d e is_worth retry = (failure operation_aborted, d ∷ [])
failed_attempt false d e true retry = asked d (retry e)
failed_attempt false d e false retry = (failure e, d ∷ [])

-- One attempt for the URI `d`: whether its scheme is supported, whether the engine is destroyed
-- before the attempt, the reply, and whether it is destroyed after it.
unfoldable pub attempt :
    {R : Type 0} → ℕ → Bool → Bool → Outcome R → Bool → (NetError → Sent R) → Sent R
attempt d false is_gone r is_gone_after retry = (failure unsupported_scheme, [])
attempt d true true r is_gone_after retry = (failure operation_aborted, [])
attempt d true false (success r) is_gone_after retry = (success r, d ∷ [])
attempt d true false (failure e) is_gone_after retry =
    failed_attempt is_gone_after d e (is_recoverable e) retry

module _ {R : Type 0} (schemes : List Scheme) (uri_scheme : Text → Text)
    (reply : ℕ → Text → Outcome R) (is_destroyed : ℕ → Bool) (uris : List Text) where
  unfoldable pub is_supported : ℕ → Bool
  is_supported d = is_some (scheme_of schemes (to_lower (uri_scheme (uri_at uris d))))

  -- `send_`: `left` attempts are left, `k` is the number of the attempt, and `last` is the error of
  -- the one before it.
  unfoldable pub send : ℕ → ℕ → ℕ → NetError → Sent R
  send zero k d last = given_up (is_supported d) (is_destroyed k) last
  send (suc left) k d last =
      attempt d (is_supported d) (is_destroyed k) (reply k (uri_at uris d)) (is_destroyed (suc k))
        (λ e. send left (suc k) ((d + 1) % length uris) e)

  -- `makeRequestWithRetry_`, with the number of attempts that the backoff allows.
  unfoldable pub make_request_with_retry : ℕ → Sent R
  make_request_with_retry attempts = send attempts 0 0 no_error

  -- The URIs that a number of attempts asks for, one after the other and round again.
  abbrev pub rotation : ℕ → ℕ → List ℕ
  rotation zero d = []
  rotation (suc n) d = d ∷ rotation n ((d + 1) % length uris)

  abbrev pub error_after : ℕ → ℕ → NetError → (ℕ → ℕ) → NetError
  error_after zero k last code = last
  error_after (suc n) k last code = error_after n (suc k) (plugin_error recoverable (code k)) code

  send-failures :
      (n k d : ℕ) (last : NetError) (code : ℕ → ℕ)
      → ((e : ℕ) → is_supported e ≡ true)
      → ((j : ℕ) → is_destroyed j ≡ false)
      → ((j : ℕ) (u : Text) → reply j u ≡ failure (plugin_error recoverable (code j)))
      → send n k d last ≡ (failure (error_after n k last code), rotation n d)
  unfolding send given_up attempt failed_attempt
  send-failures zero k d last code a b c = rw (a d, b k)
  send-failures (suc n) k d last code a b c =
      let rest =
        send-failures n (suc k) ((d + 1) % length uris) (plugin_error recoverable (code k)) code a b
          c in
      rw (a d, b k, c k (uri_at uris d), b (suc k), rest)

  -- Where every scheme has a plugin, the engine is not destroyed and every attempt fails with an error
  -- that may be retried, the request asks for the URIs one after the other and round again, as often
  -- as the backoff allows, and fails with the error of the last attempt.
  pub make_request_with_retry-failures :
      (n : ℕ) (code : ℕ → ℕ)
      → ((e : ℕ) → is_supported e ≡ true)
      → ((j : ℕ) → is_destroyed j ≡ false)
      → ((j : ℕ) (u : Text) → reply j u ≡ failure (plugin_error recoverable (code j)))
      → make_request_with_retry n ≡ (failure (error_after n 0 no_error code), rotation n 0)
  unfolding make_request_with_retry
  make_request_with_retry-failures n code a b c = send-failures n 0 0 no_error code a b c
