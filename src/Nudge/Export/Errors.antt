-- ===== src/Nudge/Export/Errors.antt =====
-- How `export` classifies its failures.
use opentelemetry_collector.Prelude.{
  ℕ, String, true, List, [], ◌∷◌, Option, none, some, ◌≡◌, ◌≢◌, ◌⊎◌, arith, ◌≤◌,
}
use opentelemetry_collector.Nudge.Config.{encoding_proto, encoding_json}
use opentelemetry_collector.Nudge.Export.{Mesure, Exporter, export}
use opentelemetry_collector.Nudge.Response.{
  Response, Reply, Externals, Decoders, HttpError, Delay, ExportError, permanent, retryable,
  throttled, seconds, until_date, is_retryable_status_code, is_success,
  handle_partial_success_response, read_response_body, read_error,
}

-- The codes that the OTLP specification lets a client retry.
abbrev pub IsRetryable : ℕ → Type 0
IsRetryable code = (code ≡ 429) ⊎ ((code ≡ 502) ⊎ ((code ≡ 503) ⊎ (code ≡ 504)))

is_retryable_status_code-IsRetryable :
    (code : ℕ) → is_retryable_status_code code ≡ true → IsRetryable code
unfolding is_retryable_status_code
is_retryable_status_code-IsRetryable code h = ground arith

-- What the values of Retry-After ask for: the first one, as a number of seconds or else as a date.
pub data Asks (x : Externals) : List String → Option Delay → Type 0 where
  no_value : Asks x [] none
  in_seconds :
      {v : String} {vs : List String} {n : ℕ}
      → x.atoi v ≡ some n
      → Asks x (v ∷ vs) (some (seconds n))
  at_date :
      {v : String} {vs : List String} {t : ℕ}
      → x.atoi v ≡ none
      → x.parse_date v ≡ some t
      → Asks x (v ∷ vs) (some (until_date t))
  no_delay :
      {v : String} {vs : List String}
      → x.atoi v ≡ none
      → x.parse_date v ≡ none
      → Asks x (v ∷ vs) none

-- The error of a code that may ask to throttle.
abbrev pub throttles : HttpError → Option Delay → ExportError
throttles e none = retryable e
throttles e (some d) = throttled e d

-- The error of a response outside 2xx, by its code and its Retry-After header.
abbrev pub FailsAs : Externals → Response → HttpError → ExportError → Type 0
FailsAs x resp e err =
    ((err ≡ permanent e) × (¬ IsRetryable resp.status_code))
    ⊎ (((err ≡ retryable e) × ((resp.status_code ≡ 502) ⊎ (resp.status_code ≡ 504)))
        ⊎ (((resp.status_code ≡ 429) ⊎ (resp.status_code ≡ 503))
            × ((d : Option Delay) × (err ≡ throttles e d) × Asks x resp.retry_after d)))

-- Whatever the request and the reply, `export` returns no error only if the request can be made,
-- the encoding is known, and the client returns a response between 200 and 299 whose body can be
-- read.
pub export_succeeds :
    (x : Externals) (d : Decoders) (e : Exporter) (url : String) (m : Option Mesure) (reply : Reply)
    → (export x d e url m reply).error ≡ none
    → (x.request_accepts e.config.method url ≡ true)
      × ((e.config.encoding ≡ encoding_proto) ⊎ (e.config.encoding ≡ encoding_json))
      × ((resp : Response) × (reply.response ≡ some resp)
          × (200 ≤ resp.status_code)
          × (resp.status_code ≤ 299)
          × (read_response_body resp ≢ read_error))
unfolding export is_success handle_partial_success_response
export_succeeds x d e url m reply h = ground arith
