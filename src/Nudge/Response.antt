-- ===== src/Nudge/Response.antt =====
-- What `export` does with a response: the reading of its body and of its status, the partial success
-- handlers and the errors. The HTTP client, the protobuf and JSON decoders, `strconv.Atoi` and
-- `time.Parse` are parameters; durations are in milliseconds.
pub mod Reading
use Prim.Native.Nat.{zero, suc}
use opentelemetry_collector.Prelude.{
  ℕ, ◌*◌, String, Bool, true, false, not, ◌&&◌, ◌||◌, List, [], ◌∷◌, Option, none, some, length,
  ◌==◌, eqb, leb, ltb, if◌then◌else◌,
}

-- A response body: its bytes, and whether reading past them fails with an error other than EOF.
pub record Body : Type 0 where
  pub content : List ℕ
  pub fails : Bool

-- `content_length` is `none` for -1; `retry_after` has the values of the Retry-After header
pub record Response : Type 0 where
  pub status_code : ℕ
  pub content_length : Option ℕ
  pub body : Body
  pub content_type : String
  pub retry_after : List String

-- `response` is `none` if the client fails
pub record Reply : Type 0 where
  pub response : Option Response
  pub duration : ℕ

abbrev pub max_http_response_read_bytes : ℕ
max_http_response_read_bytes = 1024 * 1024

unfoldable pub take : ℕ → List ℕ → List ℕ
take zero xs = []
take (suc n) [] = []
take (suc n) (x ∷ xs) = x ∷ take n xs

pub data BodyResult : Type 0 where
  no_body read_error : BodyResult
  bytes : List ℕ → BodyResult

-- maxRead of readResponseBody
unfoldable pub max_read : Option ℕ → ℕ
max_read none = max_http_response_read_bytes
max_read (some n) = if ltb max_http_response_read_bytes n then max_http_response_read_bytes else n

-- io.ReadFull into `limit` bytes, and the tests on its result
unfoldable pub read_full : Body → ℕ → BodyResult
unfolding take
read_full body limit =
    let n = length (take limit body.content) in
    if leb limit n
    then (if eqb n 0 then no_body else bytes (take limit body.content))
    else if body.fails
    then read_error
    else if eqb n 0
    then no_body
    else bytes (take limit body.content)

abbrev is_zero_length : Option ℕ → Bool
is_zero_length none = false
is_zero_length (some n) = eqb n 0

-- readResponseBody
unfoldable pub read_response_body : Response → BodyResult
unfolding max_read read_full
read_response_body resp =
    if is_zero_length resp.content_length
    then no_body
    else read_full resp.body (max_read resp.content_length)

-- an answer of the server that was decoded: ErrorMessage() and the count of rejected records
pub record Partial : Type 0 where
  pub error_message : String
  pub rejected : ℕ

pub data HandlerResult : Type 0 where
  quiet : HandlerResult
  warned : Partial → HandlerResult
  parse_error : HandlerResult

abbrev judge : Option Partial → HandlerResult
judge none = parse_error
judge (some p) = if p.error_message == "" && eqb p.rejected 0 then quiet else warned p

-- the decoders of one signal's ExportResponse
pub record Decoders : Type 0 where
  pub unmarshal_proto : List ℕ → Option Partial
  pub unmarshal_json : List ℕ → Option Partial

-- tracesPartialSuccessHandler, and its copies for metrics, logs and profiles, which differ in the
-- decoders only
unfoldable pub partial_success_handler : Decoders → BodyResult → String → HandlerResult
partial_success_handler d (bytes b) content_type =
    if content_type == "application/x-protobuf"
    then judge (d.unmarshal_proto b)
    else if content_type == "application/json"
    then judge (d.unmarshal_json b)
    else quiet
partial_success_handler d no_body content_type = quiet
partial_success_handler d read_error content_type = quiet

-- the formatted error of a response: the URL, the code, and the message of a decoded status
pub record HttpError : Type 0 where
  pub url : String
  pub code : ℕ
  pub status : Option String

pub data Delay : Type 0 where
  seconds : ℕ → Delay
  until_date : ℕ → Delay

pub data ExportError : Type 0 where
  bad_request invalid_encoding client_failed body_failed response_unparsed : ExportError
  permanent retryable : HttpError → ExportError
  throttled : HttpError → Delay → ExportError

-- isRetryableStatusCode
unfoldable pub is_retryable_status_code : ℕ → Bool
is_retryable_status_code code =
    if eqb code 429
    then true
    else if eqb code 502
    then true
    else if eqb code 503
    then true
    else eqb code 504

pub record Externals : Type 0 where
  pub request_accepts : String → String → Bool
  pub unmarshal_status : List ℕ → Option String
  pub atoi : String → Option ℕ
  pub parse_date : String → Option ℕ
  pub itoa : ℕ → String
  pub abs : String → Option String
  pub write_file : String → String → Bool

abbrev body_bytes : BodyResult → Option (List ℕ)
body_bytes no_body = some []
body_bytes read_error = none
body_bytes (bytes b) = some b

-- readResponseStatus
unfoldable pub read_response_status : Externals → Response → Option String
unfolding read_response_body
read_response_status x resp =
    if leb 400 resp.status_code && leb resp.status_code 599
    then elim (body_bytes (read_response_body resp)) [ none ↦ none | some b ↦ x.unmarshal_status b ]
    else none

-- the two parses of the first Retry-After value
abbrev pub retry_delay : Externals → String → Option Delay
retry_delay x v = elim (x.atoi v) [
  | some n ↦ some (seconds n)
  | none ↦ elim (x.parse_date v) [ some t ↦ some (until_date t) | none ↦ none ]
]

abbrev pub throttle_error : Externals → HttpError → List String → ExportError
throttle_error x e [] = retryable e
throttle_error x e (v ∷ vs) = elim (retry_delay x v) [ some d ↦ throttled e d | none ↦ retryable e ]

-- the end of `export`, for a response that is no success
unfoldable pub failure_of : Externals → String → Response → ExportError
unfolding read_response_status is_retryable_status_code
failure_of x url resp =
    let e : HttpError = record {
      url = url;
      code = resp.status_code;
      status = read_response_status x resp;
    } in
    if not (is_retryable_status_code resp.status_code)
    then permanent e
    else if eqb resp.status_code 429 || eqb resp.status_code 503
    then throttle_error x e resp.retry_after
    else retryable e

unfoldable pub is_success : Response → Bool
is_success resp = leb 200 resp.status_code && leb resp.status_code 299

-- handlePartialSuccessResponse
unfoldable pub handle_partial_success_response : Decoders → Response → Option ExportError
unfolding read_response_body partial_success_handler
handle_partial_success_response d resp = elim (read_response_body resp) [
  | read_error ↦ some body_failed
  | no_body ↦ none
  | bytes b ↦ elim (partial_success_handler d (bytes b) resp.content_type) [
    | parse_error ↦ some response_unparsed
    | quiet ↦ none
    | warned p ↦ none
  ]
]
