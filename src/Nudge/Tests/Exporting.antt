-- ===== src/Nudge/Tests/Exporting.antt =====
-- Instances of the theorems about `export`, the URLs and `pushTraces`.
use opentelemetry_collector.Prelude.{
  ℕ, ◌≤◌, String, true, false, List, [], ◌∷◌, none, some, ◌≡◌, ◌≢◌, refl, ◌⊎◌, ◌==◌, arith, length,
  ◌++◌, if◌then◌else◌, eqb,
}
use opentelemetry_collector.Nudge.Result.{ok}
use opentelemetry_collector.Nudge.Config.{
  EncodingType, encoding_proto, encoding_json, compose_signal_url,
}
use opentelemetry_collector.Nudge.Config.Urls.{IsFrom, compose_signal_url-IsFrom}
use opentelemetry_collector.Nudge.Model.{RawData}
use opentelemetry_collector.Nudge.Export.{Exporter, Mesure, export}
use opentelemetry_collector.Nudge.Response.{
  Response, Reply, Decoders, Externals, read_response_body, read_error,
  max_http_response_read_bytes, bytes,
}
use opentelemetry_collector.Nudge.Export.Errors.{export_succeeds}
use opentelemetry_collector.Nudge.Response.Reading.{read_response_body-bytes}
use opentelemetry_collector.Nudge.Push.{Pushing, push_loop, marshal_failed}
use opentelemetry_collector.Nudge.Push.Faults.{IsUnencoded, push_loop-several}
use opentelemetry_collector.Nudge.Tests.{arrays, buffer, clock, raw, config, transaction_of, Option}

abbrev pub externals : Externals
externals = record {
  request_accepts = λ method url. true;
  unmarshal_status = λ b. none;
  atoi = λ s. if s == "7" then some 7 else none;
  parse_date = λ s. none;
  itoa = λ n. if eqb n 7 then "7" else "0";
  abs = λ s. none;
  write_file = λ path body. true;
}

abbrev pub decoders : Decoders
decoders = record { unmarshal_proto = λ b. none; unmarshal_json = λ b. none }

abbrev pub response_of : ℕ → List ℕ → List String → Response
response_of code content retry = record {
  status_code = code;
  content_length = none;
  body = record { content = content; fails = false };
  content_type = "text/plain";
  retry_after = retry;
}

abbrev pub reply_of : Response → Reply
reply_of resp = record { response = some resp; duration = 12 }

abbrev pub exporter : Exporter
exporter = record { config = config; rawdata = some raw; transactions = buffer }

abbrev pub mesure : Mesure
mesure = record {
  identifiant = "shop";
  name = "Shop";
  value = 4;
  bytes = 90;
  ntraces = 3;
  duration = 40;
  success = 2;
  error = 1;
}

abbrev busy : Response
busy = response_of 503 [] ("7" ∷ [])

abbrev pub fine : Response
fine = response_of 200 (1 ∷ 2 ∷ 3 ∷ []) []

fine-exported :
    (export externals decoders exporter "http://localhost" (some mesure) (reply_of fine)).error
    ≡ none
unfolding export
fine-exported = refl

export_succeeds_example :
    (externals.request_accepts config.method "http://localhost" ≡ true)
    × ((config.encoding ≡ encoding_proto) ⊎ (config.encoding ≡ encoding_json))
    × ((resp : Response) × (some fine ≡ some resp)
        × (200 ≤ resp.status_code)
        × (resp.status_code ≤ 299)
        × (read_response_body resp ≢ read_error))
export_succeeds_example =
    export_succeeds externals decoders exporter "http://localhost" (some mesure) (reply_of fine)
      fine-exported

abbrev three : List ℕ
three = 1 ∷ 2 ∷ 3 ∷ []

fine-read : read_response_body fine ≡ bytes three
unfolding read_response_body
fine-read = ground arith

read_response_body-bytes_example :
    (length three ≤ max_http_response_read_bytes)
    × ((n : ℕ) → fine.content_length ≡ some n → length three ≤ n)
    × ((rest : List ℕ) × (fine.body.content ≡ three ++ rest))
read_response_body-bytes_example = read_response_body-bytes fine three fine-read

compose_signal_url-IsFrom_example :
    IsFrom
      (λ s. true)
      config
      ""
      "/collect"
      "shop"
      (compose_signal_url (λ s. true) config "" "/collect" "shop")
compose_signal_url-IsFrom_example =
    compose_signal_url-IsFrom (λ s. true) config "" "/collect" "shop"

-- an encoder that always fails
abbrev no_marshal : EncodingType → RawData → Option String
no_marshal e _ = none

abbrev start : Pushing
start = record {
  exporter = exporter;
  mesures = mesure ∷ [];
  filename_n = 0;
  files = [];
  posts = [];
  error = none;
}

abbrev two_sent : RawData
two_sent = record raw {
  transactions =
      (transaction_of "u1" "shop" 0 100000 []).transaction
      ∷ (transaction_of "u3" "shop" 1 40000 []).transaction
      ∷ [];
}

abbrev unencoded : Pushing
unencoded = record {
  exporter = record {
    config = config;
    rawdata = some two_sent;
    transactions =
        transaction_of "u2" "shop" 1 100000 [] ∷ transaction_of "u4" "bank" 0 100000 [] ∷ [];
  };
  mesures = record mesure { value = 6 } ∷ [];
  filename_n = 0;
  files = [];
  posts = [];
  error = some marshal_failed;
}

gives_up :
    push_loop arrays externals decoders no_marshal clock "http://localhost" start
      ("shop" ∷ "bank" ∷ [])
      (λ n. reply_of fine)
    ≡ ok unencoded
unfolding push_loop arrays transaction_of
gives_up = refl

push_loop-several_example : IsUnencoded unencoded.error
push_loop-several_example =
    push_loop-several arrays externals decoders no_marshal clock "http://localhost" start
      ("shop" ∷ "bank" ∷ []) (λ n. reply_of fine) unencoded (omega arith) gives_up
