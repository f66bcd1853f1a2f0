-- ===== src/Nudge/Tests/Translating.antt =====
-- Instances of the theorems about the translation of a request: one service that answers two
-- requests, with an HTTP call in the first.
use opentelemetry_collector.Nudge.Semantics.{semantic_attributes_x}
use opentelemetry_collector.Nudge.Push.Applications.{distinct}
use opentelemetry_collector.Nudge.Spans.Params.{
  has_values, url_text, url_params, url_params-url_text,
}
use opentelemetry_collector.Prelude.{
  String, true, List, [], ◌∷◌, ◌++◌, map, none, some, ◌≡◌, refl, inl, inr, All, any, ◌≢◌,
}
use mathlib.Core.List.{Perm}
use opentelemetry_collector.Nudge.Extension.{keep_if}
use opentelemetry_collector.Nudge.Result.{Result, ok, panic, Ensures, Panics}
use opentelemetry_collector.Nudge.Attributes.{AttributeMap, Attribute, get_keys}
use opentelemetry_collector.Nudge.Model.{TransactionNudge, RawData}
use opentelemetry_collector.Nudge.Codes.{Browser}
use opentelemetry_collector.Nudge.Spans.{Span, internal}
use opentelemetry_collector.Nudge.Spans.Opening.{Environment, has_uuid}
use opentelemetry_collector.Nudge.Translate.{Translation, Resource, translate}
use opentelemetry_collector.Nudge.Translate.Steps.{trace_of, application_of}
use opentelemetry_collector.Nudge.Translate.Runs.{Runs, spans_of, translate-Runs}
use opentelemetry_collector.Nudge.Translate.Traces.{uuid_text, add_names, translate-names}
use opentelemetry_collector.Nudge.Translate.Others.{
  BelongsTo, translate-others, translate-application,
}
use opentelemetry_collector.Nudge.Translate.Marks.{IsPending, translate-send_transactions}
use opentelemetry_collector.Nudge.Translate.Dictionary.{IsNumbered, translate-IsNumbered}
use opentelemetry_collector.Nudge.Translate.ShortKeys.{short_keyed, translate-Panics}
use opentelemetry_collector.Nudge.Send.{Loop}
use opentelemetry_collector.Nudge.Send.Rounds.{
  kept, sent, transactions_of, loop_of, add_languages, add_url, send_transactions-eq,
}
use opentelemetry_collector.Nudge.Send.Partition.{identity}
use opentelemetry_collector.Nudge.Translate.Totals.{HasTotals, translate-HasTotals}
use opentelemetry_collector.Nudge.Names.{get_instrument_type}
use opentelemetry_collector.Nudge.Tests.{arrays, transaction_of, buffer, clock, raw, config}
use opentelemetry_collector.Nudge.Tests.Spanning.{keys, span}

abbrev firefox : Browser
firefox = record {
  name = "Firefox";
  version = "128";
  os_full_name = "Linux";
  platform = "X11";
  engine = "Gecko";
  engine_version = "20100101";
}

abbrev pub environment : Environment
environment = record {
  ext = arrays;
  keys = keys;
  config = config;
  uuid_of = λ s. s;
  parse_url = λ s. true;
  parse_agent = λ s. firefox;
}

abbrev pub text : String → Attribute
text s = record { as_string = s; str = s; int = 0; int_text = "0"; items = none }

abbrev pub request_of : String → AttributeMap → Span
request_of trace attributes = record span {
  kind = internal;
  trace_id = trace;
  parent_empty = true;
  original = attributes;
}

abbrev pub call_of : String → Span
call_of trace = record span { trace_id = trace; original = ("http.url", text "http://x/") ∷ [] }

abbrev pub spans : List Span
spans =
    request_of "t1"
      (("http.url", text "http://h/free?a=1&b=2") ∷ ("http.user_agent", text "Firefox") ∷ [])
    ∷ call_of "t1"
    ∷ request_of "t2" (("http.route", text "/") ∷ ("nudge_application_id", text "bank") ∷ [])
    ∷ []

abbrev pub request : List Span → List Resource
request spans =
    record { scopes = record { name = "@opentelemetry/instrumentation-http"; spans = spans } ∷ [] }
    ∷ []

abbrev pub before : Translation
before = record { transactions = buffer; raw = raw }

abbrev returned_of : Result Translation → Translation
returned_of (ok q) = q
returned_of (panic f) = before

abbrev pub after : Translation
after = returned_of (translate environment (request spans) before)

done : translate environment (request spans) before ≡ ok after
unfolding translate arrays semantic_attributes_x
done = refl

translate-Runs_example :
    Ensures
      (Runs environment (spans_of (request spans)) before)
      (translate environment (request spans) before)
translate-Runs_example = translate-Runs environment (request spans) before

translate-names_example :
    Ensures
      (λ (q : Translation).
        map uuid_text q.transactions
        ≡ add_names (map uuid_text buffer) (map (trace_of environment) (spans_of (request spans))))
      (translate environment (request spans) before)
translate-names_example = translate-names environment (request spans) before

translate-others_example :
    Ensures
      (λ (q : Translation). keep_if (has_uuid "u1") q.transactions ≡ keep_if (has_uuid "u1") buffer)
      (translate environment (request spans) before)
translate-others_example = translate-others environment (request spans) before "u1" refl

translate-application_example :
    Ensures
      (λ (q : Translation).
        BelongsTo "t1" (application_of environment (call_of "t1").original) q.transactions)
      (translate environment (request spans) before)
translate-application_example =
    translate-application environment (request spans) before
      (request_of "t1"
          (("http.url", text "http://h/free?a=1&b=2") ∷ ("http.user_agent", text "Firefox") ∷ [])
        ∷ [])
      (call_of "t1")
      (request_of "t2" (("http.route", text "/") ∷ ("nudge_application_id", text "bank") ∷ []) ∷ [])
      refl refl

pub buffer-distinct : distinct (map uuid_text buffer) ≡ true
unfolding transaction_of
buffer-distinct = refl

pub pending : All IsPending buffer
unfolding transaction_of
pending = (inl refl, (inr refl, (inr refl, (inl refl, tt))))

abbrev due : List TransactionNudge
due = sent arrays 30 clock "shop" 0 after.transactions

abbrev sums : RawData
sums = record after.raw {
  transactions = after.raw.transactions ++ transactions_of arrays 30 clock "shop" due;
}

abbrev passed : Loop
passed =
    loop_of arrays 30 clock "shop" (kept arrays 30 clock "shop" 0 after.transactions)
      sums.transactions due (add_languages arrays 30 clock "shop" [] due)
      (add_url arrays 30 clock "shop" none due)

translate-send_transactions_example :
    Perm
      (map identity after.transactions)
      (map identity passed.ts ++ map identity passed.transactions)
translate-send_transactions_example =
    translate-send_transactions environment (request spans) before after 30 clock "shop" sums passed
      pending done (send_transactions-eq arrays 30 clock "shop" (some after.raw) after.transactions)

translate-IsNumbered_example :
    Ensures (λ (q : Translation). IsNumbered q.raw) (translate environment (request spans) before)
translate-IsNumbered_example = translate-IsNumbered environment (request spans) before tt

abbrev pub short : List Span
short = call_of "t1" ∷ request_of "t2" (("id", text "7") ∷ []) ∷ []

pub short-short_keyed : any short_keyed (spans_of (request short)) ≡ true
unfolding get_keys
short-short_keyed = refl

translate-Panics_example : Panics (translate environment (request short) before)
translate-Panics_example = translate-Panics environment (request short) before short-short_keyed

abbrev named : AttributeMap
named = ("koa.name", text "router") ∷ ("id", text "7") ∷ []

address-has_values : has_values "http://h/free?a=1&b=2&c" ≡ true
address-has_values = refl

url_params-url_text_example :
    url_text (url_params "http://h/free?a=1&b=2&c") ≡ "http://h/free?a=1&b=2&c"
url_params-url_text_example = url_params-url_text "http://h/free?a=1&b=2&c" address-has_values

not_graphql : get_instrument_type arrays "@opentelemetry/instrumentation-http" ≢ some "Graphql"
unfolding get_instrument_type arrays
not_graphql e = cc

no_layers : All HasTotals buffer
unfolding transaction_of
no_layers = (tt, (tt, (tt, (tt, tt))))

translate-HasTotals_example :
    Ensures
      (λ (q : Translation). All HasTotals q.transactions)
      (translate environment (request spans) before)
translate-HasTotals_example =
    translate-HasTotals environment (request spans) before ((not_graphql, tt), tt) no_layers
