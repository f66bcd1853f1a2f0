-- ===== src/Nudge/Tests/Reporting.antt =====
-- Instances of the theorems about the errors of a request and its translation: a request that failed with code 500 and
-- raised one exception.
use opentelemetry_collector.Nudge.Names.{get_name_type}
use opentelemetry_collector.Nudge.Translate.Steps.{own}
use opentelemetry_collector.Nudge.Translate.Reports.{translate_span-Reports, IsRequest}
use opentelemetry_collector.Nudge.Translate.Returning.{AreSafe, translate-returns}
use opentelemetry_collector.Nudge.Translate.Runs.{Run, spans_of}
use opentelemetry_collector.Nudge.Translate.{translate, Resource}
use opentelemetry_collector.Nudge.Spans.Outcome.{Reports}
use opentelemetry_collector.Nudge.Send.{set}
use opentelemetry_collector.Nudge.Semantics.{semantic_attributes_x}
use opentelemetry_collector.Nudge.Tests.Translating.{request, request_of, text, environment, before}
use opentelemetry_collector.Nudge.Tests.{arrays, ErrorX, TransactionNudge, buffer}
use opentelemetry_collector.Nudge.Translate.{translate_span, Translation}
use opentelemetry_collector.Nudge.Spans.Opening.{Opened, open_transaction}
use opentelemetry_collector.Nudge.Spans.{Event, Span}
use opentelemetry_collector.Nudge.Result.{Ensures, Result, ok, panic}
use opentelemetry_collector.Nudge.Attributes.{Attribute, get_keys, get}
use opentelemetry_collector.Prelude.{
  ℕ, String, List, [], ◌∷◌, map, Option, none, some, ◌≡◌, refl, All,
}

-- an attribute with a number
abbrev number : ℕ → String → Attribute
number n s = record { as_string = s; str = ""; int = n; int_text = s; items = none }

abbrev exception : Event
exception = record {
  name = "exception";
  attributes =
      ("exception.type", text "TypeError")
      ∷ ("exception.message", text "x is null")
      ∷ ("exception.stacktrace", text "TypeError")
      ∷ [];
}

abbrev failed : Span
failed =
    record (request_of "t1"
      (("http.url", text "http://h/free") ∷ ("http.status_code", number 500 "500") ∷ [])) {
        events = exception ∷ [];
      }

abbrev opened : Opened
opened = open_transaction environment buffer (own environment failed)

is_request : IsRequest environment failed
unfolding arrays get_keys
is_request = (refl, refl)

translate_span-Reports_example :
    Ensures
      (λ (q : Translation).
        (u : TransactionNudge) × (q.transactions ≡ set opened.transactions opened.index u)
        × Reports environment opened.span opened.transaction u)
      (translate_span environment (some "Http") before failed)
translate_span-Reports_example =
    translate_span-Reports environment (some "Http") before failed is_request

-- The codes of the errors in the buffer: that of the exception, and nothing for the code 500.
abbrev codes_of : Result Translation → Option (List (List (Option String)))
codes_of (ok q) =
    some
      (map (λ (t : TransactionNudge). map (λ (x : ErrorX). x.error.code) t.errors_x) q.transactions)
codes_of (panic f) = none

failed_codes :
    codes_of (translate_span environment (some "Http") before failed)
    ≡ some ([] ∷ [] ∷ [] ∷ [] ∷ (some "TypeError" ∷ []) ∷ [])
unfolding translate_span arrays semantic_attributes_x
failed_codes = refl

abbrev failing : List Resource
failing = request (failed ∷ [])

failing-AreSafe : All (λ (r : Resource). AreSafe environment r.scopes) failing
unfolding arrays get get_keys get_name_type
failing-AreSafe = (
  (
    (
      (
        refl,
        (λ e. ((_, refl), (_, refl), (_, refl)), tt),
        refl,
        refl,
        ((refl, (refl, tt)), ((refl, (refl, tt)), tt)),
      ),
      tt,
    ),
    tt,
  ),
  tt,
)

translate-returns_example :
    (q : Translation) × (translate environment failing before ≡ ok q)
    × Run environment (spans_of failing) before.transactions q.transactions
translate-returns_example = translate-returns environment failing before failing-AreSafe
