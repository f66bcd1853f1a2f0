-- ===== src/Nudge/Tests/Pushing.antt =====
-- Instances of the theorems about whole pushes: a request of one application, one with a short
-- attribute key, and a push of metrics.
use opentelemetry_collector.Nudge.Send.Timeout.{IsTimed}
use opentelemetry_collector.Nudge.Translate.Waiting.{WaitsFor, HasWaited, translate-WaitsFor}
use opentelemetry_collector.Nudge.Send.{Loop}
use opentelemetry_collector.Nudge.Semantics.{semantic_attributes_x}
use opentelemetry_collector.Prelude.{
  ℕ, List, [], ◌∷◌, none, some, ◌≡◌, refl, All, ◌++◌, arith, length, ◌<◌, ◌^◌,
}
use opentelemetry_collector.Nudge.Result.{Result, ok, panic, Panics}
use opentelemetry_collector.Nudge.Config.{EncodingType}
use opentelemetry_collector.Nudge.Model.{RawData, TransactionNudge}
use opentelemetry_collector.Nudge.Spans.{Span}
use opentelemetry_collector.Nudge.Translate.{Translation, translate}
use opentelemetry_collector.Nudge.Send.Rounds.{
  kept, loop_of, sent, transactions_of, add_languages, add_url, send_transactions-eq,
}
use opentelemetry_collector.Nudge.Export.{Exporter, outcome_of}
use opentelemetry_collector.Nudge.Response.{Reply}
use opentelemetry_collector.Nudge.Push.{Pushing, push_traces, application_ids, or_else, first_error}
use opentelemetry_collector.Nudge.Push.Batches.{push_traces-Panics, push_traces-returns}
use opentelemetry_collector.Nudge.Tests.{arrays, clock, raw, config, Option, String}
use opentelemetry_collector.Nudge.Tests.Exporting.{
  externals, decoders, reply_of, mesure, exporter, fine,
}
use opentelemetry_collector.Nudge.Tests.Translating.{
  environment, request, short, call_of, short-short_keyed,
}

abbrev pub can_marshal : EncodingType → RawData → Option String
can_marshal e r = some "{}"

abbrev pub replies : ℕ → Reply
replies n = reply_of fine

push_traces-Panics_example : Panics (
    push_traces environment externals decoders can_marshal clock "http://localhost/shop" exporter
      (mesure ∷ [])
      0
      raw
      (request short)
      replies)
push_traces-Panics_example =
    push_traces-Panics environment externals decoders can_marshal clock "http://localhost/shop"
      exporter (mesure ∷ []) 0 raw (request short) replies short-short_keyed

abbrev pub empty : Exporter
empty = record { config = config; rawdata = none; transactions = [] }

abbrev pub calls : List Span
calls = call_of "t1" ∷ call_of "t2" ∷ []

abbrev start : Translation
start = record { transactions = []; raw = raw }

abbrev returned_of : Result Translation → Translation
returned_of (ok q) = q
returned_of (panic f) = start

abbrev after : Translation
after = returned_of (translate environment (request calls) start)

done : translate environment (request calls) start ≡ ok after
unfolding translate arrays semantic_attributes_x
done = refl

one_application : application_ids after.transactions ≡ "shop" ∷ []
unfolding translate arrays application_ids semantic_attributes_x
one_application = refl

abbrev due : List TransactionNudge
due = sent arrays 30 clock "shop" 0 after.transactions

push_traces-returns_example :
    (p : Pushing) × (push_traces environment externals decoders can_marshal clock
        "http://localhost/shop" empty
        (mesure ∷ [])
        0
        raw
        (request calls)
        replies
      ≡ ok p)
    × (p.exporter.transactions ≡ kept arrays 30 clock "shop" 0 after.transactions)
    × (p.exporter.rawdata ≡ none)
    × (p.posts
        ≡ (or_else (add_url arrays 30 clock "shop" none due) "http://localhost/shop", "{}") ∷ [])
    × (p.error
        ≡ first_error none (
            outcome_of externals decoders
              (or_else (add_url arrays 30 clock "shop" none due) "http://localhost/shop")
              (replies 0).response))
push_traces-returns_example =
    push_traces-returns environment externals decoders can_marshal clock "http://localhost/shop"
      empty (mesure ∷ []) 0 raw (request calls) replies after "shop" "{}" done one_application refl
      refl refl refl

abbrev sums : RawData
sums = record after.raw {
  transactions = after.raw.transactions ++ transactions_of arrays 30 clock "shop" due;
}

abbrev passed : Loop
passed =
    loop_of arrays 30 clock "shop" (kept arrays 30 clock "shop" 0 after.transactions)
      sums.transactions due (add_languages arrays 30 clock "shop" [] due)
      (add_url arrays 30 clock "shop" none due)

after-IsTimed : All IsTimed after.transactions
unfolding translate arrays semantic_attributes_x
after-IsTimed = ground arith

after-clock : (k : ℕ) → k < length after.transactions → clock k < 2 ^ 63
unfolding translate arrays semantic_attributes_x
after-clock k h = let two : k < 2 = h in omega arith

translate-WaitsFor_example :
    All (WaitsFor "t1") after.transactions
    × All (HasWaited arrays 30 clock "shop" "t1" (length after.transactions)) passed.ts
translate-WaitsFor_example =
    translate-WaitsFor environment (request calls) start after "t1" 30 clock "shop" sums passed refl
      tt done (omega arith) after-clock after-IsTimed
      (send_transactions-eq arrays 30 clock "shop" (some after.raw) after.transactions)
