-- ===== src/Nudge/Tests/Showing.antt =====
-- Instances of the theorems about the measures, the web page and stack traces.
use opentelemetry_collector.Nudge.Tests.Pushing.{replies}
use opentelemetry_collector.Nudge.Tests.Pushing.{can_marshal, empty, calls}
use opentelemetry_collector.Nudge.Tests.Translating.{environment, request}
use opentelemetry_collector.Nudge.Tests.Exporting.{mesure, externals, decoders}
use opentelemetry_collector.Nudge.Tests.{config, clock, raw}
use opentelemetry_collector.Nudge.Push.{Pushing, push_traces}
use opentelemetry_collector.Nudge.Page.Measures.{last_named, stats_traces-last_named, starts-first}
use opentelemetry_collector.Nudge.Stack.Calls.{Replaced, stacktrace-Replaced}
use opentelemetry_collector.Nudge.Stack.{stacktrace}
use opentelemetry_collector.Nudge.Result.{Ensures}
use opentelemetry_collector.Nudge.Push.Measures.{IsCounted, push_traces-IsCounted}
use opentelemetry_collector.Nudge.Page.{starts, stats_traces, served, already_started}
use opentelemetry_collector.Nudge.Export.{Mesure}
use opentelemetry_collector.Prelude.{ℕ, String, false, [], ◌∷◌, if◌then◌else◌, ◌≡◌, refl, eqb}

abbrev shop : Mesure
shop = record mesure { identifiant = "1"; name = "Shop" }

abbrev other : Mesure
other = record mesure { identifiant = "2"; name = "Shop" }

counted : IsCounted (shop ∷ other ∷ [])
counted = record { distinct_ids = refl; balanced = (refl, (refl, tt)) }

push_traces-IsCounted_example :
    Ensures
      (λ (p : Pushing). IsCounted p.mesures)
      (push_traces environment externals decoders can_marshal clock "http://localhost/shop" empty
        (shop ∷ other ∷ [])
        0
        raw
        (request calls)
        replies)
push_traces-IsCounted_example =
    push_traces-IsCounted environment externals decoders can_marshal clock "http://localhost/shop"
      empty (shop ∷ other ∷ []) 0 raw (request calls) replies counted

stats_traces-last_named_example :
    stats_traces (shop ∷ other ∷ []) "Shop" ≡ last_named (shop ∷ other ∷ []) "Shop"
stats_traces-last_named_example = stats_traces-last_named (shop ∷ other ∷ []) "Shop"

abbrev itoa : ℕ → String
itoa n = if eqb n 15682 then "15682" else "0"

first_served :
    starts itoa false (config ∷ config ∷ [])
    ≡ served "localhost:15682" "/debug/index.html" ∷ already_started ∷ []
first_served = starts-first itoa config (config ∷ [])

stacktrace-Replaced_example : Replaced "E\n  at f\n at g" (stacktrace "E\n  at f\n at g")
stacktrace-Replaced_example = stacktrace-Replaced "E\n  at f\n at g"

-- The calls of a stack trace are marked.
marked_calls : stacktrace "E\n  at f\n at g" ≡ "E#f#g"
unfolding stacktrace
marked_calls = refl
