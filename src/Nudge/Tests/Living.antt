-- ===== src/Nudge/Tests/Living.antt =====
-- Instances of the theorems about the life of an exporter: its creation from a configuration, a push
-- that is recorded in a file, and one with the default configuration.
use opentelemetry_collector.Nudge.Config.{encoding_other}
use opentelemetry_collector.Nudge.Translate.Runs.{spans_of}
use opentelemetry_collector.Nudge.Tests.Exporting.{externals, decoders, mesure}
use opentelemetry_collector.Nudge.Semantics.{semantic_attributes_x}
use opentelemetry_collector.Nudge.Tests.Translating.{environment, request}
use opentelemetry_collector.Nudge.Tests.Pushing.{empty, calls, can_marshal, replies}
use opentelemetry_collector.Nudge.Tests.{arrays, config, clock, raw}
use opentelemetry_collector.Nudge.Push.Unset.{
  IsUnposted, push_traces-IsUnposted, create_default_config-IsUnknown,
}
use opentelemetry_collector.Nudge.Push.Dumps.{IsDumped, push_traces-IsDumped}
use opentelemetry_collector.Nudge.Result.{Ensures, Result, ok, panic}
use opentelemetry_collector.Nudge.Push.Histories.{
  History, IsReached, History-IsReached, pushed, fresh,
}
use opentelemetry_collector.Nudge.Push.{push_traces, Pushing, encoding_error}
use opentelemetry_collector.Nudge.Factory.Signals.{IsCreation, create-IsCreation}
use opentelemetry_collector.Nudge.Factory.{
  new_nudge_exporter, create_default_config, create_traces, create_metrics, create_logs,
  create_profiles,
}
use opentelemetry_collector.Nudge.Export.{Exporter}
use opentelemetry_collector.Prelude.{String, Bool, true, List, [], ◌∷◌, none, some, ◌≡◌, refl}

abbrev recorded : Exporter
recorded = record empty { config = record config { record_collecte = true } }

push_traces-IsDumped_example : Ensures (IsDumped recorded.config externals 7) (
    push_traces environment externals decoders can_marshal clock "http://localhost/shop" recorded
      (mesure ∷ [])
      7
      raw
      (request calls)
      replies)
push_traces-IsDumped_example =
    push_traces-IsDumped environment externals decoders can_marshal clock "http://localhost/shop"
      recorded (mesure ∷ []) 7 raw (request calls) replies

abbrev files_of : Result Pushing → List (String × String × Bool)
files_of (ok p) = p.files
files_of (panic f) = []

recorded_file :
    files_of (
      push_traces environment externals decoders can_marshal clock "http://localhost/shop" recorded
        (mesure ∷ [])
        7
        raw
        (request calls)
        replies)
    ≡ ("./collectes/collecte_X_7.dat", "{}", true) ∷ []
unfolding push_traces arrays semantic_attributes_x
recorded_file = refl

abbrev born : Exporter
born = new_nudge_exporter config

abbrev push_of : Exporter → Result Pushing
push_of e =
    push_traces environment externals decoders can_marshal clock "http://localhost/shop" e
      (mesure ∷ []) 0 raw (request calls) replies

abbrev pushing_of : Result Pushing → Pushing
pushing_of (ok p) = p
pushing_of (panic f) = record {
  exporter = empty;
  mesures = [];
  filename_n = 0;
  files = [];
  posts = [];
  error = none;
}

abbrev first_push : Pushing
unfolding new_nudge_exporter
first_push = pushing_of (push_of born)

first_returns : push_of born ≡ ok first_push
unfolding push_traces arrays semantic_attributes_x new_nudge_exporter
first_returns = refl

abbrev lived :
    History environment externals decoders can_marshal "http://localhost/shop" config
      (spans_of (request calls))
      first_push.exporter
lived = pushed clock (mesure ∷ []) 0 raw (request calls) replies first_push fresh first_returns

History-IsReached_example :
    IsReached environment config (spans_of (request calls)) first_push.exporter
History-IsReached_example =
    History-IsReached environment externals decoders can_marshal "http://localhost/shop" config
      (spans_of (request calls)) first_push.exporter lived

abbrev unset : Exporter
unset = new_nudge_exporter (create_default_config "http://localhost")

push_traces-IsUnposted_example : Ensures IsUnposted (
    push_traces environment externals decoders can_marshal clock "http://localhost/shop" unset
      (mesure ∷ [])
      0
      raw
      (request calls)
      replies)
unfolding new_nudge_exporter create_default_config
push_traces-IsUnposted_example =
    push_traces-IsUnposted environment externals decoders can_marshal clock "http://localhost/shop"
      unset (mesure ∷ []) 0 raw (request calls) replies
      (create_default_config-IsUnknown "http://localhost")

create-IsCreation_example :
    IsCreation (λ s. true) config config.traces_endpoint (create_traces (λ s. true) config)
    × IsCreation (λ s. true) config config.metrics_endpoint (create_metrics (λ s. true) config)
    × IsCreation (λ s. true) config config.logs_endpoint (create_logs (λ s. true) config)
    × IsCreation (λ s. true) config "" (create_profiles (λ s. true) config)
create-IsCreation_example = create-IsCreation (λ s. true) config

-- The push with the default configuration returns.
unset_error :
    (pushing_of (push_of (record unset { config = record unset.config { app_id = "shop" } }))).error
    ≡ some (encoding_error (encoding_other ""))
unfolding push_traces arrays semantic_attributes_x new_nudge_exporter create_default_config
unset_error = refl
