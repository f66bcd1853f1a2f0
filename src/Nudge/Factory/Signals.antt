-- ===== src/Nudge/Factory/Signals.antt =====
-- When an exporter is created for a signal, and what it is then.
use opentelemetry_collector.Nudge.Factory.{
  Created, create_traces, created, create_metrics, failed, create_logs, create_profiles,
  new_exporter, new_nudge_exporter, BaseExporter, create, Exporter, bad_endpoint, bad_signal_url,
}
use opentelemetry_collector.Nudge.Config.{
  Config, new_exporter_accepts, compose_signal_url, has_slash, UrlResult, url, url_error,
  traces_url, metrics_url, logs_url, profiles_url,
}
use opentelemetry_collector.Prelude.{
  String, Bool, true, false, not, ◌&&◌, [], none, ◌==◌, if◌then◌else◌, ◌≡◌, refl, ap, ◌∙◌, arith,
}

-- The signal has a URL: its own, or else that of the endpoint.
abbrev pub has_source : (String → Bool) → Config → String → Bool
has_source parse cfg override = if override == "" then not (cfg.endpoint == "") else parse override

abbrev pub is_created : Created → Bool
is_created (created be) = true
is_created (failed e) = false

abbrev is_url : UrlResult → Bool
is_url (url s) = true
is_url (url_error e) = false

-- A created exporter is new: it has the configuration, no raw data and an empty buffer.
abbrev pub IsNew : Config → Created → Type 0
IsNew cfg (created be) =
    (be.nudge_exporter.config ≡ cfg)
    × (be.nudge_exporter.rawdata ≡ none)
    × (be.nudge_exporter.transactions ≡ [])
IsNew cfg (failed e) = Unit

-- A creation as the configuration settles it.
abbrev pub IsCreation : (String → Bool) → Config → String → Created → Type 0
IsCreation parse cfg override result =
    (is_created result ≡ (new_exporter_accepts parse cfg && has_source parse cfg override))
    × IsNew cfg result

module _ (parse : String → Bool) (cfg : Config) where
  -- There is a URL if and only if the signal has one.
  compose-has_source :
      (override : String)
      → is_url (compose_signal_url parse cfg override cfg.path_collect cfg.app_id)
        ≡ has_source parse cfg override
  unfolding compose_signal_url has_slash
  compose-has_source override = ground arith

  module _ (set_url : BaseExporter → String → BaseExporter)
      (same : (be : BaseExporter) (s : String)
        → (set_url be s).nudge_exporter ≡ be.nudge_exporter) where
    -- A creation by the test of the endpoint and the URL of the signal.
    abbrev outcome : Bool → UrlResult → Created
    unfolding new_nudge_exporter
    outcome accepts r =
        elim (if accepts
          then created (record {
            nudge_exporter = new_nudge_exporter cfg;
            traces_url = "";
            metrics_url = "";
            logs_url = "";
            profiles_url = "";
          })
          else failed bad_endpoint) [
            | failed e ↦ failed e
            | created be ↦ elim r [
              | url s ↦ created (set_url be s)
              | url_error e ↦ failed (bad_signal_url e)
            ]
          ]

    outcome-IsNew :
        (accepts : Bool) (r : UrlResult)
        → (is_created (outcome accepts r) ≡ (accepts && is_url r)) × IsNew cfg (outcome accepts r)
    unfolding new_nudge_exporter
    outcome-IsNew false r = (refl, tt)
    outcome-IsNew true (url_error e) = (refl, tt)
    outcome-IsNew true (url s) =
        let kept = same _ s in
        (
          refl,
          (
            ap (λ (e : Exporter). e.config) kept,
            ap (λ (e : Exporter). e.rawdata) kept,
            ap (λ (e : Exporter). e.transactions) kept,
          ),
        )

    create-lem :
        (override : String)
        → IsCreation parse cfg override (
            create parse
              (λ cfg. compose_signal_url parse cfg override cfg.path_collect cfg.app_id)
              set_url
              cfg)
    unfolding new_exporter new_exporter_accepts
    create-lem override =
        let r = compose_signal_url parse cfg override cfg.path_collect cfg.app_id in
        let made = outcome-IsNew (new_exporter_accepts parse cfg) r in
        (
          made.0 ∙ ap (λ b. new_exporter_accepts parse cfg && b) (compose-has_source override),
          made.1,
        )

  -- An exporter for traces, metrics or logs is created if and only if the endpoint is empty or
  -- parses as a URL, and the signal has a URL: an endpoint of its own that parses or, without one,
  -- a non-empty endpoint of the exporter. One for profiles needs a non-empty endpoint that parses.
  -- What is created has the configuration, no raw data and an empty buffer.
  pub create-IsCreation :
      IsCreation parse cfg cfg.traces_endpoint (create_traces parse cfg)
      × IsCreation parse cfg cfg.metrics_endpoint (create_metrics parse cfg)
      × IsCreation parse cfg cfg.logs_endpoint (create_logs parse cfg)
      × IsCreation parse cfg "" (create_profiles parse cfg)
  unfolding create_traces create_metrics create_logs create_profiles traces_url metrics_url logs_url
      profiles_url
  create-IsCreation = (
    create-lem (λ be s. record be { traces_url = s }) (λ be s. refl) cfg.traces_endpoint,
    create-lem (λ be s. record be { metrics_url = s }) (λ be s. refl) cfg.metrics_endpoint,
    create-lem (λ be s. record be { logs_url = s }) (λ be s. refl) cfg.logs_endpoint,
    create-lem (λ be s. record be { profiles_url = s }) (λ be s. refl) "",
  )
