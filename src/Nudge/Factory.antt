-- ===== src/Nudge/Factory.antt =====
-- factory.go, and newExporter and newNudgeExporter of nudge.go: the default configuration and the
-- creation of an exporter for each signal. `url.Parse` is a parameter, and so is the endpoint of
-- confighttp.NewDefaultClientConfig. The host name, the drives and the DNS of a new exporter are in
-- `Creation`; the wrapping of an exporter by exporterhelper and the thread for the CPU are left out.
pub mod Signals
use opentelemetry_collector.Nudge.Export.{Exporter}
use opentelemetry_collector.Nudge.Config.{
  Config, UrlError, UrlResult, logs_url, metrics_url, new_exporter_accepts, profiles_url,
  traces_url, other_level, url, encoding_other, url_error,
}
use opentelemetry_collector.Prelude.{
  ℕ, zero, suc, ◌+◌, ◌-◌, ◌%◌, ◌^◌, ◌≤◌, ◌<◌, String, len, slice, Bool, true, false, not, ◌&&◌,
  ◌||◌, List, [], ◌∷◌, ◌++◌, map, Option, none, some, ◌==◌, ◌+++◌, if◌then◌else◌, ◌≡◌, ◌≢◌, refl,
  sym, ap, ◌∙◌, subst, ◌⊎◌, inl, inr, arith, All, Bool-cases, Option-cases, eq_iff, eqb, length,
  any,
}

-- createDefaultConfig with NewDefaultNudgeHTTPClientConfig: all else has Go's zero values
unfoldable pub create_default_config : String → Config
create_default_config endpoint = record {
  endpoint = endpoint;
  app_id = "";
  path_collect = "";
  method = "";
  verbosity = other_level;
  encoding = encoding_other "";
  record_collecte = false;
  insert_resource = false;
  timeout_buffer_transaction = 0;
  filter_header = [];
  session_id = "";
  send_user_connection_string = false;
  wait_end_service = false;
  traces_endpoint = "";
  metrics_endpoint = "";
  logs_endpoint = "";
  debug_path = "";
  debug_port = 0;
}

-- newNudgeExporter
unfoldable pub new_nudge_exporter : Config → Exporter
new_nudge_exporter parent = record { config = parent; rawdata = none; transactions = [] }

-- baseExporter: each creation sets one of the URLs
pub record BaseExporter : Type 0 where
  pub nudge_exporter : Exporter
  pub traces_url : String
  pub metrics_url : String
  pub logs_url : String
  pub profiles_url : String

pub data CreateError : Type 0 where
  bad_endpoint : CreateError
  bad_signal_url : UrlError → CreateError

pub data Created : Type 0 where
  created : BaseExporter → Created
  failed : CreateError → Created

module _ (parse_url : String → Bool) where
  -- newExporter
  unfoldable pub new_exporter : Config → Created
  unfolding new_exporter_accepts new_nudge_exporter
  new_exporter cfg =
      if new_exporter_accepts parse_url cfg
      then created (record {
        nudge_exporter = new_nudge_exporter cfg;
        traces_url = "";
        metrics_url = "";
        logs_url = "";
        profiles_url = "";
      })
      else failed bad_endpoint

  -- what the four creations share: the URL is composed once the exporter is there
  abbrev pub create :
      (Config → UrlResult) → (BaseExporter → String → BaseExporter) → Config → Created
  create signal_url set_url cfg = elim (new_exporter cfg) [
    | failed e ↦ failed e
    | created be ↦ elim (signal_url cfg) [
      | url s ↦ created (set_url be s)
      | url_error e ↦ failed (bad_signal_url e)
    ]
  ]

  -- createTraces
  unfoldable pub create_traces : Config → Created
  unfolding new_exporter traces_url
  create_traces = create (traces_url parse_url) (λ be s. record be { traces_url = s })

  -- createMetrics
  unfoldable pub create_metrics : Config → Created
  unfolding new_exporter metrics_url
  create_metrics = create (metrics_url parse_url) (λ be s. record be { metrics_url = s })

  -- createLogs
  unfoldable pub create_logs : Config → Created
  unfolding new_exporter logs_url
  create_logs = create (logs_url parse_url) (λ be s. record be { logs_url = s })

  -- createProfiles
  unfoldable pub create_profiles : Config → Created
  unfolding new_exporter profiles_url
  create_profiles = create (profiles_url parse_url) (λ be s. record be { profiles_url = s })
