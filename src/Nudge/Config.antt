-- ===== src/Nudge/Config.antt =====
-- config.go and factory.go: the settings, their validation and the signal URLs. `url.Parse` is a
-- parameter, the test whether it accepts a text.
pub mod Urls
use Prim.Native.String
use opentelemetry_collector.Prelude.{
  ℕ, ◌+◌, ◌-◌, String, len, slice, Bool, true, false, not, ◌&&◌, List, Option, none, some, ◌==◌,
  ◌+++◌, if◌then◌else◌, leb, ◌≡◌,
}
use opentelemetry_collector.Nudge.Attributes.{AttributeMap, Attribute, get}

-- EncodingType; a configuration that bypassed UnmarshalText may hold another text
pub data EncodingType : Type 0 where
  encoding_proto encoding_json : EncodingType
  encoding_other : String → EncodingType

-- configtelemetry.Level, as far as the exporter tells levels apart
pub data Verbosity : Type 0 where
  detailed other_level : Verbosity

-- Config with the embedded NudgeHTTPClientConfig; the fields that the exporter never reads, and
-- those of the embedded library types but `endpoint`, are left out; the fields of the embedded
-- record that `debug_path` and `debug_port` hide are among them
pub record Config : Type 0 where
  pub endpoint : String
  pub app_id : String
  pub path_collect : String
  pub method : String
  pub verbosity : Verbosity
  pub encoding : EncodingType
  pub record_collecte : Bool
  pub insert_resource : Bool
  pub timeout_buffer_transaction : ℕ
  pub filter_header : List String
  pub session_id : String
  pub send_user_connection_string : Bool
  pub wait_end_service : Bool
  pub traces_endpoint : String
  pub metrics_endpoint : String
  pub logs_endpoint : String
  pub debug_path : String
  pub debug_port : ℕ

-- EncodingType.UnmarshalText on a non-nil receiver; `none` is its error, which leaves the receiver
unfoldable pub unmarshal_text : String → Option EncodingType
unmarshal_text s =
    if s == "proto" then some encoding_proto else if s == "json" then some encoding_json else none

-- Config.Validate
unfoldable pub validate : Config → Bool
validate cfg = not (
    cfg.endpoint == ""
    && cfg.traces_endpoint == ""
    && cfg.metrics_endpoint == ""
    && cfg.logs_endpoint == "")

pub data UrlError : Type 0 where
  invalid_url missing_endpoint : String → UrlError

pub data UrlResult : Type 0 where
  url : String → UrlResult
  url_error : UrlError → UrlResult

-- strings.HasSuffix(s, "/")
unfoldable pub has_slash : String → Bool
has_slash s = leb 1 (len s) && slice s (len s - 1) (len s) == "/"

module _ (parse_url : String → Bool) where
  -- composeSignalURL
  unfoldable pub compose_signal_url : Config → String → String → String → UrlResult
  unfolding has_slash
  compose_signal_url cfg signal_override_url signal_path signal_app_id =
      if not (signal_override_url == "")
      then (if parse_url signal_override_url
          then url signal_override_url
          else url_error (invalid_url signal_app_id))
      else if cfg.endpoint == ""
      then url_error (missing_endpoint signal_app_id)
      else if has_slash cfg.endpoint
      then url (cfg.endpoint +++ signal_path +++ "/" +++ signal_app_id)
      else url (cfg.endpoint +++ signal_path +++ "/" +++ signal_app_id)

  -- the URLs that createTraces, createMetrics, createLogs and createProfiles compute
  unfoldable pub traces_url : Config → UrlResult
  unfolding compose_signal_url
  traces_url cfg = compose_signal_url cfg cfg.traces_endpoint cfg.path_collect cfg.app_id

  unfoldable pub metrics_url : Config → UrlResult
  unfolding compose_signal_url
  metrics_url cfg = compose_signal_url cfg cfg.metrics_endpoint cfg.path_collect cfg.app_id

  unfoldable pub logs_url : Config → UrlResult
  unfolding compose_signal_url
  logs_url cfg = compose_signal_url cfg cfg.logs_endpoint cfg.path_collect cfg.app_id

  unfoldable pub profiles_url : Config → UrlResult
  unfolding compose_signal_url
  profiles_url cfg = compose_signal_url cfg "" cfg.path_collect cfg.app_id

  -- the check of the endpoint in newExporter
  unfoldable pub new_exporter_accepts : Config → Bool
  new_exporter_accepts cfg = if cfg.endpoint == "" then true else parse_url cfg.endpoint

  abbrev pub url_or_nil : UrlResult → Option String
  url_or_nil (url s) = some s
  url_or_nil (url_error e) = none

  -- Attributes2URL
  unfoldable pub attributes_to_url : Config → AttributeMap → Option String
  unfolding compose_signal_url get
  attributes_to_url cfg attributes = elim (get attributes "nudge_application_id") [
    | none ↦ none
    | some v ↦ url_or_nil (compose_signal_url cfg cfg.traces_endpoint cfg.path_collect v.as_string)
  ]
