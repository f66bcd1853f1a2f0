-- ===== src/Nudge/Config/Urls.antt =====
-- What `composeSignalURL` answers, and how `Validate` relates to it.
use opentelemetry_collector.Prelude.{
  String, Bool, true, false, ◌≡◌, refl, ◌⊎◌, inl, inr, ◌==◌, ◌+++◌, eq_iff, arith, Bool-cases,
}
use opentelemetry_collector.Nudge.Config.{
  Config, validate, has_slash, UrlResult, url, url_error, missing_endpoint, invalid_url,
  compose_signal_url, traces_url, metrics_url, logs_url, profiles_url,
}

-- Where a signal URL comes from.
abbrev pub IsFrom : (String → Bool) → Config → String → String → String → UrlResult → Type 0
IsFrom parse cfg override path app (url_error e) =
    (e ≡ invalid_url app) × (parse override ≡ false) × ((override == "") ≡ false)
    ⊎ (e ≡ missing_endpoint app) × (cfg.endpoint ≡ "") × (override ≡ "")
IsFrom parse cfg override path app (url u) =
    (u ≡ override) × (parse override ≡ true) × ((override == "") ≡ false)
    ⊎ (u ≡ cfg.endpoint +++ path +++ "/" +++ app) × (override ≡ "") × ((cfg.endpoint == "") ≡ false)

-- composeSignalURL answers the override of the signal if there is one and it parses, and an error
-- if it does not parse; without an override it answers the endpoint, the path, a slash and the
-- application id, whether or not the endpoint ends in a slash, so that no slash is put between the
-- endpoint and the path, and an error if there is no endpoint.
pub compose_signal_url-IsFrom :
    (parse : String → Bool) (cfg : Config) (override path app : String)
    → IsFrom parse cfg override path app (compose_signal_url parse cfg override path app)
unfolding compose_signal_url
compose_signal_url-IsFrom parse cfg override path app = elim (Bool-cases (override == "")) [
  | inr n ↦ elim (Bool-cases (parse override)) [
    | inl p ↦ rw (n, p, compose_signal_url) (inl (refl, p, n))
    | inr p ↦ rw (n, p, compose_signal_url) (inl (refl, p, n))
  ]
  | inl e ↦ elim (Bool-cases (cfg.endpoint == "")) [
    | inl m ↦
        rw (e, m, compose_signal_url)
          (inr (refl, (eq_iff cfg.endpoint "").0 m, (eq_iff override "").0 e))
    | inr m ↦ elim (Bool-cases (has_slash cfg.endpoint)) [
      | inl s ↦ rw (e, m, s, compose_signal_url) (inr (refl, (eq_iff override "").0 e, m))
      | inr s ↦ rw (e, m, s, compose_signal_url) (inr (refl, (eq_iff override "").0 e, m))
    ]
  ]
]

-- A configuration that Validate rejects has no URL for any of the four signals: each creation of an
-- exporter fails for want of an endpoint.
pub validate-urls :
    (parse : String → Bool) (cfg : Config)
    → validate cfg ≡ false
    → (traces_url parse cfg ≡ url_error (missing_endpoint cfg.app_id))
      × (metrics_url parse cfg ≡ url_error (missing_endpoint cfg.app_id))
      × (logs_url parse cfg ≡ url_error (missing_endpoint cfg.app_id))
      × (profiles_url parse cfg ≡ url_error (missing_endpoint cfg.app_id))
unfolding validate traces_url metrics_url logs_url profiles_url compose_signal_url
validate-urls parse cfg h = (ground arith, ground arith, ground arith, ground arith)
