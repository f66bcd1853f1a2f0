-- ===== src/Nudge/Push/Signals.antt =====
-- The metrics, logs and profiles, each of which has an exporter of its own.
use opentelemetry_collector.Prelude.{
  String, Option, none, some, ◌≡◌, refl, ◌⊎◌, inl, inr, arith, ◌≢◌, Option-cases,
}
use opentelemetry_collector.Nudge.Config.{EncodingType}
use opentelemetry_collector.Nudge.Model.{RawData}
use opentelemetry_collector.Nudge.Export.{Exporter, Mesure, export}
use opentelemetry_collector.Nudge.Response.{Reply, Externals, Decoders}
use opentelemetry_collector.Nudge.Push.{push_signal, encode, encoding_error, with_rawdata}

module _ (x : Externals) (d : Decoders) (marshal : EncodingType → RawData → Option String)
    (signal_url : String) where
  pub export-keeps :
      (e : Exporter) (m : Option Mesure) (reply : Reply)
      → let e' = (export x d e signal_url m reply).exporter in
        (e'.rawdata ≡ none) × (e'.transactions ≡ e.transactions) × (e'.config ≡ e.config)
  unfolding export
  export-keeps e m reply = ground arith

  -- A push of metrics, logs or profiles leaves the buffer of transactions and the configuration as
  -- they are; it forgets the raw data if and only if the raw data could be encoded, and otherwise
  -- keeps it, or what was created for want of any, and returns an error.
  pub push_signal-state :
      (e : Exporter) (created : RawData) (reply : Reply)
      → let raw = with_rawdata created e.rawdata in
        let r = push_signal x d marshal signal_url e created reply in
        (r.0.transactions ≡ e.transactions)
        × (r.0.config ≡ e.config)
        × (((encode marshal e.config.encoding raw ≢ none) × (r.0.rawdata ≡ none))
            ⊎ ((encode marshal e.config.encoding raw ≡ none)
                × (r.0.rawdata ≡ some raw)
                × (r.1 ≡ some (encoding_error e.config.encoding))))
  unfolding push_signal
  push_signal-state e created reply =
      let raw = with_rawdata created e.rawdata in
      let e' : Exporter = record e { rawdata = some raw } in
      let (flushed, buffer, config) = export-keeps e' none reply in
      elim (Option-cases (encode marshal e.config.encoding raw)) [
        | inl h ↦ rw (h, push_signal) (refl, refl, inr (refl, refl, refl))
        | inr (body, h) ↦ rw (h, push_signal) (buffer, config, inl (λ k. cc, flushed))
      ]
