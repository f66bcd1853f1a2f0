-- ===== src/Nudge/Push/Unset.antt =====
-- An exporter whose configuration does not set the encoding, which has no default.
use opentelemetry_collector.Nudge.Push.Passes.{state_of, push_loop-inv}
use opentelemetry_collector.Nudge.Result.{Ensures, Ensures-bind, returned}
use opentelemetry_collector.Nudge.Push.{
  Pushing, push_traces, Environment, Externals, RawData, Decoders, Exporter, count_round, encode,
  push_round, Mesure, Reply, deliver, Loop, Resource, first, translate, send_transactions,
  application_ids,
}
use opentelemetry_collector.Nudge.Factory.{create_default_config}
use opentelemetry_collector.Nudge.Extension.{ExtensionLinux}
use opentelemetry_collector.Nudge.Config.{EncodingType, encoding_other}
use opentelemetry_collector.Prelude.{
  ℕ, String, List, [], Option, none, some, ◌==◌, ◌≡◌, refl, ap, inl, inr, Bool-cases, Option-cases,
}

-- The encoding is neither `proto` nor `json`.
abbrev pub IsUnknown : EncodingType → Type 0
IsUnknown enc = (s : String) × (enc ≡ encoding_other s)

-- Nothing was posted, and the raw data is still there.
pub record IsUnposted (p : Pushing) : Type 0 where
  pub posts : p.posts ≡ []
  pub config : IsUnknown p.exporter.config.encoding
  pub raw : RawData
  pub held : p.exporter.rawdata ≡ some raw

module _ (ext : ExtensionLinux) (x : Externals) (d : Decoders)
    (marshal : EncodingType → RawData → Option String) (clock : ℕ → ℕ) (traces_url : String) where
  unencoded : (enc : EncodingType) (raw : RawData) → IsUnknown enc → encode marshal enc raw ≡ none
  unencoded enc raw (s, e) = ap (λ enc. encode marshal enc raw) e

  -- A round without a request.
  count_round-IsUnposted :
      (p : Pushing) (id : String) (raw : RawData) (s : Loop) (reply : Reply)
      → IsUnposted p
      → Ensures
          (λ r. IsUnposted (state_of r))
          (count_round ext x d marshal clock traces_url p id raw s reply)
  unfolding count_round deliver
  count_round-IsUnposted p id raw s reply h =
      let none_there = unencoded p.exporter.config.encoding raw h.config in
      elim (Option-cases (ext.find Mesure p.mesures (λ m. m.identifiant == id))) [
        | inl e ↦
            rw (e, count_round, none_there)
              (Ensures-bind _ (first s.ts) _ (λ t.
                returned (record { posts = h.posts; config = h.config; raw = raw; held = refl })))
        | inr ((m, i), e) ↦
            rw (e, count_round, none_there)
              (returned (record { posts = h.posts; config = h.config; raw = raw; held = refl }))
      ]

  push_round-IsUnposted :
      (p : Pushing) (id : String) (reply : Reply)
      → IsUnposted p
      → Ensures
          (λ r. IsUnposted (state_of r))
          (push_round ext x d marshal clock traces_url p id reply)
  unfolding push_round
  push_round-IsUnposted p id reply h = elim (Bool-cases (id == "")) [
    | inl e ↦ rw (e, push_round) (returned h)
    | inr e ↦
        rw (e, push_round)
          (Ensures-bind _
            (send_transactions ext p.exporter.config.timeout_buffer_transaction clock id
              p.exporter.rawdata p.exporter.transactions)
            _ (λ r. count_round-IsUnposted p id r.0 r.1 reply h))
  ]

-- With an encoding that is neither `proto` nor `json`, as in the default configuration, a push of
-- traces that returns has posted nothing and keeps its raw data, to which the next push adds.
pub push_traces-IsUnposted :
    (env : Environment) (x : Externals) (d : Decoders)
    (marshal : EncodingType → RawData → Option String) (clock : ℕ → ℕ) (traces_url : String)
    (e : Exporter) (ms : List Mesure) (n : ℕ) (created : RawData) (rs : List Resource)
    (replies : ℕ → Reply)
    → IsUnknown e.config.encoding
    → Ensures IsUnposted (push_traces env x d marshal clock traces_url e ms n created rs replies)
unfolding push_traces
push_traces-IsUnposted env x d marshal clock traces_url e ms n created rs replies h =
    Ensures-bind _ (translate (record env { config = e.config }) rs _) _ (λ q.
      push_loop-inv env.ext x d marshal clock traces_url IsUnposted
        (push_round-IsUnposted env.ext x d marshal clock traces_url) _
        (application_ids q.transactions) replies
        (record { posts = refl; config = h; raw = q.raw; held = refl }))

-- The default configuration does not set the encoding.
pub create_default_config-IsUnknown :
    (endpoint : String) → IsUnknown (create_default_config endpoint).encoding
unfolding create_default_config
create_default_config-IsUnknown endpoint = ("", refl)
