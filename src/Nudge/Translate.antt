-- ===== src/Nudge/Translate.antt =====
-- `TracesExportRequest2Rawdata`: the loops over resources, scopes and spans. Each span goes to the
-- transaction of its trace in the buffer. The attributes of a resource are only printed and are
-- left out.
pub mod Keeps
pub mod Search
pub mod Steps
pub mod Runs
pub mod Traces
pub mod Others
pub mod ShortKeys
pub mod Dictionary
pub mod Marks
pub mod Totals
pub mod Reports
pub mod Returning
pub mod Waiting
use opentelemetry_collector.Prelude.{
  ℕ, zero, suc, ◌+◌, ◌-◌, ◌%◌, ◌^◌, ◌≤◌, ◌<◌, String, len, slice, Bool, true, false, not, ◌&&◌,
  ◌||◌, List, [], ◌∷◌, ◌++◌, map, Option, none, some, ◌==◌, ◌+++◌, if◌then◌else◌, ◌≡◌, ◌≢◌, refl,
  sym, ap, ◌∙◌, subst, ◌⊎◌, inl, inr, arith, All, Bool-cases, Option-cases, eq_iff, eqb, length,
  any,
}
use opentelemetry_collector.Nudge.Extension.{ExtensionLinux}
use opentelemetry_collector.Nudge.Result.{Result, ok, panic, ◌>>=◌}
use opentelemetry_collector.Nudge.Attributes.{get_keys}
use opentelemetry_collector.Nudge.Config.{Config}
use opentelemetry_collector.Nudge.Model.{TransactionNudge, RawData}
use opentelemetry_collector.Nudge.Names.{get_name_type, get_instrument_type}
use opentelemetry_collector.Nudge.Send.{set}
use opentelemetry_collector.Nudge.Spans.{Span, Kind, internal, server, other_kind}
use opentelemetry_collector.Nudge.Spans.Opening.{
  Environment, Opened, open_transaction, choose_application,
}
use opentelemetry_collector.Nudge.Spans.Server.{server_span}
use opentelemetry_collector.Nudge.Spans.HttpClient.{http_client_span}
use opentelemetry_collector.Nudge.Spans.Database.{database_span}

-- a scope, with its name, and a resource
pub record Scope : Type 0 where
  pub name : String
  pub spans : List Span

pub record Resource : Type 0 where
  pub scopes : List Scope

-- The buffer and the raw data.
pub record Translation : Type 0 where
  pub transactions : List TransactionNudge
  pub raw : RawData

abbrev pub is_internal : Kind → Bool
is_internal internal = true
is_internal server = false
is_internal other_kind = false

abbrev pub is_server : Kind → Bool
is_server internal = false
is_server server = true
is_server other_kind = false

abbrev pub is_found : Option String → Bool
is_found none = false
is_found (some x) = true

module _ (env : Environment) where
  -- FindIndex(keys, StartsWith(…)) >= 0
  abbrev pub has_prefix : Span → String → Bool
  has_prefix span p =
      elim (env.ext.find_index String (get_keys span.original) (λ k. env.ext.starts_with k p)) [
        | none ↦ false
        | some i ↦ true
      ]

  -- the branch that the kind and the attributes of a span lead to
  unfoldable pub span_branch :
      Option String
      → Option String
      → Span
      → RawData
      → TransactionNudge
      → Result (RawData × TransactionNudge)
  unfolding server_span http_client_span database_span get_keys
  span_branch instrument serveur span raw t =
      let http = has_prefix span "http." in
      let keep : Result TransactionNudge → Result (RawData × TransactionNudge) =
        λ r. r >>= λ u. ok (raw, u) in
      if (is_found serveur || http) && (is_internal span.kind || span.parent_empty)
      then server_span env instrument serveur span raw t
      else if http && (is_server span.kind || not span.parent_empty)
      then keep (http_client_span env.ext env.keys env.config.filter_header span t)
      else if has_prefix span "db." || has_prefix span "graphql."
      then keep
          (database_span env.ext env.keys env.config.send_user_connection_string instrument span t)
      else ok (raw, t)

  -- the body of the loop over the spans
  unfoldable pub translate_span : Option String → Translation → Span → Result Translation
  unfolding get_name_type open_transaction choose_application span_branch
  translate_span instrument tr span = do
    serveur ← get_name_type env.ext span.original
    let o = open_transaction env tr.transactions (record span { attributes = span.original })
    r ←
        span_branch instrument serveur o.span tr.raw
          (choose_application env o.span.attributes o.transaction)
    ok (record { transactions = set o.transactions o.index r.1; raw = r.0 })

  unfoldable pub translate_spans : Option String → List Span → Translation → Result Translation
  unfolding translate_span
  translate_spans instrument [] tr = ok tr
  translate_spans instrument (span ∷ spans) tr =
      translate_span instrument tr span >>= λ tr'. translate_spans instrument spans tr'

  unfoldable pub translate_scopes : List Scope → Translation → Result Translation
  unfolding translate_spans get_instrument_type
  translate_scopes [] tr = ok tr
  translate_scopes (s ∷ ss) tr =
      translate_spans (get_instrument_type env.ext s.name) s.spans tr >>= λ tr'.
      translate_scopes ss tr'

  -- TracesExportRequest2Rawdata
  unfoldable pub translate : List Resource → Translation → Result Translation
  unfolding translate_scopes
  translate [] tr = ok tr
  translate (r ∷ rs) tr = translate_scopes r.scopes tr >>= λ tr'. translate rs tr'
