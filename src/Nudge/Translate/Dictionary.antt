-- ===== src/Nudge/Translate/Dictionary.antt =====
-- The dictionary of user agents through the translation of a request.
use opentelemetry_collector.Prelude.{String, List, [], ◌∷◌, Option, inl, inr, Option-cases}
use opentelemetry_collector.Nudge.Result.{
  Result, ok, Ensures, Ensures-bind, Ensures-then, returned, ◌>>=◌,
}
use opentelemetry_collector.Nudge.Attributes.{AttributeMap, get}
use opentelemetry_collector.Nudge.Model.{TransactionNudge, RawData}
use opentelemetry_collector.Nudge.Codes.Http.{add_all_extendedcodes}
use opentelemetry_collector.Nudge.Names.{get_name_type, get_instrument_type}
use opentelemetry_collector.Nudge.Spans.{Span}
use opentelemetry_collector.Nudge.Spans.Agents.{
  NumberedFrom, set_agent, add_agent-NumberedFrom, entries_of,
}
use opentelemetry_collector.Nudge.Spans.Opening.{Environment, open_transaction, choose_application}
use opentelemetry_collector.Nudge.Spans.Failures.{request_errors, event_errors}
use opentelemetry_collector.Nudge.Spans.Server.{server_span, with_agent, set_server}
use opentelemetry_collector.Nudge.Spans.HttpClient.{http_client_span}
use opentelemetry_collector.Nudge.Spans.Database.{database_span}
use opentelemetry_collector.Nudge.Translate.{
  Translation, Scope, Resource, span_branch, translate_span, translate_spans, translate_scopes,
  translate,
}
use opentelemetry_collector.Nudge.Translate.Steps.{by_test}

-- Each user agent of the raw data has its position as id, modulo 2 ^ 32, and no agent occurs twice.
abbrev pub IsNumbered : RawData → Type 0
IsNumbered raw = NumberedFrom 0 (entries_of raw.user_agent)

module _ (env : Environment) where
  with_agent-IsNumbered :
      (attributes : AttributeMap) (raw : RawData) (t : TransactionNudge)
      → IsNumbered raw
      → IsNumbered (with_agent env attributes raw t).0
  unfolding set_agent
  with_agent-IsNumbered attributes raw t h =
      elim (Option-cases (get attributes env.keys.http_user_agent_key)) [
        | inl e ↦ rw (e, with_agent) h
        | inr (v, e) ↦
            rw (e, with_agent)
              (add_agent-NumberedFrom env.ext (entries_of raw.user_agent) v.as_string h).0
      ]

  abbrev Numbers : RawData × TransactionNudge → Type 0
  Numbers q = IsNumbered q.0

  server_span-IsNumbered :
      (instrument serveur : Option String) (span : Span) (raw : RawData) (t : TransactionNudge)
      → IsNumbered raw
      → Ensures Numbers (server_span env instrument serveur span raw t)
  unfolding server_span
  server_span-IsNumbered instrument serveur span raw t h =
      Ensures-bind Numbers
        (add_all_extendedcodes env.ext env.config.filter_header env.keys env.parse_agent
          span.original _)
        _
        (λ coded. Ensures-bind Numbers (request_errors env span) _ (λ failed.
          Ensures-bind Numbers (event_errors env span.events) _ (λ raised.
            Ensures-bind Numbers (set_server env instrument serveur span.attributes _) _
              (λ u. returned (with_agent-IsNumbered span.attributes raw _ h)))))

  keep-IsNumbered :
      (raw : RawData) (r : Result TransactionNudge)
      → IsNumbered raw
      → Ensures Numbers (r >>= λ u. ok (raw, u))
  keep-IsNumbered raw r h = Ensures-bind Numbers r _ (λ u. returned h)

  span_branch-IsNumbered :
      (instrument serveur : Option String) (span : Span) (raw : RawData) (t : TransactionNudge)
      → IsNumbered raw
      → Ensures Numbers (span_branch env instrument serveur span raw t)
  unfolding span_branch
  span_branch-IsNumbered instrument serveur span raw t h =
      by_test env Numbers _ _ _ (server_span-IsNumbered instrument serveur span raw t h) (
        by_test env Numbers _ _ _
          (keep-IsNumbered raw (http_client_span env.ext env.keys env.config.filter_header span t)
            h)
          (by_test env Numbers _ _ _
            (keep-IsNumbered raw
              (database_span env.ext env.keys env.config.send_user_connection_string instrument span
                t)
              h)
            (returned h)))

  abbrev pub Holds : Translation → Type 0
  Holds q = IsNumbered q.raw

  translate_span-IsNumbered :
      (instrument : Option String) (tr : Translation) (span : Span)
      → Holds tr
      → Ensures Holds (translate_span env instrument tr span)
  unfolding translate_span
  translate_span-IsNumbered instrument tr span h =
      let o = open_transaction env tr.transactions (record span { attributes = span.original }) in
      Ensures-bind Holds (get_name_type env.ext span.original) _ (λ serveur.
        Ensures-then Numbers Holds
          (span_branch-IsNumbered instrument serveur o.span tr.raw
            (choose_application env o.span.attributes o.transaction) h)
          (λ r k. returned k))

  translate_spans-IsNumbered :
      (instrument : Option String) (spans : List Span) (tr : Translation)
      → Holds tr
      → Ensures Holds (translate_spans env instrument spans tr)
  unfolding translate_spans
  translate_spans-IsNumbered instrument [] tr h = returned h
  translate_spans-IsNumbered instrument (span ∷ spans) tr h =
      Ensures-then Holds Holds (translate_span-IsNumbered instrument tr span h)
        (λ q k. translate_spans-IsNumbered instrument spans q k)

  translate_scopes-IsNumbered :
      (ss : List Scope) (tr : Translation) → Holds tr → Ensures Holds (translate_scopes env ss tr)
  unfolding translate_scopes
  translate_scopes-IsNumbered [] tr h = returned h
  translate_scopes-IsNumbered (s ∷ ss) tr h =
      Ensures-then Holds Holds
        (translate_spans-IsNumbered (get_instrument_type env.ext s.name) s.spans tr h)
        (λ q k. translate_scopes-IsNumbered ss q k)

  -- If the user agents of the raw data have their positions as ids, modulo 2 ^ 32, and none occurs
  -- twice, the same holds when the translation of a request returns.
  pub translate-IsNumbered :
      (rs : List Resource) (tr : Translation)
      → IsNumbered tr.raw
      → Ensures (λ (q : Translation). IsNumbered q.raw) (translate env rs tr)
  unfolding translate
  translate-IsNumbered [] tr h = returned h
  translate-IsNumbered (r ∷ rs) tr h =
      Ensures-then Holds Holds (translate_scopes-IsNumbered r.scopes tr h)
        (λ q k. translate-IsNumbered rs q k)
