-- ===== src/Nudge/Spans/Outcome.antt =====
-- What the server branch of TracesExportRequest2Rawdata (nudge.go) leaves in the transaction of its
-- span: the errors and the status.
use opentelemetry_collector.Nudge.Codes.{add_all_headers}
use opentelemetry_collector.Nudge.Codes.Http.{add_all_extendedcodes}
use opentelemetry_collector.Nudge.Semantics.{
  semantic_attributes_x-status_code, semantic_attributes_x,
}
use opentelemetry_collector.Nudge.Result.{
  Ensures, ok, returned, Ensures-bind, Ensures-then, Ensures-all,
}
use opentelemetry_collector.Nudge.Names.{has_short}
use opentelemetry_collector.Nudge.Spans.Server.{
  set_server, set_mark, set_method, set_url, with_agent, has, opened_server, with_instrument,
  fill_request, server_span, set_status, begin, marked, set_times, set_name, set_code,
}
use opentelemetry_collector.Nudge.Spans.Failures.{request_errors, request_failed, event_errors}
use opentelemetry_collector.Nudge.Spans.Agents.{set_agent}
use opentelemetry_collector.Nudge.Spans.{Span}
use opentelemetry_collector.Nudge.Spans.Opening.{Environment}
use opentelemetry_collector.Nudge.Model.{
  TransactionNudge, Transaction, ErrorX, RawData, status_ok, status_ko,
}
use opentelemetry_collector.Nudge.Attributes.{AttributeMap, get, get_keys}
use opentelemetry_collector.Prelude.{
  String, len, true, false, ◌||◌, List, [], ◌∷◌, ◌++◌, Option, none, some, ◌==◌, ◌≡◌, ◌≢◌, refl, ap,
  ◌∙◌, inl, inr, arith, Bool-cases, eq_iff, ltb,
}

-- No attribute has the empty key, which the table has in place of the status code's.
abbrev pub IsNamed : AttributeMap → Type 0
IsNamed attributes = get attributes "" ≡ none

pub long_keyed-IsNamed : (m : AttributeMap) → has_short (get_keys m) ≡ false → IsNamed m
unfolding get get_keys
long_keyed-IsNamed [] h = refl
long_keyed-IsNamed ((k, v) ∷ m) h = elim (Bool-cases (k == "")) [
  | inl e ↦ let short = ap (λ s. ltb (len s) 5) ((eq_iff k "").0 e) in cc
  | inr e ↦ rw e (long_keyed-IsNamed m (ground arith))
]

-- What a span of a request reports in its transaction: the errors of its events follow those
-- before, and the status is OK with an error's name or message, and else KO after such an event.
pub record Reports (env : Environment) (span : Span) (t u : TransactionNudge) : Type 0 where
  pub raised : List ErrorX
  pub events : event_errors env span.events ≡ ok raised
  pub errors : u.errors_x ≡ t.errors_x ++ raised
  pub status :
      ((has span.attributes "http.error_name" || has span.attributes "http.error_message") ≡ true
        → u.transaction.status ≡ some status_ok)
      × ((has span.attributes "http.error_name" || has span.attributes "http.error_message") ≡ false
          → raised ≢ []
          → u.transaction.status ≡ some status_ko)

-- The errors and the status.
abbrev Told : TransactionNudge → TransactionNudge → Type 0
Told t u = (u.errors_x ≡ t.errors_x) × (u.transaction.status ≡ t.transaction.status)

module _ (env : Environment) where
  pub request_errors-none :
      (span : Span) → IsNamed span.attributes → request_errors env span ≡ ok []
  unfolding request_errors request_failed
  request_errors-none span h = rw (semantic_attributes_x-status_code, h) (ground arith)

  with_agent-Told :
      (attributes : AttributeMap) (raw : RawData) (t : TransactionNudge)
      → Told t (with_agent env attributes raw t).1
  unfolding set_agent
  with_agent-Told attributes raw t = ground arith

  set_server-Told :
      (instrument serveur : Option String) (attributes : AttributeMap) (t : TransactionNudge)
      → Ensures (Told t) (set_server env instrument serveur attributes t)
  unfolding set_server
  set_server-Told instrument none attributes t = returned (refl, refl)
  set_server-Told instrument (some serveur) attributes t =
      Ensures-bind (Told t) (opened_server env attributes serveur t.tag.serveur) _ (λ s.
        Ensures-bind (Told t) (with_instrument env instrument s) _ (λ s'. returned (refl, refl)))

  set_mark-Told : (span : Span) (t : TransactionNudge) → Told t (set_mark env span t)
  set_mark-Told span t = ground arith

  set_url-errors : (span : Span) (t : TransactionNudge) → (set_url env span t).errors_x ≡ t.errors_x
  set_url-errors span t = ground arith

  set_method-status :
      (attributes : AttributeMap) (t : Transaction)
      → (set_method env attributes t).status ≡ t.status
  set_method-status attributes t = ground arith

  set_status-ok :
      (attributes : AttributeMap) (t : Transaction)
      → (has attributes "http.error_name" || has attributes "http.error_message") ≡ true
      → (set_status env attributes t).status ≡ some status_ok
  unfolding set_status semantic_attributes_x
  set_status-ok attributes t h = rw h refl

  set_status-ko :
      (attributes : AttributeMap) (raised : List ErrorX) (t : Transaction)
      → IsNamed attributes
      → (has attributes "http.error_name" || has attributes "http.error_message") ≡ false
      → raised ≢ []
      → (set_status env attributes (marked env raised t)).status ≡ some status_ko
  unfolding set_status semantic_attributes_x
  set_status-ko attributes [] t n h k = absurd (k refl)
  set_status-ko attributes (e ∷ es) t n h k = rw (h, n) refl

  -- The steps after the codes.
  fill_request-Reports :
      (span : Span) (t : TransactionNudge) (coded : Transaction) (raised : List ErrorX)
      → IsNamed span.attributes
      → event_errors env span.events ≡ ok raised
      → Reports env span t (fill_request env span (begin span t) coded [] raised)
  fill_request-Reports span t coded raised n e =
      let named : TransactionNudge = record (begin span t) {
        transaction = set_times span (set_name span coded);
      } in
      let t2 = set_url env span named in
      let t3 = set_code env span.attributes t2.transaction in
      let method =
        set_method-status span.attributes (set_status env span.attributes (marked env raised t3)) in
      record {
        raised = raised;
        events = e;
        errors = ap (λ es. es ++ raised) (set_url-errors span named);
        status = (
          λ h. method ∙ set_status-ok span.attributes (marked env raised t3) h,
          λ h k. method ∙ set_status-ko span.attributes raised t3 n h k,
        );
      }

  Reports-Told :
      (span : Span) (t u v : TransactionNudge)
      → Reports env span t u
      → Told u v
      → Reports env span t v
  Reports-Told span t u v r k = record {
    raised = r.raised;
    events = r.events;
    errors = k.0 ∙ r.errors;
    status = (λ h. k.1 ∙ r.status.0 h, λ h g. k.1 ∙ r.status.1 h g);
  }

  pub server_span-Reports :
      (instrument serveur : Option String) (span : Span) (raw : RawData) (t : TransactionNudge)
      → IsNamed span.attributes
      → Ensures (λ q. Reports env span t q.1) (server_span env instrument serveur span raw t)
  unfolding server_span
  server_span-Reports instrument serveur span raw t n =
      Ensures-bind _
        (add_all_extendedcodes env.ext env.config.filter_header env.keys env.parse_agent
          span.original (add_all_headers env.ext span.original (begin span t).transaction))
        _
        (λ coded. rw (request_errors-none span n) (
          Ensures-then (λ raised. event_errors env span.events ≡ ok raised) _
            (Ensures-all _ (event_errors env span.events) (λ raised e. e))
            (λ raised e.
              let filled = fill_request env span (begin span t) coded [] raised in
              let shown = (with_agent env span.attributes raw filled).1 in
              Ensures-then (Told shown) _ (set_server-Told instrument serveur span.attributes shown)
                (λ u s. returned (
                  Reports-Told span t u (set_mark env span u)
                    (Reports-Told span t shown u
                      (Reports-Told span t filled shown
                        (fill_request-Reports span t coded raised n e)
                        (with_agent-Told span.attributes raw filled))
                      s)
                    (set_mark-Told span u))))))
