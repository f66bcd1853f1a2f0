-- ===== src/Nudge/Translate/Keeps.antt =====
-- What the translation of a span leaves alone in its transaction.
use opentelemetry_collector.Nudge.Spans.Agents.{set_agent}
use opentelemetry_collector.Prelude.{
  String, Bool, true, false, not, ◌||◌, List, [], ◌∷◌, Option, none, some, ◌≡◌, refl, ◌∙◌, ◌⊎◌, inl,
  inr, arith, Bool-cases, eqb,
}
use opentelemetry_collector.Nudge.Result.{Ensures, Ensures-bind, Ensures-then, returned}
use opentelemetry_collector.Nudge.Attributes.{AttributeMap}
use opentelemetry_collector.Nudge.Model.{Transaction, TransactionNudge, RawData, Layer, ErrorX}
use opentelemetry_collector.Nudge.Extension.{ExtensionLinux}
use opentelemetry_collector.Nudge.Codes.{Semconv, Browser, add_all_headers, insert_extended_code}
use opentelemetry_collector.Nudge.Codes.Http.{add_all_extendedcodes, fixed_attributes}
use opentelemetry_collector.Nudge.Spans.{Span, finish, fail, set_layers, error_sql}
use opentelemetry_collector.Nudge.Spans.Opening.{Environment}
use opentelemetry_collector.Nudge.Spans.Failures.{request_errors, event_errors}
use opentelemetry_collector.Nudge.Spans.Server.{
  server_span, set_server, set_status, set_times, marked, opened_server, set_code, set_method,
  set_name, set_url, with_agent, with_instrument, set_mark, begin, fill_request,
}
use opentelemetry_collector.Nudge.Spans.HttpClient.{
  http_client_span, http_failed, http_error, http_codes,
}
use opentelemetry_collector.Nudge.Spans.Database.{database_span, sql_error, instrument_codes}

-- The trace and the application stay, and the mark stays or, if the span ends its trace, becomes that
-- for sending.
pub record Keeps (ends : Bool) (t u : TransactionNudge) : Type 0 where
  pub trace : u.transaction.uuid ≡ t.transaction.uuid
  pub application : u.tag.application_id ≡ t.tag.application_id
  pub mark : ((ends ≡ true) × (u.tag.urlid ≡ 0)) ⊎ (u.tag.urlid ≡ t.tag.urlid)

-- A span after which its trace may be sent: a root, or any if the configuration does not wait.
abbrev pub ends_trace : Environment → Span → Bool
ends_trace env span = not env.config.wait_end_service || span.parent_empty

pub root-Keeps :
    (env : Environment) (span : Span) (t u : TransactionNudge)
    → Keeps span.parent_empty t u
    → Keeps (ends_trace env span) t u
root-Keeps env span t u h = record {
  trace = h.trace;
  application = h.application;
  mark = elim h.mark [ inl (e, z) ↦ inl (ground arith, z) | inr e ↦ inr e ];
}

-- The trace and the layers of a message.
abbrev SameTrace : Transaction → Transaction → Type 0
SameTrace t u = (u.uuid ≡ t.uuid) × (u.layers ≡ t.layers)

insert_extended_code-SameTrace :
    (ext : ExtensionLinux) (key key_x : String) (attributes : AttributeMap) (t : Transaction)
    → SameTrace t (insert_extended_code ext key key_x attributes t).0
unfolding insert_extended_code
insert_extended_code-SameTrace ext key key_x attributes t = ground arith

add_all_extendedcodes-SameTrace :
    (ext : ExtensionLinux) (filter_header : List String) (keys : Semconv)
    (parse_agent : String → Browser) (attributes : AttributeMap) (t : Transaction)
    → Ensures (SameTrace t) (add_all_extendedcodes ext filter_header keys parse_agent attributes t)
unfolding add_all_extendedcodes
add_all_extendedcodes-SameTrace ext filter_header keys parse_agent attributes t =
    Ensures-bind (SameTrace t) (fixed_attributes ext filter_header attributes _ _ _) _ (λ codes.
      returned
        (insert_extended_code-SameTrace ext keys.http_method_key keys.http_method_key attributes t))

set_times-SameTrace : (span : Span) (t : Transaction) → SameTrace t (set_times span t)
unfolding set_times
set_times-SameTrace span t = (refl, refl)

set_name-SameTrace : (span : Span) (t : Transaction) → SameTrace t (set_name span t)
set_name-SameTrace span t = ground arith

add_all_headers-SameTrace :
    (ext : ExtensionLinux) (attributes : AttributeMap) (t : Transaction)
    → SameTrace t (add_all_headers ext attributes t)
unfolding add_all_headers
add_all_headers-SameTrace ext attributes t = (refl, refl)

-- All that later steps read of a transaction, but for the message's own fields.
abbrev Same : TransactionNudge → TransactionNudge → Type 0
Same t u =
    SameTrace t.transaction u.transaction
    × (u.tag.application_id ≡ t.tag.application_id)
    × (u.tag.urlid ≡ t.tag.urlid)

Same-trans : (t u v : TransactionNudge) → Same t u → Same u v → Same t v
Same-trans t u v h k = ((k.0.0 ∙ h.0.0, k.0.1 ∙ h.0.1), k.1 ∙ h.1, k.2 ∙ h.2)

module _ (env : Environment) where
  set_status-SameTrace :
      (attributes : AttributeMap) (t : Transaction) → SameTrace t (set_status env attributes t)
  unfolding set_status
  set_status-SameTrace attributes t = ground arith

  set_code-SameTrace :
      (attributes : AttributeMap) (t : Transaction) → SameTrace t (set_code env attributes t)
  set_code-SameTrace attributes t = ground arith

  set_method-SameTrace :
      (attributes : AttributeMap) (t : Transaction) → SameTrace t (set_method env attributes t)
  set_method-SameTrace attributes t = ground arith

  marked-SameTrace : (es : List ErrorX) (t : Transaction) → SameTrace t (marked env es t)
  marked-SameTrace [] t = (refl, refl)
  marked-SameTrace (e ∷ es) t = (refl, refl)

  set_url-Same : (span : Span) (t : TransactionNudge) → Same t (set_url env span t)
  set_url-Same span t = ground arith

  with_agent-Same :
      (attributes : AttributeMap) (raw : RawData) (t : TransactionNudge)
      → Same t (with_agent env attributes raw t).1
  unfolding set_agent
  with_agent-Same attributes raw t = ground arith

  set_server-Same :
      (instrument serveur : Option String) (attributes : AttributeMap) (t : TransactionNudge)
      → Ensures (Same t) (set_server env instrument serveur attributes t)
  unfolding set_server
  set_server-Same instrument none attributes t = returned ((refl, refl), refl, refl)
  set_server-Same instrument (some serveur) attributes t =
      Ensures-bind (Same t) (opened_server env attributes serveur t.tag.serveur) _ (λ s.
        Ensures-bind (Same t) (with_instrument env instrument s) _
          (λ s'. returned ((refl, refl), refl, refl)))

  set_mark-Keeps :
      (span : Span) (t u : TransactionNudge)
      → Same t u
      → Keeps (ends_trace env span) t (set_mark env span u)
        × ((set_mark env span u).transaction.layers ≡ t.transaction.layers)
  set_mark-Keeps span t u h =
      elim (Bool-cases (not env.config.wait_end_service || span.parent_empty)) [
        | inl e ↦ rw e (record { trace = h.0.0; application = h.1; mark = inl (refl, refl) }, h.0.1)
        | inr e ↦ rw e (record { trace = h.0.0; application = h.1; mark = inr h.2 }, h.0.1)
      ]

  filled-SameTrace :
      (attributes : AttributeMap) (raised : List ErrorX) (t : Transaction)
      → SameTrace t (
          set_method env attributes
            (set_status env attributes (marked env raised (set_code env attributes t))))
  filled-SameTrace attributes raised t =
      let t1 = set_code env attributes t in
      let t2 = marked env raised t1 in
      let t3 = set_status env attributes t2 in
      let a = set_code-SameTrace attributes t in
      let b = marked-SameTrace raised t1 in
      let c = set_status-SameTrace attributes t2 in
      let d = set_method-SameTrace attributes t3 in (d.0 ∙ c.0 ∙ b.0 ∙ a.0, d.1 ∙ c.1 ∙ b.1 ∙ a.1)

  fill_request-Same :
      (span : Span) (t : TransactionNudge) (coded : Transaction) (failed raised : List ErrorX)
      → SameTrace t.transaction coded
      → Same t (fill_request env span t coded failed raised)
  fill_request-Same span t coded failed raised h =
      let named = set_name-SameTrace span coded in
      let timed = set_times-SameTrace span (set_name span coded) in
      let u : TransactionNudge = record t { transaction = set_times span (set_name span coded) } in
      let urled = set_url-Same span u in
      let t2 : Transaction = (set_url env span u).transaction in
      let last = filled-SameTrace span.attributes raised t2 in
      (
        (
          last.0 ∙ urled.0.0 ∙ timed.0 ∙ named.0 ∙ h.0,
          last.1 ∙ urled.0.1 ∙ timed.1 ∙ named.1 ∙ h.1,
        ),
        urled.1,
        urled.2,
      )

  -- The server branch keeps the trace, the application and the layers of its transaction.
  pub server_span-Keeps :
      (instrument serveur : Option String) (span : Span) (raw : RawData) (t : TransactionNudge)
      → Ensures
          (λ r. Keeps (ends_trace env span) t r.1 × (r.1.transaction.layers ≡ t.transaction.layers))
          (server_span env instrument serveur span raw t)
  unfolding server_span
  server_span-Keeps instrument serveur span raw t =
      Ensures-then (SameTrace t.transaction) _
        (add_all_extendedcodes-SameTrace env.ext env.config.filter_header env.keys env.parse_agent
          span.original (add_all_headers env.ext span.original (begin span t).transaction))
        (λ coded c. Ensures-bind _ (request_errors env span) _ (λ failed.
          Ensures-bind _ (event_errors env span.events) _ (λ raised.
            let filled = fill_request env span (begin span t) coded failed raised in
            let f = fill_request-Same span (begin span t) coded failed raised c in
            let agent = with_agent-Same span.attributes raw filled in
            Ensures-then (Same (with_agent env span.attributes raw filled).1) _
              (set_server-Same instrument serveur span.attributes
                (with_agent env span.attributes raw filled).1)
              (λ u s. returned (
                set_mark-Keeps span t u (
                  Same-trans t filled u f (
                    Same-trans filled (with_agent env span.attributes raw filled).1 u agent s)))))))

finish-Keeps :
    (b : Bool) (code : Option String) (ls : List Layer) (t : TransactionNudge)
    → Keeps b t (set_layers ls (finish b code t))
finish-Keeps false code ls t = record { trace = refl; application = refl; mark = inr refl }
finish-Keeps true code ls t = record { trace = refl; application = refl; mark = inl (refl, refl) }

fail-Keeps :
    (b : Bool) (code : Option String) (e : ErrorX) (ls : List Layer) (t : TransactionNudge)
    → Keeps b t (set_layers ls (fail e (finish b code t)))
fail-Keeps false code e ls t = record { trace = refl; application = refl; mark = inr refl }
fail-Keeps true code e ls t = record { trace = refl; application = refl; mark = inl (refl, refl) }

module _ (ext : ExtensionLinux) (keys : Semconv) where
  pub http_client_span-Keeps :
      (filter_header : List String) (span : Span) (t : TransactionNudge)
      → Ensures (Keeps span.parent_empty t) (http_client_span ext keys filter_header span t)
  unfolding http_client_span
  http_client_span-Keeps filter_header span t = elim (Bool-cases (http_failed ext keys span)) [
    | inl e ↦ rw e (
        Ensures-bind (Keeps span.parent_empty t) (http_error ext keys span) _ (λ x.
          Ensures-bind (Keeps span.parent_empty t) (http_codes ext keys filter_header span _) _
            (λ d. returned (fail-Keeps span.parent_empty _ x _ t))))
    | inr e ↦ rw e (
        Ensures-bind (Keeps span.parent_empty t) (http_codes ext keys filter_header span _) _
          (λ d. returned (finish-Keeps span.parent_empty _ _ t)))
  ]

  pub database_span-Keeps :
      (send_user : Bool) (instrument : Option String) (span : Span) (t : TransactionNudge)
      → Ensures (Keeps span.parent_empty t) (database_span ext keys send_user instrument span t)
  unfolding database_span
  database_span-Keeps send_user instrument span t =
      elim (Bool-cases (eqb span.status_code error_sql)) [
        | inl e ↦ rw e (
            Ensures-bind (Keeps span.parent_empty t) (sql_error ext keys span) _ (λ x.
              Ensures-bind (Keeps span.parent_empty t)
                (instrument_codes ext keys send_user instrument span.attributes _) _
                (λ r. returned (fail-Keeps span.parent_empty _ x _ t))))
        | inr e ↦ rw e (
            Ensures-bind (Keeps span.parent_empty t)
              (instrument_codes ext keys send_user instrument span.attributes _) _
              (λ r. returned (finish-Keeps span.parent_empty _ _ t)))
      ]
