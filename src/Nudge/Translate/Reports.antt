-- ===== src/Nudge/Translate/Reports.antt =====
-- What a request's span reports through its whole translation: the errors of the events of its
-- span, and no error of the request itself, since the key of the status code is missing in the table
-- of semantic attributes.
use opentelemetry_collector.Nudge.Translate.Steps.{put_str-get, trace_of, own}
use opentelemetry_collector.Nudge.Translate.{
  translate_span, span_branch, Translation, has_prefix, is_internal, set, is_found,
}
use opentelemetry_collector.Nudge.Semantics.{semantic_attributes_x, semantic_attributes_x-named}
use opentelemetry_collector.Nudge.Result.{Ensures, ok, returned, Ensures-then, Ensures-all}
use opentelemetry_collector.Nudge.Names.{has_short, get_name_type, FailsIf, get_name_type-FailsIf}
use opentelemetry_collector.Nudge.Spans.{Span}
use opentelemetry_collector.Nudge.Spans.Opening.{
  Environment, choose_application, opened_at, open_transaction, has_uuid,
}
use opentelemetry_collector.Nudge.Model.{TransactionNudge, RawData}
use opentelemetry_collector.Nudge.Attributes.{AttributeMap, get_keys}
use opentelemetry_collector.Prelude.{
  ℕ, String, true, false, ◌&&◌, ◌||◌, List, ◌++◌, Option, none, some, ◌≡◌, refl, ap, ◌∙◌, subst,
  inl, inr, arith, Bool-cases,
}
use opentelemetry_collector.Nudge.Spans.Outcome.{
  IsNamed, long_keyed-IsNamed, Reports, server_span-Reports,
}

module _ (env : Environment) where
  -- The attributes that the translation reads on have no empty key, if those of the span have none.
  pub opened-IsNamed :
      (ts : List TransactionNudge) (span : Span) (f : Option (TransactionNudge × ℕ))
      → IsNamed span.attributes
      → IsNamed (opened_at env ts span f).span.attributes
  opened-IsNamed ts span none n =
      put_str-get env span.attributes (semantic_attributes_x "UUID") "" (trace_of env span)
        semantic_attributes_x-named
      ∙ n
  opened-IsNamed ts span (some (t, i)) n = n

  choose_application-errors :
      (attributes : AttributeMap) (t : TransactionNudge)
      → (choose_application env attributes t).errors_x ≡ t.errors_x
  unfolding choose_application
  choose_application-errors attributes t = ground arith

  pub returned-long :
      (attributes : AttributeMap) (serveur : Option String)
      → get_name_type env.ext attributes ≡ ok serveur
      → has_short (get_keys attributes) ≡ false
  returned-long attributes serveur e = elim (Bool-cases (has_short (get_keys attributes))) [
    | inl h ↦
        let f =
          subst (λ b. FailsIf b (get_name_type env.ext attributes)) h
            (get_name_type-FailsIf env.ext attributes) in
        cc
    | inr h ↦ h
  ]

  chosen-Reports :
      (span : Span) (t u : TransactionNudge)
      → Reports env span (choose_application env span.attributes t) u
      → Reports env span t u
  chosen-Reports span t u r = record {
    raised = r.raised;
    events = r.events;
    errors = r.errors ∙ ap (λ es. es ++ r.raised) (choose_application-errors span.attributes t);
    status = r.status;
  }

  -- The test of the server branch for HTTP requests.
  abbrev pub IsRequest : Span → Type 0
  IsRequest span =
      (has_prefix env span "http." ≡ true) × ((is_internal span.kind || span.parent_empty) ≡ true)

  span_branch-Reports :
      (instrument serveur : Option String) (span : Span) (raw : RawData) (t : TransactionNudge)
      → IsNamed span.attributes
      → IsRequest span
      → Ensures (λ q. Reports env span t q.1) (span_branch env instrument serveur span raw t)
  unfolding span_branch
  span_branch-Reports instrument serveur span raw t n h =
      let test : ((is_found serveur || has_prefix env span "http.")
            && (is_internal span.kind || span.parent_empty))
          ≡ true =
        ground (arith, h.0, h.1) in
      rw test (server_span-Reports env instrument serveur span raw t n)

  opened-IsRequest :
      (ts : List TransactionNudge) (span : Span) (f : Option (TransactionNudge × ℕ))
      → IsRequest span
      → IsRequest (opened_at env ts span f).span
  opened-IsRequest ts span none h = h
  opened-IsRequest ts span (some (t, i)) h = h

  -- When the translation of a span returns that is an HTTP request to a service, it has written one
  -- transaction of the buffer, that of the span's trace: the errors of the span's exception events
  -- follow those it had, and no error of the request is among them, whatever its HTTP status code
  -- is. The status is OK if the span names an error or has an error's message, and else KO if there
  -- was such an event.
  pub translate_span-Reports :
      (instrument : Option String) (tr : Translation) (span : Span)
      → IsRequest span
      → let o = open_transaction env tr.transactions (own env span) in
        Ensures
          (λ (q : Translation).
            (u : TransactionNudge) × (q.transactions ≡ set o.transactions o.index u)
            × Reports env o.span o.transaction u)
          (translate_span env instrument tr span)
  unfolding translate_span open_transaction
  translate_span-Reports instrument tr span request =
      let f = env.ext.find TransactionNudge tr.transactions (has_uuid (trace_of env span)) in
      let o = opened_at env tr.transactions (own env span) f in
      Ensures-then (λ serveur. get_name_type env.ext span.original ≡ ok serveur) _
        (Ensures-all _ (get_name_type env.ext span.original) (λ serveur e. e))
        (λ serveur e.
          let n =
            opened-IsNamed tr.transactions (own env span) f
              (long_keyed-IsNamed span.original (returned-long span.original serveur e)) in
          Ensures-then _ _
            (span_branch-Reports instrument serveur o.span tr.raw
              (choose_application env o.span.attributes o.transaction) n
              (opened-IsRequest tr.transactions (own env span) f request))
            (λ r k. returned (r.1, refl, chosen-Reports o.span o.transaction r.1 k)))
