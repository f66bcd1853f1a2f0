-- ===== src/Nudge/Translate/Returning.antt =====
-- Requests that the translation never panics on: spans of requests to a service without a name, whose
-- exceptions are complete and whose headers become no codes.
use opentelemetry_collector.Nudge.Translate.Reports.{opened-IsNamed, returned-long}
use opentelemetry_collector.Nudge.Translate.Steps.{trace_of, own}
use opentelemetry_collector.Nudge.Translate.Runs.{Run, spans_of, Runs, translate-Runs}
use opentelemetry_collector.Nudge.Translate.{
  span_branch, translate, translate_scopes, translate_span, translate_spans, Resource, Scope,
  Translation, has_prefix, is_internal,
}
use opentelemetry_collector.Nudge.Names.{get_name_type, get_instrument_type}
use opentelemetry_collector.Nudge.Spans.Outcome.{IsNamed, long_keyed-IsNamed, request_errors-none}
use opentelemetry_collector.Nudge.Spans.Server.{server_span, set_server, begin}
use opentelemetry_collector.Nudge.Spans.Failures.{event_error, event_errors}
use opentelemetry_collector.Nudge.Spans.Opening.{
  Environment, open_transaction, opened_at, has_uuid, choose_application,
}
use opentelemetry_collector.Nudge.Spans.{Event, Span}
use opentelemetry_collector.Nudge.Codes.{header_prefixes, add_all_headers}
use opentelemetry_collector.Nudge.Codes.Http.{
  add_all_extendedcodes, is_wanted, fixed_headers, fixed_attributes, header_code,
}
use opentelemetry_collector.Nudge.Model.{Transaction, TransactionNudge, RawData, KeyValue}
use opentelemetry_collector.Nudge.Attributes.{Attribute, AttributeMap, as_string, get, get_keys}
use opentelemetry_collector.Nudge.Result.{Returns, ok, Returns-bind, Ensures-ok}
use opentelemetry_collector.Prelude.{
  ℕ, String, false, true, ◌&&◌, ◌||◌, List, [], ◌∷◌, ◌++◌, Option, none, some, ◌==◌, ◌≡◌, refl, ap,
  All, Bool-cases, inl, inr,
}

abbrev pub IsGiven : Option Attribute → Type 0
IsGiven v = (a : Attribute) × (v ≡ some a)

-- An event that is no exception, or has its type, its message and its stack trace.
abbrev pub IsComplete : Event → Type 0
IsComplete e =
    (e.name == "exception") ≡ true
    → IsGiven (get e.attributes "exception.type")
      × IsGiven (get e.attributes "exception.message")
      × IsGiven (get e.attributes "exception.stacktrace")

as_string-Returns : (v : Option Attribute) → IsGiven v → Returns (as_string v)
as_string-Returns v (a, e) = (a.as_string, ap as_string e)

module _ (env : Environment) where
  event_error-Returns :
      (attributes : AttributeMap)
      → IsGiven (get attributes "exception.type")
      → IsGiven (get attributes "exception.message")
      → IsGiven (get attributes "exception.stacktrace")
      → Returns (event_error env attributes)
  unfolding event_error
  event_error-Returns attributes t m s =
      Returns-bind _ _ (as_string-Returns (get attributes "exception.type") t) (λ code.
        Returns-bind _ _ (as_string-Returns (get attributes "exception.message") m) (λ message.
          Returns-bind _ _ (as_string-Returns (get attributes "exception.stacktrace") s)
            (λ trace. (_, refl))))

  event_errors-Returns : (es : List Event) → All IsComplete es → Returns (event_errors env es)
  unfolding event_errors
  event_errors-Returns [] h = ([], refl)
  event_errors-Returns (e ∷ es) h =
      let rest = event_errors-Returns es h.1 in
      elim (Bool-cases (e.name == "exception")) [
        | inl y ↦
            let c = h.0 y in
            rw y (
              Returns-bind _ _ (event_error-Returns e.attributes c.0 c.1 c.2)
                (λ x. Returns-bind _ _ rest (λ xs. (x ∷ xs, refl))))
        | inr n ↦ rw n rest
      ]

  -- A key of an attribute that is none of a header, or that the filter of the configuration leaves
  -- out.
  abbrev pub IsLeftOut : String → Type 0
  IsLeftOut att =
      All
        (λ header.
          (env.ext.starts_with att header && is_wanted env.ext env.config.filter_header header)
          ≡ false)
        header_prefixes

  fixed_headers-Returns :
      (attributes : AttributeMap) (seen : List KeyValue) (att : String) (headers : List String)
      (codes : List KeyValue)
      → All
          (λ header.
            (env.ext.starts_with att header && is_wanted env.ext env.config.filter_header header)
            ≡ false)
          headers
      → Returns (fixed_headers env.ext env.config.filter_header attributes seen att headers codes)
  unfolding fixed_headers header_code
  fixed_headers-Returns attributes seen att [] codes n = (codes, refl)
  fixed_headers-Returns attributes seen att (header ∷ headers) codes n =
      rw n.0 (fixed_headers-Returns attributes seen att headers (codes ++ []) n.1)

  fixed_attributes-Returns :
      (attributes : AttributeMap) (seen : List KeyValue) (atts : List String)
      (codes : List KeyValue)
      → All IsLeftOut atts
      → Returns (fixed_attributes env.ext env.config.filter_header attributes seen atts codes)
  unfolding fixed_attributes
  fixed_attributes-Returns attributes seen [] codes n = (codes, refl)
  fixed_attributes-Returns attributes seen (att ∷ atts) codes n =
      Returns-bind _ _ (fixed_headers-Returns attributes seen att header_prefixes codes n.0)
        (λ codes'. fixed_attributes-Returns attributes seen atts codes' n.1)

  add_all_extendedcodes-Returns :
      (attributes : AttributeMap) (t : Transaction)
      → All IsLeftOut (get_keys attributes)
      → Returns (
          add_all_extendedcodes env.ext env.config.filter_header env.keys env.parse_agent attributes
            t)
  unfolding add_all_extendedcodes
  add_all_extendedcodes-Returns attributes t n =
      Returns-bind _ _ (fixed_attributes-Returns attributes _ (get_keys attributes) _ n)
        (λ codes. (_, refl))

  server_span-Returns :
      (instrument : Option String) (span : Span) (raw : RawData) (t : TransactionNudge)
      → All IsLeftOut (get_keys span.original)
      → IsNamed span.attributes
      → All IsComplete span.events
      → Returns (server_span env instrument none span raw t)
  unfolding server_span set_server
  server_span-Returns instrument span raw t n named events =
      Returns-bind _ _
        (add_all_extendedcodes-Returns span.original
          (add_all_headers env.ext span.original (begin span t).transaction) n)
        (λ coded.
          Returns-bind _ _ ([], request_errors-none env span named)
            (λ failed.
              Returns-bind _ _ (event_errors-Returns span.events events) (λ raised. (_, refl))))

  -- The span is that of a request, or of nothing that a branch is for, to a service without a name.
  abbrev pub IsSafe : Span → Type 0
  IsSafe span =
      (get_name_type env.ext span.original ≡ ok none)
      × All IsComplete span.events
      × ((is_internal span.kind || span.parent_empty) ≡ true)
      × ((has_prefix env span "db." || has_prefix env span "graphql.") ≡ false)
      × All IsLeftOut (get_keys span.original)

  span_branch-Returns :
      (instrument : Option String) (span : Span) (raw : RawData) (t : TransactionNudge)
      → IsNamed span.attributes
      → IsSafe span
      → Returns (span_branch env instrument none span raw t)
  unfolding span_branch
  span_branch-Returns instrument span raw t named p =
      elim (Bool-cases (has_prefix env span "http.")) [
        | inl h ↦ rw (h, p.2) (server_span-Returns instrument span raw t p.4 named p.1)
        | inr h ↦ rw (h, p.3) (_, refl)
      ]

  opened-IsSafe :
      (ts : List TransactionNudge) (span : Span) (f : Option (TransactionNudge × ℕ))
      → IsSafe span
      → IsSafe (opened_at env ts span f).span
  opened-IsSafe ts span none h = h
  opened-IsSafe ts span (some (t, i)) h = h

  translate_span-Returns :
      (instrument : Option String) (tr : Translation) (span : Span)
      → IsSafe span
      → Returns (translate_span env instrument tr span)
  unfolding translate_span open_transaction
  translate_span-Returns instrument tr span p =
      let f = env.ext.find TransactionNudge tr.transactions (has_uuid (trace_of env span)) in
      let o = opened_at env tr.transactions (own env span) f in
      let named =
        opened-IsNamed env tr.transactions (own env span) f
          (long_keyed-IsNamed span.original (returned-long env span.original none p.0)) in
      rw p.0 (
        Returns-bind _ _
          (span_branch-Returns instrument o.span tr.raw
            (choose_application env o.span.attributes o.transaction) named
            (opened-IsSafe tr.transactions (own env span) f p))
          (λ r. (_, refl)))

  translate_spans-Returns :
      (instrument : Option String) (spans : List Span) (tr : Translation)
      → All IsSafe spans
      → Returns (translate_spans env instrument spans tr)
  unfolding translate_spans
  translate_spans-Returns instrument [] tr p = (tr, refl)
  translate_spans-Returns instrument (span ∷ spans) tr p =
      Returns-bind _ _ (translate_span-Returns instrument tr span p.0)
        (λ tr'. translate_spans-Returns instrument spans tr' p.1)

  abbrev pub AreSafe : List Scope → Type 0
  AreSafe ss = All (λ (s : Scope). All IsSafe s.spans) ss

  translate_scopes-Returns :
      (ss : List Scope) (tr : Translation) → AreSafe ss → Returns (translate_scopes env ss tr)
  unfolding translate_scopes
  translate_scopes-Returns [] tr p = (tr, refl)
  translate_scopes-Returns (s ∷ ss) tr p =
      Returns-bind _ _ (translate_spans-Returns (get_instrument_type env.ext s.name) s.spans tr p.0)
        (λ tr'. translate_scopes-Returns ss tr' p.1)

  requests-Returns :
      (rs : List Resource) (tr : Translation)
      → All (λ (r : Resource). AreSafe r.scopes) rs
      → Returns (translate env rs tr)
  unfolding translate
  requests-Returns [] tr p = (tr, refl)
  requests-Returns (r ∷ rs) tr p =
      Returns-bind _ _ (translate_scopes-Returns r.scopes tr p.0)
        (λ tr'. requests-Returns rs tr' p.1)

  -- The translation returns on every request whose spans are all of internal kind or without a
  -- parent, such that GetNameType finds no service in their attributes, no attribute is one of a
  -- database request or of a header that the filter lets through, and every exception among their
  -- events has a type, a message and a stack trace, whatever the buffer and the raw data are. The
  -- buffer has then taken one step for each span.
  pub translate-returns :
      (rs : List Resource) (tr : Translation)
      → All (λ (r : Resource). AreSafe r.scopes) rs
      → (q : Translation) × (translate env rs tr ≡ ok q)
        × Run env (spans_of rs) tr.transactions q.transactions
  translate-returns rs tr p =
      let (q, e) = requests-Returns rs tr p in
      (q, e, Ensures-ok (Runs env (spans_of rs) tr) q e (translate-Runs env rs tr))
