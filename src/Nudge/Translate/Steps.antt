-- ===== src/Nudge/Translate/Steps.antt =====
-- One span of a request as a step on the buffer: a relation that says what the translation does to
-- the transactions, whatever the branch.
use opentelemetry_collector.Nudge.Semantics.{semantic_attributes_x, semantic_attributes_x-uuid}
use opentelemetry_collector.Prelude.{
  ℕ, String, Bool, true, false, List, [], ◌∷◌, ◌++◌, Option, none, some, ◌==◌, if◌then◌else◌, ◌≡◌,
  refl, sym, ap, ◌∙◌, subst, ◌⊎◌, inl, inr, arith, Bool-cases, Option-cases, eq_iff, length, any,
  eq_refl,
}
use opentelemetry_collector.Nudge.Result.{
  Result, ok, ◌>>=◌, Ensures, Ensures-bind, Ensures-then, returned, Ensures-imp,
}
use opentelemetry_collector.Nudge.Attributes.{AttributeMap, get}
use opentelemetry_collector.Nudge.Model.{TransactionNudge, RawData}
use opentelemetry_collector.Nudge.Names.{get_name_type}
use opentelemetry_collector.Nudge.Spans.{Span}
use opentelemetry_collector.Nudge.Spans.Opening.{
  Environment, has_uuid, opened_transaction, choose_application, put_str, opened_at,
}
use opentelemetry_collector.Nudge.Translate.{Translation, span_branch, translate_span, set}
use opentelemetry_collector.Nudge.Translate.Keeps.{
  Keeps, ends_trace, root-Keeps, server_span-Keeps, http_client_span-Keeps, database_span-Keeps,
}
use opentelemetry_collector.Nudge.Translate.Search.{Found, found, missing, find-Found, set-place}

-- The application that a span is for: what its attribute names, or the configured one.
abbrev pub application_of : Environment → AttributeMap → String
application_of env attributes = elim (get attributes "nudge_application_id") [
  | some v ↦ v.as_string
  | none ↦ env.config.app_id
]

-- What a span makes of the transaction of its trace.
pub record IsUpdate (env : Environment) (span : Span) (t u : TransactionNudge) : Type 0 where
  pub trace : u.transaction.uuid ≡ t.transaction.uuid
  pub application : u.tag.application_id ≡ application_of env span.original
  pub mark : ((ends_trace env span ≡ true) × (u.tag.urlid ≡ 0)) ⊎ (u.tag.urlid ≡ t.tag.urlid)

-- The trace of a span, as the transactions name it.
abbrev pub trace_of : Environment → Span → String
trace_of env span = env.uuid_of span.trace_id

-- The buffers before and after a span.
pub data Step (env : Environment) (span : Span)
    : List TransactionNudge → List TransactionNudge → Type 0 where
  updated :
      (before : List TransactionNudge) (t u : TransactionNudge) (after : List TransactionNudge)
      → any (has_uuid (trace_of env span)) before ≡ false
      → has_uuid (trace_of env span) t ≡ true
      → IsUpdate env span t u
      → Step env span (before ++ t ∷ after) (before ++ u ∷ after)
  created :
      (ts : List TransactionNudge) (u : TransactionNudge)
      → any (has_uuid (trace_of env span)) ts ≡ false
      → IsUpdate env span (opened_transaction env (trace_of env span) span) u
      → Step env span ts (ts ++ u ∷ [])

module _ (env : Environment) where
  keep-Keeps :
      (span : Span) (raw : RawData) (t : TransactionNudge) (r : Result TransactionNudge)
      → Ensures (Keeps span.parent_empty t) r
      → Ensures
          (λ (q : RawData × TransactionNudge). Keeps (ends_trace env span) t q.1)
          (r >>= λ u. ok (raw, u))
  keep-Keeps span raw t r h =
      Ensures-then (Keeps span.parent_empty t)
        (λ (q : RawData × TransactionNudge). Keeps (ends_trace env span) t q.1) h
        (λ u k. returned (root-Keeps env span t u k))

  module _ (P : RawData × TransactionNudge → Type 0) where
    pub by_test :
        (b : Bool) (r s : Result (RawData × TransactionNudge))
        → Ensures P r
        → Ensures P s
        → Ensures P (if b then r else s)
    by_test true r s h k = h
    by_test false r s h k = k

  span_branch-Keeps :
      (instrument serveur : Option String) (span : Span) (raw : RawData) (t : TransactionNudge)
      → Ensures
          (λ q. Keeps (ends_trace env span) t q.1)
          (span_branch env instrument serveur span raw t)
  unfolding span_branch
  span_branch-Keeps instrument serveur span raw t =
      let P : RawData × TransactionNudge → Type 0 = λ q. Keeps (ends_trace env span) t q.1 in
      by_test P _ _ _
        (Ensures-imp _ P (λ q h. h.0) (server_span-Keeps env instrument serveur span raw t))
        (by_test P _ _ _
          (keep-Keeps span raw t _
            (http_client_span-Keeps env.ext env.keys env.config.filter_header span t))
          (by_test P _ _ _
            (keep-Keeps span raw t _ (
              database_span-Keeps env.ext env.keys env.config.send_user_connection_string instrument
                span t))
            (returned (record { trace = refl; application = refl; mark = inr refl }))))

  choose_application-uuid :
      (attributes : AttributeMap) (t : TransactionNudge)
      → ((choose_application env attributes t).transaction.uuid ≡ t.transaction.uuid)
        × ((choose_application env attributes t).tag.urlid ≡ t.tag.urlid)
  unfolding choose_application
  choose_application-uuid attributes t = ground arith

  choose_application-application :
      (attributes : AttributeMap) (t : TransactionNudge)
      → (choose_application env attributes t).tag.application_id ≡ application_of env attributes
  unfolding choose_application
  choose_application-application attributes t =
      elim (Option-cases (get attributes "nudge_application_id")) [
        | inl e ↦
            rw (e, choose_application)
              (ground (arith, eq_iff t.tag.application_id env.config.app_id))
        | inr (v, e) ↦
            rw (e, choose_application) (ground (arith, eq_iff t.tag.application_id v.as_string))
      ]

  pub put_str-get :
      (m : AttributeMap) (key key' s : String)
      → (key == key') ≡ false
      → get (put_str m key s) key' ≡ get m key'
  unfolding get put_str
  put_str-get [] key key' s h = rw h refl
  put_str-get ((k, v) ∷ m) key key' s h = elim (Bool-cases (k == key)) [
    | inl e ↦ rw (e, subst (λ l. (l == key') ≡ false) (sym ((eq_iff k key).0 e)) h) refl
    | inr e ↦ rw e (ap (λ r. if k == key' then some v else r) (put_str-get m key key' s h))
  ]

  pub opened_uuid :
      (span : Span)
      → has_uuid (trace_of env span) (opened_transaction env (trace_of env span) span) ≡ true
  unfolding opened_transaction
  opened_uuid span = ground (arith, eq_refl (trace_of env span))

  -- The update that follows the choice of the application.
  chosen :
      (span : Span) (attributes : AttributeMap) (t u : TransactionNudge)
      → application_of env attributes ≡ application_of env span.original
      → Keeps (ends_trace env span) (choose_application env attributes t) u
      → IsUpdate env span t u
  chosen span attributes t u a k =
      let (trace, mark) = choose_application-uuid attributes t in
      record {
        trace = k.trace ∙ trace;
        application = k.application ∙ choose_application-application attributes t ∙ a;
        mark = elim k.mark [ inl e ↦ inl e | inr e ↦ inr (e ∙ mark) ];
      }

  -- A span as the loop hands it on, with its own attributes.
  abbrev pub own : Span → Span
  own span = record span { attributes = span.original }

  opened-ends :
      (ts : List TransactionNudge) (span : Span) (f : Option (TransactionNudge × ℕ))
      → ends_trace env (opened_at env ts (own span) f).span ≡ ends_trace env span
  opened-ends ts span none = refl
  opened-ends ts span (some (t, i)) = refl

  opened-Step :
      (ts : List TransactionNudge) (span : Span) (f : Option (TransactionNudge × ℕ))
      → Found (has_uuid (trace_of env span)) 0 ts f
      → (u : TransactionNudge)
      → let o = opened_at env ts (own span) f in
        Keeps (ends_trace env span) (choose_application env o.span.attributes o.transaction) u
        → Step env span ts (set o.transactions o.index u)
  unfolding opened_transaction
  opened-Step ts span _ (found {i} before t after e j n p) u k =
      let at : i ≡ length before = omega arith in
      rw (e, at, set-place before t u after)
        (updated before t u after n p (chosen span span.original t u refl k))
  opened-Step ts span _ (missing n) u k =
      rw (set-place ts (opened_transaction env (trace_of env span) span) u []) (
        created ts u n (
          chosen span _ (opened_transaction env (trace_of env span) span) u
            (ap (λ r. elim r [ some v ↦ v.as_string | none ↦ env.config.app_id ])
              (put_str-get span.original (semantic_attributes_x "UUID") "nudge_application_id"
                (trace_of env span) semantic_attributes_x-uuid))
            k))

  -- Translating a span is a step.
  pub translate_span-Step :
      (instrument : Option String) (tr : Translation) (span : Span)
      → Ensures
          (λ (q : Translation). Step env span tr.transactions q.transactions)
          (translate_span env instrument tr span)
  unfolding translate_span
  translate_span-Step instrument tr span =
      let f = env.ext.find TransactionNudge tr.transactions (has_uuid (trace_of env span)) in
      let o = opened_at env tr.transactions (own span) f in
      Ensures-bind _ (get_name_type env.ext span.original) _ (λ serveur.
        Ensures-then
          (λ (q : RawData × TransactionNudge).
            Keeps (ends_trace env span) (choose_application env o.span.attributes o.transaction)
              q.1)
          _
          (Ensures-imp _ _
            (λ (q : RawData × TransactionNudge) k.
              subst (λ b. Keeps b (choose_application env o.span.attributes o.transaction) q.1)
                (opened-ends tr.transactions span f) k)
            (span_branch-Keeps instrument serveur o.span tr.raw
              (choose_application env o.span.attributes o.transaction)))
          (λ r k. returned (
            opened-Step tr.transactions span f
              (find-Found env.ext (has_uuid (trace_of env span)) tr.transactions) r.1 k)))
