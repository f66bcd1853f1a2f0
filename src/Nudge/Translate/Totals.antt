-- ===== src/Nudge/Translate/Totals.antt =====
-- The layers of all buffered transactions through the translation of a request.
use opentelemetry_collector.Prelude.{
  ℕ, String, List, [], ◌∷◌, ◌++◌, Option, some, ◌≡◌, ◌≢◌, sym, subst, arith, All, length,
  All-append,
}
use opentelemetry_collector.Nudge.Result.{
  Result, ok, Ensures, Ensures-all, Ensures-bind, Ensures-then, Ensures-imp, returned, ◌>>=◌,
}
use opentelemetry_collector.Nudge.Attributes.{AttributeMap}
use opentelemetry_collector.Nudge.Model.{TransactionNudge, RawData}
use opentelemetry_collector.Nudge.Names.{get_name_type, get_instrument_type}
use opentelemetry_collector.Nudge.Layers.Totals.{IsTotalled}
use opentelemetry_collector.Nudge.Send.{set}
use opentelemetry_collector.Nudge.Spans.{Span}
use opentelemetry_collector.Nudge.Spans.Aggregates.{
  http_client_span-IsTotalled, database_span-IsTotalled,
}
use opentelemetry_collector.Nudge.Spans.Opening.{
  Environment, has_uuid, opened_transaction, opened_at, open_transaction, choose_application,
}
use opentelemetry_collector.Nudge.Spans.HttpClient.{http_client_span}
use opentelemetry_collector.Nudge.Spans.Database.{database_span}
use opentelemetry_collector.Nudge.Translate.{
  Translation, Scope, Resource, span_branch, translate_span, translate_spans, translate_scopes,
  translate,
}
use opentelemetry_collector.Nudge.Translate.Keeps.{server_span-Keeps}
use opentelemetry_collector.Nudge.Translate.Search.{Found, found, missing, find-Found, set-place}
use opentelemetry_collector.Nudge.Translate.Steps.{by_test, trace_of, own}

-- In each layer of a transaction the count and the time are the sums of those of its calls.
abbrev pub HasTotals : TransactionNudge → Type 0
HasTotals t = All IsTotalled t.transaction.layers

module _ {A : Type 0} (P : A → Type 0) where
  pub All-at : (xs : List A) (y : A) (zs : List A) → All P (xs ++ y ∷ zs) → P y
  All-at [] y zs h = h.0
  All-at (x ∷ xs) y zs h = All-at xs y zs h.1

  pub All-replace :
      (xs : List A) (y z : A) (zs : List A) → All P (xs ++ y ∷ zs) → P z → All P (xs ++ z ∷ zs)
  All-replace [] y z zs h p = (p, h.1)
  All-replace (x ∷ xs) y z zs h p = (h.0, All-replace xs y z zs h.1 p)

module _ (env : Environment) where
  abbrev Totals : RawData × TransactionNudge → Type 0
  Totals q = HasTotals q.1

  keep-HasTotals :
      (raw : RawData) (r : Result TransactionNudge)
      → Ensures HasTotals r
      → Ensures Totals (r >>= λ u. ok (raw, u))
  keep-HasTotals raw r h = Ensures-then HasTotals Totals h (λ u k. returned k)

  span_branch-HasTotals :
      (instrument serveur : Option String) (span : Span) (raw : RawData) (t : TransactionNudge)
      → instrument ≢ some "Graphql"
      → HasTotals t
      → Ensures Totals (span_branch env instrument serveur span raw t)
  unfolding span_branch
  span_branch-HasTotals instrument serveur span raw t g h =
      let http = http_client_span env.ext env.keys env.config.filter_header span t in
      let database =
        database_span env.ext env.keys env.config.send_user_connection_string instrument span t in
      by_test env Totals _ _ _
        (Ensures-imp _ Totals (λ q k. subst (All IsTotalled) (sym k.1) h)
          (server_span-Keeps env instrument serveur span raw t))
        (by_test env Totals _ _ _
          (keep-HasTotals raw http (
            Ensures-all HasTotals http (λ u e.
              http_client_span-IsTotalled env.ext env.keys env.config.filter_header span t u h e)))
          (by_test env Totals _ _ _
            (keep-HasTotals raw database (
              Ensures-all HasTotals database (λ u e.
                database_span-IsTotalled env.ext env.keys env.config.send_user_connection_string
                  instrument span t u g h e)))
            (returned h)))

  choose_application-HasTotals :
      (attributes : AttributeMap) (t : TransactionNudge)
      → HasTotals t
      → HasTotals (choose_application env attributes t)
  unfolding choose_application
  choose_application-HasTotals attributes t h = subst (All IsTotalled) (ground arith) h

  opened-HasTotals :
      (ts : List TransactionNudge) (span : Span) (f : Option (TransactionNudge × ℕ))
      → Found (has_uuid (trace_of env span)) 0 ts f
      → All HasTotals ts
      → let o = opened_at env ts span f in
        HasTotals o.transaction
        × ((u : TransactionNudge) → HasTotals u → All HasTotals (set o.transactions o.index u))
  unfolding opened_transaction
  opened-HasTotals ts span _ (found {i} before t after e j n p) h =
      let at : i ≡ length before = omega arith in
      let h' = subst (All HasTotals) e h in
      (
        All-at HasTotals before t after h',
        λ u k. rw (e, at, set-place before t u after) (All-replace HasTotals before t u after h' k),
      )
  opened-HasTotals ts span _ (missing n) h = (
    tt,
    λ u k.
        rw (set-place ts (opened_transaction env (trace_of env span) span) u [])
          (All-append HasTotals ts (u ∷ []) h (k, tt)),
  )

  abbrev Holds : Translation → Type 0
  Holds q = All HasTotals q.transactions

  translate_span-HasTotals :
      (instrument : Option String) (tr : Translation) (span : Span)
      → instrument ≢ some "Graphql"
      → Holds tr
      → Ensures Holds (translate_span env instrument tr span)
  unfolding translate_span open_transaction
  translate_span-HasTotals instrument tr span g h =
      let f = env.ext.find TransactionNudge tr.transactions (has_uuid (trace_of env span)) in
      let o = opened_at env tr.transactions (own env span) f in
      let (here, placed) =
        opened-HasTotals tr.transactions (own env span) f
          (find-Found env.ext (has_uuid (trace_of env span)) tr.transactions) h in
      Ensures-bind Holds (get_name_type env.ext span.original) _ (λ serveur.
        Ensures-then Totals Holds
          (span_branch-HasTotals instrument serveur o.span tr.raw
            (choose_application env o.span.attributes o.transaction) g
            (choose_application-HasTotals o.span.attributes o.transaction here))
          (λ r k. returned (placed r.1 k)))

  translate_spans-HasTotals :
      (instrument : Option String) (spans : List Span) (tr : Translation)
      → instrument ≢ some "Graphql"
      → Holds tr
      → Ensures Holds (translate_spans env instrument spans tr)
  unfolding translate_spans
  translate_spans-HasTotals instrument [] tr g h = returned h
  translate_spans-HasTotals instrument (span ∷ spans) tr g h =
      Ensures-then Holds Holds (translate_span-HasTotals instrument tr span g h)
        (λ q k. translate_spans-HasTotals instrument spans q g k)

  -- No scope of a resource is that of a GraphQL instrument.
  abbrev pub WithoutGraphql : Resource → Type 0
  WithoutGraphql r =
      All (λ (s : Scope). get_instrument_type env.ext s.name ≢ some "Graphql") r.scopes

  translate_scopes-HasTotals :
      (ss : List Scope) (tr : Translation)
      → All (λ (s : Scope). get_instrument_type env.ext s.name ≢ some "Graphql") ss
      → Holds tr
      → Ensures Holds (translate_scopes env ss tr)
  unfolding translate_scopes
  translate_scopes-HasTotals [] tr g h = returned h
  translate_scopes-HasTotals (s ∷ ss) tr g h =
      Ensures-then Holds Holds
        (translate_spans-HasTotals (get_instrument_type env.ext s.name) s.spans tr g.0 h)
        (λ q k. translate_scopes-HasTotals ss q g.1 k)

  -- If in every layer of every transaction of the buffer the count and the time are the sums of
  -- those of its calls, modulo 2 ^ 64, this holds when the translation of a request returns, in which
  -- no scope is that of a GraphQL instrument.
  pub translate-HasTotals :
      (rs : List Resource) (tr : Translation)
      → All WithoutGraphql rs
      → All HasTotals tr.transactions
      → Ensures (λ (q : Translation). All HasTotals q.transactions) (translate env rs tr)
  unfolding translate
  translate-HasTotals [] tr g h = returned h
  translate-HasTotals (r ∷ rs) tr g h =
      Ensures-then Holds Holds (translate_scopes-HasTotals r.scopes tr g.0 h)
        (λ q k. translate-HasTotals rs q g.1 k)
