-- ===== src/Nudge/Spans/Aggregates.antt =====
-- The aggregates of the layers under the two branches of the translation.
use opentelemetry_collector.Prelude.{
  String, Bool, true, false, List, Option, none, some, ◌≡◌, ◌≢◌, ap, All, ◌==◌, eq_iff, eqb,
  Bool-cases, inl, inr, subst,
}
use opentelemetry_collector.Nudge.Extension.{ExtensionLinux}
use opentelemetry_collector.Nudge.Result.{Result, ok, panic, ◌>>=◌}
use opentelemetry_collector.Nudge.Model.{Layer, LayerDetail, TransactionNudge}
use opentelemetry_collector.Nudge.Attributes.{get}
use opentelemetry_collector.Nudge.Send.{set}
use opentelemetry_collector.Nudge.Codes.{Semconv}
use opentelemetry_collector.Nudge.Layers.{new_layer, open_layer, add_error, close_layer}
use opentelemetry_collector.Nudge.Layers.Totals.{
  IsTotalled, set-All, open_layer-All, new_layer-IsTotalled, add_error-IsTotalled,
  close_layer-IsTotalled, IsNotPositive, new_layer-IsNotPositive, add_error-IsNotPositive,
  close_layer-IsNotPositive,
}
use opentelemetry_collector.Nudge.Spans.{Span, new_detail, finish, optional_text}
use opentelemetry_collector.Nudge.Spans.HttpClient.{
  http_client_span, http_failed, http_error, http_codes,
}
use opentelemetry_collector.Nudge.Spans.Database.{database_span, instrument_codes}

-- The branches only touch layers by opening, marking and closing them.
module _ (P : Layer → Type 0) (new : (name : String) → P (new_layer name))
    (err : (l : Layer) → P l → P (add_error l))
    (close : (d : LayerDetail) (l : Layer) → P l → P (close_layer d l)) where
  -- The layers of what a branch returns.
  abbrev LayersAre : Result TransactionNudge → Type 0
  LayersAre (panic f) = Unit {0}
  LayersAre (ok t) = All P t.transaction.layers

  bind-LayersAre :
      {A : Type 0} (r : Result A) (f : A → Result TransactionNudge)
      → ((a : A) → LayersAre (f a))
      → LayersAre (r >>= f)
  bind-LayersAre (panic e) f h = tt
  bind-LayersAre (ok a) f h = h a

  ok-LayersAre :
      (r : Result TransactionNudge) (t : TransactionNudge)
      → r ≡ ok t
      → LayersAre r
      → All P t.transaction.layers
  ok-LayersAre r t e h = subst LayersAre e h

  finish-All :
      (b : Bool) (code : Option String) (t : TransactionNudge)
      → All P t.transaction.layers
      → All P (finish b code t).transaction.layers
  finish-All true code t h = h
  finish-All false code t h = h

  module _ (ext : ExtensionLinux) where
    opened-All :
        (ls : List Layer) (name : String)
        → All P ls
        → All P (open_layer ext ls name).0 × P (open_layer ext ls name).1.0
    opened-All ls name h = open_layer-All P ext ls name h (new name)

    -- The layers with the opened one closed, with or without an error.
    closed-All :
        (ls : List Layer) (name : String) (d : LayerDetail)
        → All P ls
        → let opened = open_layer ext ls name in
          All P (set opened.0 opened.1.1 (close_layer d opened.1.0))
          × All P (set opened.0 opened.1.1 (close_layer d (add_error opened.1.0)))
    closed-All ls name d h =
        let o = opened-All ls name h in
        (set-All P _ _ _ (o.0) (close d _ (o.1)), set-All P _ _ _ (o.0) (close d _ (err _ (o.1))))

    module _ (keys : Semconv) where
      http_client_span-All :
          (filter_header : List String) (span : Span) (t t' : TransactionNudge)
          → All P t.transaction.layers
          → http_client_span ext keys filter_header span t ≡ ok t'
          → All P t'.transaction.layers
      unfolding http_client_span
      http_client_span-All filter_header span t t' h e = ok-LayersAre _ t' e layers
        where
          finished :
              All P
                (finish span.parent_empty
                  (optional_text (get span.attributes keys.http_route_key))
                  t).transaction.layers
          finished = finish-All span.parent_empty _ t h

          layers : LayersAre (http_client_span ext keys filter_header span t)
          layers = elim (Bool-cases (http_failed ext keys span)) [
            | inl f ↦
                rw (f, http_client_span)
                  (bind-LayersAre (http_error ext keys span) _ (λ e'.
                    bind-LayersAre
                      (http_codes ext keys filter_header span (
                        new_detail span (some 1)
                          (optional_text (get span.attributes keys.http_url_key))))
                      _ (λ d. (closed-All _ "HTTP" d finished).1)))
            | inr f ↦
                rw (f, http_client_span)
                  (bind-LayersAre
                    (http_codes ext keys filter_header span (
                      new_detail span (some 0)
                        (optional_text (get span.attributes keys.http_url_key))))
                    _ (λ d. (closed-All _ "HTTP" d finished).0))
          ]

      -- Only a GraphQL request appends its call before the end of the branch.
      appended_once :
          (send_user : Bool) (instrument : Option String) (span : Span) (d : LayerDetail)
          (f : LayerDetail × Bool → Result TransactionNudge)
          → instrument ≢ some "Graphql"
          → ((d' : LayerDetail) → LayersAre (f (d', false)))
          → LayersAre (instrument_codes ext keys send_user instrument span.attributes d >>= f)
      unfolding instrument_codes
      appended_once send_user none span d f n h = h d
      appended_once send_user (some i) span d f n h = elim (Bool-cases (i == "Graphql")) [
        | inl e ↦ absurd (n (ap some ((eq_iff i "Graphql").0 e)))
        | inr e ↦ rw (e, instrument_codes) (h _)
      ]

      database_span-All :
          (send_user : Bool) (instrument : Option String) (span : Span) (t t' : TransactionNudge)
          → instrument ≢ some "Graphql"
          → All P t.transaction.layers
          → database_span ext keys send_user instrument span t ≡ ok t'
          → All P t'.transaction.layers
      unfolding database_span
      database_span-All send_user instrument span t t' n h e = ok-LayersAre _ t' e layers
        where
          finished : All P (finish span.parent_empty (some span.name) t).transaction.layers
          finished = finish-All span.parent_empty (some span.name) t h

          layers : LayersAre (database_span ext keys send_user instrument span t)
          layers = elim (Bool-cases (eqb span.status_code 2)) [
            | inl f ↦
                rw (f, database_span)
                  (bind-LayersAre _ _ (λ e'.
                    appended_once send_user instrument span _ _ n
                      (λ d. (closed-All _ "SQL" d finished).1)))
            | inr f ↦
                rw (f, database_span)
                  (appended_once send_user instrument span _ _ n
                    (λ d. (closed-All _ "SQL" d finished).0))
          ]

module _ (ext : ExtensionLinux) (keys : Semconv) where
  -- If the count and the time of each layer of a transaction are the sums of those of its calls,
  -- modulo 2 ^ 64, they still are when the branch of HTTP calls has added a span to it.
  pub http_client_span-IsTotalled :
      (filter_header : List String) (span : Span) (t t' : TransactionNudge)
      → All IsTotalled t.transaction.layers
      → http_client_span ext keys filter_header span t ≡ ok t'
      → All IsTotalled t'.transaction.layers
  http_client_span-IsTotalled =
      http_client_span-All IsTotalled new_layer-IsTotalled add_error-IsTotalled
        close_layer-IsTotalled ext keys

  -- If the count and the time of each layer of a transaction are the sums of those of its calls,
  -- modulo 2 ^ 64, they still are when the branch of database requests has added a span to it, for
  -- every instrument but Graphql.
  pub database_span-IsTotalled :
      (send_user : Bool) (instrument : Option String) (span : Span) (t t' : TransactionNudge)
      → instrument ≢ some "Graphql"
      → All IsTotalled t.transaction.layers
      → database_span ext keys send_user instrument span t ≡ ok t'
      → All IsTotalled t'.transaction.layers
  database_span-IsTotalled =
      database_span-All IsTotalled new_layer-IsTotalled add_error-IsTotalled close_layer-IsTotalled
        ext keys

  -- A defect: the minimum of a layer is never positive. If no layer of a transaction has a positive
  -- minimum, none has one when the branch of HTTP calls has added a span of any duration.
  pub http_client_span-IsNotPositive :
      (filter_header : List String) (span : Span) (t t' : TransactionNudge)
      → All IsNotPositive t.transaction.layers
      → http_client_span ext keys filter_header span t ≡ ok t'
      → All IsNotPositive t'.transaction.layers
  http_client_span-IsNotPositive =
      http_client_span-All IsNotPositive new_layer-IsNotPositive add_error-IsNotPositive
        close_layer-IsNotPositive ext keys
