-- ===== src/Nudge/Translate/Runs.antt =====
-- What the translation of a request does to the buffer: a run of steps, one for each span, and what
-- holds after it.
use opentelemetry_collector.Prelude.{String, List, [], ◌∷◌, ◌++◌, Option}
use opentelemetry_collector.Prelude.{concat_map}
use opentelemetry_collector.Nudge.Result.{Ensures, Ensures-then, Ensures-imp, returned}
use opentelemetry_collector.Nudge.Model.{TransactionNudge}
use opentelemetry_collector.Nudge.Names.{get_instrument_type}
use opentelemetry_collector.Nudge.Spans.{Span}
use opentelemetry_collector.Nudge.Spans.Opening.{Environment}
use opentelemetry_collector.Nudge.Translate.{
  Translation, Scope, Resource, translate_spans, translate_scopes, translate,
}
use opentelemetry_collector.Nudge.Translate.Steps.{Step, translate_span-Step}

-- The spans of a request, in the order of its resources and scopes.
abbrev pub spans_of : List Resource → List Span
spans_of rs = concat_map (λ (r : Resource). concat_map (λ (s : Scope). s.spans) r.scopes) rs

-- A step for each span.
pub data Run (env : Environment)
    : List Span → List TransactionNudge → List TransactionNudge → Type 0 where
  done : {ts : List TransactionNudge} → Run env [] ts ts
  next :
      {span : Span} {spans : List Span} {ts us vs : List TransactionNudge}
      → Step env span ts us
      → Run env spans us vs
      → Run env (span ∷ spans) ts vs

module _ {env : Environment} where
  Run-append :
      {xs ys : List Span} {ts us vs : List TransactionNudge}
      → Run env xs ts us
      → Run env ys us vs
      → Run env (xs ++ ys) ts vs
  Run-append done r = r
  Run-append (next s q) r = next s (Run-append q r)

abbrev pub Runs : Environment → List Span → Translation → Translation → Type 0
Runs env spans tr q = Run env spans tr.transactions q.transactions

module _ (env : Environment) where
  translate_spans-Runs :
      (instrument : Option String) (spans : List Span) (tr : Translation)
      → Ensures (Runs env spans tr) (translate_spans env instrument spans tr)
  unfolding translate_spans
  translate_spans-Runs instrument [] tr = returned done
  translate_spans-Runs instrument (span ∷ spans) tr =
      Ensures-then (λ (q : Translation). Step env span tr.transactions q.transactions)
        (Runs env (span ∷ spans) tr) (translate_span-Step env instrument tr span)
        (λ q s.
          Ensures-imp (Runs env spans q) (Runs env (span ∷ spans) tr) (λ r k. next s k)
            (translate_spans-Runs instrument spans q))

  translate_scopes-Runs :
      (ss : List Scope) (tr : Translation)
      → Ensures (Runs env (concat_map (λ (s : Scope). s.spans) ss) tr) (translate_scopes env ss tr)
  unfolding translate_scopes
  translate_scopes-Runs [] tr = returned done
  translate_scopes-Runs (s ∷ ss) tr =
      Ensures-then (Runs env s.spans tr) _
        (translate_spans-Runs (get_instrument_type env.ext s.name) s.spans tr)
        (λ q k.
          Ensures-imp (Runs env (concat_map (λ (s : Scope). s.spans) ss) q) _
            (λ r h. Run-append k h) (translate_scopes-Runs ss q))

  -- When the translation of a request returns, the buffer has taken one step for each span of the
  -- request, in the order of resources, scopes and spans: a step updates the first transaction of
  -- the span's trace, or appends one if there is none, and leaves all others as they are.
  pub translate-Runs :
      (rs : List Resource) (tr : Translation)
      → Ensures (Runs env (spans_of rs) tr) (translate env rs tr)
  unfolding translate
  translate-Runs [] tr = returned done
  translate-Runs (r ∷ rs) tr =
      Ensures-then (Runs env (concat_map (λ (s : Scope). s.spans) r.scopes) tr) _
        (translate_scopes-Runs r.scopes tr)
        (λ q k.
          Ensures-imp (Runs env (spans_of rs) q) _ (λ u h. Run-append k h) (translate-Runs rs q))
