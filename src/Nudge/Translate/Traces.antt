-- ===== src/Nudge/Translate/Traces.antt =====
-- The traces of the buffered transactions, through the translation of a request.
use opentelemetry_collector.Prelude.{
  String, Bool, true, ◌||◌, List, [], ◌∷◌, ◌++◌, map, if◌then◌else◌, ◌≡◌, refl, sym, ap, ◌∙◌, subst,
  inl, inr, arith, Bool-cases, any,
}
use opentelemetry_collector.Nudge.Result.{Ensures, Ensures-imp}
use opentelemetry_collector.Nudge.Model.{TransactionNudge}
use opentelemetry_collector.Nudge.Spans.{Span}
use opentelemetry_collector.Nudge.Spans.Opening.{Environment, has_uuid, text_of, opened_transaction}
use opentelemetry_collector.Nudge.Translate.{Translation, Resource, translate}
use opentelemetry_collector.Nudge.Translate.Steps.{Step, updated, created, trace_of}
use opentelemetry_collector.Nudge.Translate.Runs.{Run, done, next, Runs, spans_of, translate-Runs}
use opentelemetry_collector.Nudge.Push.Applications.{contains, distinct, distinct-snoc}

-- GetUuid of a buffered transaction
abbrev pub uuid_text : TransactionNudge → String
uuid_text t = text_of t.transaction.uuid

-- The names of traces, each at its first place.
abbrev pub add_names : List String → List String → List String
add_names names [] = names
add_names names (x ∷ xs) = add_names (if contains names x then names else names ++ x ∷ []) xs

contains-uuids :
    (uuid : String) (ts : List TransactionNudge)
    → contains (map uuid_text ts) uuid ≡ any (has_uuid uuid) ts
contains-uuids uuid [] = refl
contains-uuids uuid (t ∷ ts) = ap (λ b. has_uuid uuid t || b) (contains-uuids uuid ts)

map-append :
    (f : TransactionNudge → String) (ts us : List TransactionNudge)
    → map f (ts ++ us) ≡ map f ts ++ map f us
map-append f [] us = refl
map-append f (t ∷ ts) us = ap (λ l. f t ∷ l) (map-append f ts us)

any-middle :
    {A : Type 0} (p : A → Bool) (before : List A) (x : A) (after : List A)
    → p x ≡ true
    → any p (before ++ x ∷ after) ≡ true
any-middle p [] x after h = ground arith
any-middle p (y ∷ before) x after h = ground (arith, any-middle p before x after h)

module _ (env : Environment) where
  Step-names :
      (span : Span) (ts us : List TransactionNudge)
      → Step env span ts us
      → map uuid_text us ≡ (
          if contains (map uuid_text ts) (trace_of env span)
          then map uuid_text ts
          else map uuid_text ts ++ trace_of env span ∷ [])
  unfolding opened_transaction
  Step-names span _ _ (updated before t u after n p h) =
      rw
        (
          contains-uuids (trace_of env span) (before ++ t ∷ after),
          any-middle (has_uuid (trace_of env span)) before t after p,
          map-append uuid_text before (u ∷ after),
          map-append uuid_text before (t ∷ after),
          h.trace,
        )
        refl
  Step-names span ts _ (created _ u n h) =
      rw (contains-uuids (trace_of env span) ts, n, map-append uuid_text ts (u ∷ []), h.trace) refl

  Run-names :
      (spans : List Span) (ts us : List TransactionNudge)
      → Run env spans ts us
      → map uuid_text us ≡ add_names (map uuid_text ts) (map (trace_of env) spans)
  Run-names _ ts _ done = refl
  Run-names _ ts vs (next {span} {spans} {us = us} s r) =
      Run-names spans us vs r
      ∙ ap (λ ns. add_names ns (map (trace_of env) spans)) (Step-names span ts us s)

add_names-distinct :
    (names xs : List String) → distinct names ≡ true → distinct (add_names names xs) ≡ true
add_names-distinct names [] h = h
add_names-distinct names (x ∷ xs) h = elim (Bool-cases (contains names x)) [
  | inl e ↦ rw e (add_names-distinct names xs h)
  | inr e ↦ rw e (add_names-distinct (names ++ x ∷ []) xs (distinct-snoc names x h e))
]

-- When the translation of a request returns, the traces of the buffer are those before, in their
-- order, followed by the new traces of the request, each once and in the order of their first
-- spans.
pub translate-names :
    (env : Environment) (rs : List Resource) (tr : Translation)
    → Ensures
        (λ (q : Translation).
          map uuid_text q.transactions
          ≡ add_names (map uuid_text tr.transactions) (map (trace_of env) (spans_of rs)))
        (translate env rs tr)
translate-names env rs tr =
    Ensures-imp (Runs env (spans_of rs) tr) _
      (λ q r. Run-names env (spans_of rs) tr.transactions q.transactions r)
      (translate-Runs env rs tr)

-- If no trace has two transactions in the buffer, none has two when the translation of a request
-- returns.
pub translate-distinct :
    (env : Environment) (rs : List Resource) (tr : Translation)
    → distinct (map uuid_text tr.transactions) ≡ true
    → Ensures
        (λ (q : Translation). distinct (map uuid_text q.transactions) ≡ true)
        (translate env rs tr)
translate-distinct env rs tr d =
    Ensures-imp _ _
      (λ q names.
        subst (λ ns. distinct ns ≡ true) (sym names)
          (add_names-distinct (map uuid_text tr.transactions) (map (trace_of env) (spans_of rs)) d))
      (translate-names env rs tr)
