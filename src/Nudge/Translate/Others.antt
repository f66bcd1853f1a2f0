-- ===== src/Nudge/Translate/Others.antt =====
-- What the translation of a request leaves alone in the buffer, and which application it gives the
-- transactions.
use opentelemetry_collector.Prelude.{
  String, Bool, true, false, List, [], ◌∷◌, ◌++◌, map, ◌==◌, ◌≡◌, refl, sym, ap, ◌∙◌, subst, inl,
  inr, arith, Bool-cases, eq_iff, any, append-nil,
}
use opentelemetry_collector.Nudge.Result.{Ensures, Ensures-imp}
use opentelemetry_collector.Nudge.Extension.{keep_if}
use opentelemetry_collector.Nudge.Model.{TransactionNudge}
use opentelemetry_collector.Nudge.Spans.{Span}
use opentelemetry_collector.Nudge.Spans.Opening.{Environment, has_uuid, text_of, opened_transaction}
use opentelemetry_collector.Nudge.Translate.{Translation, Resource, translate}
use opentelemetry_collector.Nudge.Translate.Steps.{
  Step, updated, created, IsUpdate, trace_of, application_of, opened_uuid,
}
use opentelemetry_collector.Nudge.Translate.Runs.{Run, done, next, Runs, spans_of, translate-Runs}
use opentelemetry_collector.Nudge.Push.Applications.{contains}

module _ {A : Type 0} (p : A → Bool) where
  keep_if-append : (xs ys : List A) → keep_if p (xs ++ ys) ≡ keep_if p xs ++ keep_if p ys
  unfolding keep_if
  keep_if-append [] ys = refl
  keep_if-append (x ∷ xs) ys = elim (Bool-cases (p x)) [
    | inl e ↦ rw (e, keep_if) (ap (λ l. x ∷ l) (keep_if-append xs ys))
    | inr e ↦ rw (e, keep_if) (keep_if-append xs ys)
  ]

  keep_if-none : (xs : List A) → any p xs ≡ false → keep_if p xs ≡ []
  unfolding keep_if
  keep_if-none [] h = refl
  keep_if-none (x ∷ xs) h = elim (Bool-cases (p x)) [
    | inl e ↦ absurd (ground arith)
    | inr e ↦ rw (e, keep_if) (keep_if-none xs (ground arith))
  ]

  keep_if-first :
      (xs : List A) (y : A) (zs : List A)
      → any p xs ≡ false
      → p y ≡ true
      → keep_if p (xs ++ y ∷ zs) ≡ y ∷ keep_if p zs
  unfolding keep_if
  keep_if-first xs y zs h e = keep_if-append xs (y ∷ zs) ∙ rw (keep_if-none xs h, e, keep_if) refl

  keep_if-skip :
      (xs : List A) (y : A) (zs : List A)
      → p y ≡ false
      → keep_if p (xs ++ y ∷ zs) ≡ keep_if p xs ++ keep_if p zs
  unfolding keep_if
  keep_if-skip xs y zs e = keep_if-append xs (y ∷ zs) ∙ rw (e, keep_if) refl

-- The first transaction of a trace belongs to an application.
abbrev pub BelongsTo : String → String → List TransactionNudge → Type 0
BelongsTo uuid application ts =
    (u : TransactionNudge) × (us : List TransactionNudge) × (keep_if (has_uuid uuid) ts ≡ u ∷ us)
    × (u.tag.application_id ≡ application)

module _ (env : Environment) where
  IsUpdate-uuid :
      (uuid : String) (span : Span) (t u : TransactionNudge)
      → IsUpdate env span t u
      → has_uuid uuid u ≡ has_uuid uuid t
  IsUpdate-uuid uuid span t u h = ap (λ s. text_of s == uuid) h.trace

  -- A transaction of one trace has no other.
  other_uuid :
      (uuid uuid' : String) (t : TransactionNudge)
      → (uuid' == uuid) ≡ false
      → has_uuid uuid' t ≡ true
      → has_uuid uuid t ≡ false
  other_uuid uuid uuid' t n h =
      subst (λ s. (s == uuid) ≡ false) (sym ((eq_iff (text_of t.transaction.uuid) uuid').0 h)) n

  Step-others :
      (uuid : String) (span : Span) (ts us : List TransactionNudge)
      → (trace_of env span == uuid) ≡ false
      → Step env span ts us
      → keep_if (has_uuid uuid) us ≡ keep_if (has_uuid uuid) ts
  unfolding keep_if
  Step-others uuid span _ _ n (updated before t u after m p h) =
      let q = other_uuid uuid (trace_of env span) t n p in
      keep_if-skip (has_uuid uuid) before u after (IsUpdate-uuid uuid span t u h ∙ q)
      ∙ sym (keep_if-skip (has_uuid uuid) before t after q)
  Step-others uuid span ts _ n (created _ u m h) =
      let q =
        other_uuid uuid (trace_of env span) (opened_transaction env (trace_of env span) span) n
          (opened_uuid env span) in
      keep_if-skip (has_uuid uuid) ts u []
        (IsUpdate-uuid uuid span (opened_transaction env (trace_of env span) span) u h ∙ q)
      ∙ append-nil (keep_if (has_uuid uuid) ts)

  Run-others :
      (uuid : String) (spans : List Span) (ts us : List TransactionNudge)
      → contains (map (trace_of env) spans) uuid ≡ false
      → Run env spans ts us
      → keep_if (has_uuid uuid) us ≡ keep_if (has_uuid uuid) ts
  Run-others uuid _ ts _ n done = refl
  Run-others uuid _ ts vs n (next {span} {spans} {us = us} s r) =
      Run-others uuid spans us vs (ground arith) r ∙ Step-others uuid span ts us (ground arith) s

  Step-application :
      (span : Span) (ts us : List TransactionNudge)
      → Step env span ts us
      → BelongsTo (trace_of env span) (application_of env span.original) us
  unfolding keep_if
  Step-application span _ _ (updated before t u after m p h) = (
    u,
    keep_if (has_uuid (trace_of env span)) after,
    keep_if-first (has_uuid (trace_of env span)) before u after m (IsUpdate-uuid _ span t u h ∙ p),
    h.application,
  )
  Step-application span ts _ (created _ u m h) = (
    u,
    [],
    keep_if-first (has_uuid (trace_of env span)) ts u [] m (
        IsUpdate-uuid _ span (opened_transaction env (trace_of env span) span) u h
        ∙ opened_uuid env span),
    h.application,
  )

  Run-application :
      (xs : List Span) (span : Span) (ys : List Span) (ts us : List TransactionNudge)
      → contains (map (trace_of env) ys) (trace_of env span) ≡ false
      → Run env (xs ++ span ∷ ys) ts us
      → BelongsTo (trace_of env span) (application_of env span.original) us
  Run-application [] span ys ts vs n (next {us = us} s r) =
      let (u, rest, e, a) = Step-application span ts us s in
      (u, rest, Run-others (trace_of env span) ys us vs n r ∙ e, a)
  Run-application (x ∷ xs) span ys ts vs n (next {us = us} s r) =
      Run-application xs span ys us vs n r

-- A request without a span of a trace leaves the transactions of that trace in the buffer as they
-- are and in their order, when its translation returns.
pub translate-others :
    (env : Environment) (rs : List Resource) (tr : Translation) (uuid : String)
    → contains (map (trace_of env) (spans_of rs)) uuid ≡ false
    → Ensures
        (λ (q : Translation).
          keep_if (has_uuid uuid) q.transactions ≡ keep_if (has_uuid uuid) tr.transactions)
        (translate env rs tr)
translate-others env rs tr uuid n =
    Ensures-imp (Runs env (spans_of rs) tr) _
      (λ q r. Run-others env uuid (spans_of rs) tr.transactions q.transactions n r)
      (translate-Runs env rs tr)

-- When the translation of a request returns, the transaction of a trace belongs to the application
-- of the last of its spans in the request: the one its attribute nudge_application_id names, or the
-- configured one, whatever the application was before.
pub translate-application :
    (env : Environment) (rs : List Resource) (tr : Translation) (xs : List Span) (span : Span)
    (ys : List Span)
    → spans_of rs ≡ xs ++ span ∷ ys
    → contains (map (trace_of env) ys) (trace_of env span) ≡ false
    → Ensures
        (λ (q : Translation).
          BelongsTo (trace_of env span) (application_of env span.original) q.transactions)
        (translate env rs tr)
translate-application env rs tr xs span ys e n =
    Ensures-imp (Runs env (spans_of rs) tr) _
      (λ q r.
        Run-application env xs span ys tr.transactions q.transactions n
          (subst (λ l. Run env l tr.transactions q.transactions) e r))
      (translate-Runs env rs tr)
