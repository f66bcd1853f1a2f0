-- ===== src/Nudge/Translate/Marks.antt =====
-- The marks of the buffered transactions, and the pass of `SendTransactions` after the translation
-- of a request.
use opentelemetry_collector.Prelude.{
  ℕ, ◌+◌, String, List, [], ◌∷◌, ◌++◌, map, some, ◌≡◌, refl, ◌∙◌, subst, ◌⊎◌, inl, inr, All,
  Bool-cases, All-append,
}
use mathlib.Core.List.{Perm}
use opentelemetry_collector.Nudge.Result.{ok, Ensures, Ensures-imp, Ensures-ok}
use opentelemetry_collector.Nudge.Extension.{ExtensionLinux}
use opentelemetry_collector.Nudge.Model.{TransactionNudge, RawData}
use opentelemetry_collector.Nudge.Spans.{Span}
use opentelemetry_collector.Nudge.Spans.Opening.{Environment, opened_transaction}
use opentelemetry_collector.Nudge.Translate.{Translation, Resource, translate}
use opentelemetry_collector.Nudge.Translate.Steps.{Step, updated, created, IsUpdate, trace_of}
use opentelemetry_collector.Nudge.Translate.Runs.{Run, done, next, Runs, spans_of, translate-Runs}
use opentelemetry_collector.Nudge.Send.{
  Loop, send_transactions, verdict, publish_errors, is_of_app, keep, send, has_timed_out,
}
use opentelemetry_collector.Nudge.Send.Partition.{dropped, identity, send_transactions-perm}

-- A transaction that is finished or waits.
abbrev pub IsPending : TransactionNudge → Type 0
IsPending t = (t.tag.urlid ≡ 0) ⊎ (t.tag.urlid ≡ 1)

module _ {A : Type 0} (P : A → Type 0) where
  pub All-middle :
      (xs : List A) (y z : A) (zs : List A)
      → (P y → P z)
      → All P (xs ++ y ∷ zs)
      → All P (xs ++ z ∷ zs)
  All-middle [] y z zs f h = (f h.0, h.1)
  All-middle (x ∷ xs) y z zs f h = (h.0, All-middle xs y z zs f h.1)

IsUpdate-IsPending :
    (env : Environment) (span : Span) (t u : TransactionNudge)
    → IsUpdate env span t u
    → IsPending t
    → IsPending u
IsUpdate-IsPending env span t u h p = elim h.mark [
  | inl e ↦ inl e.1
  | inr e ↦ elim p [ inl q ↦ inl (e ∙ q) | inr q ↦ inr (e ∙ q) ]
]

Step-IsPending :
    (env : Environment) (span : Span) (ts us : List TransactionNudge)
    → Step env span ts us
    → All IsPending ts
    → All IsPending us
unfolding opened_transaction
Step-IsPending env span _ _ (updated before t u after m p h) k =
    All-middle IsPending before t u after (IsUpdate-IsPending env span t u h) k
Step-IsPending env span ts _ (created _ u m h) k = All-append IsPending ts (u ∷ []) k (
  IsUpdate-IsPending env span (opened_transaction env (trace_of env span) span) u h (inr refl),
  tt,
)

Run-IsPending :
    (env : Environment) (spans : List Span) (ts us : List TransactionNudge)
    → Run env spans ts us
    → All IsPending ts
    → All IsPending us
Run-IsPending env _ ts _ done k = k
Run-IsPending env _ ts vs (next {span} {spans} {us = us} s r) k =
    Run-IsPending env spans us vs r (Step-IsPending env span ts us s k)

-- If every transaction of the buffer is marked as finished or as waiting, so is every one when the
-- translation of a request returns: the mark for discarding is never set.
pub translate-IsPending :
    (env : Environment) (rs : List Resource) (tr : Translation)
    → All IsPending tr.transactions
    → Ensures (λ (q : Translation). All IsPending q.transactions) (translate env rs tr)
translate-IsPending env rs tr k =
    Ensures-imp (Runs env (spans_of rs) tr) _
      (λ q r. Run-IsPending env (spans_of rs) tr.transactions q.transactions r k)
      (translate-Runs env rs tr)

pending-verdict :
    (timeout now : ℕ) (t : TransactionNudge)
    → IsPending t
    → (verdict timeout now (publish_errors t) ≡ keep)
      ⊎ (verdict timeout now (publish_errors t) ≡ send)
unfolding verdict publish_errors
pending-verdict timeout now t (inl e) = rw e (inr refl)
pending-verdict timeout now t (inr e) =
    elim (Bool-cases (has_timed_out timeout now (publish_errors t))) [
      | inl w ↦ rw (e, w) (inr refl)
      | inr w ↦ rw (e, w) (inl refl)
    ]

dropped-nil :
    (ext : ExtensionLinux) (timeout : ℕ) (clock : ℕ → ℕ) (app_id : String) (n : ℕ)
    (ts : List TransactionNudge)
    → All IsPending ts
    → dropped ext timeout clock app_id n ts ≡ []
unfolding dropped
dropped-nil ext timeout clock app_id n [] h = refl
dropped-nil ext timeout clock app_id n (t ∷ ts) h =
    let rest = dropped-nil ext timeout clock app_id (n + 1) ts h.1 in
    elim (Bool-cases (is_of_app app_id t)) [
      | inl e ↦ elim (pending-verdict timeout (clock n) t h.0) [
        | inl v ↦ rw (e, v, dropped) rest
        | inr v ↦ rw (e, v, dropped) rest
      ]
      | inr e ↦ rw (e, dropped) rest
    ]

-- No transaction is lost between the translation of a request and the sending: if every transaction
-- of the buffer is marked as finished or as waiting, then, when the translation and after it
-- SendTransactions return, the identities of those that it sends and of those that it leaves in the
-- buffer are a permutation of those of the translated buffer.
pub translate-send_transactions :
    (env : Environment) (rs : List Resource) (tr q : Translation) (timeout : ℕ) (clock : ℕ → ℕ)
    (app_id : String) (raw : RawData) (s : Loop)
    → All IsPending tr.transactions
    → translate env rs tr ≡ ok q
    → send_transactions env.ext timeout clock app_id (some q.raw) q.transactions ≡ ok (raw, s)
    → Perm (map identity q.transactions) (map identity s.ts ++ map identity s.transactions)
translate-send_transactions env rs tr q timeout clock app_id raw s k e h =
    let pending =
      Ensures-ok (λ (q : Translation). All IsPending q.transactions) q e
        (translate-IsPending env rs tr k) in
    subst
      (λ d.
        Perm (map identity q.transactions)
          (map identity s.ts ++ (map identity d ++ map identity s.transactions)))
      (dropped-nil env.ext timeout clock app_id 0 q.transactions pending)
      (send_transactions-perm env.ext timeout clock app_id q.raw raw q.transactions s h)
