-- ===== src/Nudge/Translate/Waiting.antt =====
-- The transactions of a trace whose root has not come.
use opentelemetry_collector.Nudge.Send.Rounds.{sent, send_transactions-eq, Verdict-cases}
use opentelemetry_collector.Nudge.Send.Timeout.{
  IsDueWithin, IsTimed, HasExpired, send_transactions-IsDue,
}
use opentelemetry_collector.Nudge.Translate.Runs.{done, translate-Runs, Runs}
use opentelemetry_collector.Nudge.Result.{Ensures-ok, Ensures-imp}
use opentelemetry_collector.Nudge.Translate.Marks.{All-middle}
use opentelemetry_collector.Nudge.Send.{Loop, send_transactions, publish_errors, is_of_app, verdict}
use opentelemetry_collector.Nudge.Translate.Runs.{Run, next, spans_of, Runs}
use opentelemetry_collector.Nudge.Translate.{Resource, Translation, translate, ok, ExtensionLinux}
use opentelemetry_collector.Nudge.Translate.Keeps.{ends_trace}
use opentelemetry_collector.Nudge.Translate.Steps.{
  trace_of, IsUpdate, Step, updated, created, opened_uuid,
}
use opentelemetry_collector.Nudge.Spans.{Span}
use opentelemetry_collector.Nudge.Spans.Opening.{Environment, has_uuid, opened_transaction, text_of}
use opentelemetry_collector.Nudge.Model.{TransactionNudge, RawData}
use opentelemetry_collector.Prelude.{
  ◌<◌, ◌^◌, length, ℕ, ◌+◌, String, Bool, true, not, ◌||◌, List, [], ◌∷◌, some, ◌==◌, ◌≡◌, refl,
  sym, ◌∙◌, subst, inl, inr, arith, All, Bool-cases, eq_iff, all, All-append,
}

-- Every transaction of the trace waits.
abbrev pub WaitsFor : String → TransactionNudge → Type 0
WaitsFor uuid t = has_uuid uuid t ≡ true → t.tag.urlid ≡ 1

-- A span that does not end the trace `uuid`.
abbrev pub goes_on : Environment → String → Span → Bool
goes_on env uuid span = not (trace_of env span == uuid) || not (ends_trace env span)

module _ (env : Environment) (uuid : String) where
  IsUpdate-WaitsFor :
      (span : Span) (t u : TransactionNudge)
      → goes_on env uuid span ≡ true
      → has_uuid (trace_of env span) t ≡ true
      → IsUpdate env span t u
      → WaitsFor uuid t
      → WaitsFor uuid u
  IsUpdate-WaitsFor span t u g h up w same =
      let of_t = subst (λ o. (text_of o == uuid) ≡ true) up.trace same in
      let own_trace = sym ((eq_iff _ (trace_of env span)).0 h) ∙ (eq_iff _ uuid).0 of_t in
      let this = (eq_iff (trace_of env span) uuid).1 own_trace in
      elim up.mark [ inl (ends, z) ↦ absurd (ground (arith, this, ends, g)) | inr e ↦ e ∙ w of_t ]

  Step-WaitsFor :
      (span : Span) (ts us : List TransactionNudge)
      → goes_on env uuid span ≡ true
      → Step env span ts us
      → All (WaitsFor uuid) ts
      → All (WaitsFor uuid) us
  unfolding opened_transaction
  Step-WaitsFor span _ _ g (updated before t u after n p h) k =
      All-middle (WaitsFor uuid) before t u after (IsUpdate-WaitsFor span t u g p h) k
  Step-WaitsFor span ts _ g (created _ u n h) k =
      let opened = opened_transaction env (trace_of env span) span in
      All-append (WaitsFor uuid) ts (u ∷ []) k
        (IsUpdate-WaitsFor span opened u g (opened_uuid env span) h (λ e. refl), tt)

  Run-WaitsFor :
      (spans : List Span) (ts us : List TransactionNudge)
      → all (goes_on env uuid) spans ≡ true
      → Run env spans ts us
      → All (WaitsFor uuid) ts
      → All (WaitsFor uuid) us
  Run-WaitsFor _ ts _ g done k = k
  Run-WaitsFor _ ts vs g (next {span} {spans} {us = us} s r) k =
      Run-WaitsFor spans us vs (ground arith) r (Step-WaitsFor span ts us (ground arith) s k)

module _ (ext : ExtensionLinux) (timeout : ℕ) (clock : ℕ → ℕ) (app_id uuid : String) where
  sent-WaitsFor :
      (n : ℕ) (ts : List TransactionNudge)
      → All (WaitsFor uuid) ts
      → All (WaitsFor uuid) (sent ext timeout clock app_id n ts)
  unfolding sent publish_errors
  sent-WaitsFor n [] h = tt
  sent-WaitsFor n (t ∷ ts) h =
      let rest = sent-WaitsFor (n + 1) ts h.1 in
      elim (Bool-cases (is_of_app app_id t)) [
        | inl e ↦ elim (Verdict-cases (verdict timeout (clock n) (publish_errors t))) [
          | inl v ↦ rw (e, v, sent) rest
          | inr (inl v) ↦ rw (e, v, sent) rest
          | inr (inr v) ↦ rw (e, v, sent) (h.0, rest)
        ]
        | inr e ↦ rw (e, sent) rest
      ]

  -- A transaction of the trace has started more than the timeout before what one of `rounds` rounds
  -- reads from the clock, if a missing start time is 1970.
  abbrev pub HasWaited : ℕ → TransactionNudge → Type 0
  HasWaited rounds t =
      has_uuid uuid t ≡ true → (k : ℕ) × (k < rounds) × HasExpired timeout (clock k) t

  due-HasWaited :
      (rounds : ℕ) (t : TransactionNudge)
      → IsDueWithin ext timeout clock app_id rounds t
      → WaitsFor uuid t
      → HasWaited rounds t
  due-HasWaited rounds t (k, l, (app, inl z)) w same = let one = w same in absurd (omega arith)
  due-HasWaited rounds t (k, l, (app, inr (one, expired))) w same = (k, l, expired)

  All-HasWaited :
      (rounds : ℕ) (ts : List TransactionNudge)
      → All (IsDueWithin ext timeout clock app_id rounds) ts
      → All (WaitsFor uuid) ts
      → All (HasWaited rounds) ts
  All-HasWaited rounds [] d w = tt
  All-HasWaited rounds (t ∷ ts) d w =
      (due-HasWaited rounds t d.0 w.0, All-HasWaited rounds ts d.1 w.1)

  passed-HasWaited :
      (raw raw' : RawData) (ts : List TransactionNudge) (s : Loop)
      → timeout < 2 ^ 63
      → ((k : ℕ) → k < length ts → clock k < 2 ^ 63)
      → All IsTimed ts
      → All (WaitsFor uuid) ts
      → send_transactions ext timeout clock app_id (some raw) ts ≡ ok (raw', s)
      → All (HasWaited (length ts)) s.ts
  passed-HasWaited raw raw' ts s t c l w h =
      let ends : s.ts ≡ sent ext timeout clock app_id 0 ts =
        ground (arith, send_transactions-eq ext timeout clock app_id (some raw) ts) in
      All-HasWaited (length ts) s.ts
        (send_transactions-IsDue ext timeout clock app_id raw raw' ts s t c l h)
        (subst (All (WaitsFor uuid)) (sym ends) (sent-WaitsFor 0 ts w))

-- If no span of a trace in a request ends it, since the configuration waits for the root span and
-- none of them is one, and every transaction of that trace in the buffer waits, so does every one
-- when the translation of the request returns. If the timeout, the readings of the clock and the
-- start times are then no negative `int64`, what SendTransactions sends of the trace, for any
-- application, has a start time, which counts as 1970 if it is missing, that lies more than the
-- timeout, in whole seconds, before what one of its rounds reads from the clock.
pub translate-WaitsFor :
    (env : Environment) (rs : List Resource) (tr q : Translation) (uuid : String) (timeout : ℕ)
    (clock : ℕ → ℕ) (app_id : String) (raw : RawData) (s : Loop)
    → all (goes_on env uuid) (spans_of rs) ≡ true
    → All (WaitsFor uuid) tr.transactions
    → translate env rs tr ≡ ok q
    → timeout < 2 ^ 63
    → ((k : ℕ) → k < length q.transactions → clock k < 2 ^ 63)
    → All IsTimed q.transactions
    → send_transactions env.ext timeout clock app_id (some q.raw) q.transactions ≡ ok (raw, s)
    → All (WaitsFor uuid) q.transactions
      × All (HasWaited env.ext timeout clock app_id uuid (length q.transactions)) s.ts
translate-WaitsFor env rs tr q uuid timeout clock app_id raw s g w returned t c l h =
    let waits =
      Ensures-ok (λ (q : Translation). All (WaitsFor uuid) q.transactions) q returned
        (Ensures-imp (Runs env (spans_of rs) tr) _
          (λ q r. Run-WaitsFor env uuid (spans_of rs) tr.transactions q.transactions g r w)
          (translate-Runs env rs tr)) in
    (
      waits,
      passed-HasWaited env.ext timeout clock app_id uuid q.raw raw q.transactions s t c l waits h,
    )
