-- ===== src/Nudge/Push/Buffer.antt =====
-- The well-formedness of the exporter's buffer, through whole pushes.
use opentelemetry_collector.Prelude.{
  refl, ℕ, ◌+◌, String, List, [], ◌∷◌, inl, inr, All, Bool-cases, arith, ◌≡◌, false,
}
use opentelemetry_collector.Nudge.Extension.{ExtensionLinux}
use opentelemetry_collector.Nudge.Result.{Ensures, Ensures-then}
use opentelemetry_collector.Nudge.Config.{EncodingType}
use opentelemetry_collector.Nudge.Model.{RawData, TransactionNudge}
use opentelemetry_collector.Nudge.Spans.Opening.{Environment}
use opentelemetry_collector.Nudge.Translate.{Translation, Resource}
use opentelemetry_collector.Nudge.Translate.Marks.{IsPending, translate-IsPending}
use opentelemetry_collector.Nudge.Send.{publish_errors, verdict, is_of_app}
use opentelemetry_collector.Nudge.Send.Rounds.{kept, Verdict-cases}
use opentelemetry_collector.Nudge.Export.{Exporter, Mesure}
use opentelemetry_collector.Nudge.Response.{Reply, Externals, Decoders}
use opentelemetry_collector.Nudge.Push.{
  Pushing, push_traces, application_ids, map, false, true, translate, Option,
}
use opentelemetry_collector.Nudge.Translate.Traces.{uuid_text, translate-distinct}
use opentelemetry_collector.Nudge.Push.Applications.{contains, distinct}
use opentelemetry_collector.Nudge.Push.Passes.{push_loop-Holds}
use opentelemetry_collector.Nudge.Result.{Ensures-both}

module _ (Q : TransactionNudge → Type 0)
    (published : (t : TransactionNudge) → Q t → Q (publish_errors t)) where
  pub kept-All :
      (ext : ExtensionLinux) (timeout : ℕ) (clock : ℕ → ℕ) (app : String) (n : ℕ)
      (ts : List TransactionNudge)
      → All Q ts
      → All Q (kept ext timeout clock app n ts)
  unfolding kept
  kept-All ext timeout clock app n [] h = tt
  kept-All ext timeout clock app n (t ∷ ts) h =
      let rest = kept-All ext timeout clock app (n + 1) ts h.1 in
      elim (Bool-cases (is_of_app app t)) [
        | inl e ↦ elim (Verdict-cases (verdict timeout (clock n) (publish_errors t))) [
          | inl v ↦ rw (e, v, kept) (published t h.0, rest)
          | inr (inl v) ↦ rw (e, v, kept) rest
          | inr (inr v) ↦ rw (e, v, kept) rest
        ]
        | inr e ↦ rw (e, kept) (h.0, rest)
      ]

publish_errors-IsPending : (t : TransactionNudge) → IsPending t → IsPending (publish_errors t)
unfolding publish_errors
publish_errors-IsPending t h = h

kept-contains :
    (ext : ExtensionLinux) (timeout : ℕ) (clock : ℕ → ℕ) (app : String) (n : ℕ)
    (ts : List TransactionNudge) (uuid : String)
    → contains (map uuid_text ts) uuid ≡ false
    → contains (map uuid_text (kept ext timeout clock app n ts)) uuid ≡ false
unfolding kept publish_errors
kept-contains ext timeout clock app n [] uuid h = refl
kept-contains ext timeout clock app n (t ∷ ts) uuid h =
    let rest = kept-contains ext timeout clock app (n + 1) ts uuid in
    elim (Bool-cases (is_of_app app t)) [
      | inl e ↦ elim (Verdict-cases (verdict timeout (clock n) (publish_errors t))) [
        | inl v ↦ rw (e, v, kept) (ground arith)
        | inr (inl v) ↦ rw (e, v, kept) (ground arith)
        | inr (inr v) ↦ rw (e, v, kept) (ground arith)
      ]
      | inr e ↦ rw (e, kept) (ground arith)
    ]

abbrev pub IsDistinct : List TransactionNudge → Type 0
IsDistinct ts = distinct (map uuid_text ts) ≡ true

kept-IsDistinct :
    (ext : ExtensionLinux) (timeout : ℕ) (clock : ℕ → ℕ) (app : String) (n : ℕ)
    (ts : List TransactionNudge)
    → IsDistinct ts
    → IsDistinct (kept ext timeout clock app n ts)
unfolding kept publish_errors
kept-IsDistinct ext timeout clock app n [] h = refl
kept-IsDistinct ext timeout clock app n (t ∷ ts) h =
    let rest = kept-IsDistinct ext timeout clock app (n + 1) ts in
    let new = kept-contains ext timeout clock app (n + 1) ts (uuid_text t) in
    elim (Bool-cases (is_of_app app t)) [
      | inl e ↦ elim (Verdict-cases (verdict timeout (clock n) (publish_errors t))) [
        | inl v ↦ rw (e, v, kept) (ground arith)
        | inr (inl v) ↦ rw (e, v, kept) (ground arith)
        | inr (inr v) ↦ rw (e, v, kept) (ground arith)
      ]
      | inr e ↦ rw (e, kept) (ground arith)
    ]

-- What holds of the buffer between pushes: every transaction is marked as finished or as waiting, and
-- no trace has two transactions.
pub record IsWellFormed (ts : List TransactionNudge) : Type 0 where
  pub pending : All IsPending ts
  pub distinct : IsDistinct ts

pub kept-IsWellFormed :
    (ext : ExtensionLinux) (timeout : ℕ) (clock : ℕ → ℕ) (app : String) (n : ℕ)
    (ts : List TransactionNudge)
    → IsWellFormed ts
    → IsWellFormed (kept ext timeout clock app n ts)
kept-IsWellFormed ext timeout clock app n ts h = record {
  pending = kept-All IsPending publish_errors-IsPending ext timeout clock app n ts h.pending;
  distinct = kept-IsDistinct ext timeout clock app n ts h.distinct;
}

translate-IsWellFormed :
    (env : Environment) (rs : List Resource) (tr : Translation)
    → IsWellFormed tr.transactions
    → Ensures (λ (q : Translation). IsWellFormed q.transactions) (translate env rs tr)
translate-IsWellFormed env rs tr h =
    Ensures-both (λ (q : Translation). All IsPending q.transactions)
      (λ (q : Translation). IsDistinct q.transactions)
      (λ q a b. record { pending = a; distinct = b }) (translate-IsPending env rs tr h.pending)
      (translate-distinct env rs tr h.distinct)

-- If every transaction of the exporter's buffer is marked as finished or as waiting, never for
-- discarding, and no trace has two transactions, both hold after every push of traces that returns,
-- for any request, replies of the server and measures.
pub push_traces-IsWellFormed :
    (env : Environment) (x : Externals) (d : Decoders)
    (marshal : EncodingType → RawData → Option String) (clock : ℕ → ℕ) (traces_url : String)
    (e : Exporter) (ms : List Mesure) (n : ℕ) (created : RawData) (rs : List Resource)
    (replies : ℕ → Reply)
    → IsWellFormed e.transactions
    → Ensures
        (λ (p : Pushing). IsWellFormed p.exporter.transactions)
        (push_traces env x d marshal clock traces_url e ms n created rs replies)
unfolding push_traces
push_traces-IsWellFormed env x d marshal clock traces_url e ms n created rs replies h =
    Ensures-then (λ (q : Translation). IsWellFormed q.transactions) _
      (translate-IsWellFormed (record env { config = e.config }) rs _ h)
      (λ q k.
        push_loop-Holds IsWellFormed kept-IsWellFormed env.ext x d marshal clock traces_url _
          (application_ids q.transactions) replies k)
