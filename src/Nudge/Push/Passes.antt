-- ===== src/Nudge/Push/Passes.antt =====
-- Properties of the buffer that the rounds of `pushTraces` keep.
use opentelemetry_collector.Prelude.{
  ℕ, ◌+◌, String, List, [], ◌∷◌, Option, none, some, ◌==◌, sym, subst, inl, inr, Bool-cases,
  Option-cases,
}
use opentelemetry_collector.Nudge.Extension.{ExtensionLinux}
use opentelemetry_collector.Nudge.Result.{
  Result, ok, panic, Ensures, Ensures-bind, Ensures-then, returned, panicked, first,
}
use opentelemetry_collector.Nudge.Config.{EncodingType}
use opentelemetry_collector.Nudge.Model.{RawData, TransactionNudge}
use opentelemetry_collector.Nudge.Send.{Loop, send_transactions}
use opentelemetry_collector.Nudge.Send.Rounds.{kept, send_transactions-eq}
use opentelemetry_collector.Nudge.Export.{Mesure}
use opentelemetry_collector.Nudge.Response.{Reply, Externals, Decoders}
use opentelemetry_collector.Nudge.Push.{
  Pushing, Round, go_on, returns, push_loop, push_round, count_round, deliver, encode, or_else,
  pointer, add_request,
}
use opentelemetry_collector.Nudge.Push.Signals.{export-keeps}

abbrev pub state_of : Round → Pushing
state_of (go_on p) = p
state_of (returns p) = p

module _ (ext : ExtensionLinux) (x : Externals) (d : Decoders)
    (marshal : EncodingType → RawData → Option String) (clock : ℕ → ℕ) (traces_url : String) where
  -- The rule of the loop over the applications: what every round keeps, the loop keeps.
  module _ (I : Pushing → Type 0)
      (rounds : (p : Pushing) (id : String) (reply : Reply)
        → I p
        → Ensures
            (λ r. I (state_of r))
            (push_round ext x d marshal clock traces_url p id reply)) where
    after_round :
        (r : Result Round) (ids : List String) (replies : ℕ → Reply)
        → Ensures (λ r. I (state_of r)) r
        → ((q : Pushing)
            → I q
            → Ensures I (push_loop ext x d marshal clock traces_url q ids replies))
        → Ensures I (elim r [
          | panic f ↦ panic f
          | ok (returns q) ↦ ok q
          | ok (go_on q) ↦ push_loop ext x d marshal clock traces_url q ids replies
        ])
    after_round (panic f) ids replies k rest = panicked
    after_round (ok (returns q)) ids replies (returned k) rest = returned k
    after_round (ok (go_on q)) ids replies (returned k) rest = rest q k

    pub push_loop-inv :
        (p : Pushing) (ids : List String) (replies : ℕ → Reply)
        → I p
        → Ensures I (push_loop ext x d marshal clock traces_url p ids replies)
    unfolding push_loop
    push_loop-inv p [] replies h = returned h
    push_loop-inv p (id ∷ ids) replies h =
        after_round (push_round ext x d marshal clock traces_url p id (replies 0)) ids
          (λ n. replies (n + 1)) (rounds p id (replies 0) h)
          (λ q k. push_loop-inv q ids (λ n. replies (n + 1)) k)

  -- The rule of a round: what `deliver` keeps, whatever the measures are.
  pub count_round-inv :
      (I : Round → Type 0) (p : Pushing) (id : String) (raw : RawData) (s : Loop) (reply : Reply)
      → ((request : Option String) (ms : List Mesure) (found : Option (Mesure × ℕ))
          → I (deliver ext x d marshal clock traces_url p raw s request reply ms found))
      → Ensures I (count_round ext x d marshal clock traces_url p id raw s reply)
  unfolding count_round
  count_round-inv I p id raw s reply h =
      elim (Option-cases (ext.find Mesure p.mesures (λ m. m.identifiant == id))) [
        | inl e ↦ rw (e, count_round) (Ensures-bind I (first s.ts) _ (λ t. returned (h _ _ none)))
        | inr ((m, i), e) ↦
            let request = encode marshal p.exporter.config.encoding raw in
            rw (e, count_round) (returned (h _ _ (some (add_request raw request m, i))))
      ]

-- `L` is a property of a buffer that a pass of SendTransactions keeps.
module _ (L : List TransactionNudge → Type 0)
    (passes : (ext : ExtensionLinux) (timeout : ℕ) (clock : ℕ → ℕ) (app : String) (n : ℕ)
        (ts : List TransactionNudge)
      → L ts
      → L (kept ext timeout clock app n ts)) where
  abbrev OfRound : Round → Type 0
  OfRound r = L (state_of r).exporter.transactions

  abbrev pub Holds : Pushing → Type 0
  Holds p = L p.exporter.transactions

  module _ (ext : ExtensionLinux) (x : Externals) (d : Decoders)
      (marshal : EncodingType → RawData → Option String) (clock : ℕ → ℕ) (traces_url : String) where
    deliver-Holds :
        (p : Pushing) (raw : RawData) (s : Loop) (request : Option String) (reply : Reply)
        (ms : List Mesure) (found : Option (Mesure × ℕ))
        → L s.transactions
        → OfRound (deliver ext x d marshal clock traces_url p raw s request reply ms found)
    unfolding deliver
    deliver-Holds p raw s none reply ms found h = h
    deliver-Holds p raw s (some body) reply ms found h =
        subst L
          (sym
            (export-keeps x d marshal (or_else s.url_app_id traces_url)
              (record p.exporter { rawdata = some raw; transactions = s.transactions })
              (pointer found) reply).1)
          h

    push_round-Holds :
        (p : Pushing) (id : String) (reply : Reply)
        → Holds p
        → Ensures OfRound (push_round ext x d marshal clock traces_url p id reply)
    unfolding push_round
    push_round-Holds p id reply h = elim (Bool-cases (id == "")) [
      | inl e ↦ rw (e, push_round) (returned h)
      | inr e ↦
          rw (e, push_round)
            (Ensures-then (λ (r : RawData × Loop). L r.1.transactions) OfRound
              (passed p.exporter.rawdata)
              (λ r k.
                count_round-inv ext x d marshal clock traces_url OfRound p id r.0 r.1 reply
                  (λ request ms found. deliver-Holds p r.0 r.1 request reply ms found k)))
    ]
      where
        passed :
            (raw : Option RawData)
            → Ensures
                (λ (r : RawData × Loop). L r.1.transactions)
                (send_transactions ext p.exporter.config.timeout_buffer_transaction clock id raw
                  p.exporter.transactions)
        passed none =
            rw
              (send_transactions-eq ext p.exporter.config.timeout_buffer_transaction clock id none
                p.exporter.transactions)
              panicked
        passed (some raw) =
            rw
              (send_transactions-eq ext p.exporter.config.timeout_buffer_transaction clock id
                (some raw) p.exporter.transactions)
              (returned (
                passes ext p.exporter.config.timeout_buffer_transaction clock id 0
                  p.exporter.transactions h))

    pub push_loop-Holds :
        (p : Pushing) (ids : List String) (replies : ℕ → Reply)
        → Holds p
        → Ensures Holds (push_loop ext x d marshal clock traces_url p ids replies)
    push_loop-Holds = push_loop-inv ext x d marshal clock traces_url Holds push_round-Holds
