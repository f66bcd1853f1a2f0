-- ===== src/Nudge/Send.antt =====
-- `SendTransactions`: the loop over the buffered transactions by index, which moves those that are
-- finished or timed out to the raw data. `clock n` is what the n-th round reads as the current time
-- in milliseconds. Fuel is the number of rounds: each one moves the index or shortens the buffer.
pub mod Rounds
pub mod Timeout
pub mod Partition
use opentelemetry_collector.Prelude.{
  ℕ, zero, suc, ◌+◌, String, Bool, true, false, ◌&&◌, ◌||◌, List, [], ◌∷◌, ◌++◌, map, Option, none,
  some, length, get_elem?, ◌==◌, eqb, if◌then◌else◌, sub64, div1000, slt,
}
use opentelemetry_collector.Nudge.Extension.{ExtensionLinux}
use opentelemetry_collector.Nudge.Result.{Result, ok, ◌>>=◌, deref}
use opentelemetry_collector.Nudge.Model.{
  Transaction, TransactionNudge, RawData, to_error, get_or_zero,
}

-- A write through the pointer at an index.
abbrev pub set {ℓ} : {A : Type ℓ} → List A → ℕ → A → List A
set [] i v = []
set (x ∷ xs) zero v = v ∷ xs
set (x ∷ xs) (suc i) v = x ∷ set xs i v

-- the loop over GetErrors: the errors are appended to those of the message
unfoldable pub publish_errors : TransactionNudge → TransactionNudge
unfolding to_error
publish_errors t = record t {
  transaction = record t.transaction { errors = t.transaction.errors ++ map to_error t.errors_x };
}

-- What the loop does with a transaction.
pub data Verdict : Type 0 where
  keep discard send : Verdict

-- the wait of a transaction in seconds exceeds the timeout
unfoldable pub has_timed_out : ℕ → ℕ → TransactionNudge → Bool
has_timed_out timeout now t =
    let st = div1000 (sub64 now (get_or_zero t.transaction.start_time)) in
    slt 0 st && slt timeout st

unfoldable pub is_of_app : String → TransactionNudge → Bool
is_of_app app_id t = app_id == "" || t.tag.application_id == app_id

-- the branches on Urlid
unfoldable pub verdict : ℕ → ℕ → TransactionNudge → Verdict
unfolding has_timed_out
verdict timeout now t =
    if eqb t.tag.urlid 0
    then send
    else if eqb t.tag.urlid 2
    then discard
    else if eqb t.tag.urlid 1 && has_timed_out timeout now t
    then send
    else keep

-- The local variables of the loop, with the exporter's buffer.
pub record Loop : Type 0 where
  pub transactions : List TransactionNudge
  pub raw : List Transaction
  pub ts : List TransactionNudge
  pub languages : List String
  pub url_app_id : Option String

abbrev pub first_url : String → Option String → Option String → Option String
first_url app_id none new = if app_id == "" then none else new
first_url app_id (some u) new = some u

module _ (ext : ExtensionLinux) (timeout : ℕ) (clock : ℕ → ℕ) (app_id : String) where
  -- the rounds from index `i` on; `n` counts them
  unfoldable pub send_loop : ℕ → ℕ → ℕ → Loop → Loop
  unfolding is_of_app publish_errors verdict
  send_loop zero i n s = s
  send_loop (suc fuel) i n s = elim (get_elem? s.transactions i) [
    | none ↦ s
    | some t ↦
        let next = send_loop fuel (i + 1) (n + 1) s in
        let t' = publish_errors t in
        let kept =
          send_loop fuel (i + 1) (n + 1) (record s { transactions = set s.transactions i t' }) in
        let rest = ext.splice TransactionNudge (set s.transactions i t') i 1 in
        let dropped = send_loop fuel i (n + 1) (record s { transactions = rest }) in
        let sent = send_loop fuel i (n + 1) (record {
          transactions = rest;
          raw = s.raw ++ t'.transaction ∷ [];
          ts = s.ts ++ t' ∷ [];
          languages = ext.append_unique s.languages t'.tag.language;
          url_app_id = first_url app_id s.url_app_id t'.tag.url_app_id;
        }) in
        if is_of_app app_id t
        then elim (verdict timeout (clock n) t') [ keep ↦ kept | discard ↦ dropped | send ↦ sent ]
        else next
  ]

  -- SendTransactions on the raw data, which may be nil, and the buffer
  unfoldable pub send_transactions :
      Option RawData → List TransactionNudge → Result (RawData × Loop)
  unfolding send_loop
  send_transactions rawdata transactions = do
    raw ← deref rawdata
    let s = send_loop (length transactions) 0 0 (record {
      transactions = transactions;
      raw = raw.transactions;
      ts = [];
      languages = [];
      url_app_id = none;
    })
    ok (record raw { transactions = s.raw }, s)
