-- ===== src/Nudge/Tests/Sending.antt =====
-- Instances of the theorems about `SendTransactions`, the application ids and the codes.
use mathlib.Core.List.{Perm}
use opentelemetry_collector.Prelude.{
  length, ℕ, String, true, List, [], ◌∷◌, ◌++◌, map, none, some, ◌≡◌, refl, All, arith, ◌<◌, ◌^◌,
  not,
}
use opentelemetry_collector.Nudge.Result.{Result, ok}
use opentelemetry_collector.Nudge.Attributes.{AttributeMap}
use opentelemetry_collector.Nudge.Model.{
  LayerDetail, RawData, TransactionNudge, ErrorX, new_error, new_transaction_nudge, to_error,
}
use opentelemetry_collector.Nudge.Send.{Loop, send_transactions, is_of_app, has_timed_out}
use opentelemetry_collector.Nudge.Send.Rounds.{
  kept, sent, transactions_of, loop_of, add_languages, add_url, send_transactions-eq,
}
use opentelemetry_collector.Nudge.Send.Partition.{
  identity, dropped, IsWaiting, send_transactions-perm, send_transactions-others,
  send_transactions-errors_twice,
}
use opentelemetry_collector.Nudge.Send.Timeout.{IsTimed, IsDueWithin, send_transactions-IsDue}
use opentelemetry_collector.Nudge.Push.{application_ids}
use opentelemetry_collector.Nudge.Push.Applications.{
  contains, distinct, used, application_ids-exact,
}
use opentelemetry_collector.Nudge.Tests.{arrays, buffer, clock, raw, transaction_of, keep_if}

-- what one pass leads to
abbrev result : Result (RawData × Loop)
result = send_transactions arrays 30 clock "shop" (some raw) buffer

abbrev raw_after : RawData
raw_after = record raw {
  transactions = transactions_of arrays 30 clock "shop" (sent arrays 30 clock "shop" 0 buffer);
}

abbrev after : Loop
after =
    loop_of arrays 30 clock "shop" (kept arrays 30 clock "shop" 0 buffer)
      (transactions_of arrays 30 clock "shop" (sent arrays 30 clock "shop" 0 buffer))
      (sent arrays 30 clock "shop" 0 buffer)
      (add_languages arrays 30 clock "shop" [] (sent arrays 30 clock "shop" 0 buffer))
      (add_url arrays 30 clock "shop" none (sent arrays 30 clock "shop" 0 buffer))

result-ok : result ≡ ok (raw_after, after)
result-ok = send_transactions-eq arrays 30 clock "shop" (some raw) buffer

send_transactions-eq_example : result ≡ ok (raw_after, after)
send_transactions-eq_example = send_transactions-eq arrays 30 clock "shop" (some raw) buffer

send_transactions-perm_example : Perm (map identity buffer) (
    map identity after.ts
    ++ (map identity (dropped arrays 30 clock "shop" 0 buffer) ++ map identity after.transactions))
send_transactions-perm_example =
    send_transactions-perm arrays 30 clock "shop" raw raw_after buffer after result-ok

buffer-IsTimed : All IsTimed buffer
unfolding transaction_of
buffer-IsTimed = ground arith

clock-bound : (k : ℕ) → k < length buffer → clock k < 2 ^ 63
clock-bound k h = omega arith

send_transactions-IsDue_example : All (IsDueWithin arrays 30 clock "shop" (length buffer)) after.ts
send_transactions-IsDue_example =
    send_transactions-IsDue arrays 30 clock "shop" raw raw_after buffer after (omega arith)
      clock-bound buffer-IsTimed result-ok

send_transactions-others_example :
    keep_if (λ t. not (is_of_app "shop" t)) after.transactions
    ≡ keep_if (λ t. not (is_of_app "shop" t)) buffer
send_transactions-others_example =
    send_transactions-others arrays 30 clock "shop" raw raw_after buffer after result-ok

application_ids-exact_example :
    ((s : String) → contains (application_ids buffer) s ≡ used buffer s)
    × (distinct (application_ids buffer) ≡ true)
application_ids-exact_example = application_ids-exact buffer

abbrev failed : ErrorX
unfolding new_error
failed = record new_error { stack = "at main" }

abbrev waiting : TransactionNudge
unfolding new_transaction_nudge transaction_of
waiting = transaction_of "u5" "shop" 1 100000 (failed ∷ [])

abbrev once : RawData × Loop
once = (
  record raw {
    transactions =
        transactions_of arrays 30 clock "shop" (sent arrays 30 clock "shop" 0 (waiting ∷ []));
  },
  loop_of arrays 30 clock "shop" (kept arrays 30 clock "shop" 0 (waiting ∷ []))
      (transactions_of arrays 30 clock "shop" (sent arrays 30 clock "shop" 0 (waiting ∷ [])))
      (sent arrays 30 clock "shop" 0 (waiting ∷ []))
      (add_languages arrays 30 clock "shop" [] (sent arrays 30 clock "shop" 0 (waiting ∷ [])))
      (add_url arrays 30 clock "shop" none (sent arrays 30 clock "shop" 0 (waiting ∷ []))),
)

abbrev twice_raw : RawData
twice_raw = record once.0 {
  transactions =
      once.0.transactions
      ++ transactions_of arrays 30 clock "shop" (sent arrays 30 clock "shop" 0 once.1.transactions);
}

abbrev twice : Loop
twice =
    loop_of arrays 30 clock "shop" (kept arrays 30 clock "shop" 0 once.1.transactions)
      (once.0.transactions
        ++ transactions_of arrays 30 clock "shop"
            (sent arrays 30 clock "shop" 0 once.1.transactions))
      (sent arrays 30 clock "shop" 0 once.1.transactions)
      (add_languages arrays 30 clock "shop" [] (sent arrays 30 clock "shop" 0 once.1.transactions))
      (add_url arrays 30 clock "shop" none (sent arrays 30 clock "shop" 0 once.1.transactions))

waiting-IsWaiting : IsWaiting "shop" 30 (clock 0) waiting
unfolding is_of_app has_timed_out waiting
waiting-IsWaiting = (refl, refl, refl)

send_transactions-errors_twice_example :
    (u : TransactionNudge) × (us : List TransactionNudge) × (twice.transactions ≡ u ∷ us)
    × (u.transaction.errors
        ≡ waiting.transaction.errors
          ++ (map to_error waiting.errors_x ++ map to_error waiting.errors_x))
send_transactions-errors_twice_example =
    send_transactions-errors_twice arrays 30 clock clock "shop" raw once.0 twice_raw waiting []
      once.1 twice waiting-IsWaiting waiting-IsWaiting
      (send_transactions-eq arrays 30 clock "shop" (some raw) (waiting ∷ []))
      (send_transactions-eq arrays 30 clock "shop" (some once.0) once.1.transactions)

abbrev attributes : AttributeMap
attributes =
    (
      "http.method",
      record { as_string = "GET"; str = "GET"; int = 0; int_text = "0"; items = none },
    )
    ∷ []

abbrev detail : LayerDetail
detail = record {
  count = some 1;
  errors = none;
  code = none;
  timestamp = none;
  time = none;
  ext_codes = record { key = "http.method"; value = "POST" } ∷ [];
}
