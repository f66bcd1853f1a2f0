-- ===== src/Nudge/Send/Timeout.antt =====
-- When `SendTransactions` sends a transaction: what its timeout says about the times.
use opentelemetry_collector.Nudge.Model.{TransactionNudge, get_or_zero}
use opentelemetry_collector.Nudge.Model.{RawData}
use opentelemetry_collector.Nudge.Extension.{ExtensionLinux}
use opentelemetry_collector.Nudge.Result.{ok}
use opentelemetry_collector.Nudge.Send.{
  has_timed_out, publish_errors, send, verdict, is_of_app, Loop, send_transactions,
}
use opentelemetry_collector.Nudge.Send.Rounds.{Verdict-cases, sent, send_transactions-eq}
use opentelemetry_collector.Prelude.{
  ◌<◌, String, List, [], ◌∷◌, some, Bool-cases, inl, inr, ◌⊎◌, All, length, eq_iff, ℕ, ◌+◌, ◌*◌,
  ◌^◌, ◌≤◌, true, ◌≡◌, arith, slt, sub64, div1000,
}

-- A difference of two times below 2 ^ 63, in seconds, is above the timeout only if the later time
-- is later by at least one second more than the timeout.
pub seconds_above :
    (timeout now start : ℕ)
    → timeout < 2 ^ 63
    → now < 2 ^ 63
    → start < 2 ^ 63
    → slt 0 (div1000 (sub64 now start)) ≡ true
    → slt timeout (div1000 (sub64 now start)) ≡ true
    → start + 1000 * (timeout + 1) ≤ now
seconds_above timeout now start h k l pos above = ground arith

-- The start time of a transaction; one that is missing is read as 0, which is 1970.
abbrev pub started : TransactionNudge → ℕ
started t = get_or_zero t.transaction.start_time

-- It is no negative `int64`.
abbrev pub IsTimed : TransactionNudge → Type 0
IsTimed t = started t < 2 ^ 63

-- At `now`, the transaction has started more than the timeout ago, in whole seconds.
abbrev pub HasExpired : ℕ → ℕ → TransactionNudge → Type 0
HasExpired timeout now t = started t + 1000 * (timeout + 1) ≤ now

pub has_timed_out-HasExpired :
    (timeout now : ℕ) (t : TransactionNudge)
    → timeout < 2 ^ 63
    → now < 2 ^ 63
    → IsTimed t
    → has_timed_out timeout now t ≡ true
    → HasExpired timeout now t
unfolding has_timed_out
has_timed_out-HasExpired timeout now t h k l out =
    let start = started t in
    let seconds = div1000 (sub64 now start) in
    let pos : slt 0 seconds ≡ true = ground arith in
    let above : slt timeout seconds ≡ true = ground arith in
    seconds_above timeout now start h k l pos above

-- A transaction that may leave at `now`: it belongs to the application, or all do for the empty name,
-- and it is finished, or it waits and has started more than the timeout ago.
abbrev pub IsDue : String → ℕ → ℕ → TransactionNudge → Type 0
IsDue app_id timeout now t =
    ((app_id ≡ "") ⊎ (t.tag.application_id ≡ app_id))
    × ((t.tag.urlid ≡ 0) ⊎ ((t.tag.urlid ≡ 1) × HasExpired timeout now t))

of_application :
    (app_id : String) (t : TransactionNudge)
    → is_of_app app_id t ≡ true
    → (app_id ≡ "") ⊎ (t.tag.application_id ≡ app_id)
unfolding is_of_app
of_application app_id t a = ground (arith, eq_iff app_id "", eq_iff t.tag.application_id app_id)

sent_mark :
    (timeout now : ℕ) (t : TransactionNudge)
    → verdict timeout now (publish_errors t) ≡ send
    → (t.tag.urlid ≡ 0) ⊎ ((t.tag.urlid ≡ 1) × (has_timed_out timeout now t ≡ true))
unfolding verdict publish_errors has_timed_out
sent_mark timeout now t v = ground arith

verdict-IsDue :
    (app_id : String) (timeout now : ℕ) (t : TransactionNudge)
    → timeout < 2 ^ 63
    → now < 2 ^ 63
    → IsTimed t
    → is_of_app app_id t ≡ true
    → verdict timeout now (publish_errors t) ≡ send
    → IsDue app_id timeout now (publish_errors t)
unfolding publish_errors
verdict-IsDue app_id timeout now t h k l a v =
    let of_app = of_application app_id t a in
    elim (sent_mark timeout now t v) [
      | inl z ↦ (of_app, inl z)
      | inr (one, out) ↦ (of_app, inr (one, has_timed_out-HasExpired timeout now t h k l out))
    ]

module _ (ext : ExtensionLinux) (timeout : ℕ) (clock : ℕ → ℕ) (app_id : String) where
  -- A transaction that is due at the reading of the clock in one of `rounds` rounds.
  abbrev pub IsDueWithin : ℕ → TransactionNudge → Type 0
  IsDueWithin rounds t = (k : ℕ) × (k < rounds) × IsDue app_id timeout (clock k) t

  sent-IsDue :
      (rounds n : ℕ) (ts : List TransactionNudge)
      → timeout < 2 ^ 63
      → ((k : ℕ) → k < rounds → clock k < 2 ^ 63)
      → All IsTimed ts
      → n + length ts ≤ rounds
      → All (IsDueWithin rounds) (sent ext timeout clock app_id n ts)
  unfolding sent
  sent-IsDue rounds n [] h c l m = tt
  sent-IsDue rounds n (t ∷ ts) h c l m =
      let rest = sent-IsDue rounds (n + 1) ts h c l.1 (omega arith) in
      elim (Bool-cases (is_of_app app_id t)) [
        | inl e ↦ elim (Verdict-cases (verdict timeout (clock n) (publish_errors t))) [
          | inl v ↦ rw (e, v, sent) rest
          | inr (inl v) ↦ rw (e, v, sent) rest
          | inr (inr v) ↦
              let due = verdict-IsDue app_id timeout (clock n) t h (c n (omega arith)) l.0 e v in
              rw (e, v, sent) ((n, omega arith, due), rest)
        ]
        | inr e ↦ rw (e, sent) rest
      ]

  -- If the timeout, the readings of the clock and the start times are no negative `int64`, then
  -- whatever SendTransactions sends belongs to the application that was asked for, or any does for
  -- the empty name, and it is marked as finished, or it is marked as waiting and its start time,
  -- which counts as 1970 if it is missing, lies more than the timeout, in whole seconds, before what
  -- one of the rounds, at most one for each buffered transaction, reads from the clock.
  pub send_transactions-IsDue :
      (raw raw' : RawData) (ts : List TransactionNudge) (s : Loop)
      → timeout < 2 ^ 63
      → ((k : ℕ) → k < length ts → clock k < 2 ^ 63)
      → All IsTimed ts
      → send_transactions ext timeout clock app_id (some raw) ts ≡ ok (raw', s)
      → All (IsDueWithin (length ts)) s.ts
  send_transactions-IsDue raw raw' ts s h c l returned =
      rw ends (sent-IsDue (length ts) 0 ts h c l (omega arith))
    where
      ends : s.ts ≡ sent ext timeout clock app_id 0 ts
      ends = ground (arith, send_transactions-eq ext timeout clock app_id (some raw) ts)
