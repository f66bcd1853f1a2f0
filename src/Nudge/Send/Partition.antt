-- ===== src/Nudge/Send/Partition.antt =====
-- What one pass of `SendTransactions` does with the transactions of the buffer.
use mathlib.Core.List.{Perm, perm_middle}
use mathlib.Core.List.Perm
use opentelemetry_collector.Prelude.{
  ℕ, ◌+◌, String, true, false, not, List, [], ◌∷◌, ◌++◌, map, Option, some, ◌≡◌, refl, ◌∙◌, ap,
  if◌then◌else◌, arith, append_assoc, Bool-cases, inl, inr,
}
use opentelemetry_collector.Nudge.Extension.{ExtensionLinux, keep_if}
use opentelemetry_collector.Nudge.Result.{ok}
use opentelemetry_collector.Nudge.Model.{TransactionNudge, RawData, to_error}
use opentelemetry_collector.Nudge.Send.{
  publish_errors, keep, discard, send, verdict, is_of_app, Loop, send_transactions, has_timed_out,
}
use opentelemetry_collector.Nudge.Send.Rounds.{Verdict-cases, kept, sent, send_transactions-eq}

pub is_of_app-publish :
    (a : String) (t : TransactionNudge) → is_of_app a (publish_errors t) ≡ is_of_app a t
unfolding is_of_app publish_errors
is_of_app-publish a t = refl

verdict-publish : (k n : ℕ) (t : TransactionNudge) → verdict k n (publish_errors t) ≡ verdict k n t
unfolding verdict publish_errors
verdict-publish k n t = refl

module _ {A : Type 0} where
  into_second :
      (x : A) (xs ys : List A) {l : List A} → Perm l (xs ++ ys) → Perm (x ∷ l) (xs ++ x ∷ ys)
  into_second x xs ys h = Perm.trans (Perm.cons x h) (Perm.symm (perm_middle xs ys))

  into_third :
      (x : A) (xs ys zs : List A) {l : List A}
      → Perm l (xs ++ (ys ++ zs))
      → Perm (x ∷ l) (xs ++ (ys ++ x ∷ zs))
  into_third x xs ys zs h =
      Perm.trans (into_second x xs (ys ++ zs) h)
        (Perm.append_left xs (Perm.symm (perm_middle ys zs)))

-- The identity of a transaction: its trace and its application.
abbrev pub identity : TransactionNudge → Option String × String
identity t = (t.transaction.uuid, t.tag.application_id)

identity-publish : (t : TransactionNudge) → identity (publish_errors t) ≡ identity t
unfolding publish_errors
identity-publish t = refl

module _ (ext : ExtensionLinux) (timeout : ℕ) (clock : ℕ → ℕ) (app_id : String) where
  -- The transactions that are dropped: those of the application that are marked as not to be sent.
  unfoldable pub dropped : ℕ → List TransactionNudge → List TransactionNudge
  dropped n [] = []
  dropped n (t ∷ ts) =
      let rest = dropped (n + 1) ts in
      if is_of_app app_id t
      then elim (verdict timeout (clock n) (publish_errors t)) [
        | keep ↦ rest
        | discard ↦ t ∷ rest
        | send ↦ rest
      ]
      else rest

  module _ {A : Type 0} (g : TransactionNudge → A)
      (same : (t : TransactionNudge) → g (publish_errors t) ≡ g t) where
    partition :
        (n : ℕ) (ts : List TransactionNudge)
        → Perm (map g ts) (
            map g (sent ext timeout clock app_id n ts)
            ++ (map g (dropped n ts) ++ map g (kept ext timeout clock app_id n ts)))
    unfolding sent kept dropped
    partition n [] = Perm.nil
    partition n (t ∷ ts) = elim (Bool-cases (is_of_app app_id t)) [
      | inl e ↦ elim (Verdict-cases (verdict timeout (clock n) (publish_errors t))) [
        | inl v ↦
            rw (e, v, sent, kept, dropped)
              (rw (same t) (into_third (g t) _ _ _ (partition (n + 1) ts)))
        | inr (inl v) ↦
            rw (e, v, sent, kept, dropped) (into_second (g t) _ _ (partition (n + 1) ts))
        | inr (inr v) ↦
            rw (e, v, sent, kept, dropped) (rw (same t) (Perm.cons (g t) (partition (n + 1) ts)))
      ]
      | inr e ↦ rw (e, sent, kept, dropped) (into_third (g t) _ _ _ (partition (n + 1) ts))
    ]

  -- For every buffer, timeout, clock and application: when SendTransactions succeeds, the identities
  -- of the transactions that it sends, that it drops and that it leaves in the buffer are, taken
  -- together, a permutation of those of the buffer that it found.
  pub send_transactions-perm :
      (raw raw' : RawData) (ts : List TransactionNudge) (s : Loop)
      → send_transactions ext timeout clock app_id (some raw) ts ≡ ok (raw', s)
      → Perm
          (map identity ts)
          (map identity s.ts ++ (map identity (dropped 0 ts) ++ map identity s.transactions))
  send_transactions-perm raw raw' ts s h =
      rw (ends.0, ends.1) (partition identity identity-publish 0 ts)
    where
      ends :
          (s.ts ≡ sent ext timeout clock app_id 0 ts)
          × (s.transactions ≡ kept ext timeout clock app_id 0 ts)
      ends = ground (arith, send_transactions-eq ext timeout clock app_id (some raw) ts)

  others-kept :
      (n : ℕ) (ts : List TransactionNudge)
      → keep_if (λ t. not (is_of_app app_id t)) (kept ext timeout clock app_id n ts)
        ≡ keep_if (λ t. not (is_of_app app_id t)) ts
  unfolding kept keep_if
  others-kept n [] = refl
  others-kept n (t ∷ ts) = elim (Bool-cases (is_of_app app_id t)) [
    | inl e ↦ elim (Verdict-cases (verdict timeout (clock n) (publish_errors t))) [
      | inl v ↦ rw (e, v, kept, is_of_app-publish app_id t, e) (others-kept (n + 1) ts)
      | inr (inl v) ↦ rw (e, v, kept) (others-kept (n + 1) ts)
      | inr (inr v) ↦ rw (e, v, kept) (others-kept (n + 1) ts)
    ]
    | inr e ↦ rw (e, kept) (rw e (ap (λ l. t ∷ l) (others-kept (n + 1) ts)))
  ]

  -- The transactions of the other applications stay in the buffer, unchanged and in their order.
  pub send_transactions-others :
      (raw raw' : RawData) (ts : List TransactionNudge) (s : Loop)
      → send_transactions ext timeout clock app_id (some raw) ts ≡ ok (raw', s)
      → keep_if (λ t. not (is_of_app app_id t)) s.transactions
        ≡ keep_if (λ t. not (is_of_app app_id t)) ts
  send_transactions-others raw raw' ts s h = rw ends (others-kept 0 ts)
    where
      ends : s.transactions ≡ kept ext timeout clock app_id 0 ts
      ends = ground (arith, send_transactions-eq ext timeout clock app_id (some raw) ts)

-- A transaction of the application that is marked as waiting and has not timed out.
abbrev pub IsWaiting : String → ℕ → ℕ → TransactionNudge → Type 0
IsWaiting app_id timeout now t =
    (is_of_app app_id t ≡ true) × (t.tag.urlid ≡ 1) × (has_timed_out timeout now t ≡ false)

waiting-verdict :
    (app_id : String) (timeout now : ℕ) (t : TransactionNudge)
    → IsWaiting app_id timeout now t
    → verdict timeout now (publish_errors t) ≡ keep
unfolding verdict publish_errors
waiting-verdict app_id timeout now t w = ground arith

kept-waiting :
    (ext : ExtensionLinux) (timeout : ℕ) (clock : ℕ → ℕ) (app_id : String) (t : TransactionNudge)
    (ts : List TransactionNudge)
    → IsWaiting app_id timeout (clock 0) t
    → kept ext timeout clock app_id 0 (t ∷ ts)
      ≡ publish_errors t ∷ kept ext timeout clock app_id 1 ts
unfolding kept
kept-waiting ext timeout clock app_id t ts w =
    rw (w.0, waiting-verdict app_id timeout (clock 0) t w, kept) refl

publish_twice :
    (t : TransactionNudge)
    → (publish_errors (publish_errors t)).transaction.errors
      ≡ t.transaction.errors ++ (map to_error t.errors_x ++ map to_error t.errors_x)
unfolding publish_errors
publish_twice t =
    append_assoc t.transaction.errors (map to_error t.errors_x) (map to_error t.errors_x)

-- A defect: SendTransactions appends the errors of a transaction to its message also when the
-- transaction waits. After two calls that return, both for its application or for the empty name, at
-- two clocks by which it has not timed out, a waiting transaction at the front of the buffer is still
-- there, with each of its errors appended twice.
pub send_transactions-errors_twice :
    (ext : ExtensionLinux) (timeout : ℕ) (clock later : ℕ → ℕ) (app_id : String)
    (raw raw' raw'' : RawData) (t : TransactionNudge) (ts : List TransactionNudge) (s s' : Loop)
    → IsWaiting app_id timeout (clock 0) t
    → IsWaiting app_id timeout (later 0) t
    → send_transactions ext timeout clock app_id (some raw) (t ∷ ts) ≡ ok (raw', s)
    → send_transactions ext timeout later app_id (some raw') s.transactions ≡ ok (raw'', s')
    → (u : TransactionNudge) × (us : List TransactionNudge) × (s'.transactions ≡ u ∷ us)
      × (u.transaction.errors
          ≡ t.transaction.errors ++ (map to_error t.errors_x ++ map to_error t.errors_x))
send_transactions-errors_twice ext timeout clock later app_id raw raw' raw'' t ts s s' w w' h h' = (
  publish_errors (publish_errors t),
  kept ext timeout later app_id 1 rest,
  second
      ∙ ap (kept ext timeout later app_id 0) front
      ∙ kept-waiting ext timeout later app_id (publish_errors t) rest
          (unfold publish_errors is_of_app has_timed_out in w'),
  publish_twice t,
)
  where
    rest : List TransactionNudge
    rest = kept ext timeout clock app_id 1 ts

    first : s.transactions ≡ kept ext timeout clock app_id 0 (t ∷ ts)
    first = ground (arith, send_transactions-eq ext timeout clock app_id (some raw) (t ∷ ts))

    front : s.transactions ≡ publish_errors t ∷ rest
    front = first ∙ kept-waiting ext timeout clock app_id t ts w

    second : s'.transactions ≡ kept ext timeout later app_id 0 s.transactions
    second =
        ground (arith, send_transactions-eq ext timeout later app_id (some raw') s.transactions)
