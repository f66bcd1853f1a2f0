-- ===== src/Nudge/Send/Rounds.antt =====
-- The loop of `SendTransactions` computes one pass over the buffer.
use opentelemetry_collector.Prelude.{
  ℕ, zero, suc, ◌+◌, ◌≤◌, String, List, [], ◌∷◌, ◌++◌, map, Option, none, some, length,
  length-append, get_elem?, ◌≡◌, refl, ap, if◌then◌else◌, arith, append-nil, append_assoc,
  Bool-cases, inl, inr, ◌⊎◌,
}
use opentelemetry_collector.Nudge.Extension.{ExtensionLinux, remove_at}
use opentelemetry_collector.Nudge.Result.{ok, panic, nil_dereference}
use opentelemetry_collector.Nudge.Model.{Transaction, TransactionNudge, RawData}
use opentelemetry_collector.Nudge.Send.{
  set, publish_errors, Verdict, keep, discard, send, verdict, is_of_app, Loop, first_url, send_loop,
  send_transactions,
}

module _ {A : Type 0} where
  get_elem?-middle :
      (xs : List A) (y : A) (zs : List A) → get_elem? (xs ++ y ∷ zs) (length xs) ≡ some y
  get_elem?-middle [] y zs = refl
  get_elem?-middle (x ∷ xs) y zs = get_elem?-middle xs y zs

  get_elem?-end : (xs : List A) → get_elem? (xs ++ []) (length xs) ≡ none
  get_elem?-end [] = refl
  get_elem?-end (x ∷ xs) = get_elem?-end xs

  set-middle :
      (xs : List A) (y v : A) (zs : List A) → set (xs ++ y ∷ zs) (length xs) v ≡ xs ++ v ∷ zs
  set-middle [] y v zs = refl
  set-middle (x ∷ xs) y v zs = ap (λ l. x ∷ l) (set-middle xs y v zs)

  remove_at-middle :
      (xs : List A) (y : A) (zs : List A) → remove_at (xs ++ y ∷ zs) (length xs) ≡ xs ++ zs
  unfolding remove_at
  remove_at-middle [] y zs = refl
  remove_at-middle (x ∷ xs) y zs = ap (λ l. x ∷ l) (remove_at-middle xs y zs)

  length-snoc : (xs : List A) (y : A) → length (xs ++ y ∷ []) ≡ length xs + 1
  length-snoc xs y = omega (arith, length-append xs (y ∷ []))

  snoc-append : (xs : List A) (y : A) (zs : List A) → (xs ++ y ∷ []) ++ zs ≡ xs ++ y ∷ zs
  snoc-append xs y zs = append_assoc xs (y ∷ []) zs

pub Verdict-cases : (v : Verdict) → (v ≡ keep) ⊎ ((v ≡ discard) ⊎ (v ≡ send))
Verdict-cases keep = inl refl
Verdict-cases discard = inr (inl refl)
Verdict-cases send = inr (inr refl)

module _ (ext : ExtensionLinux) (timeout : ℕ) (clock : ℕ → ℕ) (app_id : String) where
  -- What the pass leaves in the buffer, from round `n` on: transactions of other applications as
  -- they were, and those that go on waiting with their errors published.
  unfoldable pub kept : ℕ → List TransactionNudge → List TransactionNudge
  kept n [] = []
  kept n (t ∷ ts) =
      let rest = kept (n + 1) ts in
      if is_of_app app_id t
      then elim (verdict timeout (clock n) (publish_errors t)) [
        | keep ↦ publish_errors t ∷ rest
        | discard ↦ rest
        | send ↦ rest
      ]
      else t ∷ rest

  -- What it sends, in the order of the buffer.
  unfoldable pub sent : ℕ → List TransactionNudge → List TransactionNudge
  sent n [] = []
  sent n (t ∷ ts) =
      let rest = sent (n + 1) ts in
      if is_of_app app_id t
      then elim (verdict timeout (clock n) (publish_errors t)) [
        | keep ↦ rest
        | discard ↦ rest
        | send ↦ publish_errors t ∷ rest
      ]
      else rest

  -- The languages and the URL that a run of sent transactions adds to those before it.
  unfoldable pub add_languages : List String → List TransactionNudge → List String
  add_languages ls [] = ls
  add_languages ls (t ∷ ts) = add_languages (ext.append_unique ls t.tag.language) ts

  unfoldable pub add_url : Option String → List TransactionNudge → Option String
  add_url u [] = u
  add_url u (t ∷ ts) = add_url (first_url app_id u t.tag.url_app_id) ts

  abbrev pub loop_of :
      List TransactionNudge
      → List Transaction
      → List TransactionNudge
      → List String
      → Option String
      → Loop
  loop_of transactions raw ts ls u = record {
    transactions = transactions;
    raw = raw;
    ts = ts;
    languages = ls;
    url_app_id = u;
  }

  abbrev pub transactions_of : List TransactionNudge → List Transaction
  transactions_of ts = map (λ (t : TransactionNudge). t.transaction) ts

  splice_middle :
      (done : List TransactionNudge) (x : TransactionNudge) (rest : List TransactionNudge)
      → ext.splice TransactionNudge
          (set (done ++ x ∷ rest) (length done) (publish_errors x))
          (length done)
          1
        ≡ done ++ rest
  splice_middle done x rest =
      rw (set-middle done x (publish_errors x) rest, ext.splice_lem)
        (remove_at-middle done (publish_errors x) rest)

  send_loop-eq :
      (fuel : ℕ) (done rest : List TransactionNudge) (n : ℕ) (raw : List Transaction)
      (ts : List TransactionNudge) (ls : List String) (u : Option String)
      → length rest ≤ fuel
      → send_loop ext timeout clock app_id fuel (length done) n (loop_of (done ++ rest) raw ts ls u)
        ≡ loop_of
            (done ++ kept n rest)
            (raw ++ transactions_of (sent n rest))
            (ts ++ sent n rest)
            (add_languages ls (sent n rest))
            (add_url u (sent n rest))
  unfolding send_loop kept sent add_languages add_url
  send_loop-eq zero done [] n raw ts ls u h = simp append-nil
  send_loop-eq zero done (x ∷ rest) n raw ts ls u h = absurd (omega arith)
  send_loop-eq (suc f) done [] n raw ts ls u h =
      rw (get_elem?-end done, send_loop) (simp append-nil)
  send_loop-eq (suc f) done (x ∷ rest) n raw ts ls u h =
      rw (get_elem?-middle done x rest, send_loop)
        (elim (Bool-cases (is_of_app app_id x)) [
          | inl e ↦ elim (Verdict-cases (verdict timeout (clock n) (publish_errors x))) [
            | inl v ↦
                rw (e, v, set-middle done x (publish_errors x) rest)
                  (rw
                    (
                      length-snoc done (publish_errors x),
                      snoc-append done (publish_errors x) rest,
                      snoc-append done (publish_errors x) (kept (n + 1) rest),
                    )
                    at
                    (send_loop-eq f (done ++ publish_errors x ∷ []) rest (n + 1) raw ts ls u
                      (omega arith)))
            | inr (inl v) ↦
                rw (e, v, splice_middle done x rest)
                  (send_loop-eq f done rest (n + 1) raw ts ls u (omega arith))
            | inr (inr v) ↦
                rw (e, v, splice_middle done x rest)
                  (simp append_assoc at (
                    send_loop-eq f done rest (n + 1) (raw ++ (publish_errors x).transaction ∷ [])
                      (ts ++ publish_errors x ∷ []) (ext.append_unique ls x.tag.language)
                      (first_url app_id u x.tag.url_app_id) (omega arith)))
          ]
          | inr e ↦ rw e (
              rw
                (
                  length-snoc done x,
                  snoc-append done x rest,
                  snoc-append done x (kept (n + 1) rest),
                )
                at (send_loop-eq f (done ++ x ∷ []) rest (n + 1) raw ts ls u (omega arith)))
        ])

  -- For every buffer, raw data, application, timeout and clock: SendTransactions panics exactly if
  -- there is no raw data, and otherwise its indexed loop, with as many rounds as the buffer is
  -- long, is one pass: the buffer keeps `kept`, and `sent` is appended to the raw data, is what is
  -- returned, and gives the languages and the URL.
  pub send_transactions-eq :
      (rawdata : Option RawData) (ts : List TransactionNudge)
      → send_transactions ext timeout clock app_id rawdata ts ≡ elim rawdata [
        | none ↦ panic nil_dereference
        | some raw ↦ ok (
          record raw { transactions = raw.transactions ++ transactions_of (sent 0 ts) },
          loop_of
              (kept 0 ts)
              (raw.transactions ++ transactions_of (sent 0 ts))
              (sent 0 ts)
              (add_languages [] (sent 0 ts))
              (add_url none (sent 0 ts)),
        )
      ]
  unfolding send_transactions
  send_transactions-eq none ts = refl
  send_transactions-eq (some raw) ts =
      rw (send_loop-eq (length ts) [] ts 0 raw.transactions [] [] none (omega arith)) refl
