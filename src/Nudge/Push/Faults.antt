-- ===== src/Nudge/Push/Faults.antt =====
-- Two faults of `pushTraces`: batches of several applications, and batches of which nothing is due.
use opentelemetry_collector.Prelude.{
  ℕ, suc, ◌+◌, ◌≤◌, String, true, false, List, [], ◌∷◌, Option, none, some, ◌≡◌, refl, sym, ◌∙◌,
  ◌⊎◌, inl, inr, arith, ◌==◌, if◌then◌else◌, Bool-cases, subst,
}
use opentelemetry_collector.Nudge.Extension.{ExtensionLinux}
use opentelemetry_collector.Nudge.Result.{
  Result, ok, panic, nil_dereference, Ensures, Ensures-bind, returned,
}
use opentelemetry_collector.Nudge.Push.Passes.{count_round-inv}
use opentelemetry_collector.Nudge.Config.{
  EncodingType, encoding_proto, encoding_json, encoding_other,
}
use opentelemetry_collector.Nudge.Model.{RawData}
use opentelemetry_collector.Nudge.Send.{Loop, send_transactions}
use opentelemetry_collector.Nudge.Export.{Exporter, Mesure, export}
use opentelemetry_collector.Nudge.Response.{Reply, Externals, Decoders}
use opentelemetry_collector.Nudge.Push.{
  Pushing, Round, go_on, returns, PushError, marshal_failed, invalid_encoding, deliver, or_else,
  encoding_error, push_round, push_loop, pointer,
}

-- How many of the application ids have a name.
abbrev pub named : List String → ℕ
named [] = 0
named (id ∷ ids) = if id == "" then named ids else suc (named ids)

-- pushTraces gave up because the raw data could not be encoded.
abbrev pub IsUnencoded : Option PushError → Type 0
IsUnencoded e = (e ≡ some marshal_failed) ⊎ (e ≡ some invalid_encoding)

-- What a round leads to: a return for want of an encoding, or no raw data.
abbrev Spent : Round → Type 0
Spent (returns q) = IsUnencoded q.error
Spent (go_on q) = q.exporter.rawdata ≡ none

encoding_error-IsUnencoded : (e : EncodingType) → IsUnencoded (some (encoding_error e))
encoding_error-IsUnencoded encoding_proto = inl refl
encoding_error-IsUnencoded encoding_json = inl refl
encoding_error-IsUnencoded (encoding_other s) = inr refl

export-flushes :
    (x : Externals) (d : Decoders) (e : Exporter) (url : String) (m : Option Mesure) (reply : Reply)
    → (export x d e url m reply).exporter.rawdata ≡ none
unfolding export
export-flushes x d e url m reply = ground arith

same : (p q : Pushing) → ok p ≡ ok q → p ≡ q
same p q e = cc

module _ (ext : ExtensionLinux) (x : Externals) (d : Decoders)
    (marshal : EncodingType → RawData → Option String) (clock : ℕ → ℕ) (traces_url : String) where
  deliver-Spent :
      (p : Pushing) (raw : RawData) (s : Loop) (request : Option String) (reply : Reply)
      (ms : List Mesure) (found : Option (Mesure × ℕ))
      → Spent (deliver ext x d marshal clock traces_url p raw s request reply ms found)
  unfolding deliver
  deliver-Spent p raw s none reply ms found = encoding_error-IsUnencoded p.exporter.config.encoding
  deliver-Spent p raw s (some body) reply ms found =
      export-flushes x d (record p.exporter { rawdata = some raw; transactions = s.transactions })
        (or_else s.url_app_id traces_url) (pointer found) reply

  push_round-Spent :
      (p : Pushing) (id : String) (reply : Reply)
      → (id == "") ≡ false
      → Ensures Spent (push_round ext x d marshal clock traces_url p id reply)
  unfolding push_round
  push_round-Spent p id reply n =
      rw (n, push_round)
        (Ensures-bind Spent
          (send_transactions ext p.exporter.config.timeout_buffer_transaction clock id
            p.exporter.rawdata p.exporter.transactions)
          _
          (λ r.
            count_round-inv ext x d marshal clock traces_url Spent p id r.0 r.1 reply
              (λ request ms found. deliver-Spent p r.0 r.1 request reply ms found)))

  -- With no raw data a named application is a nil dereference.
  no_rawdata :
      (p : Pushing) (ids : List String) (replies : ℕ → Reply)
      → p.exporter.rawdata ≡ none
      → 1 ≤ named ids
      → push_loop ext x d marshal clock traces_url p ids replies ≡ panic nil_dereference
  unfolding push_loop push_round send_transactions
  no_rawdata p [] replies r h = absurd (omega arith)
  no_rawdata p (id ∷ ids) replies r h = elim (Bool-cases (id == "")) [
    | inl e ↦
        rw (e, push_loop, push_round)
          (no_rawdata p ids (λ n. replies (n + 1)) r
            (subst (λ b. 1 ≤ (if b then named ids else suc (named ids))) e h))
    | inr e ↦ rw (e, r, push_loop, push_round, send_transactions) refl
  ]

  two_left : (ids : List String) → 2 ≤ suc (named ids) → 1 ≤ named ids
  two_left ids h = omega arith

  after_round :
      (ids : List String) (replies : ℕ → Reply) (q : Pushing) (r : Result Round)
      → Ensures Spent r
      → 1 ≤ named ids
      → elim r [
        | panic f ↦ panic f
        | ok (returns q) ↦ ok q
        | ok (go_on q) ↦ push_loop ext x d marshal clock traces_url q ids replies
      ]
        ≡ ok q
      → IsUnencoded q.error
  after_round ids replies q (panic f) s h e = absurd (cc)
  after_round ids replies q (ok (returns r)) (returned s) h e =
      subst (λ (u : Pushing). IsUnencoded u.error) (same r q e) s
  after_round ids replies q (ok (go_on r)) (returned s) h e =
      let n = no_rawdata r ids replies s h in absurd (cc)

  skips :
      (p : Pushing) (id : String) (ids : List String) (replies : ℕ → Reply)
      → (id == "") ≡ true
      → push_loop ext x d marshal clock traces_url p (id ∷ ids) replies
        ≡ push_loop ext x d marshal clock traces_url p ids (λ n. replies (n + 1))
  unfolding push_loop push_round
  skips p id ids replies v = rw (v, push_loop, push_round) refl

  -- A batch with at least two application ids that are not empty is never delivered: pushTraces
  -- panics or returns an encoding error.
  pub push_loop-several :
      (p : Pushing) (ids : List String) (replies : ℕ → Reply) (q : Pushing)
      → 2 ≤ named ids
      → push_loop ext x d marshal clock traces_url p ids replies ≡ ok q
      → IsUnencoded q.error
  unfolding push_loop push_round
  push_loop-several p [] replies q h e = absurd (omega arith)
  push_loop-several p (id ∷ ids) replies q h e = elim (Bool-cases (id == "")) [
    | inl v ↦
        push_loop-several p ids (λ n. replies (n + 1)) q
          (subst (λ b. 2 ≤ (if b then named ids else suc (named ids))) v h)
          (sym (skips p id ids replies v) ∙ e)
    | inr v ↦
        after_round ids (λ n. replies (n + 1)) q
          (push_round ext x d marshal clock traces_url p id (replies 0))
          (push_round-Spent p id (replies 0) v)
          (two_left ids (subst (λ b. 2 ≤ (if b then named ids else suc (named ids))) v h)) e
  ]
