-- ===== src/Nudge/Push/Measures.antt =====
-- The measures of the applications, through the pushes of traces.
use opentelemetry_collector.Nudge.Send.{set}
use opentelemetry_collector.Nudge.Result.{Ensures, Ensures-bind, returned}
use opentelemetry_collector.Nudge.Translate.Search.{Found, found, missing, set-place, find-Found}
use opentelemetry_collector.Nudge.Push.Passes.{state_of, push_loop-inv}
use opentelemetry_collector.Nudge.Push.{
  Round, count_round, deliver, Pushing, Loop, or_else, write_back, first, encode, push_round,
  push_traces, Environment, add_request, send_transactions, Resource, translate, application_ids,
  new_mesure,
}
use opentelemetry_collector.Nudge.Model.{RawData}
use opentelemetry_collector.Nudge.Config.{EncodingType}
use opentelemetry_collector.Nudge.Extension.{ExtensionLinux}
use opentelemetry_collector.Nudge.Translate.Totals.{All-replace, All-at}
use opentelemetry_collector.Nudge.Push.Applications.{contains, distinct, distinct-snoc}
use opentelemetry_collector.Nudge.Export.Counters.{IsBalanced, count_reply-IsBalanced}
use opentelemetry_collector.Nudge.Export.{Mesure, export, Exporter, count_reply, known_encoding}
use opentelemetry_collector.Nudge.Response.{Externals, Decoders, Reply}
use mathlib.Core.List.{map-append}
use opentelemetry_collector.Prelude.{
  ℕ, String, true, false, not, ◌||◌, List, [], ◌∷◌, ◌++◌, map, Option, none, some, ◌==◌, ◌≡◌, refl,
  sym, ap, ◌∙◌, subst, inl, inr, arith, All, Bool-cases, length, any, All-append,
}

abbrev pub ids_of : List Mesure → List String
ids_of ms = map (λ (m : Mesure). m.identifiant) ms

-- No application has two measures, and in each the requests are the successes and the errors.
pub record IsCounted (ms : List Mesure) : Type 0 where
  pub distinct_ids : distinct (ids_of ms) ≡ true
  pub balanced : All IsBalanced ms

contains-ids :
    (ms : List Mesure) (id : String)
    → contains (ids_of ms) id ≡ any (λ (m : Mesure). m.identifiant == id) ms
contains-ids [] id = refl
contains-ids (m ∷ ms) id = ap (λ b. m.identifiant == id || b) (contains-ids ms id)

-- A measure in the place of one with the same identifier.
IsCounted-replace :
    (before : List Mesure) (m m' : Mesure) (after : List Mesure)
    → m'.identifiant ≡ m.identifiant
    → IsBalanced m'
    → IsCounted (before ++ m ∷ after)
    → IsCounted (before ++ m' ∷ after)
IsCounted-replace before m m' after e b h = record {
  distinct_ids =
      subst (λ ids. distinct ids ≡ true)
        (map-append (λ (m : Mesure). m.identifiant) before (m ∷ after)
          ∙ ap (λ id. ids_of before ++ id ∷ ids_of after) (sym e)
          ∙ sym (map-append (λ (m : Mesure). m.identifiant) before (m' ∷ after)))
        h.distinct_ids;
  balanced = All-replace IsBalanced before m m' after h.balanced b;
}

-- A measure for an application that has none.
IsCounted-new :
    (ms : List Mesure) (m : Mesure)
    → any (λ (n : Mesure). n.identifiant == m.identifiant) ms ≡ false
    → IsBalanced m
    → IsCounted ms
    → IsCounted (ms ++ m ∷ [])
IsCounted-new ms m n b h = record {
  distinct_ids =
      subst (λ ids. distinct ids ≡ true)
        (sym (map-append (λ (m : Mesure). m.identifiant) ms (m ∷ [])))
        (distinct-snoc (ids_of ms) m.identifiant h.distinct_ids
          (contains-ids ms m.identifiant ∙ n));
  balanced = All-append IsBalanced ms (m ∷ []) h.balanced (b, tt);
}

-- What export makes of a measure.
record IsSuccessor (m : Mesure) (o : Option Mesure) : Type 0 where
  pub new : Mesure
  pub there : o ≡ some new
  pub same_id : new.identifiant ≡ m.identifiant
  pub balanced : IsBalanced m → IsBalanced new

export-IsSuccessor :
    (x : Externals) (d : Decoders) (e : Exporter) (url : String) (m : Mesure) (reply : Reply)
    → IsSuccessor m (export x d e url (some m) reply).mesure
unfolding export count_reply
export-IsSuccessor x d e url m reply =
    elim (Bool-cases (not (x.request_accepts e.config.method url))) [
      | inl a ↦ rw a (record { new = m; there = refl; same_id = refl; balanced = λ b. b })
      | inr a ↦ elim (Bool-cases (not (known_encoding e.config.encoding))) [
        | inl b ↦ rw (a, b) (record { new = m; there = refl; same_id = refl; balanced = λ b. b })
        | inr b ↦
            rw (a, b)
              (record {
                new = count_reply reply m;
                there = refl;
                same_id = refl;
                balanced = count_reply-IsBalanced reply m;
              })
      ]
    ]

module _ (ext : ExtensionLinux) (x : Externals) (d : Decoders)
    (marshal : EncodingType → RawData → Option String) (clock : ℕ → ℕ) (traces_url : String) where
  abbrev Counted : Round → Type 0
  Counted r = IsCounted (state_of r).mesures

  -- The end of a round without a pointer to a measure.
  deliver-none :
      (p : Pushing) (raw : RawData) (s : Loop) (request : Option String) (reply : Reply)
      (ms : List Mesure)
      → IsCounted ms
      → Counted (deliver ext x d marshal clock traces_url p raw s request reply ms none)
  unfolding deliver
  deliver-none p raw s none reply ms h = h
  deliver-none p raw s (some body) reply ms h = h

  -- The end of a round with the measure at its place.
  deliver-some :
      (p : Pushing) (raw : RawData) (s : Loop) (request : Option String) (reply : Reply)
      (before : List Mesure) (m : Mesure) (after : List Mesure)
      → IsBalanced m
      → IsCounted (before ++ m ∷ after)
      → Counted (
          deliver ext x d marshal clock traces_url p raw s request reply
            (before ++ m ∷ after)
            (some (m, length before)))
  unfolding deliver
  deliver-some p raw s none reply before m after b h = h
  deliver-some p raw s (some body) reply before m after b h =
      let e : Exporter = record p.exporter { rawdata = some raw; transactions = s.transactions } in
      let url = or_else s.url_app_id traces_url in
      let new = export-IsSuccessor x d e url m reply in
      subst (λ o. IsCounted (write_back (before ++ m ∷ after) (length before) o)) (sym new.there)
        (subst IsCounted (sym (set-place before m new.new after))
          (IsCounted-replace before m new.new after new.same_id (new.balanced b) h))

  count_round-Counted :
      (p : Pushing) (id : String) (raw : RawData) (s : Loop) (reply : Reply)
      (f : Option (Mesure × ℕ))
      → ext.find Mesure p.mesures (λ m. m.identifiant == id) ≡ f
      → Found (λ (m : Mesure). m.identifiant == id) 0 p.mesures f
      → IsCounted p.mesures
      → Ensures Counted (count_round ext x d marshal clock traces_url p id raw s reply)
  unfolding count_round
  count_round-Counted p id raw s reply _ e (missing n) h =
      let request = encode marshal p.exporter.config.encoding raw in
      rw (e, count_round)
        (Ensures-bind Counted (first s.ts) _ (λ t.
          let new = new_mesure id t.tag.statistique_name (length s.ts) request in
          returned (
            deliver-none p raw s request reply (p.mesures ++ new ∷ [])
              (IsCounted-new p.mesures new n refl h))))
  count_round-Counted p id raw s reply _ e (found {i} before m after w at n k) h =
      let request = encode marshal p.exporter.config.encoding raw in
      let m' = add_request raw request m in
      let at : i ≡ length before = omega arith in
      let h' = subst IsCounted w h in
      let b = All-at IsBalanced before m after h'.balanced in
      let placed = ap (λ l. set l (length before) m') w ∙ set-place before m m' after in
      rw (e, count_round)
        (returned (
          subst
            (λ j. Counted (
              deliver ext x d marshal clock traces_url p raw s request reply (set p.mesures j m')
                (some (m', j))))
            (sym at)
            (subst
              (λ ms. Counted (
                deliver ext x d marshal clock traces_url p raw s request reply ms
                  (some (m', length before))))
              (sym placed)
              (deliver-some p raw s request reply before m' after b
                (IsCounted-replace before m m' after refl b h')))))

  push_round-Counted :
      (p : Pushing) (id : String) (reply : Reply)
      → IsCounted p.mesures
      → Ensures Counted (push_round ext x d marshal clock traces_url p id reply)
  unfolding push_round
  push_round-Counted p id reply h = elim (Bool-cases (id == "")) [
    | inl e ↦ rw (e, push_round) (returned h)
    | inr e ↦
        rw (e, push_round)
          (Ensures-bind _
            (send_transactions ext p.exporter.config.timeout_buffer_transaction clock id
              p.exporter.rawdata p.exporter.transactions)
            _
            (λ r.
              count_round-Counted p id r.0 r.1 reply _ refl
                (find-Found ext (λ (m : Mesure). m.identifiant == id) p.mesures) h))
  ]

-- If no application has two measures and in each measure the requests are the successes and the
-- errors, modulo 2 ^ 64, both hold after every push of traces that returns.
pub push_traces-IsCounted :
    (env : Environment) (x : Externals) (d : Decoders)
    (marshal : EncodingType → RawData → Option String) (clock : ℕ → ℕ) (traces_url : String)
    (e : Exporter) (ms : List Mesure) (n : ℕ) (created : RawData) (rs : List Resource)
    (replies : ℕ → Reply)
    → IsCounted ms
    → Ensures
        (λ (p : Pushing). IsCounted p.mesures)
        (push_traces env x d marshal clock traces_url e ms n created rs replies)
unfolding push_traces
push_traces-IsCounted env x d marshal clock traces_url e ms n created rs replies h =
    Ensures-bind _ (translate (record env { config = e.config }) rs _) _ (λ q.
      push_loop-inv env.ext x d marshal clock traces_url (λ p. IsCounted p.mesures)
        (push_round-Counted env.ext x d marshal clock traces_url) _ (application_ids q.transactions)
        replies h)
