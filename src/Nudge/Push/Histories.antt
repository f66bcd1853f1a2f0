-- ===== src/Nudge/Push/Histories.antt =====
-- The life of an exporter of traces: it is created, and then each push starts from the state that
-- the last one left. The measures and the number of the next file are shared with other exporters
-- and may be anything at each push; so may the clock, the replies and new raw data.
use mathlib.Core.List.{map-append}
use opentelemetry_collector.Nudge.Push.Passes.{push_loop-Holds}
use opentelemetry_collector.Nudge.Push.Dumps.{IsDumped, push_traces-IsDumped}
use opentelemetry_collector.Nudge.Result.{Ensures, Ensures-ok, Ensures-then, Ensures-imp}
use opentelemetry_collector.Nudge.Translate.Runs.{spans_of}
use opentelemetry_collector.Nudge.Push.{
  Pushing, push_traces, ok, Translation, translate, application_ids,
}
use opentelemetry_collector.Nudge.Translate.{Resource}
use opentelemetry_collector.Nudge.Translate.Steps.{trace_of}
use opentelemetry_collector.Nudge.Factory.{new_nudge_exporter}
use opentelemetry_collector.Nudge.Push.Buffer.{IsWellFormed, kept-All, push_traces-IsWellFormed}
use opentelemetry_collector.Nudge.Spans.{Span}
use opentelemetry_collector.Nudge.Export.{Exporter, Mesure}
use opentelemetry_collector.Nudge.Response.{Externals, Decoders, Reply}
use opentelemetry_collector.Nudge.Config.{Config, EncodingType}
use opentelemetry_collector.Nudge.Translate.Traces.{add_names, uuid_text, translate-names}
use opentelemetry_collector.Nudge.Spans.Opening.{Environment}
use opentelemetry_collector.Nudge.Send.{publish_errors}
use opentelemetry_collector.Nudge.Push.Applications.{contains, contains-append}
use opentelemetry_collector.Nudge.Model.{TransactionNudge, RawData}
use opentelemetry_collector.Prelude.{
  ℕ, String, true, List, [], ◌∷◌, ◌++◌, map, Option, ◌≡◌, refl, sym, ◌∙◌, subst, inl, inr, arith,
  All, Bool-cases, All-append, eq_refl, All-imp,
}

-- The states that an exporter reaches, with the spans that it was given. A push that panics ends
-- the process.
pub data History (env : Environment) (x : Externals) (d : Decoders)
    (marshal : EncodingType → RawData → Option String) (traces_url : String) (cfg : Config)
    : List Span → Exporter → Type 0 where
  fresh : History env x d marshal traces_url cfg [] (new_nudge_exporter cfg)
  pushed :
      {spans : List Span} {e : Exporter} (clock : ℕ → ℕ) (ms : List Mesure) (n : ℕ)
      (created : RawData) (rs : List Resource) (replies : ℕ → Reply) (p : Pushing)
      → History env x d marshal traces_url cfg spans e
      → push_traces env x d marshal clock traces_url e ms n created rs replies ≡ ok p
      → History env x d marshal traces_url cfg (spans ++ spans_of rs) p.exporter

-- The trace of every transaction of a buffer is among some names.
abbrev pub AllKnown : List String → List TransactionNudge → Type 0
AllKnown names ts = All (λ t. contains names (uuid_text t) ≡ true) ts

-- What holds of every state that an exporter reaches.
pub record IsReached (env : Environment) (cfg : Config) (spans : List Span) (e : Exporter)
    : Type 0 where
  pub config : e.config ≡ cfg
  pub well_formed : IsWellFormed e.transactions
  pub known : AllKnown (map (trace_of env) spans) e.transactions

AllKnown-map :
    (names : List String) (ts : List TransactionNudge)
    → All (λ s. contains names s ≡ true) (map uuid_text ts)
    → AllKnown names ts
AllKnown-map names [] h = tt
AllKnown-map names (t ∷ ts) h = (h.0, AllKnown-map names ts h.1)

map-AllKnown :
    (names : List String) (ts : List TransactionNudge)
    → AllKnown names ts
    → All (λ s. contains names s ≡ true) (map uuid_text ts)
map-AllKnown names [] h = tt
map-AllKnown names (t ∷ ts) h = (h.0, map-AllKnown names ts h.1)

contains-left :
    (xs ys : List String) (s : String) → contains xs s ≡ true → contains (xs ++ ys) s ≡ true
contains-left xs ys s h = ground (arith, contains-append xs ys s)

contains-right :
    (xs ys : List String) (s : String) → contains ys s ≡ true → contains (xs ++ ys) s ≡ true
contains-right xs ys s h = ground (arith, contains-append xs ys s)

-- The names that add_names adds.
add_names-All :
    (P : String → Type 0) (names xs : List String)
    → All P names
    → All P xs
    → All P (add_names names xs)
add_names-All P names [] h k = h
add_names-All P names (x ∷ xs) h k = elim (Bool-cases (contains names x)) [
  | inl e ↦ rw e (add_names-All P names xs h k.1)
  | inr e ↦
      rw e (add_names-All P (names ++ x ∷ []) xs (All-append P names (x ∷ []) h (k.0, tt)) k.1)
]

contains_self : (xs : List String) → All (λ s. contains xs s ≡ true) xs
contains_self [] = tt
contains_self (x ∷ xs) =
    (ground (arith, eq_refl x), All-imp (λ s h. ground (arith, h)) xs (contains_self xs))

publish_errors-known :
    (names : List String) (t : TransactionNudge)
    → contains names (uuid_text t) ≡ true
    → contains names (uuid_text (publish_errors t)) ≡ true
unfolding publish_errors
publish_errors-known names t h = h

translate-AllKnown :
    (env : Environment) (rs : List Resource) (tr : Translation) (names : List String)
    → AllKnown names tr.transactions
    → Ensures
        (λ (q : Translation). AllKnown (names ++ map (trace_of env) (spans_of rs)) q.transactions)
        (translate env rs tr)
translate-AllKnown env rs tr names h =
    let traces = map (trace_of env) (spans_of rs) in
    let all : String → Type 0 = λ s. contains (names ++ traces) s ≡ true in
    Ensures-imp _ _
      (λ (q : Translation) e. AllKnown-map (names ++ traces) q.transactions (
        subst (All all) (sym e) (
          add_names-All all (map uuid_text tr.transactions) traces
            (All-imp (contains-left names traces) (map uuid_text tr.transactions)
              (map-AllKnown names tr.transactions h))
            (All-imp (contains-right names traces) traces (contains_self traces)))))
      (translate-names env rs tr)

module _ (env : Environment) (x : Externals) (d : Decoders)
    (marshal : EncodingType → RawData → Option String) (traces_url : String) (cfg : Config) where
  push_traces-AllKnown :
      (clock : ℕ → ℕ) (e : Exporter) (ms : List Mesure) (n : ℕ) (created : RawData)
      (rs : List Resource) (replies : ℕ → Reply) (names : List String)
      → AllKnown names e.transactions
      → Ensures
          (λ (p : Pushing).
            AllKnown (names ++ map (trace_of env) (spans_of rs)) p.exporter.transactions)
          (push_traces env x d marshal clock traces_url e ms n created rs replies)
  unfolding push_traces
  push_traces-AllKnown clock e ms n created rs replies names h =
      let all = names ++ map (trace_of env) (spans_of rs) in
      Ensures-then (λ (q : Translation). AllKnown all q.transactions) _
        (translate-AllKnown (record env { config = e.config }) rs _ names h)
        (λ q k.
          push_loop-Holds (AllKnown all)
            (λ ext timeout clock app n ts.
              kept-All (λ t. contains all (uuid_text t) ≡ true) (publish_errors-known all) ext
                timeout clock app n ts)
            env.ext x d marshal clock traces_url _ (application_ids q.transactions) replies k)

  -- Whatever an exporter of traces is given, in any number of pushes that return, its configuration
  -- is the one it was created with, every transaction of its buffer is marked as finished or as
  -- waiting, no trace has two transactions, and every transaction is that of a trace of some span
  -- that it was given.
  pub History-IsReached :
      (spans : List Span) (e : Exporter)
      → History env x d marshal traces_url cfg spans e
      → IsReached env cfg spans e
  unfolding new_nudge_exporter
  History-IsReached _ _ fresh = record {
    config = refl;
    well_formed = record { pending = tt; distinct = refl };
    known = tt;
  }
  History-IsReached _ _ (pushed {spans} {e} clock ms n created rs replies p h returns) =
      let before = History-IsReached spans e h in
      record {
        config =
            (Ensures-ok (IsDumped e.config x n) p returns (
              push_traces-IsDumped env x d marshal clock traces_url e ms n created rs
                replies)).config_kept
            ∙ before.config;
        well_formed =
            Ensures-ok (λ (p : Pushing). IsWellFormed p.exporter.transactions) p returns
              (push_traces-IsWellFormed env x d marshal clock traces_url e ms n created rs replies
                before.well_formed);
        known =
            subst (λ names. AllKnown names p.exporter.transactions)
              (sym (map-append (trace_of env) spans (spans_of rs)))
              (Ensures-ok
                (λ (p : Pushing).
                  AllKnown (map (trace_of env) spans ++ map (trace_of env) (spans_of rs))
                    p.exporter.transactions)
                p returns
                (push_traces-AllKnown clock e ms n created rs replies (map (trace_of env) spans)
                  before.known));
      }
