-- ===== src/Nudge/Page/Measures.antt =====
-- What the page shows of the measures, and whose page it is.
use opentelemetry_collector.Nudge.Page.{
  add_stats, starts, stats_traces, start, Config, already_started, slt, served, no_port,
}
use opentelemetry_collector.Nudge.Export.{Mesure}
use opentelemetry_collector.Prelude.{
  ℕ, String, true, false, List, [], ◌∷◌, map, Option, none, some, ◌==◌, ◌+++◌, if◌then◌else◌, ◌≡◌,
  refl, ap, ◌∙◌, inl, inr, Bool-cases,
}

-- The last measure with a name.
abbrev pub last_named : List Mesure → String → Option Mesure
last_named [] key = none
last_named (m ∷ ms) key = elim (last_named ms key) [
  | some n ↦ some n
  | none ↦ if m.name == key then some m else none
]

abbrev or_else : Option Mesure → Option Mesure → Option Mesure
or_else (some n) old = some n
or_else none old = old

add_stats-last_named :
    (stats : String → Option Mesure) (ms : List Mesure) (key : String)
    → add_stats stats ms key ≡ or_else (last_named ms key) (stats key)
unfolding add_stats
add_stats-last_named stats [] key = refl
add_stats-last_named stats (m ∷ ms) key =
    add_stats-last_named (λ k. if m.name == k then some m else stats k) ms key
    ∙ by_rest (last_named ms key)
  where
    by_rest :
        (o : Option Mesure)
        → or_else o (if m.name == key then some m else stats key)
          ≡ or_else
              (elim o as (λ _. Option Mesure) [
                | some n ↦ some n
                | none ↦ if m.name == key then some m else none
              ])
              (stats key)
    by_rest (some n) = refl
    by_rest none = elim (Bool-cases (m.name == key)) [ inl e ↦ rw e refl | inr e ↦ rw e refl ]

-- The page shows under each name the last measure that has it: measures of applications that share
-- a name hide one another.
pub stats_traces-last_named :
    (ms : List Mesure) (key : String) → stats_traces ms key ≡ last_named ms key
unfolding stats_traces
stats_traces-last_named ms key = add_stats-last_named (λ k. none) ms key ∙ same (last_named ms key)
  where
    same : (o : Option Mesure) → or_else o none ≡ o
    same none = refl
    same (some n) = refl

starts-already :
    (itoa : ℕ → String) (cfgs : List Config)
    → starts itoa true cfgs ≡ map (λ cfg. already_started) cfgs
unfolding starts start
starts-already itoa [] = refl
starts-already itoa (cfg ∷ cfgs) = ap (λ l. already_started ∷ l) (starts-already itoa cfgs)

-- Of all exporters of a process only the one that starts first can have a web page: it has one if
-- and only if its port is positive, and every later start serves none, whatever its port is.
pub starts-first :
    (itoa : ℕ → String) (cfg : Config) (cfgs : List Config)
    → starts itoa false (cfg ∷ cfgs)
      ≡ (if slt 0 cfg.debug_port
          then served ("localhost:" +++ itoa cfg.debug_port) (cfg.debug_path +++ "/index.html")
          else no_port)
        ∷ map (λ cfg. already_started) cfgs
unfolding starts start
starts-first itoa cfg cfgs = ap (λ l. start itoa false cfg ∷ l) (starts-already itoa cfgs)
