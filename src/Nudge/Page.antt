-- ===== src/Nudge/Page.antt =====
-- `start`: the web page of the exporter with the measures of all applications. The exporter's HTTP
-- client, the listening of the server, the static files and the title and times on the page are left
-- out; the template and the decimal text of a number are parameters.
pub mod Measures
use opentelemetry_collector.Nudge.Export.{Mesure}
use opentelemetry_collector.Nudge.Config.{Config}
use opentelemetry_collector.Prelude.{
  ℕ, zero, suc, ◌+◌, ◌-◌, ◌%◌, ◌^◌, ◌≤◌, ◌<◌, String, len, slice, Bool, true, false, not, ◌&&◌,
  ◌||◌, List, [], ◌∷◌, ◌++◌, map, Option, none, some, ◌==◌, ◌+++◌, if◌then◌else◌, ◌≡◌, ◌≢◌, refl,
  sym, ap, ◌∙◌, subst, ◌⊎◌, inl, inr, arith, All, Bool-cases, Option-cases, eq_iff, eqb, length,
  any, slt,
}

-- What a start makes of the process's web server: `sync.Once` lets the first one through.
pub data Startup : Type 0 where
  already_started no_port : Startup
  served : (addr : String) → (route : String) → Startup

-- start, given whether an exporter was started before; a port is an int64
unfoldable pub start : (ℕ → String) → Bool → Config → Startup
start itoa once_done cfg =
    if once_done
    then already_started
    else if slt 0 cfg.debug_port
    then served ("localhost:" +++ itoa cfg.debug_port) (cfg.debug_path +++ "/index.html")
    else no_port

-- the starts of the exporters of a process, in their order
unfoldable pub starts : (ℕ → String) → Bool → List Config → List Startup
unfolding start
starts itoa once_done [] = []
starts itoa once_done (cfg ∷ cfgs) = start itoa once_done cfg ∷ starts itoa true cfgs

-- a map of Go, from the names of measures
abbrev assign : (String → Option Mesure) → String → Mesure → String → Option Mesure
assign stats name m key = if name == key then some m else stats key

-- stats_Traces: the loop over the measures
unfoldable pub add_stats : (String → Option Mesure) → List Mesure → String → Option Mesure
add_stats stats [] = stats
add_stats stats (m ∷ ms) = add_stats (assign stats m.name m) ms

unfoldable pub stats_traces : List Mesure → String → Option Mesure
unfolding add_stats
stats_traces ms = add_stats (λ key. none) ms

-- the data of the page
pub record PageData : Type 0 where
  pub nudgehttp : Config
  pub stats_traces : String → Option Mesure

-- What a request of the page leads to: the template cannot be read, which ends the process, or it
-- fails on the data, or the page is shown.
pub data Answer : Type 0 where
  exits server_error : Answer
  shown : String → Answer

-- the handler of index.html, given the template if it can be read
unfoldable pub index_html : Option (PageData → Option String) → Config → List Mesure → Answer
unfolding stats_traces
index_html tmpl cfg ms = elim tmpl [
  | none ↦ exits
  | some execute ↦ elim (execute (record { nudgehttp = cfg; stats_traces = stats_traces ms })) [
    | none ↦ server_error
    | some html ↦ shown html
  ]
]
