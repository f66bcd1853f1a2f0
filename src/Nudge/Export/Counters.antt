-- ===== src/Nudge/Export/Counters.antt =====
-- The counters of `export`, and its flush of the raw data.
use opentelemetry_collector.Prelude.{String, Option, none, some, ◌≡◌, arith, add64}
use opentelemetry_collector.Nudge.Export.{Exporter, Mesure, count_reply, export}
use opentelemetry_collector.Nudge.Response.{Reply, Externals, Decoders}

-- Every request that was counted was counted as a success or as an error, modulo 2 ^ 64.
abbrev pub IsBalanced : Mesure → Type 0
IsBalanced m = add64 m.success m.error ≡ m.ntraces

abbrev pub AllBalanced : Option Mesure → Type 0
AllBalanced none = Unit {0}
AllBalanced (some m) = IsBalanced m

pub count_reply-IsBalanced :
    (reply : Reply) (m : Mesure) → IsBalanced m → IsBalanced (count_reply reply m)
unfolding count_reply
count_reply-IsBalanced reply m h = ground arith

-- Whatever `export` does, it leaves no raw data in the exporter and changes neither the buffer nor
-- the configuration; and it keeps the counters of a measure balanced: requests made are successes
-- plus errors.
pub export-AllBalanced :
    (x : Externals) (d : Decoders) (e : Exporter) (url : String) (m : Option Mesure) (reply : Reply)
    → AllBalanced m
    → AllBalanced (export x d e url m reply).mesure
      × ((export x d e url m reply).exporter ≡ record e { rawdata = none })
unfolding export
export-AllBalanced x d e url none reply h = (ground arith, ground arith)
export-AllBalanced x d e url (some m) reply h =
    (ground (arith, count_reply-IsBalanced reply m), ground arith)
