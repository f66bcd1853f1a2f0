-- ===== src/Release/Command.antt =====
-- cmd/goreleaser/main.go: the command that prints the configuration of a distribution. The YAML
-- encoder is a parameter, `none` its error. log.Fatal ends the process.
use opentelemetry_collector.Prelude.{String, Bool, Option, none, some, ◌==◌, if◌then◌else◌}
use opentelemetry_collector.Release.Goreleaser.{Project}
use opentelemetry_collector.Release.Distributions.{build_dist}

-- The ways in which the command ends: what it printed, a fatal error, or the panic of BuildDist.
pub data Exit : Type 0 where
  printed : String → Exit
  no_distribution encoding_failed unknown_distribution : Exit

abbrev encoded : Option String → Exit
encoded none = encoding_failed
encoded (some out) = printed out

-- the end of main, with what BuildDist returned
abbrev finish : (Project → Option String) → Option Project → Exit
finish encode none = unknown_distribution
finish encode (some project) = encoded (encode project)

-- main, given the flags -d and -generate-build-step
unfoldable pub main : (Project → Option String) → String → Bool → Exit
main encode dist build_step =
    if dist == "" then no_distribution else finish encode (build_dist dist build_step)
