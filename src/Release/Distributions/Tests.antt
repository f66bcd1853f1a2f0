-- ===== src/Release/Distributions/Tests.antt =====
-- Instances of the theorems about configure.go at concrete distributions.
use opentelemetry_collector.Release.Command.{main, printed}
use opentelemetry_collector.Prelude.{String, List, [], ◌∷◌, true, ◌≡◌, refl, All, In, some, Option}
use opentelemetry_collector.Release.Names.{core_distro, contrib_distro}
use opentelemetry_collector.Release.Images.{new_container_images, new_container_image_manifests}
use opentelemetry_collector.Release.Images.Manifests.{
  pushed, referred, linux_options, referred-pushed, pushed-referred,
}
use opentelemetry_collector.Release.Builder.{
  build_project, build, new_distribution_builder, with_packaging_defaults,
  with_default_config_included,
}
use opentelemetry_collector.Release.Builder.ConfigFile.{
  HasConfig, with_default_config_included-HasConfig,
}
use opentelemetry_collector.Release.Distributions.{build_dist, otel_col_dist, Project}
use opentelemetry_collector.Release.Distributions.Consistency.{
  IsConsistent, build_dist-IsConsistent,
}

abbrev two_archs : List String
two_archs = "amd64" ∷ "arm" ∷ []

referred-pushed_example :
    All
      (λ t. In t (pushed (new_container_images contrib_distro "linux" two_archs linux_options)))
      (referred (new_container_image_manifests contrib_distro "linux" two_archs linux_options))
referred-pushed_example = referred-pushed contrib_distro two_archs linux_options

pushed-referred_example :
    All
      (λ t.
        In t
          (referred (new_container_image_manifests contrib_distro "linux" two_archs linux_options)))
      (pushed (new_container_images contrib_distro "linux" two_archs linux_options))
pushed-referred_example = pushed-referred contrib_distro two_archs linux_options refl

is_core : build_dist core_distro true ≡ some (build_project otel_col_dist)
unfolding build_dist
is_core = refl

build_dist-IsConsistent_example : IsConsistent (build_project otel_col_dist)
build_dist-IsConsistent_example =
    build_dist-IsConsistent core_distro true (build_project otel_col_dist) is_core

with_default_config_included-HasConfig_example : HasConfig (
    build_project (
      build (
        with_default_config_included
          (with_packaging_defaults (new_distribution_builder "otelcol")))))
with_default_config_included-HasConfig_example =
    with_default_config_included-HasConfig
      (with_packaging_defaults (new_distribution_builder "otelcol"))

abbrev yaml : Project → Option String
yaml p = some "project_name: opentelemetry-collector-releases"

core_printed : main yaml core_distro true ≡ printed "project_name: opentelemetry-collector-releases"
unfolding main build_dist
core_printed = refl
