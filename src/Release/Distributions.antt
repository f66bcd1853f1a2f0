-- ===== src/Release/Distributions.antt =====
-- The five distributions of configure.go and `BuildDist`.
mod Tests
pub mod Consistency
use opentelemetry_collector.Prelude.{
  String, Bool, List, [], ◌∷◌, ◌++◌, Option, none, some, ◌==◌, ◌+++◌, if◌then◌else◌,
}
use opentelemetry_collector.Release.Goreleaser.{Project}
use opentelemetry_collector.Release.Names.{
  core_distro, contrib_distro, k8s_distro, otlp_distro, base_archs, win_archs, win_container_archs,
  darwin_archs, k8s_archs,
}
use opentelemetry_collector.Release.Images.{
  ContainerImageOptions, new_container_images, new_container_image_manifests,
}
use opentelemetry_collector.Release.Builder.{
  Distribution, DistributionBuilder, BuildConfig, full, pre_built_config, new_distribution_builder,
  with_config_func, with_default_archives, with_bin_archive, with_packaging_defaults,
  with_default_config_included, with_default_checksum, with_default_signs,
  with_default_docker_signs, with_default_docker_hubs, with_default_sboms, build, build_project,
}

abbrev options : String → String → ContainerImageOptions
options arm win = record { arm_version = arm; win_version = win }

-- the images and manifests that all four packaged distributions list, for their linux `archs`
unfoldable pub add_containers : List String → Distribution → Distribution
unfolding new_container_images new_container_image_manifests
add_containers archs d = record d {
  container_images =
      new_container_images d.name "linux" archs (options "7" "")
      ++ new_container_images d.name "windows" win_container_archs (options "" "2019")
      ++ new_container_images d.name "windows" win_container_archs (options "" "2022");
  container_image_manifests = new_container_image_manifests d.name "linux" archs (options "" "");
}

abbrev full_build_configs : List BuildConfig
full_build_configs =
    full "linux" base_archs ("7" ∷ []) ("power8" ∷ [])
    ∷ full "darwin" darwin_archs [] []
    ∷ full "windows" win_archs [] []
    ∷ []

unfoldable pub otel_col_dist : Distribution
unfolding new_distribution_builder with_config_func with_packaging_defaults
    with_default_config_included build add_containers
otel_col_dist = build (
    with_default_config_included (
      with_packaging_defaults (
        with_config_func
          (λ d. add_containers base_archs (record d { build_configs = full_build_configs }))
          (new_distribution_builder core_distro))))

unfoldable pub otlp_dist : Distribution
unfolding new_distribution_builder with_config_func with_packaging_defaults build add_containers
otlp_dist = build (
    with_packaging_defaults (
      with_config_func
        (λ d. add_containers base_archs (record d { build_configs = full_build_configs }))
        (new_distribution_builder otlp_distro)))

abbrev pre_built_configs : List BuildConfig
pre_built_configs =
    pre_built_config "linux" base_archs
      (record { path = "artifacts/otelcol-contrib-linux_{{ .Target }}/otelcol-contrib" })
    ∷ pre_built_config "darwin" darwin_archs
        (record { path = "artifacts/otelcol-contrib-darwin_{{ .Target }}/otelcol-contrib" })
    ∷ pre_built_config "windows" win_archs
        (record { path = "artifacts/otelcol-contrib-windows_{{ .Target }}/otelcol-contrib.exe" })
    ∷ []

unfoldable pub contrib_dist : Distribution
unfolding new_distribution_builder with_config_func with_packaging_defaults
    with_default_config_included build add_containers
contrib_dist = build (
    with_default_config_included (
      with_packaging_defaults (
        with_config_func
          (λ d. add_containers base_archs (record d { build_configs = pre_built_configs }))
          (new_distribution_builder contrib_distro))))

unfoldable pub contrib_build_only_dist : Distribution
unfolding new_distribution_builder with_config_func with_bin_archive build
contrib_build_only_dist = build (
    with_bin_archive (
      with_config_func
        (λ d. record d {
          build_configs =
              full "linux" base_archs ("7" ∷ []) []
              ∷ full "darwin" darwin_archs [] []
              ∷ full "windows" win_archs [] []
              ∷ [];
        })
        (new_distribution_builder contrib_distro)))

unfoldable pub k8s_dist : Distribution
unfolding new_distribution_builder with_config_func with_default_archives with_default_checksum
    with_default_signs with_default_docker_signs with_default_docker_hubs with_default_sboms build
    add_containers
k8s_dist = build (
    with_default_sboms (
      with_default_docker_hubs (
        with_default_docker_signs (
          with_default_signs (
            with_default_checksum (
              with_default_archives (
                with_config_func
                  (λ d. add_containers k8s_archs (record d {
                    build_configs =
                        full "linux" k8s_archs [] ("power8" ∷ [])
                        ∷ full "windows" win_container_archs [] []
                        ∷ [];
                  }))
                  (new_distribution_builder k8s_distro))))))))

-- BuildDist; `none` is its panic on an unknown distribution
unfoldable pub build_dist : String → Bool → Option Project
unfolding otel_col_dist otlp_dist contrib_dist contrib_build_only_dist k8s_dist build_project
build_dist dist only_build =
    if dist == core_distro
    then some (build_project otel_col_dist)
    else if dist == otlp_distro
    then some (build_project otlp_dist)
    else if dist == k8s_distro
    then some (build_project k8s_dist)
    else if dist == contrib_distro
    then (if only_build
        then some (build_project contrib_build_only_dist)
        else some (build_project contrib_dist))
    else none
