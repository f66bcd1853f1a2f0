-- ===== src/Release/Builder.antt =====
-- `distribution` and `distributionBuilder` of configure.go. A builder keeps its configuration
-- functions and `build` applies them, in the order in which they were added, to its distribution.
mod Defaults
pub mod Ids
pub mod ConfigFile
use opentelemetry_collector.Prelude.{String, List, [], ◌∷◌, ◌++◌, ◌+++◌, true, map}
use opentelemetry_collector.Release.Goreleaser.{
  PreBuiltOptions, Build, Archive, Nfpm, NfpmContent, Msi, Docker, DockerManifest, Sign, DockerHub,
  Sbom, Checksum, Project,
}
use opentelemetry_collector.Release.Names.{arm_versions}
use Defaults.{
  new_archives, bin_archive, new_nfpms, new_msi_config, default_signs, default_docker_signs,
  new_docker_hubs, default_sboms, default_checksum, config_content,
}

-- the two implementations of the `buildConfig` interface
pub data BuildConfig : Type 0 where
  full : (target_os : String) (target_arch arm_version ppc64_version : List String) → BuildConfig
  pre_built_config :
      (target_os : String) (target_arch : List String) (pre_built : PreBuiltOptions) → BuildConfig

-- buildConfig.OS
unfoldable pub os_of : BuildConfig → String
os_of (full target_os _ _ _) = target_os
os_of (pre_built_config target_os _ _) = target_os

-- buildConfig.Build
unfoldable pub build_of : String → BuildConfig → Build
build_of dist (full target_os target_arch arm_version ppc64_version) = record {
  id = dist +++ "-" +++ target_os;
  builder = "";
  pre_built = record { path = "" };
  dir = "_build";
  binary = dist;
  flags = "{{ .Env.BUILD_FLAGS }}" ∷ [];
  ldflags = "{{ .Env.LD_FLAGS }}" ∷ [];
  goos = target_os ∷ [];
  goarch = target_arch;
  goarm = arm_version;
  goppc64 = ppc64_version;
}
build_of dist (pre_built_config target_os target_arch pre_built) = record {
  id = dist +++ "-" +++ target_os;
  builder = "prebuilt";
  pre_built = pre_built;
  dir = "_build";
  binary = dist;
  flags = [];
  ldflags = [];
  goos = target_os ∷ [];
  goarch = target_arch;
  goarm = arm_versions dist;
  goppc64 = "power8" ∷ [];
}

pub record Distribution : Type 0 where
  pub name : String
  pub build_configs : List BuildConfig
  pub archives : List Archive
  pub msi_config : List Msi
  pub nfpms : List Nfpm
  pub container_images : List Docker
  pub container_image_manifests : List DockerManifest
  pub signs : List Sign
  pub docker_signs : List Sign
  pub dockerhubs : List DockerHub
  pub sboms : List Sbom
  pub checksum : Checksum

pub record DistributionBuilder : Type 0 where
  pub dist : Distribution
  pub config_funcs : List (Distribution → Distribution)

-- newDistributionBuilder
unfoldable pub new_distribution_builder : String → DistributionBuilder
new_distribution_builder name = record {
  dist = record {
    name = name;
    build_configs = [];
    archives = [];
    msi_config = [];
    nfpms = [];
    container_images = [];
    container_image_manifests = [];
    signs = [];
    docker_signs = [];
    dockerhubs = [];
    sboms = [];
    checksum = record { name_template = "" };
  };
  config_funcs = [];
}

-- WithConfigFunc, and the append that every other With… method ends in
unfoldable pub with_config_func :
    (Distribution → Distribution) → DistributionBuilder → DistributionBuilder
with_config_func f b = record b { config_funcs = b.config_funcs ++ f ∷ [] }

-- The functions that the With… methods add.
unfoldable pub set_archives : Distribution → Distribution
unfolding os_of
set_archives d = record d {
  archives = new_archives d.name (map (λ build. d.name +++ "-" +++ os_of build) d.build_configs);
}

unfoldable pub add_bin_archive : Distribution → Distribution
add_bin_archive d = record d { archives = d.archives ++ bin_archive ∷ [] }

unfoldable pub set_nfpms : Distribution → Distribution
unfolding new_nfpms
set_nfpms d = record d { nfpms = new_nfpms d.name }

unfoldable pub set_msi_config : Distribution → Distribution
unfolding new_msi_config
set_msi_config d = record d { msi_config = new_msi_config d.name }

unfoldable pub set_signs : Distribution → Distribution
unfolding default_signs
set_signs d = record d { signs = default_signs }

unfoldable pub set_docker_signs : Distribution → Distribution
unfolding default_docker_signs
set_docker_signs d = record d { docker_signs = default_docker_signs }

unfoldable pub set_dockerhubs : Distribution → Distribution
unfolding new_docker_hubs
set_dockerhubs d = record d { dockerhubs = new_docker_hubs d.name }

unfoldable pub set_sboms : Distribution → Distribution
unfolding default_sboms
set_sboms d = record d { sboms = default_sboms }

unfoldable pub set_checksum : Distribution → Distribution
unfolding default_checksum
set_checksum d = record d { checksum = default_checksum d.name }

unfoldable pub include_config : Distribution → Distribution
unfolding config_content
include_config d = record d {
  container_images =
      map (λ (c : Docker). record c { files = c.files ++ "config.yaml" ∷ [] }) d.container_images;
  nfpms =
      map (λ (n : Nfpm). record n { contents = n.contents ++ config_content d.name ∷ [] }) d.nfpms;
  msi_config = map (λ (m : Msi). record m { files = m.files ++ "config.yaml" ∷ [] }) d.msi_config;
}

unfoldable pub with_default_archives : DistributionBuilder → DistributionBuilder
unfolding with_config_func set_archives
with_default_archives b = with_config_func set_archives b

unfoldable pub with_bin_archive : DistributionBuilder → DistributionBuilder
unfolding with_config_func add_bin_archive
with_bin_archive b = with_config_func add_bin_archive b

unfoldable pub with_default_nfpms : DistributionBuilder → DistributionBuilder
unfolding with_config_func set_nfpms
with_default_nfpms b = with_config_func set_nfpms b

unfoldable pub with_default_msi_config : DistributionBuilder → DistributionBuilder
unfolding with_config_func set_msi_config
with_default_msi_config b = with_config_func set_msi_config b

unfoldable pub with_default_signs : DistributionBuilder → DistributionBuilder
unfolding with_config_func set_signs
with_default_signs b = with_config_func set_signs b

unfoldable pub with_default_docker_signs : DistributionBuilder → DistributionBuilder
unfolding with_config_func set_docker_signs
with_default_docker_signs b = with_config_func set_docker_signs b

unfoldable pub with_default_docker_hubs : DistributionBuilder → DistributionBuilder
unfolding with_config_func set_dockerhubs
with_default_docker_hubs b = with_config_func set_dockerhubs b

unfoldable pub with_default_sboms : DistributionBuilder → DistributionBuilder
unfolding with_config_func set_sboms
with_default_sboms b = with_config_func set_sboms b

unfoldable pub with_default_checksum : DistributionBuilder → DistributionBuilder
unfolding with_config_func set_checksum
with_default_checksum b = with_config_func set_checksum b

unfoldable pub with_default_config_included : DistributionBuilder → DistributionBuilder
unfolding with_config_func include_config
with_default_config_included b = with_config_func include_config b

-- WithPackagingDefaults
unfoldable pub with_packaging_defaults : DistributionBuilder → DistributionBuilder
unfolding with_default_archives with_default_checksum with_default_nfpms with_default_msi_config
    with_default_signs with_default_docker_hubs with_default_docker_signs with_default_sboms
with_packaging_defaults b = with_default_sboms (
    with_default_docker_signs (
      with_default_docker_hubs (
        with_default_signs (
          with_default_msi_config
            (with_default_nfpms (with_default_checksum (with_default_archives b)))))))

unfoldable pub apply_all : List (Distribution → Distribution) → Distribution → Distribution
apply_all [] d = d
apply_all (f ∷ fs) d = apply_all fs (f d)

-- distributionBuilder.Build
unfoldable pub build : DistributionBuilder → Distribution
unfolding apply_all
build b = apply_all b.config_funcs b.dist

-- distribution.BuildProject
unfoldable pub build_project : Distribution → Project
unfolding build_of
build_project d = record {
  project_name = "opentelemetry-collector-releases";
  replace_existing_artifacts = true;
  checksum = d.checksum;
  env = "COSIGN_YES=true" ∷ "LD_FLAGS=-s -w" ∷ "CGO_ENABLED=0" ∷ "BUILD_FLAGS=-trimpath" ∷ [];
  builds = map (build_of d.name) d.build_configs;
  archives = d.archives;
  msi = d.msi_config;
  nfpms = d.nfpms;
  dockers = d.container_images;
  docker_manifests = d.container_image_manifests;
  signs = d.signs;
  docker_signs = d.docker_signs;
  docker_hubs = d.dockerhubs;
  sboms = d.sboms;
  version = 2;
  tag_prefix = "v";
  partial_by = "target";
}
