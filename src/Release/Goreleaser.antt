-- ===== src/Release/Goreleaser.antt =====
-- The records of goreleaser's `config` package that configure.go fills, with the fields that it
-- sets. Go's zero values are written out where a literal of the source leaves a field out.
use opentelemetry_collector.Prelude.{ℕ, String, Bool, List}

pub record PreBuiltOptions : Type 0 where
  pub path : String

-- config.Build; `pre_built` has the empty path for a build that is not prebuilt
pub record Build : Type 0 where
  pub id : String
  pub builder : String
  pub pre_built : PreBuiltOptions
  pub dir : String
  pub binary : String
  pub flags : List String
  pub ldflags : List String
  pub goos : List String
  pub goarch : List String
  pub goarm : List String
  pub goppc64 : List String

pub record Archive : Type 0 where
  pub id : String
  pub name_template : String
  pub builds : List String
  pub formats : List String

pub record NfpmContent : Type 0 where
  pub source : String
  pub destination : String
  pub content_type : String

pub record NfpmScripts : Type 0 where
  pub pre_install : String
  pub post_install : String
  pub pre_remove : String

-- config.NFPM; `overrides` pairs a format with its dependencies
pub record Nfpm : Type 0 where
  pub id : String
  pub builds : List String
  pub formats : List String
  pub license : String
  pub description : String
  pub maintainer : String
  pub overrides : List (String × List String)
  pub package_name : String
  pub scripts : NfpmScripts
  pub contents : List NfpmContent

pub record Msi : Type 0 where
  pub id : String
  pub name : String
  pub wxs : String
  pub files : List String

pub record Docker : Type 0 where
  pub image_templates : List String
  pub dockerfile : String
  pub uses : String
  pub build_flag_templates : List String
  pub goos : String
  pub goarch : String
  pub goarm : String
  pub skip_build : String
  pub skip_push : String
  pub files : List String

pub record DockerManifest : Type 0 where
  pub name_template : String
  pub image_templates : List String
  pub skip_push : String

pub record Sign : Type 0 where
  pub artifacts : String
  pub signature : String
  pub certificate : String
  pub cmd : String
  pub args : List String

pub record DockerHub : Type 0 where
  pub images : List String
  pub description : String
  pub full_description_url : String

pub record Sbom : Type 0 where
  pub id : String
  pub artifacts : String

pub record Checksum : Type 0 where
  pub name_template : String

pub record Project : Type 0 where
  pub project_name : String
  pub replace_existing_artifacts : Bool
  pub checksum : Checksum
  pub env : List String
  pub builds : List Build
  pub archives : List Archive
  pub msi : List Msi
  pub nfpms : List Nfpm
  pub dockers : List Docker
  pub docker_manifests : List DockerManifest
  pub signs : List Sign
  pub docker_signs : List Sign
  pub docker_hubs : List DockerHub
  pub sboms : List Sbom
  pub version : ℕ
  pub tag_prefix : String
  pub partial_by : String
