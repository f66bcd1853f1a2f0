-- ===== src/Release/Images.antt =====
-- The Docker images and manifests of configure.go.
pub mod Manifests
use opentelemetry_collector.Prelude.{
  String, List, [], ◌∷◌, ◌++◌, map, concat_map, ◌==◌, ◌+++◌, if◌then◌else◌,
}
use opentelemetry_collector.Release.Goreleaser.{Docker, DockerManifest}
use opentelemetry_collector.Release.Names.{
  OsArch, arm_arch, image_repos, image_name, image_tag, build_platform, arm_versions,
}

pub record ContainerImageOptions : Type 0 where
  pub arm_version : String
  pub win_version : String

-- containerImageOptions.version
unfoldable pub options_version : ContainerImageOptions → String
options_version o = if o.arm_version == "" then o.win_version else o.arm_version

abbrev pub skip_unless_windows : String
skip_unless_windows = "{{ not (eq .Runtime.Goos \"windows\") }}"

-- the body of the loop over `imageRepos` in dockerImageWithOS
unfoldable pub image_templates_of : String → OsArch → String → List String
image_templates_of dist o prefix =
    (prefix +++ "/" +++ image_name dist +++ ":{{ .Version }}-" +++ image_tag o)
    ∷ (prefix +++ "/" +++ image_name dist +++ ":latest-" +++ image_tag o)
    ∷ []

abbrev label : String → String → String
label name template = "--label=org.opencontainers.image." +++ name +++ "={{" +++ template +++ "}}"

-- `slices.Insert(…, 1, …)` of the windows branch puts `extra` behind "--pull"
abbrev build_flags : OsArch → List String → List String
build_flags o extra =
    "--pull"
    ∷ (extra
        ++ ("--platform=" +++ build_platform o)
          ∷ label "created" ".Date"
          ∷ label "name" ".ProjectName"
          ∷ label "revision" ".FullCommit"
          ∷ label "version" ".Version"
          ∷ label "source" ".GitURL"
          ∷ "--label=org.opencontainers.image.licenses=Apache-2.0"
          ∷ [])

-- dockerImageWithOS
unfoldable pub docker_image_with_os : String → String → String → ContainerImageOptions → Docker
unfolding options_version image_templates_of
docker_image_with_os dist os arch opts =
    let o : OsArch = record { os = os; arch = arch; version = options_version opts } in
    let templates = concat_map (image_templates_of dist o) image_repos in
    let goarm = if arch == arm_arch then opts.arm_version else "" in
    if os == "windows"
    then record {
      image_templates = templates;
      dockerfile = "Windows.dockerfile";
      uses = "docker";
      build_flag_templates = build_flags o (("--build-arg=WIN_VERSION=" +++ opts.win_version) ∷ []);
      goos = os;
      goarch = arch;
      goarm = goarm;
      skip_build = skip_unless_windows;
      skip_push = skip_unless_windows;
      files = [];
    }
    else record {
      image_templates = templates;
      dockerfile = "Dockerfile";
      uses = "buildx";
      build_flag_templates = build_flags o [];
      goos = os;
      goarch = arch;
      goarm = goarm;
      skip_build = "";
      skip_push = "";
      files = [];
    }

-- newContainerImages
unfoldable pub new_container_images :
    String → String → List String → ContainerImageOptions → List Docker
unfolding docker_image_with_os
new_container_images dist target_os target_archs opts =
    map (λ target_arch. docker_image_with_os dist target_os target_arch opts) target_archs

-- the body of the loop over `archs` in osDockerManifest
unfoldable pub manifest_templates_of : String → String → String → String → String → List String
manifest_templates_of prefix version dist os arch =
    if arch == arm_arch
    then map
        (λ arm_vers.
          prefix
          +++ "/"
          +++ image_name dist
          +++ ":"
          +++ version
          +++ "-"
          +++ image_tag (record { os = os; arch = arch; version = arm_vers }))
        (arm_versions dist)
    else (prefix +++ "/" +++ image_name dist +++ ":" +++ version +++ "-" +++ arch) ∷ []

-- osDockerManifest
unfoldable pub os_docker_manifest : String → String → String → String → List String → DockerManifest
unfolding manifest_templates_of
os_docker_manifest prefix version dist os archs = record {
  name_template = prefix +++ "/" +++ image_name dist +++ ":" +++ version;
  image_templates = concat_map (manifest_templates_of prefix version dist os) archs;
  skip_push = if os == "windows" then skip_unless_windows else "";
}

-- the tags of newContainerImageManifests
unfoldable pub manifest_tags : String → ContainerImageOptions → List String
manifest_tags os opts =
    let tags : List String = "{{ .Version }}" ∷ "latest" ∷ [] in
    if os == "windows"
    then map (λ tag. tag +++ "-" +++ os +++ "-" +++ opts.win_version) tags
    else tags

-- newContainerImageManifests
unfoldable pub new_container_image_manifests :
    String → String → List String → ContainerImageOptions → List DockerManifest
unfolding manifest_tags os_docker_manifest
new_container_image_manifests dist os archs opts =
    concat_map
      (λ image_repo.
        map (λ tag. os_docker_manifest image_repo tag dist os archs) (manifest_tags os opts))
      image_repos
