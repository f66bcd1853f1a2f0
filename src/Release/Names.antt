-- ===== src/Release/Names.antt =====
-- The constants, `osArch`, `armVersions` and `imageName` of configure.go.
use opentelemetry_collector.Prelude.{
  String, List, [], ◌∷◌, ◌==◌, ◌+++◌, if◌then◌else◌, replace_first,
}

abbrev pub arm_arch : String
arm_arch = "arm"

abbrev pub core_distro : String
core_distro = "otelcol"

abbrev pub contrib_distro : String
contrib_distro = "otelcol-contrib"

abbrev pub k8s_distro : String
k8s_distro = "otelcol-k8s"

abbrev pub otlp_distro : String
otlp_distro = "otelcol-otlp"

abbrev pub docker_hub : String
docker_hub = "otel"

abbrev pub ghcr : String
ghcr = "ghcr.io/open-telemetry/opentelemetry-collector-releases"

abbrev pub binary_name_prefix : String
binary_name_prefix = "otelcol"

abbrev pub image_name_prefix : String
image_name_prefix = "opentelemetry-collector"

abbrev pub base_archs : List String
base_archs = "386" ∷ "amd64" ∷ "arm" ∷ "arm64" ∷ "ppc64le" ∷ "s390x" ∷ []

abbrev pub win_archs : List String
win_archs = "386" ∷ "amd64" ∷ "arm64" ∷ []

abbrev pub win_container_archs : List String
win_container_archs = "amd64" ∷ []

abbrev pub darwin_archs : List String
darwin_archs = "amd64" ∷ "arm64" ∷ []

abbrev pub k8s_archs : List String
k8s_archs = "amd64" ∷ "arm64" ∷ "ppc64le" ∷ "s390x" ∷ []

abbrev pub image_repos : List String
image_repos = docker_hub ∷ ghcr ∷ []

-- the map `dockerHubFullDescriptions`; a missing key reads as the empty text
unfoldable pub docker_hub_full_descriptions : String → String
docker_hub_full_descriptions dist =
    if dist == core_distro
    then "https://raw.githubusercontent.com/open-telemetry/opentelemetry-collector/refs/heads/main/README.md"
    else if dist == contrib_distro
    then "https://raw.githubusercontent.com/open-telemetry/opentelemetry-collector-contrib/refs/heads/main/README.md"
    else if dist == otlp_distro
    then "https://raw.githubusercontent.com/open-telemetry/opentelemetry-collector-releases/refs/heads/main/distributions/otelcol-otlp/README.md"
    else if dist == k8s_distro
    then "https://raw.githubusercontent.com/open-telemetry/opentelemetry-collector-releases/refs/heads/main/distributions/otelcol-k8s/README.md"
    else ""

pub record OsArch : Type 0 where
  pub os : String
  pub arch : String
  pub version : String

-- osArch.buildPlatform
unfoldable pub build_platform : OsArch → String
build_platform o =
    if o.os == "linux"
    then (if o.arch == arm_arch then "linux/arm/v" +++ o.version else "linux/" +++ o.arch)
    else if o.os == "windows"
    then "windows/" +++ o.arch
    else "linux/" +++ o.arch

-- osArch.imageTag
unfoldable pub image_tag : OsArch → String
image_tag o =
    if o.os == "linux"
    then (if o.arch == arm_arch then "armv" +++ o.version else o.arch)
    else if o.os == "windows"
    then "windows-" +++ o.version +++ "-" +++ o.arch
    else o.arch

-- armVersions
unfoldable pub arm_versions : String → List String
arm_versions dist = if dist == k8s_distro then [] else "7" ∷ []

-- imageName translates a distribution name to a container image name.
unfoldable pub image_name : String → String
image_name dist = replace_first dist binary_name_prefix image_name_prefix
