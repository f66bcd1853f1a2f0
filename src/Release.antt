-- ===== src/Release.antt =====
-- cmd/goreleaser/internal/configure.go: the script that generates the .goreleaser.yaml file of each
-- distribution. `Goreleaser` has the configuration types, `Names` the image and platform names,
-- `Images` the Docker images and manifests, `Builder` the distribution builder, and
-- `Distributions` the five distributions and `BuildDist`.
pub mod Goreleaser
pub mod Names
pub mod Images
pub mod Builder
pub mod Distributions
pub mod Command
