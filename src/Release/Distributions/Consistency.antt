-- ===== src/Release/Distributions/Consistency.antt =====
-- The projects that `BuildDist` generates refer only to what they build.
use opentelemetry_collector.Prelude.{
  String, List, [], ◌∷◌, Bool, true, false, not, ◌&&◌, ◌||◌, some, none, ◌≡◌, refl, subst, arith,
  ◌==◌, if◌then◌else◌, any, all, concat_map,
}
use opentelemetry_collector.Release.Goreleaser.{Project, Build, Archive, Nfpm, Docker}
use opentelemetry_collector.Release.Names.{
  image_name, image_tag, build_platform, arm_versions, docker_hub_full_descriptions, core_distro,
  contrib_distro, k8s_distro, otlp_distro,
}
use opentelemetry_collector.Release.Builder.{build_project}
use opentelemetry_collector.Release.Builder.Ids.{build_ids}
use opentelemetry_collector.Release.Images.Manifests.{pushed, referred}
use opentelemetry_collector.Release.Distributions.{
  otel_col_dist, otlp_dist, k8s_dist, contrib_dist, contrib_build_only_dist, build_dist,
}

-- `t` occurs in a list of texts.
abbrev pub contains : List String → String → Bool
contains ts t = any (λ u. u == t) ts

-- No text occurs twice.
abbrev pub distinct : List String → Bool
distinct [] = true
distinct (t ∷ ts) = not (contains ts t) && distinct ts

-- Some build of the project compiles the binary for the platform of an image.
abbrev pub is_built : List Build → Docker → Bool
is_built bs d =
    any
      (λ (b : Build).
        contains b.goos d.goos
        && contains b.goarch d.goarch
        && (d.goarm == "" || contains b.goarm d.goarm))
      bs

pub record IsConsistent (p : Project) : Type 0 where
  pub images_are_built : all (is_built p.builds) p.dockers ≡ true
  pub manifests_are_pushed : all (contains (pushed p.dockers)) (referred p.docker_manifests) ≡ true
  pub tags_are_distinct : distinct (pushed p.dockers) ≡ true
  pub archives_are_built :
      all (contains (build_ids p)) (concat_map (λ (a : Archive). a.builds) p.archives) ≡ true
  pub packages_are_built :
      all (contains (build_ids p)) (concat_map (λ (n : Nfpm). n.builds) p.nfpms) ≡ true
  pub ids_are_distinct : distinct (build_ids p) ≡ true

-- The five projects, by the tests of `BuildDist`.
choice :
    (P : Project → Type 0) (core otlp k8s contrib only : Bool) (p q r s t u : Project)
    → P p
    → P q
    → P r
    → P s
    → P t
    → (if core
        then some p
        else if otlp
        then some q
        else if k8s
        then some r
        else if contrib
        then (if only then some s else some t)
        else none)
      ≡ some u
    → P u
choice P true _ _ _ _ p q r s t u hp hq hr hs ht e = subst P (cc) hp
choice P false true _ _ _ p q r s t u hp hq hr hs ht e = subst P (cc) hq
choice P false false true _ _ p q r s t u hp hq hr hs ht e = subst P (cc) hr
choice P false false false true true p q r s t u hp hq hr hs ht e = subst P (cc) hs
choice P false false false true false p q r s t u hp hq hr hs ht e = subst P (cc) ht
choice P false false false false _ p q r s t u hp hq hr hs ht e = cc

check : Project → Bool
check p =
    all (is_built p.builds) p.dockers
    && all (contains (pushed p.dockers)) (referred p.docker_manifests)
    && distinct (pushed p.dockers)
    && all (contains (build_ids p)) (concat_map (λ (a : Archive). a.builds) p.archives)
    && all (contains (build_ids p)) (concat_map (λ (n : Nfpm). n.builds) p.nfpms)
    && distinct (build_ids p)

check-IsConsistent : (p : Project) → check p ≡ true → IsConsistent p
unfolding check
check-IsConsistent p h = ground arith

otel_col_dist-IsConsistent : IsConsistent (build_project otel_col_dist)
unfolding check otel_col_dist build_project image_name image_tag build_platform arm_versions
    docker_hub_full_descriptions
otel_col_dist-IsConsistent = check-IsConsistent _ refl

otlp_dist-IsConsistent : IsConsistent (build_project otlp_dist)
unfolding check otlp_dist build_project image_name image_tag build_platform arm_versions
    docker_hub_full_descriptions
otlp_dist-IsConsistent = check-IsConsistent _ refl

k8s_dist-IsConsistent : IsConsistent (build_project k8s_dist)
unfolding check k8s_dist build_project image_name image_tag build_platform arm_versions
    docker_hub_full_descriptions
k8s_dist-IsConsistent = check-IsConsistent _ refl

contrib_dist-IsConsistent : IsConsistent (build_project contrib_dist)
unfolding check contrib_dist build_project image_name image_tag build_platform arm_versions
    docker_hub_full_descriptions
contrib_dist-IsConsistent = check-IsConsistent _ refl

contrib_build_only_dist-IsConsistent : IsConsistent (build_project contrib_build_only_dist)
unfolding check contrib_build_only_dist build_project image_name image_tag build_platform
    arm_versions docker_hub_full_descriptions
contrib_build_only_dist-IsConsistent = check-IsConsistent _ refl

-- Every project that BuildDist returns, for any distribution name and either build mode, is
-- consistent: each Docker image is for a platform that some build compiles, each image of a
-- manifest is pushed, no two images share a tag, archives and packages name existing builds, and
-- the build ids are distinct.
pub build_dist-IsConsistent :
    (dist : String) (only_build : Bool) (p : Project)
    → build_dist dist only_build ≡ some p
    → IsConsistent p
unfolding build_dist
build_dist-IsConsistent dist only_build p h =
    choice IsConsistent (dist == core_distro) (dist == otlp_distro) (dist == k8s_distro)
      (dist == contrib_distro) only_build _ _ _ _ _ p otel_col_dist-IsConsistent
      otlp_dist-IsConsistent k8s_dist-IsConsistent contrib_build_only_dist-IsConsistent
      contrib_dist-IsConsistent h
