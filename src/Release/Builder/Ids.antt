-- ===== src/Release/Builder/Ids.antt =====
-- What the packaging defaults name: the archives and packages refer to builds by their id.
use opentelemetry_collector.Prelude.{
  String, List, [], ◌∷◌, map, ◌+++◌, ◌≡◌, refl, ◌∙◌, concat_map, append-nil,
}
use opentelemetry_collector.Release.Goreleaser.{Build, Archive, Project}
use opentelemetry_collector.Release.Builder.{
  BuildConfig, full, pre_built_config, build_of, os_of, Distribution, with_config_func,
  with_packaging_defaults, new_distribution_builder, build, build_project,
}

-- the ids of the builds of a project
abbrev pub build_ids : Project → List String
build_ids p = map (λ (b : Build). b.id) p.builds

-- the builds that the archives of a project pack
abbrev pub archived : Project → List String
archived p = concat_map (λ (a : Archive). a.builds) p.archives

build_of-id : (dist : String) (c : BuildConfig) → (build_of dist c).id ≡ dist +++ "-" +++ os_of c
unfolding build_of os_of
build_of-id dist (full _ _ _ _) = refl
build_of-id dist (pre_built_config _ _ _) = refl

ids_of_configs :
    (dist : String) (cs : List BuildConfig)
    → map (λ build. dist +++ "-" +++ os_of build) cs
      ≡ map (λ (b : Build). b.id) (map (build_of dist) cs)
ids_of_configs dist [] = refl
ids_of_configs dist (c ∷ cs) = simp (build_of-id, ids_of_configs dist cs)

-- Whatever the configuration function of a distribution sets, after the packaging defaults the
-- archives pack exactly the builds of the project, each once and in their order.
pub with_packaging_defaults-archived :
    (name : String) (f : Distribution → Distribution)
    → let p =
        build_project
          (build (with_packaging_defaults (with_config_func f (new_distribution_builder name)))) in
      archived p ≡ build_ids p
unfolding new_distribution_builder with_config_func with_packaging_defaults build build_project
with_packaging_defaults-archived name f =
    let d = f (new_distribution_builder name).dist in
    append-nil _ ∙ ids_of_configs d.name d.build_configs
