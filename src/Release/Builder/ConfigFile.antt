-- ===== src/Release/Builder/ConfigFile.antt =====
-- Which artifacts ship the default configuration file.
use mathlib.Core.List.{map-append}
use opentelemetry_collector.Prelude.{
  String, List, [], ◌∷◌, ◌++◌, map, All, In, here, In-append_right, ◌≡◌, refl,
}
use opentelemetry_collector.Release.Goreleaser.{Docker, Nfpm, NfpmContent, Msi, Project}
use opentelemetry_collector.Release.Builder.Defaults.{config_content}
use opentelemetry_collector.Release.Builder.{
  Distribution, DistributionBuilder, with_config_func, with_default_config_included, build,
  build_project, apply_all,
}

-- Every image, package and installer of a project contains config.yaml.
pub record HasConfig (p : Project) : Type 0 where
  pub images : All (λ (d : Docker). In "config.yaml" d.files) p.dockers
  pub packages :
      All (λ (n : Nfpm). In "config.yaml" (map (λ (c : NfpmContent). c.source) n.contents)) p.nfpms
  pub installers : All (λ (m : Msi). In "config.yaml" m.files) p.msi

apply_all-append :
    (fs gs : List (Distribution → Distribution)) (d : Distribution)
    → apply_all (fs ++ gs) d ≡ apply_all gs (apply_all fs d)
unfolding apply_all
apply_all-append [] gs d = refl
apply_all-append (f ∷ fs) gs d = apply_all-append fs gs (f d)

-- A build runs the function that was added last on the result of all others.
pub build-with_config_func :
    (f : Distribution → Distribution) (b : DistributionBuilder)
    → build (with_config_func f b) ≡ f (build b)
unfolding build with_config_func
build-with_config_func f b = apply_all-append b.config_funcs (f ∷ []) b.dist

images-HasConfig :
    (ds : List Docker)
    → All
        (λ (d : Docker). In "config.yaml" d.files)
        (map (λ (c : Docker). record c { files = c.files ++ "config.yaml" ∷ [] }) ds)
images-HasConfig [] = tt
images-HasConfig (d ∷ ds) = (In-append_right d.files (here refl), images-HasConfig ds)

packages-HasConfig :
    (name : String) (ns : List Nfpm)
    → All
        (λ (n : Nfpm). In "config.yaml" (map (λ (c : NfpmContent). c.source) n.contents))
        (map (λ (n : Nfpm). record n { contents = n.contents ++ config_content name ∷ [] }) ns)
unfolding config_content
packages-HasConfig name [] = tt
packages-HasConfig name (n ∷ ns) =
    (rw map-append (In-append_right (map _ n.contents) (here refl)), packages-HasConfig name ns)

installers-HasConfig :
    (ms : List Msi)
    → All
        (λ (m : Msi). In "config.yaml" m.files)
        (map (λ (m : Msi). record m { files = m.files ++ "config.yaml" ∷ [] }) ms)
installers-HasConfig [] = tt
installers-HasConfig (m ∷ ms) = (In-append_right m.files (here refl), installers-HasConfig ms)

-- Whatever a builder has configured before, with WithDefaultConfigIncluded as its last step every
-- image, package and installer of the project contains config.yaml.
pub with_default_config_included-HasConfig :
    (b : DistributionBuilder) → HasConfig (build_project (build (with_default_config_included b)))
unfolding with_default_config_included build_project
with_default_config_included-HasConfig b = rw build-with_config_func (record {
  images = images-HasConfig (build b).container_images;
  packages = packages-HasConfig (build b).name (build b).nfpms;
  installers = installers-HasConfig (build b).msi_config;
})
