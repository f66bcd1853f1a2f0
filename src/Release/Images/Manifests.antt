-- ===== src/Release/Images/Manifests.antt =====
-- The Docker manifests of configure.go against the Docker images that it builds.
use text.Mathlib.TextLemmas.{append_assoc as text_append_assoc}
use opentelemetry_collector.Prelude.{
  String, List, [], ◌∷◌, concat_map, All, All-append, All-imp, All-concat_map, In, here, there,
  In-concat_map, In-map, ◌==◌, ◌+++◌, ◌≡◌, refl, sym, ap, ◌∙◌, false, arith, subst, inl, inr,
  Bool-cases,
}
use opentelemetry_collector.Release.Goreleaser.{Docker, DockerManifest}
use opentelemetry_collector.Release.Names.{
  docker_hub, ghcr, k8s_distro, image_name, image_tag, arm_versions,
}
use opentelemetry_collector.Release.Images.{
  ContainerImageOptions, docker_image_with_os, new_container_images, manifest_templates_of,
  os_docker_manifest, new_container_image_manifests,
}

-- The options that every distribution uses for its linux images.
abbrev pub linux_options : ContainerImageOptions
linux_options = record { arm_version = "7"; win_version = "" }

-- All tags under which some images are pushed.
abbrev pub pushed : List Docker → List String
pushed images = concat_map (λ (d : Docker). d.image_templates) images

-- All images to which some manifests refer.
abbrev pub referred : List DockerManifest → List String
referred ms = concat_map (λ (m : DockerManifest). m.image_templates) ms

-- The name of the linux image for `arch` in one repository, under one tag.
linux_image : String → String → String → String → String
linux_image dist repo tag arch =
    repo
    +++ "/"
    +++ image_name dist
    +++ ":"
    +++ tag
    +++ "-"
    +++ image_tag (record { os = "linux"; arch = arch; version = "7" })

merge_tag : (tag t : String) → ":" +++ tag +++ "-" +++ t ≡ (":" +++ tag +++ "-") +++ t
merge_tag tag t =
    ap (λ u. ":" +++ u) (sym (text_append_assoc tag "-" t))
    ∙ sym (text_append_assoc ":" (tag +++ "-") t)

manifest_templates_name :
    (dist repo tag arch : String)
    → All
        (λ t. t ≡ linux_image dist repo tag arch)
        (manifest_templates_of repo tag dist "linux" arch)
unfolding manifest_templates_of linux_image image_tag arm_versions
manifest_templates_name dist repo tag arch = ground arith

-- The four names of an image: two repositories, two tags.
image_names :
    (dist arch : String)
    → (docker_image_with_os dist "linux" arch linux_options).image_templates
      ≡ linux_image dist docker_hub "{{ .Version }}" arch
        ∷ linux_image dist docker_hub "latest" arch
        ∷ linux_image dist ghcr "{{ .Version }}" arch
        ∷ linux_image dist ghcr "latest" arch
        ∷ []
unfolding linux_image docker_image_with_os
image_names dist arch =
    let t = image_tag (record { os = "linux"; arch = arch; version = "7" }) in
    rw (merge_tag "{{ .Version }}" t, merge_tag "latest" t) refl

-- Every image that a manifest of one repository and tag names is `linux_image` of an architecture.
repo_manifest :
    (P : String → Type 0) (dist repo tag : String) (archs : List String)
    → ((arch : String) → In arch archs → P (linux_image dist repo tag arch))
    → All P (os_docker_manifest repo tag dist "linux" archs).image_templates
unfolding os_docker_manifest
repo_manifest P dist repo tag archs h =
    All-concat_map P (manifest_templates_of repo tag dist "linux") archs λ arch k.
      All-imp (λ t e. subst P (sym e) (h arch k)) (manifest_templates_of repo tag dist "linux" arch)
        (manifest_templates_name dist repo tag arch)

module _ (dist : String) (archs : List String) where
  -- A template of the image of one of the architectures is pushed.
  template_pushed :
      {arch t : String}
      → In arch archs
      → In t (docker_image_with_os dist "linux" arch linux_options).image_templates
      → In t (pushed (new_container_images dist "linux" archs linux_options))
  unfolding new_container_images
  template_pushed h k = In-concat_map (λ (d : Docker). d.image_templates) (In-map _ h) k

  -- The image `t` of each architecture is pushed if it is one of its four names.
  name_pushed :
      {arch t : String}
      → In arch archs
      → In t (
          linux_image dist docker_hub "{{ .Version }}" arch
          ∷ linux_image dist docker_hub "latest" arch
          ∷ linux_image dist ghcr "{{ .Version }}" arch
          ∷ linux_image dist ghcr "latest" arch
          ∷ [])
      → In t (pushed (new_container_images dist "linux" archs linux_options))
  name_pushed {arch} {t} h k = template_pushed h (subst (In t) (sym (image_names dist arch)) k)

  -- For every distribution name, every list of architectures and all options of the manifests,
  -- each image that a linux manifest refers to is among the tags of the linux images that are
  -- built for the same architectures with ARM version 7.
  pub referred-pushed :
      (opts : ContainerImageOptions)
      → All
          (λ t. In t (pushed (new_container_images dist "linux" archs linux_options)))
          (referred (new_container_image_manifests dist "linux" archs opts))
  unfolding new_container_image_manifests
  referred-pushed opts = All-append _ _ _ (from docker_hub "{{ .Version }}" (λ arch. here refl)) (
      All-append _ _ _ (from docker_hub "latest" (λ arch. there (here refl))) (
        All-append _ _ _ (from ghcr "{{ .Version }}" (λ arch. there (there (here refl))))
          (All-append _ _ _ (from ghcr "latest" (λ arch. there (there (there (here refl))))) tt)))
    where
      from :
          (repo tag : String)
          → ((arch : String)
              → In (linux_image dist repo tag arch) (
                  linux_image dist docker_hub "{{ .Version }}" arch
                  ∷ linux_image dist docker_hub "latest" arch
                  ∷ linux_image dist ghcr "{{ .Version }}" arch
                  ∷ linux_image dist ghcr "latest" arch
                  ∷ []))
          → All
              (λ t. In t (pushed (new_container_images dist "linux" archs linux_options)))
              (os_docker_manifest repo tag dist "linux" archs).image_templates
      from repo tag at = repo_manifest _ dist repo tag archs (λ arch h. name_pushed h (at arch))

  -- Outside the k8s distribution a manifest names the image of each architecture.
  manifest_names :
      (repo tag arch : String)
      → (dist == k8s_distro) ≡ false
      → In (linux_image dist repo tag arch) (manifest_templates_of repo tag dist "linux" arch)
  unfolding manifest_templates_of linux_image image_tag arm_versions
  manifest_names repo tag arch n = elim (Bool-cases (arch == "arm")) [
    | inl e ↦ rw (e, n) (here refl)
    | inr e ↦ rw e (here refl)
  ]

  name_referred :
      (repo tag : String) {arch : String}
      → (dist == k8s_distro) ≡ false
      → In arch archs
      → In
          (linux_image dist repo tag arch)
          (os_docker_manifest repo tag dist "linux" archs).image_templates
  unfolding os_docker_manifest
  name_referred repo tag {arch} n h = In-concat_map _ h (manifest_names repo tag arch n)

  pushed-All :
      (P : String → Type 0) (names : List String)
      → ((arch : String)
          → In arch names
          → All P (docker_image_with_os dist "linux" arch linux_options).image_templates)
      → All P (pushed (new_container_images dist "linux" names linux_options))
  unfolding new_container_images
  pushed-All P [] h = tt
  pushed-All P (a ∷ names) h =
      All-append P (docker_image_with_os dist "linux" a linux_options).image_templates _
        (h a (here refl)) (pushed-All P names (λ arch k. h arch (there k)))

  -- A name that one of the manifests lists is referred to.
  listed :
      (ms : List DockerManifest) {m : DockerManifest} {t : String}
      → In m ms
      → In t m.image_templates
      → In t (referred ms)
  listed ms h k = In-concat_map (λ (m : DockerManifest). m.image_templates) h k

  -- For every distribution name but that of k8s and every list of architectures, each tag of the
  -- linux images that are built with ARM version 7 is named by one of the linux manifests.
  pub pushed-referred :
      (opts : ContainerImageOptions)
      → (dist == k8s_distro) ≡ false
      → All
          (λ t. In t (referred (new_container_image_manifests dist "linux" archs opts)))
          (pushed (new_container_images dist "linux" archs linux_options))
  unfolding new_container_image_manifests
  pushed-referred opts n =
      let ms = new_container_image_manifests dist "linux" archs opts in
      pushed-All _ archs λ arch h. rw (image_names dist arch) (
        listed ms (here refl) (name_referred docker_hub "{{ .Version }}" n h),
        (
          listed ms (there (here refl)) (name_referred docker_hub "latest" n h),
          (
            listed ms (there (there (here refl))) (name_referred ghcr "{{ .Version }}" n h),
            (listed ms (there (there (there (here refl)))) (name_referred ghcr "latest" n h), tt),
          ),
        ),
      )
