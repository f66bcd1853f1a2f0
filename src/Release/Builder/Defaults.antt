-- ===== src/Release/Builder/Defaults.antt =====
-- The values of the packaging defaults of configure.go. `path.Join` of its clean elements is `/`
-- between them.
use opentelemetry_collector.Prelude.{String, List, [], ◌∷◌, ◌+++◌, join}
use opentelemetry_collector.Release.Goreleaser.{
  Archive, Nfpm, NfpmContent, Msi, Sign, DockerHub, Sbom, Checksum,
}
use opentelemetry_collector.Release.Names.{docker_hub, docker_hub_full_descriptions, image_name}

-- newArchives
abbrev pub new_archives : String → List String → List Archive
new_archives dist builds =
    record {
      id = dist;
      name_template =
          "{{ .Binary }}_{{ .Version }}_{{ .Os }}_{{ .Arch }}{{ if .Arm }}v{{ .Arm }}{{ end }}{{ if .Mips }}_{{ .Mips }}{{ end }}";
      builds = builds;
      formats = [];
    }
    ∷ []

-- the archive of WithBinArchive
abbrev pub bin_archive : Archive
bin_archive = record { id = ""; name_template = ""; builds = []; formats = "binary" ∷ [] }

-- newNfpms
unfoldable pub new_nfpms : String → List Nfpm
new_nfpms dist =
    record {
      id = dist;
      builds = (dist +++ "-linux") ∷ [];
      formats = "deb" ∷ "rpm" ∷ [];
      license = "Apache 2.0";
      description = "OpenTelemetry Collector - " +++ dist;
      maintainer =
          "The OpenTelemetry Collector maintainers <cncf-opentelemetry-maintainers@lists.cncf.io>";
      overrides = ("rpm", "/bin/sh" ∷ []) ∷ [];
      package_name = dist;
      scripts = record {
        pre_install = "preinstall.sh";
        post_install = "postinstall.sh";
        pre_remove = "preremove.sh";
      };
      contents =
          record {
            source = dist +++ ".service";
            destination = join "/" ("/lib" ∷ "systemd" ∷ "system" ∷ (dist +++ ".service") ∷ []);
            content_type = "";
          }
          ∷ record {
            source = dist +++ ".conf";
            destination = join "/" ("/etc" ∷ dist ∷ (dist +++ ".conf") ∷ []);
            content_type = "config|noreplace";
          }
          ∷ [];
    }
    ∷ []

-- newMSIConfig
unfoldable pub new_msi_config : String → List Msi
new_msi_config dist =
    record {
      id = dist;
      name = dist +++ "_{{ .Version }}_{{ .Os }}_{{ .MsiArch }}";
      wxs = "windows-installer.wxs";
      files = "opentelemetry.ico" ∷ [];
    }
    ∷ []

-- signs
unfoldable pub default_signs : List Sign
default_signs =
    record {
      artifacts = "all";
      signature = "${artifact}.sig";
      certificate = "${artifact}.pem";
      cmd = "cosign";
      args =
          "sign-blob" ∷ "--output-signature" ∷ "${artifact}.sig" ∷ "--output-certificate"
          ∷ "${artifact}.pem" ∷ "${artifact}" ∷ [];
    }
    ∷ []

-- dockerSigns
unfoldable pub default_docker_signs : List Sign
default_docker_signs =
    record {
      artifacts = "all";
      signature = "";
      certificate = "";
      cmd = "";
      args = "sign" ∷ "${artifact}" ∷ [];
    }
    ∷ []

-- dockerHubs
unfoldable pub new_docker_hubs : String → List DockerHub
new_docker_hubs name =
    record {
      images = (docker_hub +++ "/" +++ image_name name) ∷ [];
      description = "OpenTelemetry Collector - " +++ name;
      full_description_url = docker_hub_full_descriptions name;
    }
    ∷ []

-- sboms
unfoldable pub default_sboms : List Sbom
default_sboms =
    record { id = "archive"; artifacts = "archive" }
    ∷ record { id = "package"; artifacts = "package" }
    ∷ []

-- the checksum of WithDefaultChecksum
unfoldable pub default_checksum : String → Checksum
default_checksum name = record {
  name_template = "{{ .ProjectName }}_" +++ name +++ "_checksums.txt";
}

-- the entry that WithDefaultConfigIncluded adds to a package
unfoldable pub config_content : String → NfpmContent
config_content name = record {
  source = "config.yaml";
  destination = join "/" ("/etc" ∷ name ∷ "config.yaml" ∷ []);
  content_type = "config|noreplace";
}
