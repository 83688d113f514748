-- ===== src/Compatibility/Tests.antt =====
-- Classifications of concrete observations, and the theorem at one.
use acme_mux.Prelude.{◌≡◌, refl, true, false, [], ◌∷◌, Option, some, none}
use acme_mux.Prelude.Bytes.{Bytes, equal, codes}
use acme_mux.Runtime.Version.{VersionKind, Platform}
use acme_mux.Compatibility.Classify.{
  Code, compatible, unknown_identity, build_modified, Manifest, Observation, manifest_for_version,
  qualified_executable, contains_platform, all_hex, incomplete, classify_build, classify,
}
use acme_mux.Compatibility.Classify.Exact.{any_manifest, any_executable, admits, classify-admits}

classifies : Unit {0}
unfolding equal manifest_for_version qualified_executable contains_platform all_hex incomplete
    classify_build classify any_manifest any_executable
classifies = tt

abbrev linux : Platform
linux = record { os = codes "linux"; arch = codes "amd64" }

abbrev digest : Bytes
digest = codes "0123456789abcdef0123456789abcdef0123456789abcdef0123456789abcdef"

abbrev manifest : Manifest
manifest = record {
  id = codes "lego-v5.3.1";
  runtime = record {
    version = record { kind = VersionKind.release; value = codes "v5.3.1" };
    command_path = codes "cmd";
    module_path = codes "mod";
    module_version = codes "v5.3.1";
    dependency_graph_sha256 = codes "graph";
    vcs_revision = codes "rev";
    require_clean = true;
  };
  platforms = linux ∷ [];
  executables =
      record {
        platform = linux;
        sha256 = digest;
        version_output = codes "line";
        go_version = codes "go1";
        executed = true;
      }
      ∷ [];
}

abbrev observation : Observation
observation = record {
  file_sha256 = digest;
  version = manifest.runtime.version;
  platform = linux;
  build = record {
    available = true;
    provenance_complete = true;
    go_version = codes "go1";
    command_path = codes "cmd";
    main_path = codes "mod";
    main_version = codes "v5.3.1";
    dependency_graph_sha256 = codes "graph";
    goos = codes "linux";
    goarch = codes "amd64";
    vcs_revision = codes "rev";
    vcs_modified_known = true;
    vcs_modified_valid = true;
    vcs_modified = false;
  };
  version_output = codes "line";
}

abbrev admitted : Option Bytes × Code
admitted = (some (codes "lego-v5.3.1"), compatible)

admits_the_exact_one : classify (manifest ∷ []) observation ≡ admitted
unfolding classifies
admits_the_exact_one = refl

refuses_a_modified_build :
    (classify
        (manifest ∷ [])
        (record observation { build = record (observation.build) { vcs_modified = true } })
      ≡ (some (codes "lego-v5.3.1"), build_modified))
    × (classify [] observation ≡ (none, unknown_identity))
unfolding classifies
refuses_a_modified_build = (refl, refl)

classify-admits_example :
    any_manifest (admits observation (codes "lego-v5.3.1")) (manifest ∷ []) ≡ true
unfolding classifies
classify-admits_example = classify-admits (manifest ∷ []) observation (codes "lego-v5.3.1") refl
