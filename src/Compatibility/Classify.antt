-- ===== src/Compatibility/Classify.antt =====
-- internal/compatibility/classify.go: the exact allowlist. The table of manifests is an argument; of a
-- manifest, an observation and their parts the model has the fields that classify.go reads.
pub mod Exact
use acme_mux.Prelude.{
  ℕ, Bool, true, false, not, ◌&&◌, ◌||◌, List, [], ◌∷◌, Option, none, some, ◌==◌, within,
  if◌then◌else◌, length,
}
use acme_mux.Prelude.Bytes.{Bytes, equal}
use acme_mux.Runtime.Version.{VersionKind, release, revision, VersionIdentity, Platform}

-- Codes of types.go.
pub data Code : Type 0 where
  compatible unknown_identity unsupported_platform executable_digest_mismatch : Code
  version_output_mismatch build_evidence_missing build_evidence_incomplete : Code
  build_module_mismatch build_version_mismatch build_toolchain_mismatch : Code
  build_dependency_mismatch build_platform_mismatch build_revision_mismatch build_modified : Code
  observation_invalid : Code

pub record RuntimeIdentity : Type 0 where
  pub version : VersionIdentity
  pub command_path : Bytes
  pub module_path : Bytes
  pub module_version : Bytes
  pub dependency_graph_sha256 : Bytes
  pub vcs_revision : Bytes
  pub require_clean : Bool

pub record ExecutableEvidence : Type 0 where
  pub platform : Platform
  pub sha256 : Bytes
  pub version_output : Bytes
  pub go_version : Bytes
  pub executed : Bool

pub record Manifest : Type 0 where
  pub id : Bytes
  pub runtime : RuntimeIdentity
  pub platforms : List Platform
  pub executables : List ExecutableEvidence

pub record BuildEvidence : Type 0 where
  pub available : Bool
  pub provenance_complete : Bool
  pub go_version : Bytes
  pub command_path : Bytes
  pub main_path : Bytes
  pub main_version : Bytes
  pub dependency_graph_sha256 : Bytes
  pub goos : Bytes
  pub goarch : Bytes
  pub vcs_revision : Bytes
  pub vcs_modified_known : Bool
  pub vcs_modified_valid : Bool
  pub vcs_modified : Bool

pub record Observation : Type 0 where
  pub file_sha256 : Bytes
  pub version : VersionIdentity
  pub platform : Platform
  pub build : BuildEvidence
  pub version_output : Bytes

abbrev pub kind_eq : VersionKind → VersionKind → Bool
kind_eq release release = true
kind_eq revision revision = true
kind_eq _ _ = false

abbrev pub version_eq : VersionIdentity → VersionIdentity → Bool
version_eq v w = kind_eq v.kind w.kind && equal v.value w.value

abbrev pub platform_eq : Platform → Platform → Bool
platform_eq p q = equal p.os q.os && equal p.arch q.arch

unfoldable pub manifest_for_version : List Manifest → VersionIdentity → Option Manifest
manifest_for_version [] v = none
manifest_for_version (m ∷ ms) v =
    let rest = manifest_for_version ms v in if version_eq m.runtime.version v then some m else rest

unfoldable pub qualified_executable :
    List ExecutableEvidence → Platform → Bytes → Option ExecutableEvidence
qualified_executable [] p digest = none
qualified_executable (e ∷ es) p digest =
    let rest = qualified_executable es p digest in
    if e.executed && platform_eq e.platform p && equal e.sha256 digest then some e else rest

unfoldable pub contains_platform : List Platform → Platform → Bool
contains_platform [] p = false
contains_platform (q ∷ qs) p = platform_eq q p || contains_platform qs p

unfoldable pub all_hex : Bytes → Bool
all_hex [] = true
all_hex (c ∷ cs) = (within b'0' b'9' c || within b'a' b'f' c) && all_hex cs

-- `hex64Pattern`.
abbrev pub is_hex64 : Bytes → Bool
is_hex64 text = length text == 64 && all_hex text

abbrev pub is_empty : Bytes → Bool
is_empty [] = true
is_empty (c ∷ cs) = false

unfoldable pub incomplete : BuildEvidence → Bool
incomplete b =
    not b.provenance_complete
    || is_empty b.go_version
    || is_empty b.command_path
    || is_empty b.main_path
    || is_empty b.main_version
    || is_empty b.dependency_graph_sha256
    || is_empty b.goos
    || is_empty b.goarch
    || is_empty b.vcs_revision
    || not b.vcs_modified_known
    || not b.vcs_modified_valid

unfoldable pub classify_build : Manifest → ExecutableEvidence → Observation → Code
classify_build m e o =
    let b = o.build in
    if not b.available
    then build_evidence_missing
    else if incomplete b
    then build_evidence_incomplete
    else if not
        (equal b.command_path m.runtime.command_path && equal b.main_path m.runtime.module_path)
    then build_module_mismatch
    else if not (equal b.go_version e.go_version)
    then build_toolchain_mismatch
    else if not (equal b.main_version m.runtime.module_version)
    then build_version_mismatch
    else if not (equal b.dependency_graph_sha256 m.runtime.dependency_graph_sha256)
    then build_dependency_mismatch
    else if not (equal b.goos o.platform.os && equal b.goarch o.platform.arch)
    then build_platform_mismatch
    else if not (equal b.vcs_revision m.runtime.vcs_revision)
    then build_revision_mismatch
    else if m.runtime.require_clean && b.vcs_modified
    then build_modified
    else compatible

abbrev pub classify_executable : Manifest → Observation → Option ExecutableEvidence → Code
classify_executable m o none = executable_digest_mismatch
classify_executable m o (some e) =
    if not (equal o.version_output e.version_output)
    then version_output_mismatch
    else classify_build m e o

abbrev pub classify_under : Observation → Option Manifest → Option Bytes × Code
classify_under o none = (none, unknown_identity)
classify_under o (some m) = (
  some m.id,
  if not (is_hex64 o.file_sha256)
      then observation_invalid
      else if not (contains_platform m.platforms o.platform)
      then unsupported_platform
      else classify_executable m o (qualified_executable m.executables o.platform o.file_sha256),
)

-- `Classify`: the manifest, if one has the version, and the code.
unfoldable pub classify : List Manifest → Observation → Option Bytes × Code
classify ms o = classify_under o (manifest_for_version ms o.version)
