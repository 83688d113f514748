-- ===== src/Compatibility/Classify/Exact.antt =====
-- What an executable that is admitted agrees with.
use acme_mux.Prelude.{
  Bool, true, false, not, ◌&&◌, ◌||◌, ◌≡◌, inl, inr, List, [], ◌∷◌, some, arith, Bool-cases,
  Option-cases,
}
use acme_mux.Prelude.Bytes.{Bytes, equal, equal_iff}
use acme_mux.Runtime.Version.{VersionIdentity}
use acme_mux.Compatibility.Classify.{
  compatible, Manifest, ExecutableEvidence, Observation, version_eq, platform_eq,
  manifest_for_version, qualified_executable, contains_platform, classify_build, classify,
}

unfoldable pub any_manifest : (Manifest → Bool) → List Manifest → Bool
any_manifest test [] = false
any_manifest test (m ∷ ms) = test m || any_manifest test ms

unfoldable pub any_executable : (ExecutableEvidence → Bool) → List ExecutableEvidence → Bool
any_executable test [] = false
any_executable test (e ∷ es) = test e || any_executable test es

-- The evidence is of an executable that was run, with the observed bytes, platform, output and toolchain.
abbrev pub matches : Observation → ExecutableEvidence → Bool
matches o e =
    e.executed
    && platform_eq e.platform o.platform
    && equal e.sha256 o.file_sha256
    && equal o.version_output e.version_output
    && equal o.build.go_version e.go_version

-- The manifest has the observed version, platform, executable and build.
abbrev pub admits : Observation → Bytes → Manifest → Bool
admits o id m =
    equal m.id id
    && version_eq m.runtime.version o.version
    && contains_platform m.platforms o.platform
    && any_executable (matches o) m.executables
    && equal o.build.main_version m.runtime.module_version
    && equal o.build.dependency_graph_sha256 m.runtime.dependency_graph_sha256
    && equal o.build.vcs_revision m.runtime.vcs_revision
    && not (m.runtime.require_clean && o.build.vcs_modified)

qualified_executable-any :
    (es : List ExecutableEvidence) (o : Observation) {e : ExecutableEvidence}
    → qualified_executable es o.platform o.file_sha256 ≡ some e
    → equal o.version_output e.version_output ≡ true
    → equal o.build.go_version e.go_version ≡ true
    → any_executable (matches o) es ≡ true
unfolding qualified_executable any_executable
qualified_executable-any [] o h out go = absurd (ground arith)
qualified_executable-any (x ∷ es) o {e} h out go =
    elim (Bool-cases
      (x.executed && platform_eq x.platform o.platform && equal x.sha256 o.file_sha256)) [
        | inl found ↦ let same : x ≡ e = ground arith in ground arith
        | inr other ↦
            let rest = qualified_executable-any es o {e = e} (ground arith) out go in ground arith
      ]

manifest_for_version-any :
    (ms : List Manifest) (v : VersionIdentity) (test : Manifest → Bool) {m : Manifest}
    → manifest_for_version ms v ≡ some m
    → (version_eq m.runtime.version v ≡ true → test m ≡ true)
    → any_manifest test ms ≡ true
unfolding manifest_for_version any_manifest
manifest_for_version-any [] v test h fits = absurd (ground arith)
manifest_for_version-any (x ∷ ms) v test {m} h fits =
    elim (Bool-cases (version_eq x.runtime.version v)) [
      | inl found ↦
          let same : x ≡ m = ground arith in let this = fits (ground arith) in ground arith
      | inr other ↦
          let rest = manifest_for_version-any ms v test {m = m} (ground arith) fits in ground arith
    ]

classify_build-admits :
    (m : Manifest) (e : ExecutableEvidence) (o : Observation)
    → classify_build m e o ≡ compatible
    → (equal o.build.go_version e.go_version ≡ true)
      × (equal o.build.main_version m.runtime.module_version ≡ true)
      × (equal o.build.dependency_graph_sha256 m.runtime.dependency_graph_sha256 ≡ true)
      × (equal o.build.vcs_revision m.runtime.vcs_revision ≡ true)
      × ((m.runtime.require_clean && o.build.vcs_modified) ≡ false)
unfolding classify_build
classify_build-admits m e o h =
    (ground arith, ground arith, ground arith, ground arith, ground arith)

-- An executable is classified as compatible with a manifest only if a manifest of the table with that
-- ID has the observed version, platform, module version, dependencies and revision, wants no clean build
-- of a modified one, and holds evidence of an executable that was run with the observed platform, bytes,
-- version output and toolchain.
pub classify-admits :
    (ms : List Manifest) (o : Observation) (id : Bytes)
    → classify ms o ≡ (some id, compatible)
    → any_manifest (admits o id) ms ≡ true
unfolding classify
classify-admits ms o id h = elim (Option-cases (manifest_for_version ms o.version)) [
  | inl none_has ↦ absurd (ground arith)
  | inr (m, e) ↦ elim (Option-cases (qualified_executable m.executables o.platform o.file_sha256)) [
    | inl none_is ↦ absurd (ground arith)
    | inr (x, q) ↦
        let built : classify_build m x o ≡ compatible = ground arith in
        let (go, main, graph, vcs, clean) = classify_build-admits m x o built in
        let out : equal o.version_output x.version_output ≡ true = ground arith in
        let on : contains_platform m.platforms o.platform ≡ true = ground arith in
        let named : m.id ≡ id = ground arith in
        let same = (equal_iff m.id id).1 named in
        let run_one = qualified_executable-any m.executables o q out go in
        manifest_for_version-any ms o.version (admits o id) e (λ version. ground arith)
  ]
]
