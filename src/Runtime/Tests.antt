-- ===== src/Runtime/Tests.antt =====
-- Outputs of the native program, and the theorem at one.
use acme_mux.Prelude.{◌≡◌, refl, [], ◌∷◌, ◌++◌, some, none}
use acme_mux.Prelude.Bytes.{Bytes, equal, codes}
use acme_mux.Runtime.Version.{
  VersionKind, Platform, Version, split_at, every, count_byte, last_is, identity_of,
  parse_version_output,
}
use acme_mux.Runtime.Version.Printed.{Names, printed, parse_version_output-printed}

parses : Unit {0}
unfolding equal split_at every count_byte last_is identity_of parse_version_output
parses = tt

abbrev linux : Platform
linux = record { os = codes "linux"; arch = codes "amd64" }

abbrev released : Version
released = record {
  identity = record { kind = VersionKind.release; value = codes "v4.20.1" };
  platform = linux;
  line = codes "lego version 4.20.1 linux/amd64";
}

abbrev output : Bytes
output = codes "lego version 4.20.1 linux/amd64\n"

parses_a_release : parse_version_output output ≡ some released
unfolding parses
parses_a_release = refl

abbrev revision_name : Bytes
revision_name = codes "0123456789abcdef0123456789abcdef01234567"

parses_a_revision :
    parse_version_output (codes "lego version " ++ (revision_name ++ codes " linux/amd64\n"))
    ≡ some (record {
      identity = record { kind = VersionKind.revision; value = revision_name };
      platform = linux;
      line = codes "lego version " ++ (revision_name ++ codes " linux/amd64");
    })
unfolding parses
parses_a_revision = refl

refuses_other_outputs :
    (parse_version_output (codes "lego version 4.20.01 linux/amd64\n") ≡ none)
    × (parse_version_output (codes "lego version 4.20.1  linux/amd64\n") ≡ none)
    × (parse_version_output (codes "lego version dev linux/amd64\n") ≡ none)
    × (parse_version_output (codes "lego version 4.20.1 linux/amd64") ≡ none)
unfolding parses
refuses_other_outputs = (refl, refl, refl, refl)

parse_version_output-printed_example :
    (text : Bytes) × (output ≡ printed text linux ++ b'\n' ∷ [])
    × (released.line ≡ printed text linux)
    × Names released.identity text
unfolding parses
parse_version_output-printed_example = parse_version_output-printed output released refl
