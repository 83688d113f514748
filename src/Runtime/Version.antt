-- ===== src/Runtime/Version.antt =====
-- internal/runtime/version.go: the parser of what the native program says of its version. All its errors
-- have one code, `malformed_version_output`, and are `none`.
pub mod Printed
use acme_mux.Prelude.{
  ℕ, suc, ◌+◌, ◌-◌, Bool, true, false, not, ◌&&◌, ◌||◌, List, [], ◌∷◌, ◌++◌, Option, none, some,
  ◌==◌, ltb, within, if◌then◌else◌, length, take, drop,
}
use acme_mux.Prelude.Bytes.{Bytes, equal, codes}

abbrev pub maximum_version_output : ℕ
maximum_version_output = 256

pub data VersionKind : Type 0 where
  release revision : VersionKind

pub record VersionIdentity : Type 0 where
  pub kind : VersionKind
  pub value : Bytes

pub record Platform : Type 0 where
  pub os : Bytes
  pub arch : Bytes

pub record Version : Type 0 where
  pub identity : VersionIdentity
  pub platform : Platform
  pub line : Bytes

-- `strings.Split` at one byte.
abbrev pub push : ℕ → List Bytes → List Bytes
push b [] = (b ∷ []) ∷ []
push b (x ∷ xs) = (b ∷ x) ∷ xs

unfoldable pub split_at : ℕ → Bytes → List Bytes
split_at c [] = [] ∷ []
split_at c (b ∷ bs) = let rest = split_at c bs in if b == c then [] ∷ rest else push b rest

unfoldable pub every : (ℕ → Bool) → Bytes → Bool
every test [] = true
every test (b ∷ bs) = test b && every test bs

unfoldable pub count_byte : ℕ → Bytes → ℕ
count_byte c [] = 0
count_byte c (b ∷ bs) = if b == c then 1 + count_byte c bs else count_byte c bs

unfoldable pub last_is : ℕ → Bytes → Bool
last_is c [] = false
last_is c (b ∷ []) = b == c
last_is c (b ∷ (d ∷ bs)) = last_is c (d ∷ bs)

abbrev pub is_empty : Bytes → Bool
is_empty [] = true
is_empty (b ∷ bs) = false

abbrev pub is_digit : ℕ → Bool
is_digit = within b'0' b'9'

-- `platformPattern`.
abbrev pub is_platform : Bytes → Bool
is_platform text = not (is_empty text) && every (λ c. within b'a' b'z' c || is_digit c) text

-- `revisionPattern`.
abbrev pub is_revision : Bytes → Bool
is_revision text = length text == 40 && every (λ c. is_digit c || within b'a' b'f' c) text

abbrev pub is_number : Bytes → Bool
is_number text = not (is_empty text) && every is_digit text

abbrev pub without_v : Bytes → Bytes
without_v [] = []
without_v (c ∷ cs) = if c == b'v' then cs else c ∷ cs

abbrev pub three_numbers : List Bytes → Option (Bytes × Bytes × Bytes)
three_numbers (a ∷ (b ∷ (c ∷ []))) =
    if is_number a && is_number b && is_number c then some (a, b, c) else none
three_numbers _ = none

-- `releasePattern.FindStringSubmatch`.
abbrev pub release_match : Bytes → Option (Bytes × Bytes × Bytes)
release_match text = three_numbers (split_at b'.' (without_v text))

-- A component of more than one digit that begins with a zero.
abbrev pub has_leading_zero : Bytes → Bool
has_leading_zero (c ∷ (d ∷ cs)) = c == b'0'
has_leading_zero _ = false

abbrev pub release_of : Bytes × Bytes × Bytes → Option VersionIdentity
release_of (a, b, c) =
    if has_leading_zero a || has_leading_zero b || has_leading_zero c
    then none
    else some (record { kind = VersionKind.release; value = b'v' ∷ (a ++ b'.' ∷ (b ++ b'.' ∷ c)) })

unfoldable pub identity_of : Bytes → Option VersionIdentity
identity_of text = elim (release_match text) [
  | some m ↦ release_of m
  | none ↦
      if is_revision text then some (record { kind = VersionKind.revision; value = text }) else none
]

abbrev pub version_prefix : Bytes
version_prefix = codes "lego version "

abbrev pub with_identity : Bytes → Platform → Option VersionIdentity → Option Version
with_identity line p none = none
with_identity line p (some i) = some (record { identity = i; platform = p; line = line })

abbrev pub platform_fields : Bytes → Bytes → List Bytes → Option Version
platform_fields line f (os ∷ (arch ∷ [])) =
    if not (is_platform os && is_platform arch)
    then none
    else with_identity line (record { os = os; arch = arch }) (identity_of f)
platform_fields line f _ = none

abbrev pub version_fields : Bytes → List Bytes → Option Version
version_fields line (f ∷ (p ∷ [])) =
    if is_empty f || is_empty p then none else platform_fields line f (split_at b'/' p)
version_fields line _ = none

abbrev pub parse_line : Bytes → Option Version
parse_line line =
    if not (equal (take (length version_prefix) line) version_prefix)
    then none
    else version_fields line (split_at b' ' (drop (length version_prefix) line))

-- `ParseVersionOutput`.
unfoldable pub parse_version_output : Bytes → Option Version
parse_version_output output =
    if length output == 0 || ltb maximum_version_output (length output)
    then none
    else if not (every (λ c. c == b'\n' || within 0x20 0x7e c) output)
    then none
    else if not (last_is b'\n' output) || not (count_byte b'\n' output == 1)
    then none
    else parse_line (take (length output - 1) output)
