-- ===== src/Dotenv/Document.antt =====
-- internal/dotenv/dotenv.go, `Parse` and the read operations of a document. The native parser
-- `godotenv` is a parameter.
pub mod WellFormed
use acme_mux.Prelude.{
  ℕ, zero, suc, Bool, true, false, not, ◌||◌, List, [], ◌∷◌, ◌++◌, Option, none, some, ltb, ◌==◌,
  if◌then◌else◌, length, slice, map, is_some, ok, err, ◌>>=◌, ◌>>◌, reject_if,
}
use acme_mux.Prelude.Bytes.{Bytes, equal, has_byte}
use acme_mux.Prelude.Utf8.{utf8_valid}
use acme_mux.Dotenv.Types.{
  M, Policy, Presence, Entry, Document, invalid_policy, invalid_utf8, too_large, too_many_lines,
  malformed, value_too_large, error_of, error_for, default_maximum_bytes, maximum_allowed_bytes,
  default_maximum_lines, maximum_allowed_lines, default_maximum_value_bytes,
  maximum_allowed_value_bytes,
}
use acme_mux.Dotenv.Lines.{line_count, detect_newline, has_final_newline}
use acme_mux.Dotenv.Value.{Native, lookup}
use acme_mux.Dotenv.Scan.{validate_allowed_keys, scan_entries}

abbrev pub default_policy : Policy
default_policy = record {
  maximum_bytes = default_maximum_bytes;
  maximum_lines = default_maximum_lines;
  maximum_value_bytes = default_maximum_value_bytes;
}

unfoldable pub policy_is_invalid : Policy → Bool
policy_is_invalid policy =
    policy.maximum_bytes == 0
    || ltb maximum_allowed_bytes policy.maximum_bytes
    || policy.maximum_lines == 0
    || ltb maximum_allowed_lines policy.maximum_lines
    || policy.maximum_value_bytes == 0
    || ltb maximum_allowed_value_bytes policy.maximum_value_bytes

abbrev pub validate_policy : Policy → M (Unit {0})
validate_policy policy = reject_if (policy_is_invalid policy) (error_of invalid_policy)

unfoldable pub find_entry : Bytes → List Entry → Option Entry
find_entry key [] = none
find_entry key (e ∷ es) = if equal e.key key then some e else find_entry key es

-- The checks of `Parse` on the bytes alone.
unfoldable pub check_text : Bytes → Policy → M (Unit {0})
check_text text policy = do
  reject_if (ltb policy.maximum_bytes (length text)) (error_of too_large)
  reject_if (not (utf8_valid text) || has_byte 0 text) (error_of invalid_utf8)
  reject_if (ltb policy.maximum_lines (line_count text)) (error_of too_many_lines)

module _ (godotenv : Native) where
  -- One statement through the native parser.
  unfoldable pub parse_value : Bytes → Policy → Entry → M Bytes
  unfolding lookup
  parse_value text policy e = elim (godotenv (slice text e.statement_start e.statement_end)) [
    | none ↦ err (error_for malformed e.key)
    | some parsed ↦ elim (lookup e.key parsed) [
      | none ↦ err (error_for malformed e.key)
      | some value ↦
          if ltb policy.maximum_value_bytes (length value)
          then err (error_for value_too_large e.key)
          else ok value
    ]
  ]

  -- The loop over the entries, in the order of the scan; Go's order over a map is not fixed.
  unfoldable pub parse_values : Bytes → Policy → List Entry → M (List (Bytes × Bytes))
  parse_values text policy [] = ok []
  parse_values text policy (e ∷ es) = do
    value ← parse_value text policy e
    rest ← parse_values text policy es
    ok ((e.key, value) ∷ rest)

  unfoldable pub parse : Bytes → List Bytes → Policy → M Document
  parse text allowed_keys policy = do
    validate_policy policy
    allowed ← validate_allowed_keys allowed_keys
    check_text text policy
    scanned ← scan_entries text allowed
    values ← parse_values text policy scanned.entries
    ok (record {
      raw = some text;
      allowed = allowed;
      entries = scanned.entries;
      values = values;
      unsupported = scanned.unsupported;
      policy = policy;
      newline = detect_newline text;
      final_newline = has_final_newline text;
    })

unfoldable pub unsupported_keys : Document → List Bytes
unsupported_keys document = document.unsupported

unfoldable pub presence : Document → List Presence
presence document =
    map (λ key. record { key = key; present = is_some (find_entry key document.entries) })
      document.allowed

-- The pair of results: present, and valid.
unfoldable pub validate_presence : Document → Bytes → (Bytes → Bool) → Bool × Bool
validate_presence document key validate = elim (lookup key document.values) [
  | none ↦ (false, true)
  | some value ↦ (true, validate value)
]

unfoldable pub value_copy : Document → Bytes → Option Bytes
value_copy document key = lookup key document.values

unfoldable pub clear : Document → Document
clear document = record document { raw = none; values = []; entries = []; unsupported = [] }
