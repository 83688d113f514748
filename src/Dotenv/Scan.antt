-- ===== src/Dotenv/Scan.antt =====
-- internal/dotenv/dotenv.go, `scanEntries` and the validation of keys.
pub mod Rounds
pub mod Spans
pub mod Keys
use acme_mux.Prelude.{
  ℕ, zero, suc, ◌+◌, ◌-◌, Bool, true, false, not, ◌&&◌, ◌||◌, List, [], ◌∷◌, ◌++◌, Option, none,
  some, ltb, leb, within, ◌==◌, if◌then◌else◌, get_elem?, drop, slice, length, reverse, Result, ok,
  err, ◌>>=◌, ◌>>◌, reject_if,
}
use acme_mux.Prelude.Bytes.{Bytes, codes, equal, has_prefix, contains, bytes_leb}
use acme_mux.Prelude.Sort.{sort}
use acme_mux.Prelude.Utf8.{trim_space}
use acme_mux.Dotenv.Types.{
  Code, M, Error, Entry, malformed, invalid_policy, duplicate_key, expansion_not_allowed, error_of,
  error_for,
}
use acme_mux.Dotenv.Lines.{
  is_line_end, is_horizontal_space, skip_whitespace, skip_horizontal, consume_line,
  current_line_start,
}
use acme_mux.Dotenv.Value.{ScannedValue, scan_value}

abbrev is_upper : ℕ → Bool
is_upper = within b'A' b'Z'

abbrev is_digit : ℕ → Bool
is_digit = within b'0' b'9'

-- The loop of `validKey`; the flag says that the index is above 0.
valid_key_bytes : Bool → Bytes → Bool
valid_key_bytes later [] = true
valid_key_bytes later (c ∷ rest) =
    (is_upper c || c == b'_' || later && is_digit c) && valid_key_bytes true rest

unfoldable pub valid_key : Bytes → Bool
unfolding valid_key_bytes
valid_key [] = false
valid_key (c ∷ rest) = leb (length (c ∷ rest)) 128 && valid_key_bytes false (c ∷ rest)

valid_source_bytes : Bytes → Bool
valid_source_bytes [] = true
valid_source_bytes (c ∷ rest) =
    (is_upper c || within b'a' b'z' c || is_digit c || c == b'_' || c == b'.')
    && valid_source_bytes rest

unfoldable pub valid_source_key : Bytes → Bool
unfolding valid_source_bytes
valid_source_key [] = false
valid_source_key (c ∷ rest) = leb (length (c ∷ rest)) 256 && valid_source_bytes (c ∷ rest)

unfoldable pub all_valid_keys : List Bytes → Bool
all_valid_keys [] = true
all_valid_keys (k ∷ ks) = valid_key k && all_valid_keys ks

-- The loop over neighbours in the sorted keys.
unfoldable pub has_equal_neighbours : List Bytes → Bool
has_equal_neighbours [] = false
has_equal_neighbours (k ∷ []) = false
has_equal_neighbours (k ∷ (j ∷ ks)) = equal j k || has_equal_neighbours (j ∷ ks)

unfoldable pub validate_allowed_keys : List Bytes → M (List Bytes)
validate_allowed_keys keys = do
  reject_if (not (all_valid_keys keys)) (error_of invalid_policy)
  let result = sort bytes_leb keys
  reject_if (has_equal_neighbours result) (error_of invalid_policy)
  ok result

-- What the loop of `scanEntries` has collected.
pub record Scan : Type 0 where
  pub entries : List Entry
  pub seen : List Bytes
  pub unsupported_set : List Bytes

-- Behind a leading "export" and a horizontal space.
unfoldable pub key_start_at : Bytes → ℕ → ℕ
unfolding has_prefix skip_horizontal
key_start_at text position =
    if has_prefix (drop position text) (codes "export")
    then elim (get_elem? text (position + 6)) [
      | none ↦ position
      | some c ↦ if is_horizontal_space c then skip_horizontal text (position + 6) else position
    ]
    else position

-- The first '=' or ':' before the end of the line.
unfoldable pub find_separator : ℕ → Bytes → Option ℕ
find_separator position [] = none
find_separator position (c ∷ rest) =
    if c == b'=' || c == b':'
    then some position
    else if is_line_end c
    then none
    else find_separator (suc position) rest

-- A statement's entry joins the managed ones or, as a key alone, the unsupported ones.
unfoldable pub record_statement : List Bytes → Entry → Bool → Scan → M Scan
unfolding contains
record_statement allowed entry expansion scan =
    let seen = entry.key ∷ scan.seen in
    if contains allowed entry.key
    then (if expansion
        then err (error_for expansion_not_allowed entry.key)
        else ok (record scan { entries = scan.entries ++ entry ∷ []; seen = seen }))
    else ok (record scan { seen = seen; unsupported_set = entry.key ∷ scan.unsupported_set })

-- One statement, whose first byte stands at `position`, with the position behind it.
unfoldable pub scan_statement : Bytes → List Bytes → ℕ → ℕ → ℕ → Scan → M (ℕ × Scan)
scan_statement text allowed position key_start separator scan = do
  let key = trim_space (slice text key_start separator)
  reject_if (not (valid_source_key key)) (error_of malformed)
  reject_if (contains scan.seen key) (error_for duplicate_key key)
  let value_start = skip_horizontal text (separator + 1)
  value ← scan_value text value_start
  next ←
      record_statement allowed
        (record {
          key = key;
          statement_start = current_line_start text position;
          statement_end = value.statement_end;
          value_start = value_start;
          value_end = value.value_end;
        })
        value.expansion scan
  ok (value.statement_end, next)

-- One round of the loop from a byte that is no whitespace.
unfoldable pub scan_round : Bytes → List Bytes → ℕ → ℕ → Scan → M (ℕ × Scan)
scan_round text allowed position c scan =
    if c == b'#'
    then ok (consume_line text position, scan)
    else let key_start = key_start_at text position in
      elim (find_separator key_start (drop key_start text)) [
        | none ↦ err (error_of malformed)
        | some separator ↦ scan_statement text allowed position key_start separator scan
      ]

-- The loop of `scanEntries`, on fuel; `none` means that the fuel ran out.
unfoldable pub scan_loop : ℕ → Bytes → List Bytes → ℕ → Scan → Option (M Scan)
scan_loop zero text allowed position scan = none
scan_loop (suc fuel) text allowed position scan =
    let start = skip_whitespace text position in
    elim (get_elem? text start) [
      | none ↦ some (ok scan)
      | some c ↦ elim (scan_round text allowed start c scan) [
        | err e ↦ some (err e)
        | ok (next, scan') ↦ scan_loop fuel text allowed next scan'
      ]
    ]

abbrev pub empty_scan : Scan
empty_scan = record { entries = []; seen = []; unsupported_set = [] }

-- Each round moves on by a byte, so one more round than there are bytes is enough.
abbrev pub scan_fuel : Bytes → ℕ
scan_fuel text = suc (length text)

pub record Scanned : Type 0 where
  pub entries : List Entry
  pub unsupported : List Bytes

abbrev pub finish_scan : Option (M Scan) → M Scanned
finish_scan none = err (error_of malformed)
finish_scan (some (err e)) = err e
finish_scan (some (ok scan)) =
    ok (record { entries = scan.entries; unsupported = sort bytes_leb scan.unsupported_set })

unfoldable pub scan_entries : Bytes → List Bytes → M Scanned
scan_entries text allowed = finish_scan (scan_loop (scan_fuel text) text allowed 0 empty_scan)
