-- ===== src/Dotenv/Tests.antt =====
-- Runs of the dotenv functions, and the theorems at concrete documents. `stub` stands for the
-- native parser: it reads one line `KEY=text` and drops quotes and line ends.
use acme_mux.Prelude.{
  true, false, ◌||◌, ◌≡◌, refl, List, [], ◌∷◌, ◌++◌, some, ◌==◌, if◌then◌else◌, ok, err, take, drop,
}
use acme_mux.Prelude.Bytes.{Bytes, codes, equal, has_prefix, contains, has_byte, bytes_leb}
use acme_mux.Prelude.Sort.{sort, insert}
use acme_mux.Prelude.Utf8.{utf8_valid, trim_space}
use acme_mux.Dotenv.Types.{
  M, Summary, Document, Entry, replace, remove, error_of, error_for, invalid_change, duplicate_key,
  malformed, expansion_not_allowed,
}
use acme_mux.Dotenv.Lines.{
  skip_whitespace, skip_horizontal, line_end, after_break, consume_line, current_line_start,
  line_count, detect_newline, has_final_newline, preceding_line_separator,
}
use acme_mux.Dotenv.Value.{
  Native, lookup, find_close, find_comment, trim_end, scan_trailer, scan_quoted, unquoted_end,
  scan_unquoted, scan_value, contains_expansion, encode_value, encoded_value_round_trips,
  single_quoted,
}
use acme_mux.Dotenv.Scan.{
  valid_key, all_valid_keys, valid_source_key, has_equal_neighbours, validate_allowed_keys,
  key_start_at, find_separator, record_statement, scan_statement, scan_round, scan_loop,
  scan_entries, Scan, empty_scan, scan_fuel, finish_scan,
}
use acme_mux.Dotenv.Document.{
  default_policy, policy_is_invalid, find_entry, parse_value, parse_values, check_text, parse,
}
use acme_mux.Dotenv.Value.Expansion.{expands, contains_expansion-expands}
use acme_mux.Dotenv.Scan.Spans.{scan_terminates}
use acme_mux.Dotenv.Document.WellFormed.{IsWellFormed, parse-IsWellFormed}
use acme_mux.Dotenv.Apply.Surgery.{replacing, removing, apply_nothing}
use acme_mux.Dotenv.Apply.Contract.{
  AllowedOnce, apply_replace, apply-IsWellFormed, apply-AllowedOnce,
}
use acme_mux.Dotenv.Apply.{
  place_value, removal, remove_entry, replace_value, act, plan_change, plan_changes, merge_edits,
  write_edits, append_new, candidate, apply_to, apply,
}

split_at : Bytes → Bytes × Bytes
split_at [] = ([], [])
split_at (c ∷ cs) = let (k, v) = split_at cs in if c == b'=' then ([], cs) else (c ∷ k, v)

strip : Bytes → Bytes
strip [] = []
strip (c ∷ cs) =
    if c == b'\'' || c == b'"' || c == b'\n' || c == b'\r' then strip cs else c ∷ strip cs

stub : Native
unfolding split_at strip
stub line = let (k, v) = split_at line in some ((k, strip v) ∷ [])

-- Everything that a run of `parse` or `apply` computes with.
runs : Unit {0}
unfolding stub insert sort bytes_leb equal contains has_prefix has_byte utf8_valid trim_space
    skip_whitespace skip_horizontal line_end after_break consume_line current_line_start line_count
    detect_newline has_final_newline preceding_line_separator lookup find_close find_comment
    trim_end scan_trailer scan_quoted unquoted_end scan_unquoted scan_value contains_expansion
    encoded_value_round_trips encode_value single_quoted valid_key all_valid_keys valid_source_key
    has_equal_neighbours validate_allowed_keys key_start_at find_separator record_statement
    scan_statement scan_round scan_loop scan_entries policy_is_invalid find_entry parse_value
    parse_values check_text parse place_value removal remove_entry replace_value act plan_change
    plan_changes merge_edits write_edits append_new candidate apply_to apply
runs = tt

abbrev file : Bytes
file = codes "# note\nA=1\nOTHER=x\nB='two' # c\n"

abbrev keys : List Bytes
keys = codes "B" ∷ codes "A" ∷ codes "C" ∷ []

abbrev entry_a : Entry
entry_a = record {
  key = codes "A";
  statement_start = 7;
  statement_end = 11;
  value_start = 9;
  value_end = 10;
}

abbrev entry_b : Entry
entry_b = record {
  key = codes "B";
  statement_start = 19;
  statement_end = 31;
  value_start = 21;
  value_end = 26;
}

abbrev doc : Document
doc = record {
  raw = some file;
  allowed = codes "A" ∷ codes "B" ∷ codes "C" ∷ [];
  entries = entry_a ∷ entry_b ∷ [];
  values = (codes "A", codes "1") ∷ (codes "B", codes "two # c") ∷ [];
  unsupported = codes "OTHER" ∷ [];
  policy = default_policy;
  newline = codes "\n";
  final_newline = true;
}

parse-file : parse stub file keys default_policy ≡ ok doc
unfolding runs
parse-file = refl

abbrev replaced_a : List Summary
replaced_a = (record { key = codes "A"; action = replace }) ∷ []

abbrev removed_b : List Summary
removed_b = (record { key = codes "B"; action = remove }) ∷ []

abbrev without_b : Bytes
without_b = codes "# note\nA=1\nOTHER=x\n"

abbrev new_a : Bytes
new_a = codes "# note\nA='9'\nOTHER=x\nB='two' # c\n"

replace_a : apply stub doc (replacing (codes "A") (codes "9")) ≡ ok (new_a, replaced_a)
unfolding runs
replace_a = refl

remove_b : apply stub doc (removing (codes "B")) ≡ ok (without_b, removed_b)
unfolding runs
remove_b = refl

refused :
    (parse stub (codes "A=1\nA=2") keys default_policy ≡ err (error_for duplicate_key (codes "A")))
    × (parse stub (codes "A=$X") keys default_policy
        ≡ err (error_for expansion_not_allowed (codes "A")))
    × (parse stub (codes "A 1\n") keys default_policy ≡ err (error_of malformed))
unfolding runs
refused = (refl, refl, refl)

-- Two changes to a document that ends in no newline succeed in one order and fail in the other.
abbrev short : Document
short = record {
  raw = some (codes "A=\nB=1");
  allowed = codes "A" ∷ codes "B" ∷ codes "C" ∷ [];
  entries =
      (record {
        key = codes "A";
        statement_start = 0;
        statement_end = 3;
        value_start = 2;
        value_end = 2;
      })
      ∷ (record {
        key = codes "B";
        statement_start = 3;
        statement_end = 6;
        value_start = 5;
        value_end = 6;
      })
      ∷ [];
  values = (codes "A", []) ∷ (codes "B", codes "1") ∷ [];
  unsupported = [];
  policy = default_policy;
  newline = codes "\n";
  final_newline = false;
}

parse-short : parse stub (codes "A=\nB=1") keys default_policy ≡ ok short
unfolding runs
parse-short = refl

replace_first :
    apply stub short (replacing (codes "A") (codes "9") ++ removing (codes "B"))
    ≡ ok (
      codes "A='9'",
      (record { key = codes "A"; action = replace })
          ∷ (record { key = codes "B"; action = remove })
          ∷ [],
    )
unfolding runs
replace_first = refl

remove_first :
    apply stub short (removing (codes "B") ++ replacing (codes "A") (codes "9"))
    ≡ err (error_of invalid_change)
unfolding runs
remove_first = refl

apply_nothing_example : apply stub doc [] ≡ ok (file, [])
apply_nothing_example = apply_nothing stub file keys default_policy doc parse-file

parse-IsWellFormed_example : IsWellFormed file keys doc
parse-IsWellFormed_example = parse-IsWellFormed stub file keys default_policy doc parse-file

apply_replace_example :
    (encoded : Bytes) × (encode_value stub (codes "9") ≡ some encoded)
    × (new_a ≡ take 9 file ++ (encoded ++ drop 10 file))
    × (replaced_a ≡ replaced_a)
apply_replace_example =
    apply_replace stub doc file (codes "A") (codes "9") entry_a new_a replaced_a refl
      (unfold runs in refl) replace_a

-- The last statement of a file with no final newline goes with the separator before it.
abbrev open_file : Bytes
open_file = codes "A=1\r\nB=2"

abbrev open_b : Entry
open_b = record {
  key = codes "B";
  statement_start = 5;
  statement_end = 8;
  value_start = 7;
  value_end = 8;
}

abbrev open_doc : Document
open_doc = record {
  raw = some open_file;
  allowed = codes "A" ∷ codes "B" ∷ codes "C" ∷ [];
  entries =
      record {
        key = codes "A";
        statement_start = 0;
        statement_end = 5;
        value_start = 2;
        value_end = 3;
      }
      ∷ open_b
      ∷ [];
  values = (codes "A", codes "1") ∷ (codes "B", codes "2") ∷ [];
  unsupported = [];
  policy = default_policy;
  newline = codes "\r\n";
  final_newline = false;
}

parse-open_file : parse stub open_file keys default_policy ≡ ok open_doc
unfolding runs
parse-open_file = refl

apply-IsWellFormed_example :
    (parsed : Document) × (parse stub new_a doc.allowed doc.policy ≡ ok parsed)
    × IsWellFormed new_a doc.allowed parsed
apply-IsWellFormed_example =
    apply-IsWellFormed stub doc (replacing (codes "A") (codes "9")) new_a replaced_a replace_a

apply-AllowedOnce_example : AllowedOnce doc.allowed (replacing (codes "A") (codes "9"))
apply-AllowedOnce_example =
    apply-AllowedOnce stub doc (replacing (codes "A") (codes "9")) new_a replaced_a replace_a

scan_terminates_example :
    (r : M Scan) × (scan_loop (scan_fuel file) file (codes "A" ∷ []) 0 empty_scan ≡ some r)
    × (scan_entries file (codes "A" ∷ []) ≡ finish_scan (some r))
scan_terminates_example = scan_terminates file (codes "A" ∷ [])

contains_expansion-expands_example :
    contains_expansion (codes "a\\\\$b") ≡ expands false (codes "a\\\\$b")
contains_expansion-expands_example = contains_expansion-expands (codes "a\\\\$b")
