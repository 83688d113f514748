-- ===== src/Dotenv/Document/WellFormed.antt =====
-- What `Parse` promises of the documents that it returns.
use mathlib.Core.Path.{subst₂}
use acme_mux.Prelude.{
  true, false, not, ◌||◌, ◌≤◌, ◌≡◌, refl, ap, List, [], ◌∷◌, some, arith, All, map, length, ltb, ok,
  bind-eq-ok, guard-eq-ok, ok-injective,
}
use acme_mux.Prelude.Bytes.{Bytes, has_byte, bytes_leb, bytes_leb_total}
use acme_mux.Prelude.Sort.{sort, insert, Ascending, sort-Ascending, sort_fixed}
use acme_mux.Prelude.Utf8.{utf8_valid}
use acme_mux.Dotenv.Types.{
  Policy, Entry, Document, invalid_policy, invalid_utf8, too_large, error_of,
}
use acme_mux.Dotenv.Lines.{line_count, detect_newline, has_final_newline}
use acme_mux.Dotenv.Value.{Native}
use acme_mux.Dotenv.Scan.{all_valid_keys, has_equal_neighbours, validate_allowed_keys, scan_entries}
use acme_mux.Dotenv.Scan.Spans.{Spans, scan_entries-Spans}
use acme_mux.Dotenv.Scan.Keys.{DistinctKeys, Managed, scan_entries-Managed}
use acme_mux.Dotenv.Document.{policy_is_invalid, parse_value, parse_values, check_text, parse}

all_valid-insert :
    (k : Bytes) (ks : List Bytes)
    → all_valid_keys (k ∷ ks) ≡ true
    → all_valid_keys (insert bytes_leb k ks) ≡ true
unfolding all_valid_keys insert
all_valid-insert k [] h = h
all_valid-insert k (j ∷ ks) h = ground (arith, all_valid-insert k ks)

all_valid-sort :
    (ks : List Bytes) → all_valid_keys ks ≡ true → all_valid_keys (sort bytes_leb ks) ≡ true
unfolding sort all_valid_keys
all_valid-sort [] h = h
all_valid-sort (k ∷ ks) h =
    all_valid-insert k (sort bytes_leb ks) (ground (arith, all_valid-sort ks))

-- The keys that a validation returns: valid, in order and each once.
pub record IsKeySet (keys : List Bytes) : Type 0 where
  pub valid : all_valid_keys keys ≡ true
  pub ascending : Ascending bytes_leb keys
  pub distinct : has_equal_neighbours keys ≡ false

pub validate_allowed_keys-IsKeySet :
    (keys allowed : List Bytes) → validate_allowed_keys keys ≡ ok allowed → IsKeySet allowed
unfolding validate_allowed_keys
validate_allowed_keys-IsKeySet keys allowed e =
    let (valid, e₁) = guard-eq-ok (not (all_valid_keys keys)) (error_of invalid_policy) _ e in
    let (distinct, e₂) =
      guard-eq-ok (has_equal_neighbours (sort bytes_leb keys)) (error_of invalid_policy) _ e₁ in
    rw (← ok-injective e₂) (record {
      valid = all_valid-sort keys (ground arith);
      ascending = sort-Ascending bytes_leb bytes_leb_total keys;
      distinct = distinct;
    })

-- A set of keys is returned as it is.
pub validate_allowed_keys_fixed :
    (keys : List Bytes) → IsKeySet keys → validate_allowed_keys keys ≡ ok keys
unfolding validate_allowed_keys
validate_allowed_keys_fixed keys h = rw (sort_fixed bytes_leb keys h.ascending, h.valid, h.distinct)

pub record IsWellFormed (text : Bytes) (keys : List Bytes) (document : Document) : Type 0 where
  pub raw_is : document.raw ≡ some text
  pub key_set : IsKeySet document.allowed
  pub policy_ok : policy_is_invalid document.policy ≡ false
  pub size-le : length text ≤ document.policy.maximum_bytes
  pub lines-le : line_count text ≤ document.policy.maximum_lines
  pub utf8 : utf8_valid text ≡ true
  pub no_nul : has_byte 0 text ≡ false
  pub spans : Spans 0 document.entries (length text)
  pub managed : All (Managed document.allowed) document.entries
  pub distinct : DistinctKeys document.entries
  pub keyed :
      map (λ (v : Bytes × Bytes). v.0) document.values ≡ map (λ (e : Entry). e.key) document.entries
  pub values-le :
      All (λ (v : Bytes × Bytes). length v.1 ≤ document.policy.maximum_value_bytes) document.values
  pub newline_is : document.newline ≡ detect_newline text
  pub final_is : document.final_newline ≡ has_final_newline text

module _ (godotenv : Native) where
  parse_value-le :
      (text : Bytes) (policy : Policy) (e : Entry) (value : Bytes)
      → parse_value godotenv text policy e ≡ ok value
      → length value ≤ policy.maximum_value_bytes
  unfolding parse_value
  parse_value-le text policy e value h = ground arith

  parse_values_lem :
      (text : Bytes) (policy : Policy) (es : List Entry) (values : List (Bytes × Bytes))
      → parse_values godotenv text policy es ≡ ok values
      → (map (λ (v : Bytes × Bytes). v.0) values ≡ map (λ (e : Entry). e.key) es)
        × All (λ (v : Bytes × Bytes). length v.1 ≤ policy.maximum_value_bytes) values
  unfolding parse_values
  parse_values_lem text policy [] values h = rw (← ok-injective h) (refl, tt)
  parse_values_lem text policy (e ∷ es) values h =
      let (value, got, h₁) = bind-eq-ok (parse_value godotenv text policy e) _ h in
      let (rest, more, h₂) = bind-eq-ok (parse_values godotenv text policy es) _ h₁ in
      let (keys, bound) = parse_values_lem text policy es rest more in
      rw (← ok-injective h₂) (rw keys refl, (parse_value-le text policy e value got, bound))

  -- Every document that Parse returns is within its bounds, has ordered disjoint spans inside the
  -- text, distinct managed keys with values in their bound, and a sorted set of allowed keys.
  pub parse-IsWellFormed :
      (text : Bytes) (keys : List Bytes) (policy : Policy) (document : Document)
      → parse godotenv text keys policy ≡ ok document
      → IsWellFormed text keys document
  unfolding parse check_text
  parse-IsWellFormed text keys policy document h =
      let (good, h₁) = guard-eq-ok (policy_is_invalid policy) (error_of invalid_policy) _ h in
      let (allowed, set, h₂) = bind-eq-ok (validate_allowed_keys keys) _ h₁ in
      let (u, checked, h₃) = bind-eq-ok (check_text text policy) _ h₂ in
      let (scanned, scan, h₄) = bind-eq-ok (scan_entries text allowed) _ h₃ in
      let (values, parsed, h₅) =
        bind-eq-ok (parse_values godotenv text policy scanned.entries) _ h₄ in
      let (size, c₁) =
        guard-eq-ok (ltb policy.maximum_bytes (length text)) (error_of too_large) _ checked in
      let (chars, c₂) =
        guard-eq-ok (not (utf8_valid text) || has_byte 0 text) (error_of invalid_utf8) _ c₁ in
      let (managed, distinct) = scan_entries-Managed text allowed scanned scan in
      let (keyed, bound) = parse_values_lem text policy scanned.entries values parsed in
      rw (← ok-injective h₅) (record {
        raw_is = refl;
        key_set = validate_allowed_keys-IsKeySet keys allowed set;
        policy_ok = good;
        size-le = ground arith;
        lines-le = ground arith;
        utf8 = ground arith;
        no_nul = ground arith;
        spans = scan_entries-Spans text allowed scanned scan;
        managed = managed;
        distinct = distinct;
        keyed = keyed;
        values-le = bound;
        newline_is = refl;
        final_is = refl;
      })

  -- A document's own keys and policy give the same document again.
  pub parse_again :
      (text : Bytes) (keys : List Bytes) (policy : Policy) (document : Document)
      → parse godotenv text keys policy ≡ ok document
      → parse godotenv text document.allowed document.policy ≡ ok document
  unfolding parse
  parse_again text keys policy document h =
      let (good, h₁) = guard-eq-ok (policy_is_invalid policy) (error_of invalid_policy) _ h in
      let (allowed, set, h₂) = bind-eq-ok (validate_allowed_keys keys) _ h₁ in
      let (_, _, h₃) = bind-eq-ok (check_text text policy) _ h₂ in
      let (scanned, _, h₄) = bind-eq-ok (scan_entries text allowed) _ h₃ in
      let (_, _, h₅) = bind-eq-ok (parse_values godotenv text policy scanned.entries) _ h₄ in
      let allowed_is : allowed ≡ document.allowed = ap (λ d. d.allowed) (ok-injective h₅) in
      let policy_is : policy ≡ document.policy = ap (λ d. d.policy) (ok-injective h₅) in
      let fixed =
        validate_allowed_keys_fixed allowed (validate_allowed_keys-IsKeySet keys allowed set) in
      subst₂ (λ a p. parse godotenv text a p ≡ ok document) allowed_is policy_is
        (rw (good, fixed) h₂)
