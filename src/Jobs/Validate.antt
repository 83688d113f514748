-- ===== src/Jobs/Validate.antt =====
-- internal/jobs/types.go and store.go, the validation functions: `true` is a nil error.
use acme_mux.Prelude.{
  ℕ, ◌%◌, Bool, true, false, not, ◌&&◌, ◌||◌, List, [], ◌∷◌, ◌++◌, reverse, Option, none, some, ltb,
  leb, within, ◌==◌, if◌then◌else◌, length, is_some,
}
use acme_mux.Prelude.Bytes.{Bytes, equal, contains}
use acme_mux.Prelude.Utf8.{runes, is_control}
use acme_mux.Prelude.Int.{ℤ, pos, negsuc}
pub use acme_mux.Prelude.Time.{year_limit}
use acme_mux.Jobs.Types.{
  RequestItem, Request, InventoryState, ItemState, InventoryResult, ItemResult, ExecutorResult,
  Instant, maximum_output_bytes, maximum_item_results, maximum_item_name_bytes,
  maximum_certificate_count, maximum_code_bytes, sha256_hex_bytes, is_terminal,
}

abbrev pub is_empty : Bytes → Bool
is_empty [] = true
is_empty (c ∷ cs) = false

unfoldable pub every : (ℕ → Bool) → List ℕ → Bool
every test [] = true
every test (c ∷ cs) = test c && every test cs

abbrev pub is_hex : ℕ → Bool
is_hex c = within b'0' b'9' c || within b'a' b'f' c || within b'A' b'F' c

-- `hex.DecodeString` succeeds.
abbrev decodes_hex : Bytes → Bool
decodes_hex value = length value % 2 == 0 && every is_hex value

-- `strings.ToLower(value) == value`, of a text that `decodes_hex` has accepted.
abbrev is_lower_case : Bytes → Bool
is_lower_case = every (λ c. not (within b'A' b'Z' c))

-- A text of valid UTF-8 whose runes pass the test.
abbrev clean_text : (ℕ → Bool) → Bytes → Bool
clean_text test value = elim (runes value) [ none ↦ false | some rs ↦ every test rs ]

unfoldable pub valid_request_text : Bytes → ℕ → Bool
unfolding every runes
valid_request_text value maximum =
    not (is_empty value) && leb (length value) maximum && clean_text (λ r. not (is_control r)) value

-- The parts of a path between its slashes.
path_parts : Bytes → Bytes → List Bytes
path_parts current [] = current ∷ []
path_parts current (c ∷ cs) =
    let rest = path_parts [] cs in
    let more = path_parts (current ++ c ∷ []) cs in if c == b'/' then current ∷ rest else more

-- The parts of `filepath.Clean` of a rooted path, the last first.
clean_parts : List Bytes → List Bytes → List Bytes
clean_parts done [] = done
clean_parts done (p ∷ ps) =
    let same = clean_parts done ps in
    let up = elim done as (λ _. List Bytes) [
      | [] ↦ clean_parts [] ps
      | d ∷ ds ↦ clean_parts ds ps
    ] in
    let down = clean_parts (p ∷ done) ps in
    if is_empty p || equal p (b'.' ∷ [])
    then same
    else if equal p (b'.' ∷ b'.' ∷ [])
    then up
    else down

join_parts : List Bytes → Bytes
join_parts [] = []
join_parts (p ∷ ps) = b'/' ∷ (p ++ join_parts ps)

abbrev rooted : Bytes → Bytes
rooted [] = b'/' ∷ []
rooted (c ∷ cs) = c ∷ cs

-- `filepath.IsAbs(value) && filepath.Clean(value) == value`.
is_clean_absolute : Bytes → Bool
is_clean_absolute [] = false
is_clean_absolute (c ∷ cs) =
    c == b'/' && equal (rooted (join_parts (reverse (clean_parts [] (path_parts [] cs))))) (c ∷ cs)

unfoldable pub valid_request_path : Bytes → Bool
unfolding valid_request_text is_clean_absolute join_parts clean_parts path_parts equal
valid_request_path value = valid_request_text value 4095 && is_clean_absolute value

unfoldable pub validate_item_name : Bytes → Bool
unfolding every runes
validate_item_name value =
    not (is_empty value)
    && leb (length value) maximum_item_name_bytes
    && clean_text (λ r. not (is_control r)) value

-- The loop over the reviewed items, with the names seen so far.
unfoldable pub valid_items : List Bytes → List Bytes → Bool
valid_items seen [] = true
valid_items seen (item ∷ items) =
    validate_item_name item && not (contains seen item) && valid_items (item ∷ seen) items

-- The loop over the details beside the items.
unfoldable pub valid_details : List Bytes → List RequestItem → Bool
valid_details items [] = true
valid_details [] (d ∷ ds) = false
valid_details (item ∷ items) (d ∷ ds) =
    equal d.name item
    && valid_request_text d.account 64
    && valid_request_text d.ca 255
    && valid_request_text d.challenge_kind 32
    && valid_request_text d.challenge_mode 64
    && valid_details items ds

abbrev no_details : List RequestItem → Bool
no_details [] = true
no_details (d ∷ ds) = false

abbrev is_legacy : Request → Bool
is_legacy r =
    is_empty r.context.runtime_identity
    && is_empty r.context.runtime_manifest_id
    && is_empty r.context.configuration_path
    && is_empty r.context.storage_path
    && no_details r.details

unfoldable pub validate_request : Request → Bool
unfolding every
validate_request r =
    length r.reviewed_evidence_sha256 == sha256_hex_bytes
    && decodes_hex r.reviewed_evidence_sha256
    && is_lower_case r.reviewed_evidence_sha256
    && within 1 maximum_item_results (length r.items)
    && valid_items [] r.items
    && (is_legacy r
        || (valid_request_text r.context.runtime_identity 64
            && valid_request_text r.context.runtime_manifest_id 128
            && valid_request_path r.context.configuration_path
            && valid_request_path r.context.storage_path
            && length r.details == length r.items
            && valid_details r.items r.details))

unfoldable pub validate_id : Bytes → Bool
unfolding every
validate_id value = length value == 32 && is_lower_case value && decodes_hex value

abbrev is_lower_letter : ℕ → Bool
is_lower_letter = within b'a' b'z'

-- A required code; an optional one may also be empty.
unfoldable pub validate_code : Bytes → Bool → Bool
unfolding every
validate_code [] required = not required
validate_code (c ∷ cs) required =
    leb (length (c ∷ cs)) maximum_code_bytes
    && is_lower_letter c
    && every (λ d. is_lower_letter d || within b'0' b'9' d || d == b'_') (c ∷ cs)

unfoldable pub validate_time : Instant → Bool → Bool
validate_time t required =
    if t.nanos == 0 then not required else t.utc && not t.monotonic && ltb t.nanos year_limit

abbrev is_layout : ℕ → Bool
is_layout r = r == b'\n' || r == b'\r' || r == b'\t'

unfoldable pub validate_output : Bytes → Bool
unfolding every runes
validate_output value =
    leb (length value) maximum_output_bytes
    && clean_text (λ r. is_layout r || not (is_control r)) value

abbrev valid_count : Option ℤ → Bool
valid_count none = false
valid_count (some (pos n)) = leb n maximum_certificate_count
valid_count (some (negsuc n)) = false

abbrev pub validate_inventory_state : InventoryState → InventoryResult → Bool → Bool
validate_inventory_state InventoryState.pending v allow_pending =
    allow_pending && is_empty v.code && not (is_some v.certificate_count)
validate_inventory_state InventoryState.refreshed v allow_pending =
    validate_code v.code true && valid_count v.certificate_count
validate_inventory_state InventoryState.unavailable v allow_pending =
    validate_code v.code true && not (is_some v.certificate_count)
validate_inventory_state InventoryState.unknown v allow_pending = false

abbrev pub validate_inventory : InventoryResult → Bool → Bool
validate_inventory v = validate_inventory_state v.state v

abbrev valid_item_state : ItemState → Bool
valid_item_state ItemState.unknown = false
valid_item_state _ = true

-- The loop of `validateItems`, with the names seen so far.
unfoldable pub valid_results : List Bytes → List ItemResult → Bool
valid_results seen [] = true
valid_results seen (item ∷ items) =
    validate_item_name item.name
    && not (contains seen item.name)
    && valid_item_state item.state
    && validate_code item.code true
    && valid_results (item.name ∷ seen) items

unfoldable pub validate_items : List ItemResult → Bool
validate_items items = leb (length items) maximum_item_results && valid_results [] items

unfoldable pub validate_executor_result : ExecutorResult → Bool
validate_executor_result r =
    is_terminal r.state
    && validate_code r.code true
    && validate_inventory r.inventory false
    && validate_output r.output
    && validate_items r.items

-- `validateResultScope`: the results name the reviewed items, in their order.
unfoldable pub validate_result_scope : List Bytes → List ItemResult → Bool
validate_result_scope [] [] = true
validate_result_scope (item ∷ items) (r ∷ rs) = equal r.name item && validate_result_scope items rs
validate_result_scope _ _ = false
