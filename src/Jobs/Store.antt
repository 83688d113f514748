-- ===== src/Jobs/Store.antt =====
-- internal/jobs/store.go, reading the latest operation back.
pub mod Stored
use acme_mux.Prelude.{
  ℕ, zero, suc, Bool, true, false, not, ◌&&◌, ◌||◌, List, [], ◌∷◌, ◌++◌, map, Option, none, some,
  ltb, leb, ◌==◌, if◌then◌else◌, Result,
}
use acme_mux.Prelude.Bytes.{Bytes, equal}
use acme_mux.Prelude.Int.{ℤ, pos, negsuc}
use acme_mux.Jobs.Types.{
  failure, RequestItem, Request, Instant, zero_time, Operation, InventoryResult, ItemResult, Fault,
  not_found, invalid, maximum_certificate_count,
}
use acme_mux.Jobs.Validate.{is_empty, validate_time}
use acme_mux.Jobs.Operation.{validate_operation}
use acme_mux.Jobs.Database.{
  TimeText, blank, stamp, malformed, Row, RequestedRow, ResultRow, Tables, Tx, ◌>>=◌, ◌>>◌, pure,
  throw, query, transact,
}

-- `formatTime`; the text carries no monotonic reading.
abbrev pub format_time : Instant → TimeText
format_time t = stamp t.nanos t.utc

unfoldable pub parse_time : TimeText → Bool → Option Instant
parse_time blank required = if required then none else some zero_time
parse_time malformed required = none
parse_time (stamp nanos utc) required =
    let parsed : Instant = record { nanos = nanos; utc = utc; monotonic = false } in
    if utc && validate_time parsed true then some parsed else none

abbrev pub stored_boolean : ℤ → Option Bool
stored_boolean (pos zero) = some false
stored_boolean (pos (suc zero)) = some true
stored_boolean _ = none

abbrev pub store_boolean : Bool → ℤ
store_boolean true = pos 1
store_boolean false = pos 0

abbrev pub parse_count : Option ℤ → Option (Option ℤ)
parse_count none = some none
parse_count (some (pos n)) = if ltb maximum_certificate_count n then none else some (some (pos n))
parse_count (some (negsuc n)) = none

abbrev pub bind : {A B : Type 0} → Option A → (A → Option B) → Option B
bind none f = none
bind (some a) f = f a

-- `persistedOperation.operation`, with the rows of the items.
unfoldable pub to_operation :
    Row → List ItemResult → List Bytes → List RequestItem → Option Operation
to_operation row items request_items request_details =
    bind (parse_time row.requested_at true) λ requested.
      bind (parse_time row.started_at false) λ started.
        bind (parse_time row.finished_at false) λ finished.
          bind (parse_time row.updated_at true) λ updated.
            bind (stored_boolean row.may_have_changed) λ changed.
              bind (stored_boolean row.output_truncated) λ truncated.
                bind (parse_count row.certificate_count) λ count.
                  let operation : Operation = record {
                    id = row.operation_id;
                    kind = row.request_kind;
                    state = row.state;
                    phase = row.phase;
                    requested_at = requested;
                    started_at = started;
                    finished_at = finished;
                    updated_at = updated;
                    code = row.reason_code;
                    may_have_changed = changed;
                    inventory = record {
                      state = row.inventory_state;
                      code = row.inventory_code;
                      certificate_count = count;
                    };
                    output = row.redacted_output;
                    output_truncated = truncated;
                    items = items;
                    request = record {
                      reviewed_evidence_sha256 = row.reviewed_evidence_sha256;
                      items = request_items;
                      context = record {
                        runtime_identity = row.runtime_identity;
                        runtime_manifest_id = row.runtime_manifest_id;
                        configuration_path = row.configuration_path;
                        storage_path = row.storage_path;
                      };
                      details = request_details;
                    };
                  } in
                  if validate_operation operation then some operation else none

-- The rows of one operation.
unfoldable pub requested_of : Bytes → List RequestedRow → List RequestedRow
requested_of id [] = []
requested_of id (r ∷ rs) =
    if equal r.operation_id id then r ∷ requested_of id rs else requested_of id rs

unfoldable pub results_of : Bytes → List ResultRow → List ItemResult
results_of id [] = []
results_of id (r ∷ rs) =
    if equal r.operation_id id
    then (record { name = r.item_name; state = r.state; code = r.reason_code }) ∷ results_of id rs
    else results_of id rs

abbrev to_detail : RequestedRow → RequestItem
to_detail r = record {
  name = r.item_name;
  account = r.account;
  ca = r.ca;
  challenge_kind = r.challenge_kind;
  challenge_mode = r.challenge_mode;
}

has_details : List RequestItem → Bool
has_details [] = false
has_details (d ∷ ds) =
    not (
      is_empty d.account && is_empty d.ca && is_empty d.challenge_kind && is_empty d.challenge_mode)
    || has_details ds

-- `loadRequestedItems`: the names, and the details if one of them says anything.
unfoldable pub requested_items : List RequestedRow → List Bytes × List RequestItem
unfolding has_details
requested_items rows =
    let details = map to_detail rows in
    (map (λ r. r.item_name) rows, if has_details details then details else [])

unfoldable pub load_requested_items : Bytes → Tx (List Bytes × List RequestItem)
load_requested_items id = query (λ t. requested_items (requested_of id t.requested))

abbrev pub loaded : Option Operation → Tx Operation
loaded none = throw invalid
loaded (some o) = pure o

abbrev pub load_row : Option Row → Tx Operation
load_row none = throw not_found
load_row (some row) = do
  requested ← load_requested_items row.operation_id
  items ← query (λ t. results_of row.operation_id t.results)
  loaded (to_operation row items requested.0 requested.1)

unfoldable pub load_operation : Tx Operation
load_operation = do row ← query (λ t. t.latest); load_row row

-- `Store.Latest`.
unfoldable pub latest : List Bool → Tables → Result Fault Operation × Tables
latest script = transact failure script load_operation
