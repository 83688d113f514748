-- ===== src/Jobs/Changes.antt =====
-- internal/jobs/store.go, the operations that change the latest operation.
pub mod Effects
use acme_mux.Prelude.{
  ℕ, Bool, true, false, not, ◌&&◌, ◌||◌, List, [], ◌∷◌, ◌++◌, map, Option, none, some, ◌==◌,
  if◌then◌else◌, Result, ok, err,
}
use acme_mux.Prelude.Bytes.{Bytes, equal, codes}
use acme_mux.Prelude.Int.{ℤ, pos}
use acme_mux.Prelude.Transaction
unfoldable pub use acme_mux.Prelude.Transaction.{refuse_if}
use acme_mux.Jobs.Types.{
  failure, RequestItem, Request, Kind, State, Phase, InventoryState, ItemState, InventoryResult,
  ItemResult, ExecutorResult, Instant, Operation, Fault, active, not_found, no_queued, invalid,
  state_changed, is_active, is_terminal, is_running, is_queued, is_uncertain, is_pending,
  valid_phase_transition,
}
use acme_mux.Jobs.Validate.{
  validate_id, validate_request, validate_time, validate_code, validate_inventory, validate_output,
  validate_items, validate_executor_result, validate_result_scope,
}
use acme_mux.Jobs.Operation.{valid_kind, is_queued_phase, no_items}
use acme_mux.Jobs.Database.{
  TimeText, blank, Row, RequestedRow, ResultRow, Tables, Tx, ◌>>=◌, ◌>>◌, pure, throw, throw_if,
  statement, query, execute, update_one, transact,
}
use acme_mux.Jobs.Store.{format_time, store_boolean, load_requested_items, load_operation, latest}

-- What a call of the store does: its result, and the tables behind it.
abbrev pub Call : Type 0 → Type 0
Call A = Transaction.Call Tables Fault A

unfoldable pub without_requested : Bytes → List RequestedRow → List RequestedRow
without_requested id [] = []
without_requested id (r ∷ rs) =
    let rest = without_requested id rs in if equal r.operation_id id then rest else r ∷ rest

unfoldable pub without_results : Bytes → List ResultRow → List ResultRow
without_results id [] = []
without_results id (r ∷ rs) =
    let rest = without_results id rs in if equal r.operation_id id then rest else r ∷ rest

-- `DELETE FROM operation_latest`, with the cascade to the rows of the items.
abbrev pub delete_row : Row → Tables → Tables
delete_row row t = record {
  latest = none;
  requested = without_requested row.operation_id t.requested;
  results = without_results row.operation_id t.results;
}

abbrev pub replace_completed : Option Row → Tx (Unit {0})
replace_completed none = pure tt
replace_completed (some row) =
    if is_active row.state || is_pending row.inventory_state
    then throw active
    else execute (delete_row row)

abbrev pub queued_row : Bytes → Kind → Request → Instant → Row
queued_row id kind request now = record {
  operation_id = id;
  reviewed_evidence_sha256 = request.reviewed_evidence_sha256;
  kind = Kind.manual;
  state = State.queued;
  phase = Phase.queued;
  requested_at = format_time now;
  started_at = blank;
  finished_at = blank;
  updated_at = format_time now;
  reason_code = [];
  may_have_changed = pos 0;
  inventory_state = InventoryState.pending;
  inventory_code = [];
  redacted_output = [];
  output_truncated = pos 0;
  certificate_count = none;
  request_kind = kind;
  runtime_identity = request.context.runtime_identity;
  runtime_manifest_id = request.context.runtime_manifest_id;
  configuration_path = request.context.configuration_path;
  storage_path = request.context.storage_path;
}

abbrev pub no_detail : Bytes → RequestItem
no_detail name = record {
  name = name;
  account = [];
  ca = [];
  challenge_kind = [];
  challenge_mode = [];
}

abbrev pub insert_requested : Bytes → Bytes → RequestItem → Tx (Unit {0})
insert_requested id item d = execute λ t. record t {
  requested =
      t.requested
      ++ (record {
        operation_id = id;
        item_name = item;
        account = d.account;
        ca = d.ca;
        challenge_kind = d.challenge_kind;
        challenge_mode = d.challenge_mode;
      }
          ∷ []);
}

-- The loop over the items; with no details each has the empty one.
unfoldable pub insert_all_requested : Bytes → List Bytes → List RequestItem → Tx (Unit {0})
insert_all_requested id [] details = pure tt
insert_all_requested id (item ∷ items) [] = do
  insert_requested id item (no_detail item)
  insert_all_requested id items []
insert_all_requested id (item ∷ items) (d ∷ ds) = do
  insert_requested id item d
  insert_all_requested id items ds

unfoldable pub enqueue_body : Bytes → Kind → Request → Instant → Tx Operation
enqueue_body id kind request now = do
  current ← query (λ t. t.latest)
  replace_completed current
  execute (λ t. record t { latest = some (queued_row id kind request now) })
  insert_all_requested id request.items request.details
  load_operation

-- `EnqueueKind`.
unfoldable pub enqueue_kind : List Bool → Bytes → Kind → Request → Instant → Call Operation
enqueue_kind script id kind request now =
    refuse_if
      (not
        (validate_id id && valid_kind kind && validate_request request && validate_time now true))
      invalid (transact failure script (enqueue_body id kind request now))

-- `Enqueue`.
unfoldable pub enqueue : List Bool → Bytes → Request → Instant → Call Operation
enqueue script id request now = enqueue_kind script id Kind.manual request now

abbrev pub has_id : Bytes → Row → Bool
has_id id row = equal row.operation_id id

abbrev pub queued_id : Option Row → Option Bytes
queued_id none = none
queued_id (some row) = if is_queued row.state then some row.operation_id else none

abbrev pub claimed : Instant → Row → Row
claimed now row = record row {
  state = State.running;
  phase = Phase.revalidating;
  started_at = format_time now;
  updated_at = format_time now;
}

abbrev pub claim_id : Instant → Option Bytes → Tx Operation
claim_id now none = throw no_queued
claim_id now (some id) = do
  update_one (λ row. has_id id row && is_queued row.state && is_queued_phase row.phase)
      (claimed now)
  load_operation

unfoldable pub claim_body : Instant → Tx Operation
claim_body now = do id ← query (λ t. queued_id t.latest); claim_id now id

unfoldable pub claim : List Bool → Instant → Call Operation
claim script now =
    refuse_if (not (validate_time now true)) invalid (transact failure script (claim_body now))

abbrev pub phase_eq : Phase → Phase → Bool
phase_eq Phase.blank Phase.blank = true
phase_eq Phase.queued Phase.queued = true
phase_eq Phase.revalidating Phase.revalidating = true
phase_eq Phase.executing Phase.executing = true
phase_eq Phase.refreshing_inventory Phase.refreshing_inventory = true
phase_eq _ _ = false

-- The row of an operation, by its ID.
abbrev pub row_of : Bytes → Option Row → Option Row
row_of id none = none
row_of id (some row) = if has_id id row then some row else none

abbrev pub update_phase_of : Bytes → Phase → Instant → Option Row → Tx (Unit {0})
update_phase_of id phase now none = throw state_changed
update_phase_of id phase now (some current) = do
  throw_if (not (is_running current.state && valid_phase_transition current.phase phase))
      state_changed
  update_one (λ row. has_id id row && is_running row.state && phase_eq row.phase current.phase)
      (λ row. record row { phase = phase; updated_at = format_time now })

unfoldable pub update_phase_body : Bytes → Phase → Instant → Tx (Unit {0})
update_phase_body id phase now = do
  current ← query (λ t. row_of id t.latest)
  update_phase_of id phase now current

unfoldable pub update_phase : List Bool → Bytes → Phase → Instant → Call (Unit {0})
update_phase script id phase now =
    refuse_if (not (validate_id id && validate_time now true)) invalid
      (transact failure script (update_phase_body id phase now))
