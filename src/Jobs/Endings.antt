-- ===== src/Jobs/Endings.antt =====
-- internal/jobs/store.go, the operations that end an operation and reconcile it.
pub mod Effects
pub mod Recovery
use acme_mux.Prelude.{
  ℕ, Bool, true, false, not, ◌&&◌, ◌||◌, List, [], ◌∷◌, ◌++◌, map, Option, none, some,
  if◌then◌else◌, Result, ok, err,
}
use acme_mux.Prelude.Bytes.{Bytes, equal, codes}
use acme_mux.Prelude.Int.{ℤ, pos}
use acme_mux.Jobs.Types.{
  failure, State, Phase, InventoryState, ItemState, InventoryResult, ItemResult, ExecutorResult,
  Instant, Operation, Fault, not_found, invalid, state_changed, is_terminal, is_running,
  is_uncertain, is_pending,
}
use acme_mux.Jobs.Validate.{
  validate_id, validate_time, validate_code, validate_inventory, validate_output, validate_items,
  validate_executor_result, validate_result_scope,
}
use acme_mux.Jobs.Operation.{no_items}
use acme_mux.Jobs.Database.{
  Row, ResultRow, Tables, Tx, ◌>>=◌, ◌>>◌, pure, throw, throw_if, statement, query, execute,
  update_one, transact,
}
use acme_mux.Jobs.Store.{format_time, store_boolean, load_requested_items, load_operation, latest}
use acme_mux.Jobs.Changes.{Call, refuse_if, has_id, row_of}

abbrev pub insert_result : Bytes → ItemResult → Tx (Unit {0})
insert_result id item = execute λ t. record t {
  results =
      t.results
      ++ (record {
        operation_id = id;
        item_name = item.name;
        state = item.state;
        reason_code = item.code;
      }
          ∷ []);
}

unfoldable pub insert_results : Bytes → List ItemResult → Tx (Unit {0})
insert_results id [] = pure tt
insert_results id (item ∷ items) = do insert_result id item; insert_results id items

-- Every reviewed item with one state and code.
abbrev pub uniform : ItemState → Bytes → List Bytes → List ItemResult
uniform state code names = map (λ name. record { name = name; state = state; code = code }) names

-- `if allowPending && len(result.Items) == 0`.
abbrev pub final_items : Bool → ExecutorResult → List Bytes → List ItemResult
final_items allow_pending result requested =
    if allow_pending && no_items result.items
    then uniform ItemState.ambiguous result.code requested
    else result.items

abbrev pub finished : ExecutorResult → Instant → Row → Row
finished result now row = record row {
  state = result.state;
  phase = Phase.blank;
  finished_at = format_time now;
  updated_at = format_time now;
  reason_code = result.code;
  may_have_changed = store_boolean result.may_have_changed;
  inventory_state = result.inventory.state;
  inventory_code = result.inventory.code;
  redacted_output = result.output;
  output_truncated = store_boolean result.output_truncated;
  certificate_count = result.inventory.certificate_count;
}

abbrev pub is_running_row : Option Row → Bool
is_running_row none = false
is_running_row (some row) = is_running row.state

-- A failure of the first query also leaves the state empty, and is reported as a changed state.
unfoldable pub finish_body : Bytes → ExecutorResult → Instant → Bool → Tx Operation
finish_body id result now allow_pending = do
  running ← statement state_changed (λ t. (is_running_row (row_of id t.latest), t))
  throw_if (not running) state_changed
  requested ← load_requested_items id
  let items = final_items allow_pending result requested.0
  throw_if (not (validate_result_scope requested.0 items)) invalid
  update_one (λ row. has_id id row && is_running row.state) (finished result now)
  insert_results id items
  load_operation

abbrev pub valid_uncertain : ExecutorResult → Bool
valid_uncertain r =
    is_terminal r.state
    && validate_code r.code true
    && validate_inventory r.inventory true
    && validate_output r.output
    && validate_items r.items

-- `Store.finish`.
unfoldable pub finish_with : List Bool → Bytes → ExecutorResult → Instant → Bool → Call Operation
finish_with script id result now allow_pending =
    refuse_if (not (validate_id id && validate_time now true)) invalid (
      refuse_if (allow_pending && not (valid_uncertain result)) invalid
        (transact failure script (finish_body id result now allow_pending)))

unfoldable pub finish : List Bool → Bytes → ExecutorResult → Instant → Call Operation
finish script id result now =
    refuse_if (not (validate_executor_result result)) invalid
      (finish_with script id result now false)

abbrev pub uncertain_result : State → Bytes → ExecutorResult
uncertain_result state code = record {
  state = state;
  code = code;
  may_have_changed = true;
  inventory = record { state = InventoryState.pending; code = []; certificate_count = none };
  output = [];
  output_truncated = false;
  items = [];
}

unfoldable pub finish_uncertain : List Bool → Bytes → State → Bytes → Instant → Call Operation
finish_uncertain script id state code now =
    refuse_if (not (is_uncertain state)) invalid
      (finish_with script id (uncertain_result state code) now true)

abbrev pub service_restarted : Bytes
service_restarted = codes "service_restarted"

-- `InterruptRunning` writes what an uncertain end with no output writes.
abbrev pub interrupted_row : Instant → Row → Row
interrupted_row now = finished (uncertain_result State.interrupted service_restarted) now

unfoldable pub interrupt_running_row : Instant → Bytes → Tx (Option Operation)
interrupt_running_row now id = do
  requested ← load_requested_items id
  update_one (λ row. has_id id row && is_running row.state) (interrupted_row now)
  insert_results id (uniform ItemState.ambiguous service_restarted requested.0)
  operation ← load_operation
  pure (some operation)

abbrev pub interrupt_row : Instant → Option Row → Tx (Option Operation)
interrupt_row now none = pure none
interrupt_row now (some row) =
    if is_running row.state then interrupt_running_row now row.operation_id else pure none

unfoldable pub interrupt_body : Instant → Tx (Option Operation)
interrupt_body now = do row ← query (λ t. t.latest); interrupt_row now row

-- `InterruptRunning`: the interrupted operation, if one was running.
unfoldable pub interrupt_running : List Bool → Instant → Call (Option Operation)
interrupt_running script now =
    refuse_if (not (validate_time now true)) invalid (transact failure script (interrupt_body now))

abbrev pub pending_only : Result Fault Operation → Result Fault Operation
pending_only (err e) = err e
pending_only (ok o) =
    if is_pending o.inventory.state && is_uncertain o.state then ok o else err not_found

unfoldable pub pending_reconciliation : List Bool → Call Operation
pending_reconciliation script tables = let (r, t) = latest script tables in (pending_only r, t)

abbrev pub reconciled : InventoryResult → Instant → Row → Row
reconciled inventory now row = record row {
  inventory_state = inventory.state;
  inventory_code = inventory.code;
  certificate_count = inventory.certificate_count;
  updated_at = format_time now;
}

unfoldable pub reconcile_body : Bytes → InventoryResult → Instant → Tx Operation
reconcile_body id inventory now = do
  update_one (λ row. has_id id row && is_uncertain row.state && is_pending row.inventory_state)
      (reconciled inventory now)
  load_operation

unfoldable pub complete_reconciliation :
    List Bool → Bytes → InventoryResult → Instant → Call Operation
complete_reconciliation script id inventory now =
    refuse_if (not (validate_id id && validate_inventory inventory false && validate_time now true))
      invalid (transact failure script (reconcile_body id inventory now))
