-- ===== src/Jobs/Tests.antt =====
-- The operations, rows and tables that the tests of the jobs run on.
mod Calls
mod Worker
use acme_mux.Prelude.{
  true, false, ◌≡◌, ◌<◌, ◌⊎◌, arith, ℕ, refl, List, [], ◌∷◌, some, none, ok, err,
}
use acme_mux.Prelude.Bytes.{Bytes, codes, equal, contains}
use acme_mux.Prelude.Utf8.{runes}
use acme_mux.Jobs.Types.{
  Kind, State, Phase, InventoryState, ItemState, ItemResult, ExecutorResult, Instant, Request,
  Operation, zero_time, active, invalid, no_queued, state_changed, failure,
}
use acme_mux.Jobs.Validate.{
  valid_request_text, valid_request_path, validate_item_name, valid_items, valid_details,
  validate_request, validate_id, validate_code, validate_time, validate_output, valid_results,
  validate_items, validate_executor_result, validate_result_scope,
}
use acme_mux.Jobs.Operation.{state_is_consistent, times_are_ordered, validate_operation}
use acme_mux.Jobs.Database.{Tables, Row, RequestedRow, ResultRow, empty_tables, statement, transact}
use acme_mux.Jobs.Store.{
  parse_time, to_operation, requested_of, results_of, requested_items, load_requested_items,
  load_operation, latest,
}
use acme_mux.Jobs.Store.Stored.{stored}
use acme_mux.Jobs.Changes.{
  without_requested, without_results, insert_all_requested, enqueue_body, enqueue_kind, enqueue,
  claim_body, claim, update_phase_body, update_phase, queued_row, claimed,
}
use acme_mux.Jobs.Endings.{
  insert_results, finish_body, finish_with, finish, finished, finish_uncertain,
  interrupt_running_row, interrupt_body, interrupt_running, pending_reconciliation, reconcile_body,
  complete_reconciliation,
}
use acme_mux.Jobs.Lifecycle.{
  at, Command, enqueue_call, claim_call, finish_call, interrupt_call, perform, run, status,
}
use acme_mux.Jobs.Lifecycle.Steps.{Moves, perform-Moves}
use acme_mux.Jobs.Lifecycle.Runs.{IsCoherent, run-IsCoherent, progress, HasId, perform_busy}
use acme_mux.Jobs.Lifecycle.Reads.{perform-latest, claim-claim}
use acme_mux.Jobs.Lifecycle.Answers.{finish-answer, update_phase_backwards}
use acme_mux.Jobs.Endings.Effects.{asked}
use acme_mux.Jobs.Endings.Recovery.{interrupt_running_stops}
use acme_mux.Jobs.Endings.{is_running_row, interrupted_row}
use acme_mux.Jobs.Service.{encode_hex, service_enqueue}
use acme_mux.Jobs.Service.Views.{ShownOnce, encode_hex_valid}
use acme_mux.Jobs.Changes.Effects.{in_phase}

-- Everything that a call of the store computes with.
pub runs : Unit {0}
unfolding equal contains runes valid_request_text valid_request_path validate_item_name valid_items
    valid_details validate_request validate_id validate_code validate_time validate_output
    valid_results validate_items validate_executor_result validate_result_scope state_is_consistent
    times_are_ordered validate_operation statement transact parse_time to_operation requested_of
    results_of requested_items load_requested_items load_operation latest stored without_requested
    without_results insert_all_requested enqueue_body enqueue_kind claim_body claim
    update_phase_body update_phase insert_results finish_body finish_with finish finish_uncertain
    interrupt_running_row interrupt_body interrupt_running pending_reconciliation reconcile_body
    complete_reconciliation perform run
runs = tt

abbrev pub id_one : Bytes
id_one = codes "0123456789abcdef0123456789abcdef"

abbrev pub id_two : Bytes
id_two = codes "ffffffffffffffffffffffffffffffff"

abbrev pub names : List Bytes
names = codes "site.example" ∷ codes "*.b" ∷ []

abbrev pub request : Request
request = record {
  reviewed_evidence_sha256 =
      codes "00112233445566778899aabbccddeeff00112233445566778899aabbccddeeff";
  items = names;
  context = record {
    runtime_identity = [];
    runtime_manifest_id = [];
    configuration_path = [];
    storage_path = [];
  };
  details = [];
}

abbrev pub clock : ℕ → Instant
clock n = record { nanos = n; utc = true; monotonic = false }

abbrev pub good : ExecutorResult
good = record {
  state = State.partial;
  code = codes "done";
  may_have_changed = true;
  inventory = record {
    state = InventoryState.unavailable;
    code = codes "no_list";
    certificate_count = none;
  };
  output = codes "ok\n";
  output_truncated = false;
  items =
      record { name = codes "site.example"; state = ItemState.completed; code = codes "renewed" }
      ∷ record { name = codes "*.b"; state = ItemState.failed; code = codes "refused" }
      ∷ [];
}

abbrev pub enqueue_one : Command
enqueue_one = enqueue_call [] id_one Kind.scheduled request (clock 100)

abbrev pub queued_one : Row
queued_one = queued_row id_one Kind.scheduled request (clock 100)

abbrev pub asked_row : Bytes → RequestedRow
asked_row name = record {
  operation_id = id_one;
  item_name = name;
  account = [];
  ca = [];
  challenge_kind = [];
  challenge_mode = [];
}

abbrev pub enqueued : Tables
enqueued = record {
  latest = some queued_one;
  requested = asked_row (codes "site.example") ∷ asked_row (codes "*.b") ∷ [];
  results = [];
}

abbrev pub running : Tables
running = record enqueued { latest = some (claimed (clock 110) queued_one) }

abbrev pub finish_one : Command
finish_one = finish_call [] id_one good (clock 130)

abbrev pub ended : Tables
ended = record enqueued {
  latest = some (finished good (clock 130) (claimed (clock 110) queued_one));
  results =
      record {
        operation_id = id_one;
        item_name = codes "site.example";
        state = ItemState.completed;
        reason_code = codes "renewed";
      }
      ∷ record {
        operation_id = id_one;
        item_name = codes "*.b";
        state = ItemState.failed;
        reason_code = codes "refused";
      }
      ∷ [];
}

abbrev pub ambiguous_row : Bytes → ResultRow
ambiguous_row name = record {
  operation_id = id_one;
  item_name = name;
  state = ItemState.ambiguous;
  reason_code = codes "service_restarted";
}

abbrev pub interrupted : Tables
interrupted = record enqueued {
  latest = some (interrupted_row (clock 120) (claimed (clock 110) queued_one));
  results = ambiguous_row (codes "site.example") ∷ ambiguous_row (codes "*.b") ∷ [];
}

abbrev pub claimed_one : Operation
claimed_one = record {
  id = id_one;
  kind = Kind.scheduled;
  state = State.running;
  phase = Phase.revalidating;
  requested_at = clock 100;
  started_at = clock 110;
  finished_at = zero_time;
  updated_at = clock 110;
  code = [];
  may_have_changed = false;
  inventory = record { state = InventoryState.pending; code = []; certificate_count = none };
  output = [];
  output_truncated = false;
  items = [];
  request = request;
}

abbrev pub ambiguous_item : Bytes → ItemResult
ambiguous_item name = record {
  name = name;
  state = ItemState.ambiguous;
  code = codes "service_restarted";
}

abbrev pub interrupted_one : Operation
interrupted_one = record claimed_one {
  state = State.interrupted;
  phase = Phase.blank;
  finished_at = clock 120;
  updated_at = clock 120;
  code = codes "service_restarted";
  may_have_changed = true;
  items = ambiguous_item (codes "site.example") ∷ ambiguous_item (codes "*.b") ∷ [];
}

abbrev pub ended_one : Operation
ended_one = record claimed_one {
  state = State.partial;
  phase = Phase.blank;
  finished_at = clock 130;
  updated_at = clock 130;
  code = codes "done";
  may_have_changed = true;
  inventory = good.inventory;
  output = good.output;
  items = good.items;
}
