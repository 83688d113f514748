-- ===== src/Jobs/Worker.antt =====
-- internal/jobs/worker.go: the worker that recovers, claims, executes and reconciles. The executor is
-- code behind an interface: a tree of the phases that it reports and of what it returns in the end.
-- The clock and the database are given for every call of the store.
pub mod Ends
pub mod Reports
pub mod Concluded
pub mod Recover
pub mod Loop
use acme_mux.Prelude.{
  ℕ, Bool, true, false, not, ◌&&◌, ◌||◌, List, [], ◌∷◌, Option, some, none, if◌then◌else◌, Result,
  ok, err,
}
use acme_mux.Prelude.Bytes.{Bytes, codes}
use acme_mux.Jobs.Types.{
  Request, Kind, State, Phase, InventoryState, InventoryResult, ExecutorResult, Instant, Operation,
  Fault, not_found, no_queued, state_changed, valid_phase_transition,
}
use acme_mux.Jobs.Validate.{validate_inventory, validate_executor_result}
use acme_mux.Jobs.Database.{Tables}
use acme_mux.Jobs.Changes.{Call, claim, update_phase}
use acme_mux.Jobs.Endings.{
  finish, finish_uncertain, interrupt_running, pending_reconciliation, complete_reconciliation,
}
use acme_mux.Jobs.Service.{service_enqueue}

-- What the world does in one call of the store: the statements that fail, and the time.
pub record Turn : Type 0 where
  pub script : List Bool
  pub now : Instant

-- `Executor.Execute`: it returns a result, panics, or reports a phase and goes on with the answer,
-- which is `none` where the report was taken.
pub data Execution : Type 0 where
  returns : ExecutorResult → Execution
  panics : Execution
  reports : Phase → Turn → (Option Fault → Execution) → Execution

-- The variables that `reportPhase` closes over.
pub record Progress : Type 0 where
  pub current_phase : Phase
  pub phase_failure : Option Fault

abbrev pub begun : Progress
begun = record { current_phase = Phase.revalidating; phase_failure = none }

abbrev pub failed_with : Fault → Progress → Progress
failed_with e p = record p { phase_failure = some e }

abbrev pub persisted :
    Phase → Progress → Result Fault (Unit {0}) × Tables → Option Fault × Progress × Tables
persisted next p (ok _, t) = (none, record p { current_phase = next }, t)
persisted next p (err e, t) = (some e, failed_with e p, t)

-- `reportPhase`: the first failure is the answer to all later reports.
unfoldable pub report_phase :
    Bytes → Phase → Turn → Progress → Tables → Option Fault × Progress × Tables
report_phase id next turn p tables = elim p.phase_failure [
  | some e ↦ (some e, p, tables)
  | none ↦
      if not (valid_phase_transition p.current_phase next)
      then (some state_changed, failed_with state_changed p, tables)
      else persisted next p (update_phase turn.script id next turn.now tables)
]

-- `callExecute`, with `none` for a panic.
unfoldable pub call_execute :
    Bytes → Execution → Progress → Tables → Option ExecutorResult × Progress × Tables
call_execute id (returns result) p tables = (some result, p, tables)
call_execute id panics p tables = (none, p, tables)
call_execute id (reports next turn continue) p tables =
    let answer = report_phase id next turn p tables in
    call_execute id (continue answer.0) answer.1 answer.2

abbrev pub unavailable : InventoryResult
unavailable = record {
  state = InventoryState.unavailable;
  code = codes "inventory_reconciliation_failed";
  certificate_count = none;
}

-- The inventory that `reconcile` writes for what `Executor.Reconcile` returns, or `none` for a panic.
abbrev pub usable_inventory : Option InventoryResult → InventoryResult
usable_inventory none = unavailable
usable_inventory (some v) = if validate_inventory v false then v else unavailable

abbrev pub discard : Result Fault Operation × Tables → Result Fault (Unit {0}) × Tables
discard (ok _, t) = (ok tt, t)
discard (err e, t) = (err e, t)

unfoldable pub reconcile : Option InventoryResult → Turn → Operation → Call (Unit {0})
reconcile answer turn operation tables =
    discard
      (complete_reconciliation turn.script operation.id (usable_inventory answer) turn.now tables)

-- What the world does from the claim of an operation to its end.
pub record Work : Type 0 where
  pub execution : Execution
  pub at_finish : Turn
  pub reconciliation : Option InventoryResult
  pub at_reconcile : Turn

abbrev pub is_refreshing : Phase → Bool
is_refreshing Phase.refreshing_inventory = true
is_refreshing _ = false

abbrev pub no_failure : Option Fault → Bool
no_failure none = true
no_failure (some _) = false

abbrev pub failure_code : Option ExecutorResult → Progress → Bytes
failure_code none p = codes "worker_panicked"
failure_code (some result) p =
    if no_failure p.phase_failure
    then codes "worker_result_invalid"
    else codes "worker_phase_failed"

-- The result that `execute` accepts.
abbrev pub accepted : Option ExecutorResult → Progress → Option ExecutorResult
accepted none p = none
accepted (some result) p =
    if no_failure p.phase_failure
      && is_refreshing p.current_phase
      && validate_executor_result result
    then some result
    else none

abbrev pub reconcile_after :
    Work → Result Fault Operation × Tables → Result Fault (Unit {0}) × Tables
reconcile_after w (err e, t) = (err e, t)
reconcile_after w (ok uncertain, t) = reconcile w.reconciliation w.at_reconcile uncertain t

abbrev pub conclude :
    Work → Bytes → Option ExecutorResult → Progress → Option ExecutorResult → Call (Unit {0})
conclude w id result p (some good) tables =
    discard (finish w.at_finish.script id good w.at_finish.now tables)
conclude w id result p none tables = reconcile_after w (
    finish_uncertain w.at_finish.script id State.ambiguous (failure_code result p) w.at_finish.now
      tables)

-- `execute`.
unfoldable pub execute : Work → Operation → Call (Unit {0})
execute w operation tables =
    let (result, p, t) = call_execute operation.id w.execution begun tables in
    conclude w operation.id result p (accepted result p) t

-- What the world does at the start of the worker.
pub record Start : Type 0 where
  pub at_interrupt : Turn
  pub at_read : List Bool
  pub start_reconciliation : Option InventoryResult
  pub at_start_reconcile : Turn

abbrev pub with_flag : Bool → Result Fault (Unit {0}) × Tables → Result Fault Bool × Tables
with_flag interrupted (ok _, t) = (ok interrupted, t)
with_flag interrupted (err e, t) = (err e, t)

abbrev pub recover_pending :
    Start → Bool → Result Fault Operation × Tables → Result Fault Bool × Tables
recover_pending s interrupted (err not_found, t) = (ok interrupted, t)
recover_pending s interrupted (err e, t) = (err e, t)
recover_pending s interrupted (ok operation, t) =
    with_flag interrupted (reconcile s.start_reconciliation s.at_start_reconcile operation t)

abbrev pub was_interrupted : Option Operation → Bool
was_interrupted none = false
was_interrupted (some _) = true

abbrev pub recover_interrupted :
    Start → Result Fault (Option Operation) × Tables → Result Fault Bool × Tables
recover_interrupted s (err e, t) = (err e, t)
recover_interrupted s (ok out, t) =
    recover_pending s (was_interrupted out) (pending_reconciliation s.at_read t)

-- `recover`: whether an operation was interrupted.
unfoldable pub recover : Start → Call Bool
recover s tables =
    recover_interrupted s (interrupt_running s.at_interrupt.script s.at_interrupt.now tables)

-- One round of the loop of `Run`.
pub record Round : Type 0 where
  pub at_claim : Turn
  pub work : Work

abbrev pub work_on : Work → Result Fault Operation × Tables → Result Fault (Unit {0}) × Tables
work_on w (ok operation, t) = execute w operation t
work_on w (err no_queued, t) = (ok tt, t)
work_on w (err e, t) = (err e, t)

unfoldable pub round : Round → Call (Unit {0})
round r tables = work_on r.work (claim r.at_claim.script r.at_claim.now tables)

-- What reaches a worker that has started: a request of a browser or of the scheduler, or a round.
pub data Event : Type 0 where
  request : List Bool → Option Bytes → Kind → Request → Instant → Event
  work_round : Round → Event

-- The loop of `Run`, with the requests between its rounds; an error of a round ends it.
unfoldable pub serve : List Event → Call (Unit {0})
serve [] tables = (ok tt, tables)
serve (request script raw kind r now ∷ events) tables =
    serve events (service_enqueue script raw kind r now tables).1
serve (work_round r ∷ events) tables =
    let left = round r tables in
    elim left.0 [ ok _ ↦ serve events left.1 | err e ↦ (err e, left.1) ]

abbrev pub serve_recovered :
    List Event → Result Fault Bool × Tables → Result Fault (Unit {0}) × Tables
serve_recovered events (ok _, t) = serve events t
serve_recovered events (err e, t) = (err e, t)

-- `Run`, up to the end of the events or the first error.
unfoldable pub run_worker : Start → List Event → Call (Unit {0})
run_worker s events tables = serve_recovered events (recover s tables)
