-- ===== src/Jobs/Lifecycle/Steps.antt =====
-- How the calls of the store fit the life of the operation.
use mathlib.Core.Path.{subst, subst₂}
use acme_mux.Prelude.{
  Bool, true, false, ◌≡◌, refl, sym, ap, ◌⊎◌, inl, inr, List, Option, none, some, arith, ok,
  Result-cases,
}
use acme_mux.Prelude.Bytes.{Bytes}
use acme_mux.Jobs.Types.{
  Kind, State, Phase, InventoryState, InventoryResult, ExecutorResult, Instant, Request, Operation,
  is_terminal, is_uncertain, is_pending, is_running, is_queued,
}
use acme_mux.Jobs.Operation.{is_queued_phase}
use acme_mux.Jobs.Validate.{validate_executor_result, validate_inventory}
use acme_mux.Jobs.Database.{Row, Tables}
use acme_mux.Jobs.Changes.{claimed, enqueue_kind, claim, update_phase}
use acme_mux.Jobs.Changes.Effects.{Free, enqueue_kind-effect, claim-effect, update_phase-effect}
use acme_mux.Jobs.Endings.{finished, uncertain_result, complete_reconciliation}
use acme_mux.Jobs.Endings.Effects.{Ended, runs_as, finish-effect, finish_uncertain-effect}
use acme_mux.Jobs.Endings.Recovery.{
  Recovered, interrupt_running-effect, complete_reconciliation-effect,
}
use acme_mux.Jobs.Lifecycle.{
  at, row_status, status, Replaceable, Step, accept, take, advance, end, reconcile, Command,
  enqueue_call, claim_call, phase_call, finish_call, uncertain_call, interrupt_call, reconcile_call,
  perform,
}
use acme_mux.Jobs.Lifecycle.Atomic.{answered-eq-ok, perform_atomic}

-- What a call leaves: the same tables, or those of a later status.
abbrev pub Moves : Tables → Tables → Type 0
Moves t after = (after ≡ t) ⊎ Step (status t) (status after)

-- A step between the statuses of two rows.
step_of :
    (t after : Tables) {row next : Row}
    → t.latest ≡ some row
    → after.latest ≡ some next
    → Step (row_status (some row)) (row_status (some next))
    → Moves t after
step_of t after e e' step = inr (subst₂ Step (ap row_status (sym e)) (ap row_status (sym e')) step)

state_is_queued : (s : State) → is_queued s ≡ true → State.queued ≡ s
state_is_queued s h = ground arith

state_is_running : (s : State) → is_running s ≡ true → State.running ≡ s
state_is_running s h = ground arith

phase_is_queued : (p : Phase) → is_queued_phase p ≡ true → Phase.queued ≡ p
phase_is_queued p h = ground arith

inventory_is_pending : (i : InventoryState) → is_pending i ≡ true → InventoryState.pending ≡ i
inventory_is_pending i h = ground arith

end-Moves :
    (test : Row → Bool) (result : ExecutorResult) (now : Instant) (t after : Tables) {o : Operation}
    → ((row : Row) → test row ≡ true → is_running row.state ≡ true)
    → is_terminal result.state ≡ true
    → (is_pending result.inventory.state ≡ false) ⊎ (is_uncertain result.state ≡ true)
    → Ended test (finished result now) t after o
    → Moves t after
end-Moves test result now t after runs terminal settled (row, at_row, fits, left, _, _) =
    let step =
      end row.operation_id row.phase result.state row.inventory_state result.inventory.state
        terminal settled in
    step_of t after at_row left (
      subst
        (λ s.
          Step (at row.operation_id s row.phase row.inventory_state)
            (row_status (some (finished result now row))))
        (state_is_running row.state (runs row fits)) step)

pub refreshed_is_settled :
    (r : ExecutorResult)
    → validate_executor_result r ≡ true
    → (is_terminal r.state ≡ true) × (is_pending r.inventory.state ≡ false)
unfolding validate_executor_result
refreshed_is_settled r h = (ground arith, ground arith)

pub given_is_settled :
    (v : InventoryResult) → validate_inventory v false ≡ true → is_pending v.state ≡ false
given_is_settled v h = ground arith

enqueue-Moves :
    (script : List Bool) (id : Bytes) (kind : Kind) (request : Request) (now : Instant)
    (t after : Tables) {o : Operation}
    → enqueue_kind script id kind request now t ≡ (ok o, after)
    → Moves t after
enqueue-Moves script id kind request now t after h =
    let (free, left, _) = enqueue_kind-effect script id kind request now t after h in
    let open_place : Replaceable (status t) = free_place t.latest free in
    inr (subst (Step (status t)) (ap row_status (sym left)) (accept id open_place))
  where
    free_place : (row : Option Row) → Free row → Replaceable (row_status row)
    free_place none f = tt
    free_place (some row) f = f

claim-Moves :
    (script : List Bool) (now : Instant) (t after : Tables) {o : Operation}
    → claim script now t ≡ (ok o, after)
    → Moves t after
claim-Moves script now t after h =
    let (row, at_row, queued, phase, left, _) = claim-effect script now t after h in
    step_of t after at_row (ap (λ t. t.latest) left) (
      subst₂
        (λ s p.
          Step (at row.operation_id s p row.inventory_state) (row_status (some (claimed now row))))
        (state_is_queued row.state queued) (phase_is_queued row.phase phase)
        (take row.operation_id row.inventory_state))

phase-Moves :
    (script : List Bool) (id : Bytes) (phase : Phase) (now : Instant) (t after : Tables)
    {w : Unit {0}}
    → update_phase script id phase now t ≡ (ok w, after)
    → Moves t after
phase-Moves script id phase now t after h =
    let (row, at_row, _, running, allowed, left) =
      update_phase-effect script id phase now t after h in
    step_of t after at_row (ap (λ t. t.latest) left) (
      subst
        (λ s.
          Step (at row.operation_id s row.phase row.inventory_state)
            (at row.operation_id s phase row.inventory_state))
        (state_is_running row.state running)
        (advance row.operation_id row.phase phase row.inventory_state allowed))

reconcile-Moves :
    (script : List Bool) (id : Bytes) (inventory : InventoryResult) (now : Instant)
    (t after : Tables) {o : Operation}
    → complete_reconciliation script id inventory now t ≡ (ok o, after)
    → Moves t after
reconcile-Moves script id inventory now t after h =
    let (row, at_row, waits, good, left, _) =
      complete_reconciliation-effect script id inventory now t after h in
    let pending : is_pending row.inventory_state ≡ true = ground arith in
    step_of t after at_row (ap (λ t. t.latest) left) (
      subst
        (λ i.
          Step (at row.operation_id row.state row.phase i)
            (at row.operation_id row.state row.phase inventory.state))
        (inventory_is_pending row.inventory_state pending)
        (reconcile row.operation_id row.state row.phase inventory.state (ground arith)
          (given_is_settled inventory good)))

recovery-Moves :
    (now : Instant) (t after : Tables) (out : Option Operation)
    → Recovered now t after out
    → Moves t after
recovery-Moves now t after none (same, _) = inl same
recovery-Moves now t after (some o) ended =
    end-Moves (λ row. is_running row.state) (uncertain_result State.interrupted _) now t after
      (λ row h. h) refl (inr refl) ended

runs_as_runs : (id : Bytes) (row : Row) → runs_as id row ≡ true → is_running row.state ≡ true
runs_as_runs id row h = ground arith

uncertain_is_terminal : (s : State) → is_uncertain s ≡ true → is_terminal s ≡ true
uncertain_is_terminal s h = ground arith

perform_ok-Moves :
    (c : Command) (t after : Tables) {out : Option Operation}
    → perform c t ≡ (ok out, after)
    → Moves t after
unfolding perform
perform_ok-Moves (enqueue_call script id kind request now) t after h =
    enqueue-Moves script id kind request now t after (answered-eq-ok some _ h).1
perform_ok-Moves (claim_call script now) t after h =
    claim-Moves script now t after (answered-eq-ok some _ h).1
perform_ok-Moves (phase_call script id phase now) t after h =
    phase-Moves script id phase now t after (answered-eq-ok (λ _. none) _ h).1
perform_ok-Moves (finish_call script id result now) t after h =
    let (ended, good, _) = finish-effect script id result now t after (answered-eq-ok some _ h).1 in
    let (terminal, settled) = refreshed_is_settled result good in
    end-Moves (runs_as id) result now t after (runs_as_runs id) terminal (inl settled) ended
perform_ok-Moves (uncertain_call script id state code now) t after h =
    let (ended, good) =
      finish_uncertain-effect script id state code now t after (answered-eq-ok some _ h).1 in
    end-Moves (runs_as id) (uncertain_result state code) now t after (runs_as_runs id)
      (uncertain_is_terminal state good) (inr good) ended
perform_ok-Moves (interrupt_call script now) t after {out} h =
    let (a, e, same) = answered-eq-ok (λ o. o) _ h in
    recovery-Moves now t after a (interrupt_running-effect script now t after e)
perform_ok-Moves (reconcile_call script id inventory now) t after h =
    reconcile-Moves script id inventory now t after (answered-eq-ok some _ h).1

-- Each call of the store, whatever it answers and whichever of its statements fail, leaves the
-- tables as they were or takes one step of the life of an operation.
pub perform-Moves : (c : Command) (t : Tables) → Moves t (perform c t).1
perform-Moves c t = elim (Result-cases (perform c t).0) [
  | inl (out, h) ↦ perform_ok-Moves c t (perform c t).1 (ap (λ x. (x, (perform c t).1)) h)
  | inr (e, h) ↦ inl (perform_atomic c t h)
]
