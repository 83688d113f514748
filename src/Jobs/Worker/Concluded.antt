-- ===== src/Jobs/Worker/Concluded.antt =====
-- internal/jobs/worker.go: the row that an `execute` leaves, by what the executor has reported and
-- returned.
use mathlib.Core.Path.{subst}
use acme_mux.Prelude.{
  false, true, ◌≡◌, ◌⊎◌, refl, sym, ap, ◌∙◌, inl, inr, [], Option, none, some, arith, ok,
  Option-cases, Result-cases,
}
use acme_mux.Prelude.Bytes.{Bytes, codes, equal_iff}
use acme_mux.Jobs.Types.{Fault, State, Phase, ExecutorResult, Operation}
use acme_mux.Jobs.Validate.{validate_executor_result}
use acme_mux.Jobs.Store.{store_boolean}
use acme_mux.Jobs.Database.{Row, Tables}
use acme_mux.Jobs.Endings.{finished, uncertain_result, finish_uncertain, reconciled}
use acme_mux.Jobs.Endings.Effects.{finish-effect, finish_uncertain-effect}
use acme_mux.Jobs.Endings.Recovery.{complete_reconciliation-effect}
use acme_mux.Jobs.Worker.{
  Execution, Progress, begun, call_execute, usable_inventory, reconcile, Work, failure_code,
  accepted, is_refreshing, conclude, execute,
}
use acme_mux.Jobs.Worker.Ends.{discard-eq-ok}
use acme_mux.Jobs.Worker.Reports.{reported, returned, AllPhases, accepted-Some}

-- A row that shows a result.
abbrev pub ShowsResult : ExecutorResult → Row → Type 0
ShowsResult result row =
    (row.state ≡ result.state)
    × (row.reason_code ≡ result.code)
    × (row.may_have_changed ≡ store_boolean result.may_have_changed)
    × (row.inventory_state ≡ result.inventory.state)
    × (row.redacted_output ≡ result.output)

-- Why the result of an executor was not kept, as the code of the row tells: it panicked, a report
-- failed, or it returned before the last phase or returned an invalid result.
abbrev pub Reason : Option ExecutorResult → Option Fault → Phase → Bytes → Type 0
Reason none failure phase code = code ≡ codes "worker_panicked"
Reason (some result) (some e) phase code = code ≡ codes "worker_phase_failed"
Reason (some result) none phase code =
    (code ≡ codes "worker_result_invalid")
    × ((is_refreshing phase ≡ false) ⊎ (validate_executor_result result ≡ false))

-- A row that shows that nothing is known of the end, and why.
abbrev pub ShowsDoubt : Option ExecutorResult → Progress → Row → Type 0
ShowsDoubt result p row =
    (row.state ≡ State.ambiguous)
    × (row.may_have_changed ≡ store_boolean true)
    × (row.redacted_output ≡ [])
    × Reason result p.phase_failure p.current_phase row.reason_code

-- The executor reported all phases in order and returned a valid result, which the row shows.
abbrev pub Earned : Execution → Row → Type 0
Earned e row =
    (result : ExecutorResult) × (returned e ≡ some result)
    × AllPhases (reported e)
    × (validate_executor_result result ≡ true)
    × ShowsResult result row

-- How an execution ends that has answered a result, or a panic, and has come so far in its reports.
abbrev pub Concluded : Execution → Bytes → Option ExecutorResult → Progress → Tables → Type 0
Concluded e id result p t =
    (row : Row) × (t.latest ≡ some row)
    × (row.operation_id ≡ id)
    × (Earned e row ⊎ ShowsDoubt result p row)

refused-Reason :
    (result : Option ExecutorResult) (p : Progress)
    → accepted result p ≡ none
    → Reason result p.phase_failure p.current_phase (failure_code result p)
refused-Reason none p h = refl
refused-Reason (some result) p h = elim (Option-cases p.phase_failure) [
  | inl e ↦
      let why : (is_refreshing p.current_phase ≡ false)
          ⊎ (validate_executor_result result ≡ false) =
        ground arith in
      let code : failure_code (some result) p ≡ codes "worker_result_invalid" = ground arith in
      subst (λ f. Reason (some result) f p.current_phase (failure_code (some result) p)) (sym e)
        (code, why)
  | inr (x, e) ↦
      let code : failure_code (some result) p ≡ codes "worker_phase_failed" = ground arith in
      subst (λ f. Reason (some result) f p.current_phase (failure_code (some result) p)) (sym e)
        code
]

conclude-Concluded :
    (w : Work) (id : Bytes) (result : Option ExecutorResult) (p : Progress)
    (kept : Option ExecutorResult) (t after : Tables) {u : Unit {0}}
    → ((good : ExecutorResult)
        → kept ≡ some good
        → (returned w.execution ≡ some good) × AllPhases (reported w.execution))
    → (kept ≡ none → Reason result p.phase_failure p.current_phase (failure_code result p))
    → conclude w id result p kept t ≡ (ok u, after)
    → Concluded w.execution id result p after
unfolding reconcile
conclude-Concluded w id result p (some good) t after earned doubted h =
    let turn = w.at_finish in
    let (_, e) = discard-eq-ok _ h in
    let ((row, _, fits, left, _, _), valid, _) =
      finish-effect turn.script id good turn.now t after e in
    let (at_end, phases) = earned good refl in
    (
      finished good turn.now row,
      left,
      (equal_iff row.operation_id id).0 (ground arith),
      inl (good, at_end, phases, valid, (refl, refl, refl, refl, refl)),
    )
conclude-Concluded w id result p none t after {u} earned doubted h =
    let turn = w.at_finish in
    let code = failure_code result p in
    let run = finish_uncertain turn.script id State.ambiguous code turn.now t in
    elim (Result-cases run.0) [
      | inr (x, e) ↦ absurd (ground arith)
      | inl (o, e) ↦
          let ((row, _, fits, left, _, is), _) =
            finish_uncertain-effect turn.script id State.ambiguous code turn.now t run.1
              (ap (λ r. (r, run.1)) e) in
          let then : reconcile w.reconciliation w.at_reconcile o run.1 ≡ (ok u, after) =
            ground arith in
          let (_, done) = discard-eq-ok _ then in
          let v = usable_inventory w.reconciliation in
          let (found, at_found, _, _, changed, _) =
            complete_reconciliation-effect w.at_reconcile.script o.id v w.at_reconcile.now run.1
              after done in
          let next = finished (uncertain_result State.ambiguous code) turn.now row in
          let one : found ≡ next = ground arith in
          let same : row.operation_id ≡ id = (equal_iff row.operation_id id).0 (ground arith) in
          (
            reconciled v w.at_reconcile.now found,
            ap (λ t. t.latest) changed,
            ap (λ r. r.operation_id) one ∙ same,
            inr (
              ap (λ r. r.state) one,
              ap (λ r. r.may_have_changed) one,
              ap (λ r. r.redacted_output) one,
              subst (Reason result p.phase_failure p.current_phase)
                  (sym (ap (λ r. r.reason_code) one)) (doubted refl),
            ),
          )
    ]

-- An `execute` that answers no error leaves the operation in one of two ways. Either the executor
-- returned a valid result behind reports that were just refreshing_inventory or executing and then
-- refreshing_inventory, in this order, and the row shows the state, the code, the inventory state, the
-- output and the change mark of that result; or the row is ambiguous, may have changed, has no output
-- and has a code that is true: worker_panicked where the executor panicked, worker_phase_failed where
-- it returned behind a report that failed, and worker_result_invalid where no report failed but the
-- phase was not refreshing_inventory or the result was not valid.
pub execute-Concluded :
    (w : Work) (o : Operation) (t after : Tables) {u : Unit {0}}
    → execute w o t ≡ (ok u, after)
    → Concluded w.execution o.id
        (call_execute o.id w.execution begun t).0
        (call_execute o.id w.execution begun t).1
        after
unfolding execute
execute-Concluded w o t after {u} h =
    let (result, p, left) = call_execute o.id w.execution begun t in
    conclude-Concluded w o.id result p (accepted result p) left after {u = u}
      (λ good. accepted-Some w.execution o.id t) (refused-Reason result p) h
