-- ===== src/Jobs/Worker/Ends.antt =====
-- What `execute` of internal/jobs/worker.go leaves when it answers no error.
use mathlib.Core.Path.{subst}
use acme_mux.Prelude.{
  true, false, ◌≡◌, refl, ap, ◌∙◌, inl, inr, Option, none, some, arith, Result, ok, err,
  Result-cases,
}
use acme_mux.Prelude.Bytes.{Bytes, equal_iff}
use acme_mux.Jobs.Types.{
  State, InventoryResult, ExecutorResult, Operation, Fault, is_terminal, is_pending, is_uncertain,
}
use acme_mux.Jobs.Database.{Row, Tables}
use acme_mux.Jobs.Endings.{finished, finish, uncertain_result, finish_uncertain, reconciled}
use acme_mux.Jobs.Endings.Effects.{finish-effect, finish_uncertain-effect}
use acme_mux.Jobs.Endings.Recovery.{complete_reconciliation-effect}
use acme_mux.Jobs.Lifecycle.Steps.{refreshed_is_settled, given_is_settled}
use acme_mux.Jobs.Lifecycle.Answers.{stored-Shows}
use acme_mux.Jobs.Worker.{
  Turn, Progress, begun, call_execute, usable_inventory, discard, reconcile, Work, failure_code,
  accepted, conclude, execute,
}

-- The operation with an ID is over in a state, and its inventory is not pending.
abbrev pub IsOver : Bytes → State → Tables → Type 0
IsOver id state t =
    (row : Row) × (t.latest ≡ some row)
    × (row.operation_id ≡ id)
    × (row.state ≡ state)
    × (is_terminal row.state ≡ true)
    × (is_pending row.inventory_state ≡ false)

pub discard-eq-ok :
    (r : Result Fault Operation × Tables) {w : Unit {0}} {after : Tables}
    → discard r ≡ (ok w, after)
    → (o : Operation) × (r ≡ (ok o, after))
discard-eq-ok (ok o, t) h = (o, ground arith)
discard-eq-ok (err e, t) h = absurd (ground arith)

uncertain_is_terminal : (s : State) → is_uncertain s ≡ true → is_terminal s ≡ true
uncertain_is_terminal s h = ground arith

-- A reconciliation that succeeds leaves the row that waited for it in its state, with an inventory.
pub reconcile-IsOver :
    (answer : Option InventoryResult) (turn : Turn) (o : Operation) (t after : Tables)
    {w : Unit {0}}
    → reconcile answer turn o t ≡ (ok w, after)
    → (row : Row) × (t.latest ≡ some row) × IsOver o.id row.state after
unfolding reconcile
reconcile-IsOver answer turn o t after h =
    let (_, e) = discard-eq-ok _ h in
    let v = usable_inventory answer in
    let (row, at, fits, valid, changed, _) =
      complete_reconciliation-effect turn.script o.id v turn.now t after e in
    (
      row,
      at,
      (
        reconciled v turn.now row,
        ap (λ t. t.latest) changed,
        (equal_iff row.operation_id o.id).0 (ground arith),
        refl,
        uncertain_is_terminal row.state (ground arith),
        given_is_settled v valid,
      ),
    )

finish-IsOver :
    (turn : Turn) (id : Bytes) (result : ExecutorResult) (t after : Tables) {w : Unit {0}}
    → discard (finish turn.script id result turn.now t) ≡ (ok w, after)
    → IsOver id result.state after
finish-IsOver turn id result t after h =
    let (_, e) = discard-eq-ok _ h in
    let ((row, _, fits, left, _, _), valid, _) =
      finish-effect turn.script id result turn.now t after e in
    let (terminal, settled) = refreshed_is_settled result valid in
    (
      finished result turn.now row,
      left,
      (equal_iff row.operation_id id).0 (ground arith),
      refl,
      terminal,
      settled,
    )

-- An uncertain end, as the reconciliation behind it finds it.
uncertain_left :
    (turn : Turn) (id code : Bytes) (t after : Tables) {o : Operation}
    → finish_uncertain turn.script id State.ambiguous code turn.now t ≡ (ok o, after)
    → (o.id ≡ id) × ((row : Row) × (after.latest ≡ some row) × (row.state ≡ State.ambiguous))
uncertain_left turn id code t after h =
    let ((row, _, fits, left, _, is), _) =
      finish_uncertain-effect turn.script id State.ambiguous code turn.now t after h in
    let next = finished (uncertain_result State.ambiguous code) turn.now row in
    let (id_is, _, _, _, _, _, _) = stored-Shows after next left is in
    let same : row.operation_id ≡ id = (equal_iff row.operation_id id).0 (ground arith) in
    (id_is ∙ same, (next, left, refl))

-- The state in which `execute` ends an operation.
abbrev pub end_state : Option ExecutorResult → State
end_state (some good) = good.state
end_state none = State.ambiguous

conclude-IsOver :
    (w : Work) (id : Bytes) (result : Option ExecutorResult) (p : Progress)
    (good : Option ExecutorResult) (t after : Tables) {u : Unit {0}}
    → conclude w id result p good t ≡ (ok u, after)
    → IsOver id (end_state good) after
conclude-IsOver w id result p (some good) t after h = finish-IsOver w.at_finish id good t after h
conclude-IsOver w id result p none t after {u} h =
    let code = failure_code result p in
    elim (Result-cases
      (finish_uncertain w.at_finish.script id State.ambiguous code w.at_finish.now t).0) [
        | inr (x, e) ↦ absurd (ground arith)
        | inl (o, e) ↦
            let left =
              (finish_uncertain w.at_finish.script id State.ambiguous code w.at_finish.now t).1 in
            let (same, (row, at_row, ambiguous)) =
              uncertain_left w.at_finish id code t left {o = o} (ap (λ r. (r, left)) e) in
            let (found, at_found, over) =
              reconcile-IsOver w.reconciliation w.at_reconcile o left after {w = u}
                (ground arith) in
            let one : found ≡ row = ground arith in
            let state : found.state ≡ State.ambiguous = ap (λ r. r.state) one ∙ ambiguous in
            subst (λ i. IsOver i State.ambiguous after) same
              (subst (λ s. IsOver o.id s after) state over)
      ]

-- What the executor has returned to `execute`, and how far its reports have come.
abbrev pub outcome : Work → Operation → Tables → Option ExecutorResult
outcome w o t = let (result, p, _) = call_execute o.id w.execution begun t in accepted result p

-- Whatever the executor reports and returns, an `execute` that answers no error leaves the operation
-- over, in the state of the result that it accepted or else as ambiguous, and with its inventory
-- settled.
pub execute-IsOver :
    (w : Work) (o : Operation) (t after : Tables) {u : Unit {0}}
    → execute w o t ≡ (ok u, after)
    → IsOver o.id (end_state (outcome w o t)) after
unfolding execute
execute-IsOver w o t after h =
    let (result, p, left) = call_execute o.id w.execution begun t in
    conclude-IsOver w o.id result p (accepted result p) left after h
