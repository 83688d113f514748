-- ===== src/Jobs/Worker/Recover.antt =====
-- What `recover` of internal/jobs/worker.go leaves when it answers no error.
use mathlib.Core.Path.{subst}
use acme_mux.Prelude.{
  Bool, false, ◌&&◌, ◌≡◌, sym, ap, ◌∙◌, inl, inr, List, Option, none, some, arith, ok, err,
  Option-cases, Result-cases,
}
use acme_mux.Prelude.Transaction.Laws.{transact-eq-ok, transact-eq-err}
use acme_mux.Prelude.Bytes.{Bytes}
use acme_mux.Jobs.Types.{
  State, Instant, Operation, Fault, active, not_found, no_queued, invalid, state_changed,
  worker_running, failure, is_running, is_pending, is_uncertain,
}
use acme_mux.Jobs.Database.{Row, Tables, transact, statement}
use acme_mux.Jobs.Store.{load_operation, load_requested_items, latest}
use acme_mux.Jobs.Store.Stored.{stored, load_operation-eq-ok}
use acme_mux.Jobs.Endings.{interrupt_running, pending_reconciliation}
use acme_mux.Jobs.Endings.Recovery.{Recovered, interrupt_running-effect, interrupt_running_stops}
use acme_mux.Jobs.Endings.{is_running_row}
use acme_mux.Jobs.Lifecycle.Answers.{stored-Shows}
use acme_mux.Jobs.Worker.{reconcile, Start, recover_pending, was_interrupted, recover}
use acme_mux.Jobs.Worker.Ends.{IsOver, reconcile-IsOver}

-- Nothing for a worker to take up again: no operation runs, and none waits for its inventory.
abbrev pub AtRest : Option Row → Type 0
AtRest none = Unit
AtRest (some row) =
    (is_running row.state ≡ false)
    × ((is_uncertain row.state && is_pending row.inventory_state) ≡ false)

pub over_is_AtRest : (id : Bytes) (state : State) (t : Tables) → IsOver id state t → AtRest t.latest
over_is_AtRest id state t (row, at, _, _, terminal, settled) =
    subst AtRest (sym at) (ground arith, ground arith)

-- `Latest` answers `ErrNotFound` only where there is no row.
latest-not_found :
    (script : List Bool) (t after : Tables)
    → latest script t ≡ (err not_found, after)
    → t.latest ≡ none
unfolding latest transact load_operation statement load_requested_items
latest-not_found script t after h = elim (Option-cases t.latest) [
  | inl e ↦ e
  | inr (row, e) ↦ absurd (ground arith)
]

latest-eq-ok :
    (script : List Bool) (t after : Tables) {o : Operation}
    → latest script t ≡ (ok o, after)
    → (after ≡ t) × (stored t ≡ ok o)
unfolding latest
latest-eq-ok script t after {o} h =
    let (s, u, at_s, ran, at_u) = transact-eq-ok failure script load_operation t after h in
    let (same, is) = load_operation-eq-ok s ran in
    (sym at_u ∙ same ∙ at_s, subst (λ t. stored t ≡ ok o) at_s is)

latest-eq-err :
    (script : List Bool) (t after : Tables) {e : Fault}
    → latest script t ≡ (err e, after)
    → after ≡ t
unfolding latest
latest-eq-err script t after h = transact-eq-err failure script load_operation t after h

abbrev pub is_waiting_row : Option Row → Bool
is_waiting_row none = false
is_waiting_row (some row) = is_uncertain row.state && is_pending row.inventory_state

-- The test of `PendingReconciliation` on an operation is that on its row.
stored_waits :
    (t : Tables) {o : Operation}
    → stored t ≡ ok o
    → (is_pending o.inventory.state && is_uncertain o.state) ≡ is_waiting_row t.latest
unfolding stored
stored_waits t {o} is = elim (Option-cases t.latest) [
  | inl e ↦ absurd (ground arith)
  | inr (row, e) ↦ let (_, state, _, inventory, _, _, _) = stored-Shows t row e is in ground arith
]

pending_reconciliation-not_found :
    (script : List Bool) (t after : Tables)
    → pending_reconciliation script t ≡ (err not_found, after)
    → (after ≡ t) × (is_waiting_row t.latest ≡ false)
unfolding pending_reconciliation
pending_reconciliation-not_found script t after h = elim (Result-cases (latest script t).0) [
  | inl (o, e) ↦
      let (same, is) =
        latest-eq-ok script t (latest script t).1 (ap (λ r. (r, (latest script t).1)) e) in
      let waits = stored_waits t is in (ground arith, ground arith)
  | inr (x, e) ↦
      let same =
        latest-eq-err script t (latest script t).1 (ap (λ r. (r, (latest script t).1)) e) in
      let x_is : x ≡ not_found = ground arith in
      let gone = latest-not_found script t (latest script t).1 (ground arith) in
      (ground arith, ap is_waiting_row gone)
]

pending_reconciliation-eq-ok :
    (script : List Bool) (t after : Tables) {o : Operation}
    → pending_reconciliation script t ≡ (ok o, after)
    → after ≡ t
unfolding pending_reconciliation
pending_reconciliation-eq-ok script t after h = elim (Result-cases (latest script t).0) [
  | inl (o, e) ↦
      let (same, is) =
        latest-eq-ok script t (latest script t).1 (ap (λ r. (r, (latest script t).1)) e) in
      ground arith
  | inr (x, e) ↦ absurd (ground arith)
]

-- `PendingReconciliation` only reads.
pub pending_reconciliation_reads :
    (script : List Bool) (t : Tables) → (pending_reconciliation script t).1 ≡ t
unfolding pending_reconciliation
pending_reconciliation_reads script t = elim (Result-cases (latest script t).0) [
  | inl (o, e) ↦
      (latest-eq-ok script t (latest script t).1 (ap (λ r. (r, (latest script t).1)) e)).0
  | inr (x, e) ↦ latest-eq-err script t (latest script t).1 (ap (λ r. (r, (latest script t).1)) e)
]

at_rest : (row : Option Row) → is_running_row row ≡ false → is_waiting_row row ≡ false → AtRest row
at_rest none running waits = tt
at_rest (some row) running waits = (running, waits)

interrupted_iff :
    (now : Instant) (t after : Tables) (out : Option Operation)
    → Recovered now t after out
    → was_interrupted out ≡ is_running_row t.latest
interrupted_iff now t after none (_, rest) = sym rest
interrupted_iff now t after (some o) (row, at, fits, _, _, _) = sym (ap is_running_row at ∙ fits)

recover_pending-AtRest :
    (s : Start) (flag : Bool) (t after : Tables) {b : Bool}
    → is_running_row t.latest ≡ false
    → recover_pending s flag (pending_reconciliation s.at_read t) ≡ (ok b, after)
    → AtRest after.latest × (b ≡ flag)
recover_pending-AtRest s flag t after {b} rest h =
    let left = (pending_reconciliation s.at_read t).1 in
    elim (Result-cases (pending_reconciliation s.at_read t).0) [
      | inl (o, e) ↦
          elim (Result-cases (reconcile s.start_reconciliation s.at_start_reconcile o left).0) [
            | inl (w, done) ↦
                let ends : (flag ≡ b)
                    × ((reconcile s.start_reconciliation s.at_start_reconcile o left).1 ≡ after) =
                  (ground arith, ground arith) in
                let (row, _, over) =
                  reconcile-IsOver s.start_reconciliation s.at_start_reconcile o left after {w = w}
                    (ground arith) in
                (over_is_AtRest o.id row.state after over, sym ends.0)
            | inr (x, failed) ↦ absurd (ground arith)
          ]
      | inr (not_found, e) ↦
          let (same, waits) =
            pending_reconciliation-not_found s.at_read t left (ap (λ r. (r, left)) e) in
          let reached : t ≡ after = ground arith in
          (subst (λ t. AtRest t.latest) reached (at_rest t.latest rest waits), ground arith)
      | inr (active, e) ↦ absurd (ground arith)
      | inr (no_queued, e) ↦ absurd (ground arith)
      | inr (invalid, e) ↦ absurd (ground arith)
      | inr (state_changed, e) ↦ absurd (ground arith)
      | inr (worker_running, e) ↦ absurd (ground arith)
      | inr (failure, e) ↦ absurd (ground arith)
    ]

-- A recovery that answers no error leaves nothing that runs and nothing that waits for its inventory,
-- and it says whether an operation was running before it.
pub recover-AtRest :
    (s : Start) (t after : Tables) {b : Bool}
    → recover s t ≡ (ok b, after)
    → AtRest after.latest × (b ≡ is_running_row t.latest)
unfolding recover
recover-AtRest s t after {b} h =
    let now = s.at_interrupt.now in
    let script = s.at_interrupt.script in
    let left = (interrupt_running script now t).1 in
    elim (Result-cases (interrupt_running script now t).0) [
      | inr (x, e) ↦ absurd (ground arith)
      | inl (out, e) ↦
          let whole : interrupt_running script now t ≡ (ok out, left) = ap (λ r. (r, left)) e in
          let stops = interrupt_running_stops script now t left whole in
          let (rest, flag) =
            recover_pending-AtRest s (was_interrupted out) left after stops (ground arith) in
          (
            rest,
            flag
                ∙ interrupted_iff now t left out (interrupt_running-effect script now t left whole),
          )
    ]
