-- ===== src/Jobs/Lifecycle.antt =====
-- The life of the latest operation: its status in the tables, the steps that it may take, and the
-- calls of internal/jobs/store.go as commands.
pub mod Atomic
pub mod Steps
pub mod Runs
pub mod Reads
pub mod Answers
use acme_mux.Prelude.{
  Bool, true, false, not, ◌&&◌, ◌||◌, ◌≡◌, refl, sym, ap, ◌∙◌, ◌⊎◌, inl, inr, List, [], ◌∷◌, ◌++◌,
  Option, none, some, arith, Result, ok, err, Option-cases, Result-cases, Bool-cases,
}
use mathlib.Core.Path.{subst}
use acme_mux.Prelude.Bytes.{Bytes, equal, equal_iff}
use acme_mux.Jobs.Types.{
  Kind, State, Phase, InventoryState, InventoryResult, ItemResult, ExecutorResult, Instant, Request,
  RequestItem, Operation, Fault, is_active, is_terminal, is_uncertain, is_pending, is_running,
  is_queued, valid_phase_transition,
}
use acme_mux.Jobs.Database.{Row, Tables}
use acme_mux.Jobs.Changes.{enqueue_kind, claim, update_phase}
use acme_mux.Jobs.Endings.{finish, finish_uncertain, interrupt_running, complete_reconciliation}

-- What the tables say of the latest operation.
pub data Status : Type 0 where
  absent : Status
  at : Bytes → State → Phase → InventoryState → Status

abbrev pub row_status : Option Row → Status
row_status none = absent
row_status (some row) = at row.operation_id row.state row.phase row.inventory_state

abbrev pub status : Tables → Status
status t = row_status t.latest

-- No operation, or one that is over and reconciled.
abbrev pub Replaceable : Status → Type 0
Replaceable absent = Unit
Replaceable (at id state phase inventory) =
    (is_active state ≡ false) × (is_pending inventory ≡ false)

pub data Step : Status → Status → Type 0 where
  accept :
      {s : Status} (id : Bytes)
      → Replaceable s
      → Step s (at id State.queued Phase.queued InventoryState.pending)
  take :
      (id : Bytes) (inventory : InventoryState)
      → Step
          (at id State.queued Phase.queued inventory)
          (at id State.running Phase.revalidating inventory)
  advance :
      (id : Bytes) (p q : Phase) (inventory : InventoryState)
      → valid_phase_transition p q ≡ true
      → Step (at id State.running p inventory) (at id State.running q inventory)
  end :
      (id : Bytes) (p : Phase) (state : State) (before after : InventoryState)
      → is_terminal state ≡ true
      → (is_pending after ≡ false) ⊎ (is_uncertain state ≡ true)
      → Step (at id State.running p before) (at id state Phase.blank after)
  reconcile :
      (id : Bytes) (state : State) (p : Phase) (after : InventoryState)
      → is_uncertain state ≡ true
      → is_pending after ≡ false
      → Step (at id state p InventoryState.pending) (at id state p after)

-- A call of the store, with the script of its statements that fail.
pub data Command : Type 0 where
  enqueue_call : List Bool → Bytes → Kind → Request → Instant → Command
  claim_call : List Bool → Instant → Command
  phase_call : List Bool → Bytes → Phase → Instant → Command
  finish_call : List Bool → Bytes → ExecutorResult → Instant → Command
  uncertain_call : List Bool → Bytes → State → Bytes → Instant → Command
  interrupt_call : List Bool → Instant → Command
  reconcile_call : List Bool → Bytes → InventoryResult → Instant → Command

-- What a call answers: an operation, or nothing, or an error.
abbrev pub Answer : Type 0
Answer = Result Fault (Option Operation)

abbrev pub answered :
    {A : Type 0} → (A → Option Operation) → Result Fault A × Tables → Answer × Tables
answered f (ok a, t) = (ok (f a), t)
answered f (err e, t) = (err e, t)

unfoldable pub perform : Command → Tables → Answer × Tables
perform (enqueue_call script id kind request now) t =
    answered some (enqueue_kind script id kind request now t)
perform (claim_call script now) t = answered some (claim script now t)
perform (phase_call script id phase now) t =
    answered (λ _. none) (update_phase script id phase now t)
perform (finish_call script id result now) t = answered some (finish script id result now t)
perform (uncertain_call script id state code now) t =
    answered some (finish_uncertain script id state code now t)
perform (interrupt_call script now) t = answered (λ o. o) (interrupt_running script now t)
perform (reconcile_call script id inventory now) t =
    answered some (complete_reconciliation script id inventory now t)

unfoldable pub run : List Command → Tables → Tables
run [] t = t
run (c ∷ cs) t = run cs (perform c t).1
