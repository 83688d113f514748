-- ===== src/Jobs/Lifecycle/Runs.antt =====
-- What holds along any sequence of calls of the store.
use mathlib.Core.Path.{subst}
use acme_mux.Prelude.{
  ℕ, ◌<◌, Bool, true, false, not, ◌&&◌, ◌||◌, ◌≡◌, refl, sym, ◌⊎◌, inl, inr, List, [], ◌∷◌, arith,
  if◌then◌else◌,
}
use acme_mux.Prelude.Bytes.{Bytes}
use acme_mux.Jobs.Types.{State, Phase, InventoryState, is_active, is_uncertain, is_pending}
use acme_mux.Jobs.Operation.{is_queued_phase, is_active_phase, is_blank_phase}
use acme_mux.Jobs.Database.{Tables}
use acme_mux.Jobs.Lifecycle.{
  Status, absent, at, status, Step, accept, take, advance, end, reconcile, Command, perform, run,
}
use acme_mux.Jobs.Lifecycle.Steps.{perform-Moves}

-- The states, phases and inventory states that belong together.
abbrev coherent : State → Phase → InventoryState → Bool
coherent State.queued phase inventory = is_queued_phase phase && is_pending inventory
coherent State.running phase inventory = is_active_phase phase && is_pending inventory
coherent State.unknown phase inventory = false
coherent state phase inventory =
    is_blank_phase phase && (not (is_pending inventory) || is_uncertain state)

abbrev pub IsCoherent : Status → Type 0
IsCoherent absent = Unit
IsCoherent (at id state phase inventory) = coherent state phase inventory ≡ true

Step-IsCoherent : {s s' : Status} → Step s s' → IsCoherent s → IsCoherent s'
Step-IsCoherent (accept id free) h = refl
Step-IsCoherent (take id inventory) h = ground arith
Step-IsCoherent (advance id p q inventory allowed) h = ground arith
Step-IsCoherent (end id p state before after terminal settled) h = ground arith
Step-IsCoherent (reconcile id state p after uncertain settled) h = ground arith

-- Any sequence of calls of the store, with any failing statements, keeps state, phase and
-- inventory state of the latest operation coherent.
pub run-IsCoherent :
    (cs : List Command) (t : Tables) → IsCoherent (status t) → IsCoherent (status (run cs t))
unfolding run
run-IsCoherent [] t h = h
run-IsCoherent (c ∷ cs) t h = elim (perform-Moves c t) [
  | inl same ↦ run-IsCoherent cs (perform c t).1 (subst (λ t. IsCoherent (status t)) (sym same) h)
  | inr step ↦ run-IsCoherent cs (perform c t).1 (Step-IsCoherent step h)
]

-- How far an operation has come.
abbrev pub progress : Status → ℕ
progress absent = 0
progress (at id State.queued phase inventory) = 1
progress (at id State.running Phase.executing inventory) = 3
progress (at id State.running Phase.refreshing_inventory inventory) = 4
progress (at id State.running phase inventory) = 2
progress (at id state phase inventory) = if is_pending inventory then 5 else 6

-- The operation is active, or its inventory is pending.
abbrev pub IsBusy : Bytes → Status → Type 0
IsBusy id absent = ⊥
IsBusy id (at other state phase inventory) =
    (other ≡ id) × ((is_active state || is_pending inventory) ≡ true)

abbrev pub HasId : Bytes → Status → Type 0
HasId id absent = ⊥
HasId id (at other state phase inventory) = other ≡ id

Step_busy :
    {s s' : Status} (id : Bytes)
    → Step s s'
    → IsBusy id s
    → HasId id s' × (progress s < progress s')
Step_busy id (accept {s = absent} new free) h = absurd h
Step_busy id (accept {s = at other state phase inventory} new free) h = absurd (ground arith)
Step_busy id (take other inventory) h = (h.0, ground arith)
Step_busy id (advance other p q inventory allowed) h = (h.0, ground arith)
Step_busy id (end other p state before after terminal settled) h = (h.0, ground arith)
Step_busy id (reconcile other state p after uncertain settled) h = (h.0, ground arith)

-- While the latest operation is active or its inventory is pending, no call of the store replaces
-- it, and every call that changes the tables brings it further.
pub perform_busy :
    (c : Command) (t : Tables) (id : Bytes)
    → IsBusy id (status t)
    → ((perform c t).1 ≡ t)
      ⊎ (HasId id (status (perform c t).1)
          × (progress (status t) < progress (status (perform c t).1)))
perform_busy c t id h = elim (perform-Moves c t) [
  | inl same ↦ inl same
  | inr step ↦ inr (Step_busy id step h)
]
