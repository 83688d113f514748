-- ===== src/Jobs/Operation.antt =====
-- internal/jobs/store.go, `validateOperation`: what a stored operation has to satisfy.
use acme_mux.Prelude.{Bool, true, false, not, ◌&&◌, ◌||◌, List, [], ◌∷◌, ltb, ◌==◌}
use acme_mux.Jobs.Types.{
  Kind, State, Phase, ItemResult, Instant, Operation, is_uncertain, is_pending,
}
use acme_mux.Jobs.Validate.{
  is_empty, validate_id, validate_request, validate_time, validate_code, validate_output,
  validate_items, validate_inventory, validate_result_scope,
}

abbrev pub is_zero : Instant → Bool
is_zero t = t.nanos == 0

abbrev pub before : Instant → Instant → Bool
before t u = ltb t.nanos u.nanos

abbrev pub valid_kind : Kind → Bool
valid_kind Kind.unknown = false
valid_kind _ = true

abbrev pub no_items : List ItemResult → Bool
no_items [] = true
no_items (i ∷ is) = false

abbrev pub is_queued_phase : Phase → Bool
is_queued_phase Phase.queued = true
is_queued_phase _ = false

abbrev pub is_active_phase : Phase → Bool
is_active_phase Phase.revalidating = true
is_active_phase Phase.executing = true
is_active_phase Phase.refreshing_inventory = true
is_active_phase _ = false

abbrev pub is_blank_phase : Phase → Bool
is_blank_phase Phase.blank = true
is_blank_phase _ = false

abbrev queued_is_consistent : Operation → Bool
queued_is_consistent o =
    is_queued_phase o.phase
    && is_zero o.started_at
    && is_zero o.finished_at
    && is_empty o.code
    && not o.may_have_changed
    && is_empty o.output
    && not o.output_truncated
    && no_items o.items
    && is_pending o.inventory.state
    && validate_inventory o.inventory true

abbrev running_is_consistent : Operation → Bool
running_is_consistent o =
    is_active_phase o.phase
    && validate_time o.started_at true
    && is_zero o.finished_at
    && is_empty o.code
    && is_empty o.output
    && not o.output_truncated
    && no_items o.items
    && is_pending o.inventory.state
    && validate_inventory o.inventory true

-- The check of a pending inventory behind `validateInventory` repeats what that has refused.
abbrev terminal_is_consistent : Operation → Bool
terminal_is_consistent o =
    is_blank_phase o.phase
    && validate_time o.started_at true
    && validate_time o.finished_at true
    && validate_code o.code true
    && validate_output o.output
    && validate_items o.items
    && validate_inventory o.inventory (is_uncertain o.state)
    && validate_result_scope o.request.items o.items

-- The `switch` over the state.
unfoldable pub state_is_consistent : State → Operation → Bool
state_is_consistent State.queued o = queued_is_consistent o
state_is_consistent State.running o = running_is_consistent o
state_is_consistent State.unknown o = false
state_is_consistent _ o = terminal_is_consistent o

unfoldable pub times_are_ordered : Operation → Bool
times_are_ordered o =
    (is_zero o.started_at || not (before o.started_at o.requested_at))
    && (is_zero o.finished_at || not (before o.finished_at o.started_at))
    && (is_zero o.finished_at || not (before o.updated_at o.finished_at))

unfoldable pub validate_operation : Operation → Bool
validate_operation o =
    validate_id o.id
    && valid_kind o.kind
    && validate_request o.request
    && validate_time o.requested_at true
    && validate_time o.updated_at true
    && not (before o.updated_at o.requested_at)
    && state_is_consistent o.state o
    && times_are_ordered o
