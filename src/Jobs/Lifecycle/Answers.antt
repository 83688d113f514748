-- ===== src/Jobs/Lifecycle/Answers.antt =====
-- What a successful end answers, and what a phase update leaves when the clock has gone back.
use mathlib.Core.Path.{subst₂}
use acme_mux.Prelude.{◌<◌, Bool, true, ◌≡◌, refl, ◌∙◌, List, none, some, arith, ok, err}
use acme_mux.Prelude.Bytes.{Bytes, equal, equal_iff}
use acme_mux.Jobs.Types.{
  ExecutorResult, ItemResult, RequestItem, Instant, Operation, Phase, invalid,
}
use acme_mux.Jobs.Validate.{validate_result_scope}
use acme_mux.Jobs.Operation.{validate_operation}
use acme_mux.Jobs.Database.{Row, Tables}
use acme_mux.Jobs.Store.{
  to_operation, requested_items, requested_of, results_of, parse_time, format_time,
}
use acme_mux.Jobs.Store.Stored.{stored}
use acme_mux.Jobs.Changes.{update_phase}
use acme_mux.Jobs.Changes.Effects.{in_phase, update_phase-effect}
use acme_mux.Jobs.Endings.{finished, finish}
use acme_mux.Jobs.Endings.Effects.{asked, finish-effect}

-- The columns that an operation takes over as they are.
abbrev pub Shows : Row → List ItemResult → List Bytes → Operation → Type 0
Shows row items names o =
    (o.id ≡ row.operation_id)
    × (o.state ≡ row.state)
    × (o.code ≡ row.reason_code)
    × (o.inventory.state ≡ row.inventory_state)
    × (o.output ≡ row.redacted_output)
    × (o.items ≡ items)
    × (o.request.items ≡ names)

to_operation-Shows :
    (row : Row) (items : List ItemResult) (names : List Bytes) (details : List RequestItem)
    {o : Operation}
    → to_operation row items names details ≡ some o
    → Shows row items names o
unfolding to_operation
to_operation-Shows row items names details h = (
  ground arith,
  ground arith,
  ground arith,
  ground arith,
  ground arith,
  ground arith,
  ground arith,
)

-- A time that is before the request.
back_in_time :
    (row : Row) (items : List ItemResult) (names : List Bytes) (details : List RequestItem)
    (now requested : Instant)
    → parse_time row.requested_at true ≡ some requested
    → row.updated_at ≡ format_time now
    → now.nanos < requested.nanos
    → to_operation row items names details ≡ none
unfolding to_operation parse_time validate_operation
back_in_time row items names details now requested at_request at_update h = ground arith

-- What a readable row shows.
pub stored-Shows :
    (t : Tables) (row : Row) {o : Operation}
    → t.latest ≡ some row
    → stored t ≡ ok o
    → Shows row (results_of row.operation_id t.results) (asked row.operation_id t) o
unfolding stored
stored-Shows t row {o} at_row is =
    let requested = requested_items (requested_of row.operation_id t.requested) in
    to_operation-Shows row (results_of row.operation_id t.results) requested.0 requested.1 {o = o}
      (ground arith)

-- A successful Finish answers the operation with that ID, in the state and with the code,
-- inventory state and output of the result, and its items are those that were asked for and that
-- the result covers.
pub finish-answer :
    (script : List Bool) (id : Bytes) (result : ExecutorResult) (now : Instant) (t after : Tables)
    {o : Operation}
    → finish script id result now t ≡ (ok o, after)
    → (o.id ≡ id)
      × (o.state ≡ result.state)
      × (o.code ≡ result.code)
      × (o.inventory.state ≡ result.inventory.state)
      × (o.output ≡ result.output)
      × (o.request.items ≡ asked id t)
      × (validate_result_scope (asked id t) result.items ≡ true)
finish-answer script id result now t after {o} h =
    let ((row, at_row, fits, left, kept, is), _, scope) =
      finish-effect script id result now t after h in
    let (id_is, state, code, inventory, output, _, names) =
      stored-Shows after (finished result now row) left is in
    let same : equal row.operation_id id ≡ true = ground arith in
    let ids : row.operation_id ≡ id = (equal_iff row.operation_id id).0 same in
    (
      id_is ∙ ids,
      state,
      code,
      inventory,
      output,
      names
          ∙ subst₂
              (λ i rs.
                (requested_items (requested_of row.operation_id after.requested)).0
                ≡ (requested_items (requested_of i rs)).0)
              ids kept refl,
      scope,
    )

-- A phase update with a time before that of the request that succeeds leaves a row that no read
-- accepts.
pub update_phase_backwards :
    (script : List Bool) (id : Bytes) (phase : Phase) (now requested : Instant) (t after : Tables)
    (row : Row) {w : Unit {0}}
    → t.latest ≡ some row
    → parse_time row.requested_at true ≡ some requested
    → now.nanos < requested.nanos
    → update_phase script id phase now t ≡ (ok w, after)
    → stored after ≡ err invalid
unfolding stored
update_phase_backwards script id phase now requested t after row at_row at_request back h =
    let (found, at_found, _, _, _, left) = update_phase-effect script id phase now t after h in
    let names = requested_items (requested_of row.operation_id after.requested) in
    let one : found ≡ row = ground arith in
    let gone =
      back_in_time (in_phase phase now row) (results_of row.operation_id after.results) names.0
        names.1 now requested at_request refl back in
    ground arith
