-- ===== src/Jobs/Tests/Calls.antt =====
-- Runs of the store at concrete operations, and the theorems at them.
use acme_mux.Prelude.{true, false, ◌≡◌, ◌<◌, ◌⊎◌, arith, refl, [], ◌∷◌, some, ok, err}
use acme_mux.Prelude.Bytes.{Bytes, codes}
use acme_mux.Jobs.Types.{
  Kind, State, Phase, InventoryState, invalid, no_queued, state_changed, failure,
}
use acme_mux.Jobs.Validate.{validate_id, validate_result_scope}
use acme_mux.Jobs.Operation.{validate_operation}
use acme_mux.Jobs.Database.{Tables, empty_tables}
use acme_mux.Jobs.Store.{latest}
use acme_mux.Jobs.Store.Stored.{stored}
use acme_mux.Jobs.Changes.{enqueue_kind, enqueue, claim, claimed}
use acme_mux.Jobs.Lifecycle.{
  at, enqueue_call, claim_call, finish_call, interrupt_call, perform, run, status,
}
use acme_mux.Jobs.Lifecycle.Steps.{Moves, perform-Moves}
use acme_mux.Jobs.Lifecycle.Runs.{IsCoherent, run-IsCoherent, progress, HasId, perform_busy}
use acme_mux.Jobs.Lifecycle.Reads.{perform-latest, claim-claim}
use acme_mux.Jobs.Lifecycle.Answers.{finish-answer, update_phase_backwards}
use acme_mux.Jobs.Endings.Effects.{asked}
use acme_mux.Jobs.Endings.Recovery.{interrupt_running_stops}
use acme_mux.Jobs.Endings.{is_running_row}
use acme_mux.Jobs.Service.{encode_hex, service_enqueue}
use acme_mux.Jobs.Service.Views.{encode_hex_valid}
use acme_mux.Jobs.Changes.Effects.{in_phase}
use acme_mux.Jobs.Tests.{
  runs, id_one, names, request, clock, good, enqueue_one, queued_one, enqueued, running, finish_one,
  ended, interrupted, claimed_one, interrupted_one, ended_one,
}

three_calls : run (enqueue_one ∷ claim_call [] (clock 110) ∷ finish_one ∷ []) empty_tables ≡ ended
unfolding runs
three_calls = refl

three_calls_interrupted :
    run (enqueue_one ∷ claim_call [] (clock 110) ∷ interrupt_call [] (clock 120) ∷ []) empty_tables
    ≡ interrupted
unfolding runs
three_calls_interrupted = refl

-- A plain enqueue is a manual one.
enqueue_is_manual :
    enqueue [] id_one request (clock 100) enqueued
    ≡ enqueue_kind [] id_one Kind.manual request (clock 100) enqueued
unfolding enqueue
enqueue_is_manual = refl

-- A statement that fails in the middle of an enqueue leaves nothing behind.
failing_enqueue :
    perform
      (enqueue_call (false ∷ false ∷ false ∷ true ∷ []) id_one Kind.manual request (clock 100))
      empty_tables
    ≡ (err failure, empty_tables)
unfolding runs
failing_enqueue = refl

-- A failure of the first query of `finish` is reported as a changed state.
failing_finish :
    perform (finish_call (false ∷ true ∷ []) id_one good (clock 130)) running
    ≡ (err state_changed, running)
unfolding runs
failing_finish = refl

perform-Moves_example : Moves running ended
unfolding runs
perform-Moves_example = perform-Moves finish_one running

run-IsCoherent_example : IsCoherent (status interrupted)
unfolding runs
run-IsCoherent_example =
    run-IsCoherent (enqueue_one ∷ claim_call [] (clock 110) ∷ interrupt_call [] (clock 120) ∷ [])
      empty_tables tt

perform_busy_example :
    (ended ≡ running)
    ⊎ (HasId id_one (status ended) × (progress (status running) < progress (status ended)))
unfolding runs
perform_busy_example = perform_busy finish_one running id_one (refl, refl)

perform-latest_example :
    (latest [] ended ≡ (ok ended_one, ended)) × (validate_operation ended_one ≡ true)
unfolding runs
perform-latest_example = perform-latest finish_one running ended refl

claims_once : claim [] (clock 111) running ≡ (err no_queued, running)
unfolding runs
claims_once = claim-claim [] (clock 110) (clock 111) enqueued running {o = claimed_one} refl refl

finish-answer_example :
    (ended_one.id ≡ id_one)
    × (ended_one.state ≡ State.partial)
    × (ended_one.code ≡ good.code)
    × (ended_one.inventory.state ≡ InventoryState.unavailable)
    × (ended_one.output ≡ good.output)
    × (names ≡ asked id_one running)
    × (validate_result_scope (asked id_one running) good.items ≡ true)
unfolding runs
finish-answer_example = finish-answer [] id_one good (clock 130) running ended {o = ended_one} refl

abbrev back : Tables
back = record running {
  latest = some (in_phase Phase.executing (clock 99) (claimed (clock 110) queued_one));
}

update_phase_backwards_example : stored back ≡ err invalid
unfolding runs
update_phase_backwards_example =
    update_phase_backwards [] id_one Phase.executing (clock 99) (clock 100) running back
      (claimed (clock 110) queued_one) refl refl (ground arith) refl

abbrev sixteen_bytes : Bytes
sixteen_bytes = 0 ∷ 1 ∷ 16 ∷ 171 ∷ 255 ∷ 254 ∷ 9 ∷ 10 ∷ 159 ∷ 160 ∷ 100 ∷ 200 ∷ 3 ∷ 4 ∷ 5 ∷ 6 ∷ []

encoded_bytes : encode_hex sixteen_bytes ≡ codes "000110abfffe090a9fa064c803040506"
unfolding encode_hex
encoded_bytes = refl

encode_hex_valid_example : validate_id (encode_hex sixteen_bytes) ≡ true
encode_hex_valid_example = encode_hex_valid sixteen_bytes refl (ground arith)

-- The service enqueues under the identifier that the random bytes make.
service_enqueue_runs :
    status (service_enqueue [] (some sixteen_bytes) Kind.manual request (clock 100) empty_tables).1
    ≡ at (codes "000110abfffe090a9fa064c803040506") State.queued Phase.queued InventoryState.pending
unfolding runs service_enqueue encode_hex
service_enqueue_runs = refl

stops_the_running_one : is_running_row interrupted.latest ≡ false
unfolding runs
stops_the_running_one =
    interrupt_running_stops [] (clock 120) running interrupted {out = some interrupted_one} refl
