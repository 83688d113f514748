-- ===== src/Jobs/Tests/Worker.antt =====
-- Runs of the worker at concrete executors, and the theorems at them.
use acme_mux.Prelude.{true, ◌≡◌, ℕ, refl, List, [], ◌∷◌, some, none, ok}
use acme_mux.Prelude.Bytes.{Bytes, codes}
use acme_mux.Jobs.Types.{State, Phase}
use acme_mux.Jobs.Database.{Tables}
use acme_mux.Jobs.Changes.{claimed}
use acme_mux.Jobs.Endings.{is_running_row, interrupted_row}
use acme_mux.Jobs.Service.{encode_hex, service_enqueue}
use acme_mux.Jobs.Types.{Phase}
use acme_mux.Jobs.Endings.{reconciled}
use acme_mux.Jobs.Tests.{
  runs, id_one, clock, good, queued_one, enqueued, running, ended, interrupted, claimed_one,
}
use acme_mux.Jobs.Worker.{
  Turn, Execution, returns, panics, reports, report_phase, call_execute, reconcile, Work, execute,
  Start, recover, round, Event, work_round, serve, run_worker, unavailable,
}
use acme_mux.Jobs.Worker.Ends.{IsOver, execute-IsOver}
use acme_mux.Jobs.Worker.Concluded.{Concluded, execute-Concluded}
use acme_mux.Jobs.Worker.Recover.{AtRest, recover-AtRest}
use acme_mux.Jobs.Worker.Loop.{run_worker-AtRest}

works : Unit {0}
unfolding runs service_enqueue encode_hex report_phase call_execute reconcile execute recover round
    serve run_worker
works = tt

abbrev at_time : ℕ → Turn
at_time n = record { script = []; now = clock n }

abbrev three_phases : Execution
three_phases =
    reports Phase.executing (at_time 112)
      λ _. reports Phase.refreshing_inventory (at_time 114) λ _. returns good

-- The second report goes back, and what is returned no longer counts.
abbrev back_again : Execution
back_again = reports Phase.executing (at_time 112) λ _.
    reports Phase.revalidating (at_time 114)
      λ _. reports Phase.refreshing_inventory (at_time 116) λ _. returns good

abbrev work_with : Execution → Work
work_with e = record {
  execution = e;
  at_finish = at_time 130;
  reconciliation = none;
  at_reconcile = at_time 140;
}

whole_execution : execute (work_with three_phases) claimed_one running ≡ (ok tt, ended)
unfolding works
whole_execution = refl

abbrev latest_code : Tables → List Bytes
latest_code t = elim t.latest [ none ↦ [] | some row ↦ row.reason_code ∷ row.inventory_code ∷ [] ]

ends_with_a_failed_phase :
    latest_code (execute (work_with back_again) claimed_one running).1
    ≡ (codes "worker_phase_failed" ∷ codes "inventory_reconciliation_failed" ∷ [])
unfolding works
ends_with_a_failed_phase = refl

ends_with_a_panic :
    latest_code (execute (work_with panics) claimed_one running).1
    ≡ (codes "worker_panicked" ∷ codes "inventory_reconciliation_failed" ∷ [])
unfolding works
ends_with_a_panic = refl

ends_with_an_early_return :
    latest_code (execute (work_with (returns good)) claimed_one running).1
    ≡ (codes "worker_result_invalid" ∷ codes "inventory_reconciliation_failed" ∷ [])
unfolding works
ends_with_an_early_return = refl

execute-IsOver_example : IsOver id_one State.partial ended
unfolding works
execute-IsOver_example =
    execute-IsOver (work_with three_phases) claimed_one running ended {u = tt} refl

execute-Concluded_example :
    Concluded three_phases id_one
      (some good)
      (record { current_phase = Phase.refreshing_inventory; phase_failure = none })
      ended
unfolding works
execute-Concluded_example =
    execute-Concluded (work_with three_phases) claimed_one running ended {u = tt} refl

abbrev start : Start
start = record {
  at_interrupt = at_time 120;
  at_read = [];
  start_reconciliation = none;
  at_start_reconcile = at_time 125;
}

abbrev recovered : Tables
recovered = record interrupted {
  latest = some (
      reconciled unavailable (clock 125)
        (interrupted_row (clock 120) (claimed (clock 110) queued_one)));
}

recover-AtRest_example : AtRest recovered.latest × (true ≡ is_running_row running.latest)
unfolding works
recover-AtRest_example = recover-AtRest start running recovered {b = true} refl

abbrev events : List Event
events = work_round (record { at_claim = at_time 110; work = work_with three_phases }) ∷ []

abbrev idle : Start
idle = record start { at_interrupt = at_time 101 }

run_worker-AtRest_example : AtRest ended.latest
unfolding works
run_worker-AtRest_example = run_worker-AtRest idle events enqueued ended {w = tt} refl
