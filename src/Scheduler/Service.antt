-- ===== src/Scheduler/Service.antt =====
-- internal/scheduler/service.go: one evaluation, and the wait until the next one. The loop around
-- them, its channels and its timer are left out.
pub mod Ends
use acme_mux.Prelude.{
  ℕ, ◌-◌, ◌*◌, Bool, true, false, not, ◌||◌, List, Option, leb, ltb, if◌then◌else◌, Result, ok, err,
}
use acme_mux.Prelude.Bytes.{Bytes, codes}
use acme_mux.Scheduler.Types.{
  Instant, Location, Schedule, State, due, deferred, Claim, Fault, nothing_due, invalid, changed,
  failure,
}
use acme_mux.Scheduler.Store.{Tables, Call, get, claim_due, complete_claim, release_claim}

-- What `EnqueueScheduled` answers.
pub data Outcome : Type 0 where
  accepted active busy recovery workspace changed_workspace configuration unavailable : Outcome

abbrev pub wake_interval : ℕ
wake_interval = 60 * 1000000000

abbrev pub deferred_retry : ℕ
deferred_retry = 1000000000

abbrev pub is_due : State → Bool
is_due due = true
is_due deferred = true
is_due _ = false

abbrev pub wait : Schedule → Instant → ℕ
wait s now =
    if not s.enabled
    then wake_interval
    else if is_due s.state
    then deferred_retry
    else if leb s.next_evaluation.nanos now.nanos
    then deferred_retry
    else if ltb wake_interval (s.next_evaluation.nanos - now.nanos)
    then wake_interval
    else s.next_evaluation.nanos - now.nanos

module _ (load_location : Bytes → Option Location) where
  -- The `switch` over the answer.
  unfoldable pub end_claim : List Bool → Claim → Outcome → Instant → Call (Unit {0})
  end_claim script claim accepted now = complete_claim load_location script claim now
  end_claim script claim active now = release_claim script claim (codes "operation_active") true now
  end_claim script claim busy now = release_claim script claim (codes "workspace_busy") true now
  end_claim script claim recovery now =
      release_claim script claim (codes "recovery_required") false now
  end_claim script claim workspace now =
      release_claim script claim (codes "workspace_invalid") false now
  end_claim script claim changed_workspace now =
      release_claim script claim (codes "workspace_invalid") false now
  end_claim script claim configuration now =
      release_claim script claim (codes "configuration_invalid") false now
  end_claim script claim unavailable now =
      release_claim script claim (codes "operation_unavailable") false now

  abbrev pub with_claim : List Bool → Outcome → Instant → Result Fault Claim → Call (Unit {0})
  with_claim script outcome now (ok claim) t = end_claim script claim outcome now t
  with_claim script outcome now (err nothing_due) t = (ok tt, t)
  with_claim script outcome now (err invalid) t = (err invalid, t)
  with_claim script outcome now (err changed) t = (err changed, t)
  with_claim script outcome now (err failure) t = (err failure, t)

  -- `Service.evaluate`, with the scripts of its two transactions and the instants of its two readings.
  unfoldable pub evaluate : List Bool → List Bool → Instant → Instant → Outcome → Call (Unit {0})
  evaluate claim_script end_script now later outcome t =
      let (r, u) = claim_due load_location claim_script now t in
      with_claim end_script outcome later r u

  abbrev pub waited : Instant → Result Fault Schedule → Result Fault ℕ
  waited now (err e) = err e
  waited now (ok s) = ok (wait s now)

  -- `Service.delay`, in nanoseconds.
  unfoldable pub delay : List Bool → Instant → Instant → Call ℕ
  delay script now later t = let (r, u) = get load_location script now t in (waited later r, u)
