-- ===== src/Jobs/Lifecycle/Atomic.antt =====
-- What a failing call of the store leaves, and what a successful one answers.
use acme_mux.Prelude.{Bool, true, false, ◌≡◌, ap, List, Option, none, some, arith, Result, ok, err}
use acme_mux.Prelude.Bytes.{Bytes}
use acme_mux.Jobs.Types.{failure, ExecutorResult, Instant, Operation, Fault, invalid}
use acme_mux.Jobs.Database.{Tables}
use acme_mux.Prelude.Transaction.Laws.{Atomic, refuse_if-Atomic, guarded-Atomic}
use acme_mux.Jobs.Changes.{enqueue_kind, claim, update_phase}
use acme_mux.Jobs.Endings.{
  uncertain_result, finish, finish_with, finish_uncertain, interrupt_running,
  complete_reconciliation,
}
use acme_mux.Jobs.Lifecycle.{
  Command, enqueue_call, claim_call, phase_call, finish_call, uncertain_call, interrupt_call,
  reconcile_call, perform, answered,
}

finish_with-Atomic :
    (script : List Bool) (id : Bytes) (result : ExecutorResult) (now : Instant)
    (allow_pending : Bool)
    → Atomic (finish_with script id result now allow_pending)
unfolding finish_with
finish_with-Atomic script id result now allow_pending =
    refuse_if-Atomic _ invalid _ (guarded-Atomic _ invalid failure script _)

answered-eq-err :
    {A : Type 0} (f : A → Option Operation) (r : Result Fault A × Tables) {e : Fault}
    {after : Tables}
    → answered f r ≡ (err e, after)
    → r ≡ (err e, after)
answered-eq-err f (ok a, t) h = absurd (ground arith)
answered-eq-err f (err e, t) h = ground arith

pub answered-eq-ok :
    {A : Type 0} (f : A → Option Operation) (r : Result Fault A × Tables) {out : Option Operation}
    {after : Tables}
    → answered f r ≡ (ok out, after)
    → (a : A) × (r ≡ (ok a, after)) × (f a ≡ out)
answered-eq-ok f (ok a, t) h = (a, ground arith, ground arith)
answered-eq-ok f (err e, t) h = absurd (ground arith)

pub perform-eq-err :
    (c : Command) (t after : Tables) {e : Fault} → perform c t ≡ (err e, after) → after ≡ t
unfolding perform enqueue_kind claim update_phase finish finish_uncertain interrupt_running
    complete_reconciliation
perform-eq-err (enqueue_call script id kind request now) t after h =
    guarded-Atomic _ invalid failure script _ t _ after (answered-eq-err some _ h)
perform-eq-err (claim_call script now) t after h =
    guarded-Atomic _ invalid failure script _ t _ after (answered-eq-err some _ h)
perform-eq-err (phase_call script id phase now) t after h =
    guarded-Atomic _ invalid failure script _ t _ after (answered-eq-err (λ _. none) _ h)
perform-eq-err (finish_call script id result now) t after h =
    refuse_if-Atomic _ invalid _ (finish_with-Atomic script id result now false) t _ after
      (answered-eq-err some _ h)
perform-eq-err (uncertain_call script id state code now) t after h =
    refuse_if-Atomic _ invalid _
      (finish_with-Atomic script id (uncertain_result state code) now true) t _ after
      (answered-eq-err some _ h)
perform-eq-err (interrupt_call script now) t after h =
    guarded-Atomic _ invalid failure script _ t _ after (answered-eq-err (λ o. o) _ h)
perform-eq-err (reconcile_call script id inventory now) t after h =
    guarded-Atomic _ invalid failure script _ t _ after (answered-eq-err some _ h)

-- A call that answers an error has changed nothing, whichever of its statements fails.
pub perform_atomic :
    (c : Command) (t : Tables) {e : Fault} → (perform c t).0 ≡ err e → (perform c t).1 ≡ t
perform_atomic c t h = perform-eq-err c t (perform c t).1 (ap (λ x. (x, (perform c t).1)) h)
