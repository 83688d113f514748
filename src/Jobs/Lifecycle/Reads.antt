-- ===== src/Jobs/Lifecycle/Reads.antt =====
-- Reading back what a call has answered, and calls on an operation that is in the way.
use mathlib.Core.Path.{subst}
use acme_mux.Prelude.{Bool, true, ◌≡◌, ap, ◌∙◌, List, [], Option, none, some, arith, ok, err}
use acme_mux.Jobs.Types.{Instant, Operation, no_queued}
use acme_mux.Jobs.Validate.{validate_time}
use acme_mux.Jobs.Operation.{validate_operation}
use acme_mux.Jobs.Database.{Row, Tables, statement, transact}
use acme_mux.Jobs.Store.{latest}
use acme_mux.Jobs.Store.Stored.{stored, latest-stored, stored_valid}
use acme_mux.Jobs.Changes.{claim, claim_body, claimed}
use acme_mux.Jobs.Changes.Effects.{enqueue_kind-effect, claim-effect}
use acme_mux.Jobs.Endings.Effects.{finish-effect, finish_uncertain-effect}
use acme_mux.Jobs.Endings.Recovery.{
  Recovered, interrupt_running-effect, complete_reconciliation-effect,
}
use acme_mux.Jobs.Lifecycle.{
  Command, enqueue_call, claim_call, phase_call, finish_call, uncertain_call, interrupt_call,
  reconcile_call, perform,
}
use acme_mux.Jobs.Lifecycle.Atomic.{answered-eq-ok}

-- The call has stored what it answers.
abbrev Stores : Tables → Option Operation → Type 0
Stores after none = Unit
Stores after (some o) = stored after ≡ ok o

answer_stored :
    (c : Command) (t after : Tables) {out : Option Operation}
    → perform c t ≡ (ok out, after)
    → Stores after out
unfolding perform
answer_stored (enqueue_call script id kind request now) t after h =
    let (o, e, same) = answered-eq-ok some _ h in
    subst (Stores after) same (enqueue_kind-effect script id kind request now t after e).2
answer_stored (claim_call script now) t after h =
    let (o, e, same) = answered-eq-ok some _ h in
    let (_, _, _, _, _, is) = claim-effect script now t after e in subst (Stores after) same is
answer_stored (phase_call script id phase now) t after h =
    let (o, e, same) = answered-eq-ok (λ _. none) _ h in subst (Stores after) same tt
answer_stored (finish_call script id result now) t after h =
    let (o, e, same) = answered-eq-ok some _ h in
    let ((_, _, _, _, _, is), _, _) = finish-effect script id result now t after e in
    subst (Stores after) same is
answer_stored (uncertain_call script id state code now) t after h =
    let (o, e, same) = answered-eq-ok some _ h in
    let ((_, _, _, _, _, is), _) = finish_uncertain-effect script id state code now t after e in
    subst (Stores after) same is
answer_stored (interrupt_call script now) t after h =
    let (out, e, same) = answered-eq-ok (λ o. o) _ h in
    subst (Stores after) same (recovered out (interrupt_running-effect script now t after e))
  where
    recovered : (out : Option Operation) → Recovered now t after out → Stores after out
    recovered none r = tt
    recovered (some o) (_, _, _, _, _, is) = is
answer_stored (reconcile_call script id inventory now) t after h =
    let (o, e, same) = answered-eq-ok some _ h in
    let (_, _, _, _, _, is) = complete_reconciliation-effect script id inventory now t after e in
    subst (Stores after) same is

-- An operation that a call of the store answers is valid, and is what a `Latest` with no failing
-- statement answers next.
pub perform-latest :
    (c : Command) (t after : Tables) {o : Operation}
    → perform c t ≡ (ok (some o), after)
    → (latest [] after ≡ (ok o, after)) × (validate_operation o ≡ true)
perform-latest c t after h =
    let is = answer_stored c t after h in
    (latest-stored after ∙ ap (λ r. (r, after)) is, stored_valid after is)

claim_none_queued :
    (now later : Instant) (t : Tables) (row : Row)
    → validate_time later true ≡ true
    → t.latest ≡ some (claimed now row)
    → claim [] later t ≡ (err no_queued, t)
unfolding claim claim_body transact statement
claim_none_queued now later t row valid e = ground arith

-- A claim behind a successful claim, with a valid time and no failing statement, answers
-- `ErrNoQueued` and changes nothing.
pub claim-claim :
    (script : List Bool) (now later : Instant) (t after : Tables) {o : Operation}
    → claim script now t ≡ (ok o, after)
    → validate_time later true ≡ true
    → claim [] later after ≡ (err no_queued, after)
claim-claim script now later t after h valid =
    let (row, _, _, _, left, _) = claim-effect script now t after h in
    claim_none_queued now later after row valid (ap (λ t. t.latest) left)
