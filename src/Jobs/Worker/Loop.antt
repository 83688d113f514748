-- ===== src/Jobs/Worker/Loop.antt =====
-- What the loop of `Run` of internal/jobs/worker.go leaves, with requests between its rounds.
use mathlib.Core.Path.{subst}
use acme_mux.Prelude.{
  Bool, ◌≡◌, refl, sym, ap, inl, inr, List, [], ◌∷◌, Option, none, some, arith, ok, Result-cases,
}
use acme_mux.Prelude.Bytes.{Bytes}
use acme_mux.Prelude.Transaction.Laws.{guarded-Atomic}
use acme_mux.Jobs.Types.{
  Kind, Request, Instant, active, not_found, no_queued, invalid, state_changed, worker_running,
  failure,
}
use acme_mux.Jobs.Database.{Tables}
use acme_mux.Jobs.Changes.{enqueue_kind, claim}
use acme_mux.Jobs.Changes.Effects.{enqueue_kind-effect}
use acme_mux.Jobs.Service.{encode_hex, service_enqueue}
use acme_mux.Jobs.Worker.{
  Round, round, Start, recover, Event, request, work_round, serve, run_worker,
}
use acme_mux.Jobs.Worker.Ends.{execute-IsOver, outcome, end_state}
use acme_mux.Jobs.Worker.Recover.{AtRest, over_is_AtRest, recover-AtRest}

service_enqueue-AtRest :
    (script : List Bool) (raw : Option Bytes) (kind : Kind) (r : Request) (now : Instant)
    (t : Tables)
    → AtRest t.latest
    → AtRest (service_enqueue script raw kind r now t).1.latest
unfolding service_enqueue enqueue_kind
service_enqueue-AtRest script none kind r now t rest = rest
service_enqueue-AtRest script (some raw) kind r now t rest =
    let id = encode_hex raw in
    let left = (enqueue_kind script id kind r now t).1 in
    elim (Result-cases (enqueue_kind script id kind r now t).0) [
      | inl (o, e) ↦
          let (_, queued, _) =
            enqueue_kind-effect script id kind r now t left (ap (λ r. (r, left)) e) in
          subst AtRest (sym queued) (refl, refl)
      | inr (x, e) ↦
          let same = guarded-Atomic _ invalid failure script _ t x left (ap (λ r. (r, left)) e) in
          subst (λ t. AtRest t.latest) (sym same) rest
    ]

round-AtRest :
    (r : Round) (t after : Tables) {w : Unit {0}}
    → AtRest t.latest
    → round r t ≡ (ok w, after)
    → AtRest after.latest
unfolding round claim
round-AtRest r t after {w} rest h =
    let script = r.at_claim.script in
    let left = (claim script r.at_claim.now t).1 in
    elim (Result-cases (claim script r.at_claim.now t).0) [
      | inl (o, e) ↦
          let over = execute-IsOver r.work o left after {u = w} (ground arith) in
          over_is_AtRest o.id (end_state (outcome r.work o left)) after over
      | inr (no_queued, e) ↦
          let same =
            guarded-Atomic _ invalid failure script _ t no_queued left (ap (λ r. (r, left)) e) in
          let reached : t ≡ after = ground arith in subst (λ t. AtRest t.latest) reached rest
      | inr (active, e) ↦ absurd (ground arith)
      | inr (not_found, e) ↦ absurd (ground arith)
      | inr (invalid, e) ↦ absurd (ground arith)
      | inr (state_changed, e) ↦ absurd (ground arith)
      | inr (worker_running, e) ↦ absurd (ground arith)
      | inr (failure, e) ↦ absurd (ground arith)
    ]

serve-AtRest :
    (events : List Event) (t after : Tables) {w : Unit {0}}
    → AtRest t.latest
    → serve events t ≡ (ok w, after)
    → AtRest after.latest
unfolding serve
serve-AtRest [] t after rest h =
    let same : t ≡ after = ground arith in subst (λ t. AtRest t.latest) same rest
serve-AtRest (request script raw kind r now ∷ events) t after rest h =
    serve-AtRest events (service_enqueue script raw kind r now t).1 after
      (service_enqueue-AtRest script raw kind r now t rest) h
serve-AtRest (work_round r ∷ events) t after {w} rest h = elim (Result-cases (round r t).0) [
  | inr (x, e) ↦ absurd (ground arith)
  | inl (u, e) ↦
      let left = (round r t).1 in
      let next = round-AtRest r t left {w = u} rest (ap (λ r. (r, left)) e) in
      serve-AtRest events left after {w = w} next (ground arith)
]

-- A worker that has started and has met no error, with any requests between its rounds, any reports
-- and results of the executor and any failing statements, is at rest between its rounds: no operation
-- runs, and none waits for its inventory.
pub run_worker-AtRest :
    (s : Start) (events : List Event) (t after : Tables) {w : Unit {0}}
    → run_worker s events t ≡ (ok w, after)
    → AtRest after.latest
unfolding run_worker
run_worker-AtRest s events t after {w} h = elim (Result-cases (recover s t).0) [
  | inr (x, e) ↦ absurd (ground arith)
  | inl (b, e) ↦
      let left = (recover s t).1 in
      let (rest, _) = recover-AtRest s t left (ap (λ r. (r, left)) e) in
      serve-AtRest events left after {w = w} rest (ground arith)
]
