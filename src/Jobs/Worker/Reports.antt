-- ===== src/Jobs/Worker/Reports.antt =====
-- internal/jobs/worker.go: what an executor has reported and returned when `execute` keeps its result.
use mathlib.Core.Path.{subst}
use acme_mux.Prelude.{
  true, ◌≡◌, ◌⊎◌, refl, sym, ap, ◌∙◌, inl, inr, List, [], ◌∷◌, Option, none, some, arith,
  Option-cases,
}
use acme_mux.Prelude.Bytes.{Bytes}
use acme_mux.Jobs.Types.{Phase, ExecutorResult, valid_phase_transition}
use acme_mux.Jobs.Database.{Tables}
use acme_mux.Jobs.Worker.{
  Turn, Execution, returns, panics, reports, Progress, begun, report_phase, call_execute, accepted,
  is_refreshing,
}

-- What an executor reports, where every report is taken, and what it returns in the end.
pub reported : Execution → List Phase
reported (returns result) = []
reported panics = []
reported (reports next turn continue) = next ∷ reported (continue none)

pub returned : Execution → Option ExecutorResult
returned (returns result) = some result
returned panics = none
returned (reports next turn continue) = returned (continue none)

-- Steps from a phase to a last one.
abbrev InOrder : Phase → List Phase → Phase → Type 0
InOrder from [] last = from ≡ last
InOrder from (next ∷ phases) last =
    (valid_phase_transition from next ≡ true) × InOrder next phases last

-- A report is answered by the failure that it leaves.
report_answer :
    (id : Bytes) (next : Phase) (turn : Turn) (p : Progress) (t : Tables)
    → (report_phase id next turn p t).0 ≡ (report_phase id next turn p t).1.phase_failure
unfolding report_phase
report_answer id next turn p t = ground arith

-- A report that leaves no failure found none, and was a step to the phase that it leaves.
report_taken :
    (id : Bytes) (next : Phase) (turn : Turn) (p : Progress) (t : Tables)
    → (report_phase id next turn p t).1.phase_failure ≡ none
    → (p.phase_failure ≡ none)
      × (valid_phase_transition p.current_phase next ≡ true)
      × ((report_phase id next turn p t).1.current_phase ≡ next)
unfolding report_phase
report_taken id next turn p t h = ground arith

-- Where no report has failed, the executor took the way on which all its reports are taken.
pub call_execute-reported :
    (id : Bytes) (e : Execution) (p : Progress) (t : Tables)
    → (call_execute id e p t).1.phase_failure ≡ none
    → (p.phase_failure ≡ none)
      × ((call_execute id e p t).0 ≡ returned e)
      × InOrder p.current_phase (reported e) (call_execute id e p t).1.current_phase
unfolding call_execute reported returned
call_execute-reported id (returns result) p t h = (h, refl, refl)
call_execute-reported id panics p t h = (h, refl, refl)
call_execute-reported id (reports next turn continue) p t h =
    let answer = report_phase id next turn p t in
    let (clean, at_end, steps) = call_execute-reported id (continue answer.0) answer.1 answer.2 h in
    let (before, valid, now_in) = report_taken id next turn p t clean in
    let taken : answer.0 ≡ none = report_answer id next turn p t ∙ clean in
    let last = (call_execute id (continue answer.0) answer.1 answer.2).1.current_phase in
    (
      before,
      at_end ∙ ap (λ a. returned (continue a)) taken,
      (
        valid,
        subst (λ a. InOrder next (reported (continue a)) last) taken
            (subst (λ from. InOrder from (reported (continue answer.0)) last) now_in steps),
      ),
    )

ends_refreshing :
    (phases : List Phase)
    → InOrder Phase.refreshing_inventory phases Phase.refreshing_inventory
    → phases ≡ []
ends_refreshing [] h = refl
ends_refreshing (next ∷ phases) h = absurd (ground arith)

ends_executing :
    (phases : List Phase)
    → InOrder Phase.executing phases Phase.refreshing_inventory
    → phases ≡ Phase.refreshing_inventory ∷ []
ends_executing [] h = absurd (ground arith)
ends_executing (Phase.refreshing_inventory ∷ phases) (_, h) =
    ap (λ ps. Phase.refreshing_inventory ∷ ps) (ends_refreshing phases h)
ends_executing (Phase.blank ∷ phases) h = absurd (ground arith)
ends_executing (Phase.queued ∷ phases) h = absurd (ground arith)
ends_executing (Phase.revalidating ∷ phases) h = absurd (ground arith)
ends_executing (Phase.executing ∷ phases) h = absurd (ground arith)
ends_executing (Phase.unknown ∷ phases) h = absurd (ground arith)

-- The two ways from the first phase to the last.
abbrev pub AllPhases : List Phase → Type 0
AllPhases phases =
    (phases ≡ Phase.refreshing_inventory ∷ [])
    ⊎ (phases ≡ Phase.executing ∷ Phase.refreshing_inventory ∷ [])

reach_refreshing :
    (phases : List Phase)
    → InOrder Phase.revalidating phases Phase.refreshing_inventory
    → AllPhases phases
reach_refreshing [] h = absurd (ground arith)
reach_refreshing (Phase.refreshing_inventory ∷ phases) (_, h) =
    inl (ap (λ ps. Phase.refreshing_inventory ∷ ps) (ends_refreshing phases h))
reach_refreshing (Phase.executing ∷ phases) (_, h) =
    inr (ap (λ ps. Phase.executing ∷ ps) (ends_executing phases h))
reach_refreshing (Phase.blank ∷ phases) h = absurd (ground arith)
reach_refreshing (Phase.queued ∷ phases) h = absurd (ground arith)
reach_refreshing (Phase.revalidating ∷ phases) h = absurd (ground arith)
reach_refreshing (Phase.unknown ∷ phases) h = absurd (ground arith)

is_refreshing_iff : (p : Phase) → is_refreshing p ≡ true → p ≡ Phase.refreshing_inventory
is_refreshing_iff p h = ground arith

-- An executor whose result is kept has returned it behind reports of all phases.
pub accepted-Some :
    (e : Execution) (id : Bytes) (t : Tables) {good : ExecutorResult}
    → accepted (call_execute id e begun t).0 (call_execute id e begun t).1 ≡ some good
    → (returned e ≡ some good) × AllPhases (reported e)
accepted-Some e id t {good} h = elim (Option-cases (call_execute id e begun t).0) [
  | inl f ↦ absurd (ground arith)
  | inr (result, f) ↦
      let q = (call_execute id e begun t).1 in
      let failure : q.phase_failure ≡ none = ground arith in
      let phase : is_refreshing q.current_phase ≡ true = ground arith in
      let same : result ≡ good = ground arith in
      let (_, at_end, steps) = call_execute-reported id e begun t failure in
      (
        sym at_end ∙ f ∙ ap some same,
        reach_refreshing (reported e) (
            subst (InOrder Phase.revalidating (reported e))
              (is_refreshing_iff q.current_phase phase) steps),
      )
]
