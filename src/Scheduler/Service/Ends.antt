-- ===== src/Scheduler/Service/Ends.antt =====
-- internal/scheduler: how a claim ends.
use mathlib.Core.Path.{subst}
use acme_mux.Prelude.{
  Bool, true, false, not, ◌||◌, ◌≡◌, refl, sym, ap, ◌∙◌, inl, inr, List, Option, none, some, arith,
  ◌==◌, Result, ok, err, Result-cases, Bool-cases,
}
use acme_mux.Prelude.Bytes.{Bytes, codes}
use acme_mux.Prelude.Transaction.{Session, statement}
use acme_mux.Prelude.Transaction.Laws.{
  tx_bind-eq-ok, transact-eq-ok, transact-eq-err, refuse_if-eq-ok,
}
use acme_mux.Scheduler.Types.{
  Instant, Location, Schedule, Claim, Fault, nothing_due, invalid, failure, changed,
  canonical_instant,
}
use acme_mux.Scheduler.Row.{read_table, Row, is_claiming, valid_reason}
use acme_mux.Scheduler.Store.{
  Tables, transact, holds_claim, released, update_one, load_schedule, complete_body, complete_claim,
  release_claim, recover_schedule, recover_body, recover, claim_body, claim_due,
}
use acme_mux.Scheduler.Store.Loaded.{update_one-eq-ok, load_schedule-eq-ok, read_row-Shows}
use acme_mux.Scheduler.Store.Fresh.{is_claimed}
use acme_mux.Scheduler.Store.Effects.{claim_body-Claims, complete_body-effect}
use acme_mux.Scheduler.Service.{
  Outcome, accepted, active, busy, recovery, workspace, changed_workspace, configuration,
  unavailable, end_claim, with_claim, evaluate,
}

module _ (load_location : Bytes → Option Location) where
  complete_claim_ends :
      (script : List Bool) (claim : Claim) (now : Instant) (t u : Tables) {w : Unit {0}}
      → complete_claim load_location script claim now t ≡ (ok w, u)
      → is_claimed u ≡ false
  unfolding complete_claim
  complete_claim_ends script claim now t u h =
      let body = complete_body load_location claim now in
      let (_, h₁) = refuse_if-eq-ok (not (canonical_instant now true)) failure _ t h in
      let (_, h₂) =
        refuse_if-eq-ok (not (canonical_instant claim.occurrence true)) invalid
          (transact failure script body) t h₁ in
      let (s, v, at_s, ran, at_u) = transact-eq-ok failure script body t u h₂ in
      let (row, location, at_row, _, _, left) =
        complete_body-effect load_location claim now s ran in
      ap is_claimed (sym at_u ∙ left)

  release_claim_ends :
      (script : List Bool) (claim : Claim) (reason : Bytes) (is_deferred : Bool) (now : Instant)
      (t u : Tables) {w : Unit {0}}
      → release_claim script claim reason is_deferred now t ≡ (ok w, u)
      → is_claimed u ≡ false
  unfolding release_claim
  release_claim_ends script claim reason is_deferred now t u h =
      let change = released claim reason is_deferred now in
      let (_, h₁) = refuse_if-eq-ok (not (canonical_instant now true)) failure _ t h in
      let (_, h₂) =
        refuse_if-eq-ok (not (canonical_instant claim.occurrence true) || not (valid_reason reason))
          invalid (transact failure script (update_one (holds_claim claim) change)) t h₁ in
      let (s, v, at_s, ran, at_u) =
        transact-eq-ok failure script (update_one (holds_claim claim) change) t u h₂ in
      let (row, at_row, _, left) = update_one-eq-ok (holds_claim claim) change s ran in
      ap is_claimed (sym at_u ∙ left)

  end_claim_ends :
      (script : List Bool) (claim : Claim) (outcome : Outcome) (now : Instant) (t u : Tables)
      {w : Unit {0}}
      → end_claim load_location script claim outcome now t ≡ (ok w, u)
      → is_claimed u ≡ false
  unfolding end_claim
  end_claim_ends script claim accepted now t u h = complete_claim_ends script claim now t u h
  end_claim_ends script claim active now t u h =
      release_claim_ends script claim (codes "operation_active") true now t u h
  end_claim_ends script claim busy now t u h =
      release_claim_ends script claim (codes "workspace_busy") true now t u h
  end_claim_ends script claim recovery now t u h =
      release_claim_ends script claim (codes "recovery_required") false now t u h
  end_claim_ends script claim workspace now t u h =
      release_claim_ends script claim (codes "workspace_invalid") false now t u h
  end_claim_ends script claim changed_workspace now t u h =
      release_claim_ends script claim (codes "workspace_invalid") false now t u h
  end_claim_ends script claim configuration now t u h =
      release_claim_ends script claim (codes "configuration_invalid") false now t u h
  end_claim_ends script claim unavailable now t u h =
      release_claim_ends script claim (codes "operation_unavailable") false now t u h

  claim_due_refused :
      (script : List Bool) (now : Instant) (t u : Tables) {e : Fault}
      → claim_due load_location script now t ≡ (err e, u)
      → is_claimed u ≡ is_claimed t
  unfolding claim_due
  claim_due_refused script now t u {e} h = elim (Bool-cases (canonical_instant now true)) [
    | inr bad ↦ ground arith
    | inl good ↦
        let run = transact failure script (claim_body load_location now) t in
        let left : run.1 ≡ u = ground arith in
        elim (Result-cases run.0) [
          | inr (x, p) ↦
              let same =
                transact-eq-err failure script (claim_body load_location now) t run.1
                  (ap (λ r. (r, run.1)) p) in
              ap is_claimed (sym left ∙ same)
          | inl (none, p) ↦
              let (s, v, at_s, ran, at_v) =
                transact-eq-ok failure script (claim_body load_location now) t run.1
                  (ap (λ r. (r, run.1)) p) in
              let (row, at_row, (location, next, plans, moved)) =
                claim_body-Claims load_location now s ran in
              ap is_claimed (sym left ∙ sym at_v ∙ moved) ∙ ap is_claimed (sym at_row ∙ at_s)
          | inl (some claim, p) ↦ absurd (ground arith)
        ]
  ]

  with_claim_ends :
      (script : List Bool) (outcome : Outcome) (later : Instant) (r : Result Fault Claim)
      (t v u : Tables) {w : Unit {0}}
      → ((e : Fault) → r ≡ err e → is_claimed v ≡ is_claimed t)
      → with_claim load_location script outcome later r v ≡ (ok w, u)
      → is_claimed t ≡ false
      → is_claimed u ≡ false
  with_claim_ends script outcome later (ok claim) t v u refused h rest =
      end_claim_ends script claim outcome later v u h
  with_claim_ends script outcome later (err nothing_due) t v u refused h rest =
      let same : v ≡ u = ground arith in ap is_claimed (sym same) ∙ refused nothing_due refl ∙ rest
  with_claim_ends script outcome later (err invalid) t v u refused h rest = absurd (ground arith)
  with_claim_ends script outcome later (err changed) t v u refused h rest = absurd (ground arith)
  with_claim_ends script outcome later (err failure) t v u refused h rest = absurd (ground arith)

  -- An evaluation that succeeds leaves no claim open where none was, whatever the enqueue answers.
  pub evaluate_ends :
      (claim_script end_script : List Bool) (now later : Instant) (outcome : Outcome) (t u : Tables)
      {w : Unit {0}}
      → evaluate load_location claim_script end_script now later outcome t ≡ (ok w, u)
      → is_claimed t ≡ false
      → is_claimed u ≡ false
  unfolding evaluate
  evaluate_ends claim_script end_script now later outcome t u h rest =
      let run = claim_due load_location claim_script now t in
      with_claim_ends end_script outcome later run.0 t run.1 u
        (λ e p. claim_due_refused claim_script now t run.1 (ap (λ r. (r, run.1)) p)) h rest

  recover_schedule_ends :
      (x : Schedule) (now : Instant) (interrupted : Bool) (s : Session Tables) (w : Unit {0})
      (u : Session Tables) (row : Row)
      → recover_schedule load_location x now interrupted s ≡ ok (w, u)
      → s.tables ≡ some row
      → x.configured ≡ true
      → x.enabled ≡ (row.enabled == 1)
      → x.claiming ≡ is_claiming row.trigger
      → (row.enabled == 1) ≡ true
      → is_claimed u.tables ≡ false
  unfolding recover_schedule statement
  recover_schedule_ends x now interrupted s w u row h at_row configured on open_one enabled =
      ground arith

  -- Behind a successful recovery of an enabled schedule no claim is open.
  pub recover_ends :
      (script : List Bool) (now : Instant) (interrupted : Bool) (row : Row) (u : Tables)
      {w : Unit {0}}
      → recover load_location script now interrupted (some row) ≡ (ok w, u)
      → (row.enabled == 1) ≡ true
      → is_claimed u ≡ false
  unfolding recover recover_body read_table
  recover_ends script now interrupted row u {w} h enabled =
      let body = recover_body load_location now interrupted in
      let (_, h₁) = refuse_if-eq-ok (not (canonical_instant now true)) failure _ (some row) h in
      let (s, v, at_s, ran, at_u) = transact-eq-ok failure script body (some row) u h₁ in
      let (x, s', e, rest) = tx_bind-eq-ok (load_schedule load_location now) _ s ran in
      let (same, read) = load_schedule-eq-ok load_location now s e in
      let (configured, on, _, _, _, open_one, _) =
        read_row-Shows load_location row now {s = x}
          (subst (λ t. read_table load_location t now ≡ ok x) at_s read) in
      ap is_claimed (sym at_u)
      ∙ recover_schedule_ends x now interrupted s' w v row rest (same ∙ at_s) configured on open_one
          enabled
