-- ===== src/Scheduler/Store/Dates.antt =====
-- internal/scheduler/store.go: the local dates of the claims that are completed, over any sequence of
-- calls of the store.
use mathlib.Core.Path.{subst}
use acme_mux.Prelude.{
  ℕ, Bool, true, false, not, ◌≡◌, sym, ap, ◌∙◌, inl, inr, List, [], ◌∷◌, Option, none, some, Result,
  ok, err, Result-cases,
}
use acme_mux.Prelude.Bytes.{Bytes}
use acme_mux.Prelude.Transaction.Laws.{
  transact-eq-ok, refuse_if-eq-ok, Atomic, refuse_if-Atomic, guarded-Atomic,
}
use acme_mux.Scheduler.Types.{
  Instant, Location, Claim, Update, Fault, invalid, failure, canonical_instant,
}
use acme_mux.Scheduler.Calculate.{occurrence_local_date}
use acme_mux.Scheduler.Store.{
  Tables, transact, save, claim_due, complete_body, complete_claim, release_claim, recover,
}
use acme_mux.Scheduler.Store.Effects.{complete_body-effect}
use acme_mux.Scheduler.Store.Fresh.{
  date_of, Behind, is_claimed, IsFresh, Keeps, completes-Behind, closed-IsFresh, claim_due-Keeps,
  release_claim-Keeps, save-Keeps, recover-Keeps,
}

-- The calls that change the store.
pub data StoreCall : Type 0 where
  save_call : List Bool → Update → Instant → StoreCall
  claim_call : List Bool → Instant → StoreCall
  complete_call : List Bool → Claim → Instant → StoreCall
  release_call : List Bool → Claim → Bytes → Bool → Instant → StoreCall
  recover_call : List Bool → Instant → Bool → StoreCall

-- Each date comes later than the one before it.
abbrev pub Ascends : Option ℕ → List ℕ → Type 0
Ascends last [] = Unit
Ascends last (date ∷ dates) = Behind last date × Ascends (some date) dates

abbrev pub place_date : Claim → Option Location → Option ℕ
place_date claim none = none
place_date claim (some location) = some (occurrence_local_date claim.occurrence location)

module _ (load_location : Bytes → Option Location) where
  -- The date, in the place of the row, of the occurrence of a claim.
  abbrev pub claim_date : Claim → Tables → Option ℕ
  claim_date claim none = none
  claim_date claim (some row) = place_date claim (load_location row.time_zone)

  abbrev pub noted : Result Fault (Unit {0}) → Option ℕ → List ℕ → List ℕ
  noted (ok w) (some date) dates = date ∷ dates
  noted (ok w) none dates = dates
  noted (err e) date dates = dates

  -- The dates of the claims that calls complete without an error.
  abbrev pub trigger_log : List StoreCall → Tables → List ℕ
  trigger_log [] t = []
  trigger_log (save_call script update now ∷ cs) t =
      trigger_log cs (save load_location script update now t).1
  trigger_log (claim_call script now ∷ cs) t =
      trigger_log cs (claim_due load_location script now t).1
  trigger_log (complete_call script claim now ∷ cs) t =
      let (r, u) = complete_claim load_location script claim now t in
      noted r (claim_date claim t) (trigger_log cs u)
  trigger_log (release_call script claim reason is_deferred now ∷ cs) t =
      trigger_log cs (release_claim script claim reason is_deferred now t).1
  trigger_log (recover_call script now interrupted ∷ cs) t =
      trigger_log cs (recover load_location script now interrupted t).1

  -- A completion that succeeds writes a later date, that of its claim.
  complete_claim_writes :
      (script : List Bool) (claim : Claim) (now : Instant) (t u : Tables) (w : Unit {0})
      → complete_claim load_location script claim now t ≡ (ok w, u)
      → IsFresh load_location t
      → (date : ℕ) × (claim_date claim t ≡ some date)
        × Behind (date_of t) date
        × IsFresh load_location u
        × (date_of u ≡ some date)
  unfolding complete_claim
  complete_claim_writes script claim now t u w h fresh =
      let body = complete_body load_location claim now in
      let (_, h₁) = refuse_if-eq-ok (not (canonical_instant now true)) failure _ t h in
      let (_, h₂) =
        refuse_if-eq-ok (not (canonical_instant claim.occurrence true)) invalid
          (transact failure script body) t h₁ in
      let (s, v, at_s, ran, at_u) = transact-eq-ok failure script body t u h₂ in
      let (row, location, at_row, place, holds, left) =
        complete_body-effect load_location claim now s ran in
      let at_t : t ≡ some row = sym at_s ∙ at_row in
      let date = occurrence_local_date claim.occurrence location in
      (
        date,
        ap (claim_date claim) at_t ∙ ap (place_date claim) place,
        subst (λ t. Behind (date_of t) date) (sym at_t)
            (completes-Behind load_location row.trigger row.time_zone row.last_trigger_date
              row.claimed_occurrence claim location (subst (IsFresh load_location) at_t fresh) place
              holds),
        subst (IsFresh load_location) (sym left ∙ at_u) tt,
        ap date_of (sym at_u ∙ left),
      )

  complete_claim-Atomic :
      (script : List Bool) (claim : Claim) (now : Instant)
      → Atomic (complete_claim load_location script claim now)
  unfolding complete_claim
  complete_claim-Atomic script claim now =
      refuse_if-Atomic (not (canonical_instant now true)) failure _ (
        guarded-Atomic (not (canonical_instant claim.occurrence true)) invalid failure script
          (complete_body load_location claim now))

  -- The calls behind one that keeps the date and the claim.
  Ascends-Keeps :
      (t u : Tables) (dates : List ℕ) (keeps : Keeps load_location t u)
      (fresh : IsFresh load_location t)
      → Ascends (date_of u) dates
      → Ascends (date_of t) dates
  Ascends-Keeps t u dates keeps fresh h = subst (λ l. Ascends l dates) (keeps fresh).1 h

  log-Ascends :
      (cs : List StoreCall) (t : Tables)
      → IsFresh load_location t
      → Ascends (date_of t) (trigger_log cs t)
  log-Ascends [] t fresh = tt
  log-Ascends (save_call script update now ∷ cs) t fresh =
      let keeps = save-Keeps load_location script update now t in
      Ascends-Keeps t _ _ keeps fresh (log-Ascends cs _ (keeps fresh).0)
  log-Ascends (claim_call script now ∷ cs) t fresh =
      let keeps = claim_due-Keeps load_location script now t in
      Ascends-Keeps t _ _ keeps fresh (log-Ascends cs _ (keeps fresh).0)
  log-Ascends (release_call script claim reason is_deferred now ∷ cs) t fresh =
      let keeps = release_claim-Keeps load_location script claim reason is_deferred now t in
      Ascends-Keeps t _ _ keeps fresh (log-Ascends cs _ (keeps fresh).0)
  log-Ascends (recover_call script now interrupted ∷ cs) t fresh =
      let keeps = recover-Keeps load_location script now interrupted t in
      Ascends-Keeps t _ _ keeps fresh (log-Ascends cs _ (keeps fresh).0)
  log-Ascends (complete_call script claim now ∷ cs) t fresh =
      let run = complete_claim load_location script claim now t in
      elim (Result-cases run.0) [
        | inl (w, h) ↦
            let (date, at_date, behind, fresh_left, left) =
              complete_claim_writes script claim now t run.1 w (ap (λ r. (r, run.1)) h) fresh in
            let rest = log-Ascends cs run.1 fresh_left in
            subst (λ r. Ascends (date_of t) (noted r (claim_date claim t) (trigger_log cs run.1)))
              (sym h)
              (subst (λ d. Ascends (date_of t) (noted (ok w) d (trigger_log cs run.1)))
                (sym at_date) (behind, subst (λ l. Ascends l (trigger_log cs run.1)) left rest))
        | inr (e, h) ↦
            let same = complete_claim-Atomic script claim now t e run.1 (ap (λ r. (r, run.1)) h) in
            let rest = log-Ascends cs run.1 (subst (IsFresh load_location) (sym same) fresh) in
            subst (λ r. Ascends (date_of t) (noted r (claim_date claim t) (trigger_log cs run.1)))
              (sym h) (subst (λ u. Ascends (date_of u) (trigger_log cs run.1)) same rest)
      ]

  -- However the calls of the store follow each other, and whichever of their statements fail, from a
  -- table where no claim is open the local dates of the claims that are completed without an error
  -- strictly ascend, and all come later than the date of the last trigger that the table had: no
  -- local date is triggered twice.
  pub trigger_log-Ascends :
      (cs : List StoreCall) (t : Tables)
      → is_claimed t ≡ false
      → Ascends (date_of t) (trigger_log cs t)
  trigger_log-Ascends cs t closed = log-Ascends cs t (closed-IsFresh load_location t closed)
