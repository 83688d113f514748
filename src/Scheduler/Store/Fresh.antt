-- ===== src/Scheduler/Store/Fresh.antt =====
-- internal/scheduler/store.go: which calls keep the date of the last trigger, and what an open claim
-- is for.
use mathlib.Core.Path.{subst}
use acme_mux.Prelude.{
  ℕ, ◌<◌, Bool, true, false, not, ◌&&◌, ◌||◌, ◌≡◌, ◌⊎◌, refl, sym, ap, ◌∙◌, inl, inr, List, Option,
  none, some, arith, Result, ok, err,
}
use acme_mux.Prelude.Bytes.{Bytes}
use acme_mux.Prelude.Transaction.{Session, statement}
use acme_mux.Prelude.Transaction.Laws.{
  statement-eq-ok, tx_bind-eq-ok, transact_keeps, refuse_if_keeps,
}
use acme_mux.Scheduler.Types.{
  Instant, Location, Schedule, Claim, Update, Fault, invalid, failure, canonical_instant,
  validate_update,
}
use acme_mux.Scheduler.Row.{
  Trigger, idle, claiming, other, TimeText, is_claiming, format_instant, time_eq, valid_reason,
}
use acme_mux.Scheduler.Calculate.{occurrence_local_date}
use acme_mux.Scheduler.Store.{
  Tables, transact, was_triggered, released, holds_claim, saved_row, save_body, planned, save,
  load_schedule, claim_body, claim_due, release_claim, recover_schedule, recover_body, recover,
  execute,
}
use acme_mux.Scheduler.Store.Loaded.{update_one-eq-ok, load_schedule-eq-ok}
use acme_mux.Scheduler.Store.Effects.{claim_body-Claims}

-- The date of the last trigger.
abbrev pub date_of : Tables → Option ℕ
date_of none = none
date_of (some row) = row.last_trigger_date

-- A date comes later than the last one.
abbrev pub Behind : Option ℕ → ℕ → Type 0
Behind none date = Unit
Behind (some last) date = last < date

pub was_triggered-Behind :
    (last : Option ℕ) (date : ℕ) → was_triggered last date ≡ false → Behind last date
was_triggered-Behind none date h = tt
was_triggered-Behind (some last) date h = ground arith

-- Whether a claim is open.
abbrev pub is_claimed : Tables → Bool
is_claimed none = false
is_claimed (some row) = is_claiming row.trigger

module _ (load_location : Bytes → Option Location) where
  -- An open claim is one for a date behind the last.
  abbrev pub FreshAs : Trigger → Bytes → Option ℕ → TimeText → Type 0
  FreshAs idle zone last at = Unit
  FreshAs other zone last at = Unit
  FreshAs claiming zone last at =
      (location : Location) × (occurrence : Instant) × (load_location zone ≡ some location)
      × (at ≡ format_instant occurrence)
      × Behind last (occurrence_local_date occurrence location)

  abbrev pub IsFresh : Tables → Type 0
  IsFresh none = Unit
  IsFresh (some row) =
      FreshAs row.trigger row.time_zone row.last_trigger_date row.claimed_occurrence

  unclaimed-IsFresh :
      (trigger : Trigger) (zone : Bytes) (last : Option ℕ) (at : TimeText)
      → is_claiming trigger ≡ false
      → FreshAs trigger zone last at
  unclaimed-IsFresh idle zone last at h = tt
  unclaimed-IsFresh other zone last at h = tt
  unclaimed-IsFresh claiming zone last at h = absurd (ground arith)

  pub closed-IsFresh : (t : Tables) → is_claimed t ≡ false → IsFresh t
  closed-IsFresh none h = tt
  closed-IsFresh (some row) h =
      unclaimed-IsFresh row.trigger row.time_zone row.last_trigger_date row.claimed_occurrence h

  -- No new date, and no claim for an old one.
  abbrev pub Keeps : Tables → Tables → Type 0
  Keeps t u = IsFresh t → IsFresh u × (date_of u ≡ date_of t)

  same-Keeps : (t : Tables) → Keeps t t
  same-Keeps t fresh = (fresh, refl)

  pub completes-Behind :
      (trigger : Trigger) (zone : Bytes) (last : Option ℕ) (at : TimeText) (claim : Claim)
      (location : Location)
      → FreshAs trigger zone last at
      → load_location zone ≡ some location
      → (is_claiming trigger && time_eq at (format_instant claim.occurrence)) ≡ true
      → Behind last (occurrence_local_date claim.occurrence location)
  unfolding time_eq
  completes-Behind idle zone last at claim location fresh place h = absurd (ground arith)
  completes-Behind other zone last at claim location fresh place h = absurd (ground arith)
  completes-Behind claiming zone last at claim location
        (found, occurrence, at_found, written, behind) place h =
      let one : found ≡ location = ground arith in
      let same : time_eq (format_instant occurrence) (format_instant claim.occurrence) ≡ true =
        subst (λ a. time_eq a (format_instant claim.occurrence) ≡ true) written h in
      let nanos : occurrence.nanos ≡ claim.occurrence.nanos = ground arith in
      subst (λ l. Behind last (l.clock claim.occurrence.nanos).date) one
        (subst (λ n. Behind last (found.clock n).date) nanos behind)

  claim_body-Keeps :
      (now : Instant) (s : Session Tables) (out : Option Claim) (u : Session Tables)
      → claim_body load_location now s ≡ ok (out, u)
      → Keeps s.tables u.tables
  claim_body-Keeps now s none u h fresh =
      let (row, at_row, (location, next, plans, left)) = claim_body-Claims load_location now s h in
      let fresh_row : IsFresh (some row) = subst IsFresh at_row fresh in
      (subst IsFresh (sym left) fresh_row, ap date_of left ∙ sym (ap date_of at_row))
  claim_body-Keeps now s (some claim) u h fresh =
      let (row, at_row, (location, next, plans, _, _, _, _, is_new, left)) =
        claim_body-Claims load_location now s h in
      let behind =
        was_triggered-Behind row.last_trigger_date (occurrence_local_date claim.occurrence location)
          is_new in
      (
        subst IsFresh (sym left) (location, claim.occurrence, plans.0, refl, behind),
        ap date_of left ∙ sym (ap date_of at_row),
      )

  pub claim_due-Keeps :
      (script : List Bool) (now : Instant) (t : Tables)
      → Keeps t (claim_due load_location script now t).1
  unfolding claim_due
  claim_due-Keeps script now t =
      refuse_if_keeps Keeps (not (canonical_instant now true)) failure _ t (same-Keeps t) (
        transact_keeps Keeps failure script (claim_body load_location now) t (same-Keeps t)
          (claim_body-Keeps now))

  pub release_claim-Keeps :
      (script : List Bool) (claim : Claim) (reason : Bytes) (is_deferred : Bool) (now : Instant)
      (t : Tables)
      → Keeps t (release_claim script claim reason is_deferred now t).1
  unfolding release_claim
  release_claim-Keeps script claim reason is_deferred now t =
      refuse_if_keeps Keeps (not (canonical_instant now true)) failure _ t (same-Keeps t) (
        refuse_if_keeps Keeps
          (not (canonical_instant claim.occurrence true) || not (valid_reason reason)) invalid _ t
          (same-Keeps t)
          (transact_keeps Keeps failure script _ t (same-Keeps t) λ s a u h fresh.
            let (row, at_row, _, left) =
              update_one-eq-ok (holds_claim claim) (released claim reason is_deferred now) s h in
            (subst IsFresh (sym left) tt, ap date_of left ∙ sym (ap date_of at_row))))

  saved-IsFresh :
      (update : Update) (next : TimeText) (reason : Bytes) (now : Instant) (t : Tables)
      → IsFresh (some (saved_row update next reason now t))
        × ((saved_row update next reason now t).last_trigger_date ≡ date_of t)
  saved-IsFresh update next reason now none = (tt, refl)
  saved-IsFresh update next reason now (some row) = (tt, refl)

  save_body-Keeps :
      (update : Update) (next : TimeText) (reason : Bytes) (now : Instant) (s : Session Tables)
      (out : Schedule) (u : Session Tables)
      → save_body load_location update next reason now s ≡ ok (out, u)
      → Keeps s.tables u.tables
  unfolding save_body
  save_body-Keeps update next reason now s out u h fresh =
      let put = λ (t : Tables). some (saved_row update next reason now t) in
      let (_, v, e, h₁) = tx_bind-eq-ok (execute put) _ s h in
      let written = (statement-eq-ok failure (λ t. (tt, put t)) s e).1 in
      let (same, _) = load_schedule-eq-ok load_location now v h₁ in
      let (is_fresh, date) = saved-IsFresh update next reason now s.tables in
      (subst IsFresh (sym (same ∙ written)) is_fresh, ap date_of (same ∙ written) ∙ date)

  option-Keeps :
      {A B : Type 0} (m : Option A) (e : Fault) (t : Tables) (call : A → Result Fault B × Tables)
      → ((a : A) → Keeps t (call a).1)
      → Keeps t (elim m as (λ _. Result Fault B × Tables) [ none ↦ (err e, t) | some a ↦ call a ]).1
  option-Keeps none e t call keeps = same-Keeps t
  option-Keeps (some a) e t call keeps = keeps a

  pub save-Keeps :
      (script : List Bool) (update : Update) (now : Instant) (t : Tables)
      → Keeps t (save load_location script update now t).1
  unfolding save
  save-Keeps script update now t =
      let body = λ (x : TimeText × Bytes). save_body load_location update x.0 x.1 now in
      let written = λ (x : TimeText × Bytes). transact failure script (body x) t in
      refuse_if_keeps Keeps (not (canonical_instant now true)) failure _ t (same-Keeps t) (
        option-Keeps (validate_update load_location update) invalid t
          (λ location. elim (planned update location now) as (λ _. Result Fault Schedule × Tables) [
            | none ↦ (err invalid, t)
            | some x ↦ written x
          ])
          λ location. option-Keeps (planned update location now) invalid t written λ x.
            transact_keeps Keeps failure script (body x) t (same-Keeps t)
              (save_body-Keeps update x.0 x.1 now))

  recover_schedule-Keeps :
      (x : Schedule) (now : Instant) (interrupted : Bool) (s : Session Tables) (w : Unit {0})
      (u : Session Tables)
      → recover_schedule load_location x now interrupted s ≡ ok (w, u)
      → Keeps s.tables u.tables
  unfolding recover_schedule statement
  recover_schedule-Keeps x now interrupted s w u h fresh =
      let date : date_of u.tables ≡ date_of s.tables = ground arith in
      let left : (u.tables ≡ s.tables) ⊎ (is_claimed u.tables ≡ false) = ground arith in
      elim left [
        | inl same ↦ (subst IsFresh (sym same) fresh, date)
        | inr closed ↦ (closed-IsFresh u.tables closed, date)
      ]

  pub recover-Keeps :
      (script : List Bool) (now : Instant) (interrupted : Bool) (t : Tables)
      → Keeps t (recover load_location script now interrupted t).1
  unfolding recover recover_body
  recover-Keeps script now interrupted t =
      refuse_if_keeps Keeps (not (canonical_instant now true)) failure _ t (same-Keeps t) (
        transact_keeps Keeps failure script (recover_body load_location now interrupted) t
          (same-Keeps t)
          λ s w u h.
            let (x, v, e, rest) = tx_bind-eq-ok (load_schedule load_location now) _ s h in
            let (same, _) = load_schedule-eq-ok load_location now s e in
            subst (λ t. Keeps t u.tables) same
              (recover_schedule-Keeps x now interrupted v w u rest))
