-- ===== src/Scheduler/Store.antt =====
-- internal/scheduler/store.go, the operations, each a transaction over the table.
pub mod Loaded
pub mod Effects
pub mod Fresh
pub mod Dates
pub mod Claimed
use acme_mux.Prelude.{
  ℕ, suc, Bool, true, false, not, ◌&&◌, ◌||◌, List, [], ◌∷◌, Option, none, some, ltb, leb, within,
  ◌==◌, if◌then◌else◌, length, Result, ok, err,
}
use acme_mux.Prelude.Bytes.{Bytes, codes, equal}
use acme_mux.Prelude.Transaction
unfoldable pub use acme_mux.Prelude.Transaction.{
  ◌>>=◌, ◌>>◌, pure, throw, throw_if, statement, transact, refuse_if,
}
use acme_mux.Scheduler.Types.{
  Instant, zero_time, Location, Schedule, Update, Claim, State, disabled, scheduled, due, deferred,
  blocked, Fault, invalid, nothing_due, changed, failure, canonical_instant, validate_update,
}
use acme_mux.Scheduler.Row.{
  TimeText, blank, Row, Trigger, idle, claiming, format_instant, bool_integer, is_claiming, is_idle,
  after, valid_reason, time_eq, read_row, read_table,
}
use acme_mux.Scheduler.Calculate.{next_occurrence, occurrence_local_date}

abbrev pub Tables : Type 0
Tables = Option Row

abbrev pub Tx : Type 0 → Type 0
Tx A = Transaction.Transaction Tables Fault A

abbrev pub Call : Type 0 → Type 0
Call A = Transaction.Call Tables Fault A

abbrev pub query : {A : Type 0} → (Tables → A) → Tx A
query f = statement failure (λ t. (f t, t))

abbrev pub execute : (Tables → Tables) → Tx (Unit {0})
execute f = statement failure (λ t. (tt, f t))

abbrev pub update_row : (Row → Bool) → (Row → Row) → Tables → Bool × Tables
update_row test change none = (false, none)
update_row test change (some row) =
    if test row then (true, some (change row)) else (false, some row)

-- `UPDATE automatic_schedule SET … WHERE test`, with `requireOne`.
abbrev pub update_one : (Row → Bool) → (Row → Row) → Tx (Unit {0})
update_one test change = do
  found ← statement failure (update_row test change)
  throw_if (not found) changed

-- `UPDATE automatic_schedule SET …`.
abbrev pub change_row : (Row → Row) → Tables → Tables
change_row change none = none
change_row change (some row) = some (change row)

abbrev pub lift : {A : Type 0} → Result Fault A → Tx A
lift (ok a) = pure a
lift (err e) = throw e

-- `store.ready`.
abbrev pub when_ready : {A : Type 0} → Instant → Call A → Call A
when_ready now call = refuse_if (not (canonical_instant now true)) failure call

abbrev pub saved_row : Update → TimeText → Bytes → Instant → Option Row → Row
saved_row update next reason now none = record {
  enabled = bool_integer update.enabled;
  time_zone = update.time_zone;
  local_minute = update.local_minute;
  next_evaluation = next;
  last_triggered = blank;
  last_trigger_date = none;
  trigger = idle;
  claimed_occurrence = blank;
  reason_code = reason;
  updated_at = format_instant now;
}
saved_row update next reason now (some row) = record row {
  enabled = bool_integer update.enabled;
  time_zone = update.time_zone;
  local_minute = update.local_minute;
  next_evaluation = next;
  trigger = idle;
  claimed_occurrence = blank;
  reason_code = reason;
  updated_at = format_instant now;
}

-- The next evaluation that `Save` writes, and its reason.
unfoldable pub planned : Update → Location → Instant → Option (TimeText × Bytes)
planned update location now =
    if update.enabled
    then elim (next_occurrence now location update.local_minute) [
      | none ↦ none
      | some t ↦ some (format_instant t, codes "schedule_saved")
    ]
    else some (blank, codes "schedule_disabled")

-- Whether the occurrence's date is not behind the date of the last trigger.
abbrev pub was_triggered : Option ℕ → ℕ → Bool
was_triggered none date = false
was_triggered (some last) date = leb date last

abbrev pub coalesced : Instant → Instant → Row → Row
coalesced next now row = record row {
  next_evaluation = format_instant next;
  reason_code = codes "clock_rollback_coalesced";
  updated_at = format_instant now;
}

abbrev pub claimed_row : Instant → Instant → Instant → Row → Row
claimed_row next occurrence now row = record row {
  next_evaluation = format_instant next;
  trigger = claiming;
  claimed_occurrence = format_instant occurrence;
  reason_code = codes "trigger_claimed";
  updated_at = format_instant now;
}

abbrev pub claim_at : Schedule → Instant → Location → Instant → Tx (Option Claim)
claim_at s now location next =
    if was_triggered s.last_trigger_date (occurrence_local_date s.next_evaluation location)
    then (execute (change_row (coalesced next now)) >> pure none)
    else (update_one
          (λ row.
            row.enabled == 1
            && is_idle row.trigger
            && time_eq row.next_evaluation (format_instant s.next_evaluation))
          (claimed_row next s.next_evaluation now)
        >> pure (some (record { occurrence = s.next_evaluation })))

abbrev pub claimed : Result Fault (Option Claim) → Result Fault Claim
claimed (err e) = err e
claimed (ok none) = err nothing_due
claimed (ok (some c)) = ok c

abbrev pub holds_claim : Claim → Row → Bool
holds_claim claim row =
    is_claiming row.trigger && time_eq row.claimed_occurrence (format_instant claim.occurrence)

abbrev pub completed : Instant → ℕ → Row → Row
completed now date row = record row {
  last_triggered = format_instant now;
  last_trigger_date = some date;
  trigger = idle;
  claimed_occurrence = blank;
  reason_code = codes "triggered";
  updated_at = format_instant now;
}

abbrev pub zone_of : Option Row → Option Bytes
zone_of none = none
zone_of (some row) = some row.time_zone

abbrev pub released : Claim → Bytes → Bool → Instant → Row → Row
released claim reason is_deferred now row = record row {
  next_evaluation = if is_deferred then format_instant claim.occurrence else row.next_evaluation;
  trigger = idle;
  claimed_occurrence = blank;
  reason_code = reason;
  updated_at = format_instant now;
}

-- `Store.ReleaseClaim`.
unfoldable pub release_claim : List Bool → Claim → Bytes → Bool → Instant → Call (Unit {0})
release_claim script claim reason is_deferred now = when_ready now (
    refuse_if (not (canonical_instant claim.occurrence true) || not (valid_reason reason)) invalid (
      transact failure script
        (update_one (holds_claim claim) (released claim reason is_deferred now))))

abbrev pub recovered : Instant → Bytes → Instant → Row → Row
recovered next reason now row = record row {
  next_evaluation = format_instant next;
  trigger = idle;
  claimed_occurrence = blank;
  reason_code = reason;
  updated_at = format_instant now;
}

abbrev pub recovery_reason : Bool → Bytes
recovery_reason true = codes "operation_interrupted"
recovery_reason false = codes "trigger_recovered"

module _ (load_location : Bytes → Option Location) where
  unfoldable pub load_schedule : Instant → Tx Schedule
  load_schedule now = do table ← query (λ t. t); lift (read_table load_location table now)

  -- `Store.Get`.
  unfoldable pub get : List Bool → Instant → Call Schedule
  get script now = when_ready now (transact failure script (load_schedule now))

  unfoldable pub save_body : Update → TimeText → Bytes → Instant → Tx Schedule
  save_body update next reason now = do
    execute (λ t. some (saved_row update next reason now t))
    load_schedule now

  -- `Store.Save`.
  unfoldable pub save : List Bool → Update → Instant → Call Schedule
  save script update now = when_ready now λ t. elim (validate_update load_location update) [
    | none ↦ (err invalid, t)
    | some location ↦ elim (planned update location now) [
      | none ↦ (err invalid, t)
      | some (next, reason) ↦ transact failure script (save_body update next reason now) t
    ]
  ]

  -- No claim is the early return behind a commit.
  unfoldable pub claim_schedule : Schedule → Instant → Tx (Option Claim)
  claim_schedule s now =
      if not s.configured || not s.enabled || s.claiming || after s.next_evaluation now
      then throw nothing_due
      else elim (load_location s.time_zone) [
        | none ↦ throw invalid
        | some location ↦ elim (next_occurrence now location s.local_minute) [
          | none ↦ throw failure
          | some next ↦ claim_at s now location next
        ]
      ]

  unfoldable pub claim_body : Instant → Tx (Option Claim)
  claim_body now = do s ← load_schedule now; claim_schedule s now

  -- `Store.ClaimDue`.
  unfoldable pub claim_due : List Bool → Instant → Call Claim
  claim_due script now =
      when_ready now λ t. let (r, u) = transact failure script (claim_body now) t in (claimed r, u)

  abbrev pub complete_in : Claim → Instant → Option Bytes → Tx (Unit {0})
  complete_in claim now none = throw failure
  complete_in claim now (some zone) = elim (load_location zone) [
    | none ↦ throw invalid
    | some location ↦
        update_one (holds_claim claim)
          (completed now (occurrence_local_date claim.occurrence location))
  ]

  unfoldable pub complete_body : Claim → Instant → Tx (Unit {0})
  complete_body claim now = do zone ← query zone_of; complete_in claim now zone

  -- `Store.CompleteClaim`.
  unfoldable pub complete_claim : List Bool → Claim → Instant → Call (Unit {0})
  complete_claim script claim now = when_ready now (
      refuse_if (not (canonical_instant claim.occurrence true)) invalid
        (transact failure script (complete_body claim now)))

  unfoldable pub recover_schedule : Schedule → Instant → Bool → Tx (Unit {0})
  recover_schedule s now interrupted =
      if not s.configured || not s.enabled || (not s.claiming && not interrupted)
      then pure tt
      else elim (load_location s.time_zone) [
        | none ↦ throw invalid
        | some location ↦ elim (next_occurrence now location s.local_minute) [
          | none ↦ throw failure
          | some next ↦ execute (change_row (recovered next (recovery_reason interrupted) now))
        ]
      ]

  unfoldable pub recover_body : Instant → Bool → Tx (Unit {0})
  recover_body now interrupted = do s ← load_schedule now; recover_schedule s now interrupted

  -- `Store.Recover`.
  unfoldable pub recover : List Bool → Instant → Bool → Call (Unit {0})
  recover script now interrupted =
      when_ready now (transact failure script (recover_body now interrupted))
