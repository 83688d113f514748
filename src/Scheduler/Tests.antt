-- ===== src/Scheduler/Tests.antt =====
-- Runs of the scheduler at UTC, and its theorems there.
use acme_mux.Prelude.{
  ℕ, ◌+◌, ◌-◌, ◌*◌, ◌<◌, ◌≤◌, ◌%◌, true, false, ◌≡◌, refl, arith, List, [], ◌∷◌, Option, none, some,
  ltb, if◌then◌else◌, ok,
}
use acme_mux.Prelude.Bytes.{Bytes, codes, equal}
use acme_mux.Prelude.Transaction.{statement, transact}
use acme_mux.Scheduler.Types.{
  Instant, Location, LocalTime, zone_name, canonical_instant, validate_update,
}
use acme_mux.Scheduler.Calculate.{
  find_strike, occurrence_on_date, find_after, next_occurrence, instant_at, minute_nanos, day_nanos,
}
use acme_mux.Scheduler.Calculate.Utc.{utc, next_occurrence_utc}
use acme_mux.Scheduler.Calculate.First.{
  FirstMinute, occurrence_on_date-FirstMinute, FirstAfter, next_occurrence-FirstAfter,
}
use acme_mux.Scheduler.Row.{
  Row, idle, claiming, TimeText, blank, stamp, parse_instant, derive_state, valid_reason, time_eq,
  read_row, read_table,
}
use acme_mux.Scheduler.Store.{
  load_schedule, get, save_body, planned, save, claim_schedule, claim_body, claim_due,
  complete_body, complete_claim, release_claim, recover_schedule, recover_body, recover,
}
use acme_mux.Scheduler.Service.{accepted, end_claim, evaluate, delay}
use acme_mux.Scheduler.Store.Claimed.{Takes, claim_due-Takes}
use acme_mux.Scheduler.Store.Fresh.{is_claimed}
use acme_mux.Scheduler.Store.Dates.{
  StoreCall, save_call, claim_call, complete_call, Ascends, trigger_log, trigger_log-Ascends,
}
use acme_mux.Scheduler.Service.Ends.{evaluate_ends, recover_ends}

-- A place where the clock goes from 02:00 to 03:00 on the date 100.
abbrev gap_clock : ℕ → LocalTime
gap_clock n =
    let shown = if ltb n (100 * day_nanos + 120 * minute_nanos) then n else n + 60 * minute_nanos in
    utc.clock shown

zones : Bytes → Option Location
zones name =
    if equal name (codes "UTC")
    then some utc
    else if equal name (codes "Test/Gap")
    then some (record { name = name; clock = gap_clock })
    else none

-- Everything that a call of the scheduler computes with.
runs : Unit {0}
unfolding equal zone_name canonical_instant validate_update find_strike occurrence_on_date
    find_after next_occurrence statement transact parse_instant derive_state valid_reason time_eq
    read_row read_table load_schedule get save_body planned save claim_schedule claim_body claim_due
    complete_body complete_claim release_claim recover_schedule recover_body recover end_claim
    evaluate delay zones
runs = tt

abbrev at_minute : ℕ → ℕ → Instant
at_minute date minute = instant_at (date * day_nanos + minute * minute_nanos)

-- 02:30 is not shown on that date: the occurrence is at 03:00, 120 minutes into the UTC day.
gap_moves_on :
    next_occurrence (at_minute 99 1300) (record { name = codes "Test/Gap"; clock = gap_clock }) 150
    ≡ some (at_minute 100 120)
unfolding runs
gap_moves_on = refl

abbrev stamp_at : ℕ → ℕ → TimeText
stamp_at date minute = stamp (date * day_nanos + minute * minute_nanos) true

abbrev daily : Row
daily = record {
  enabled = 1;
  time_zone = codes "UTC";
  local_minute = 180;
  next_evaluation = stamp_at 1000 180;
  last_triggered = stamp_at 999 181;
  last_trigger_date = some 999;
  trigger = idle;
  claimed_occurrence = blank;
  reason_code = codes "triggered";
  updated_at = stamp_at 999 181;
}

abbrev triggered : Row
triggered = record daily {
  next_evaluation = stamp_at 1001 180;
  last_triggered = stamp_at 1000 182;
  last_trigger_date = some 1000;
  updated_at = stamp_at 1000 182;
}

abbrev open_claim : Row
open_claim = record daily {
  next_evaluation = stamp_at 1001 180;
  trigger = claiming;
  claimed_occurrence = stamp_at 1000 180;
  reason_code = codes "trigger_claimed";
  updated_at = stamp_at 1000 181;
}

evaluation :
    evaluate zones [] [] (at_minute 1000 181) (at_minute 1000 182) accepted (some daily)
    ≡ (ok tt, some triggered)
unfolding runs
evaluation = refl

-- The clock has gone back behind a trigger: the same date is passed over.
passed_over :
    evaluate zones [] []
      (at_minute 1000 181)
      (at_minute 1000 182)
      accepted
      (some (record daily { last_trigger_date = some 1000 }))
    ≡ (
      ok tt,
      some (record daily {
        next_evaluation = stamp_at 1001 180;
        last_trigger_date = some 1000;
        reason_code = codes "clock_rollback_coalesced";
        updated_at = stamp_at 1000 181;
      }),
    )
unfolding runs
passed_over = refl

next_occurrence-FirstAfter_example :
    FirstAfter utc 180 (at_minute 1000 181).nanos 370 1000 (at_minute 1001 180).nanos
    × (true ≡ true)
    × (false ≡ false)
unfolding runs
next_occurrence-FirstAfter_example =
    next_occurrence-FirstAfter (at_minute 1000 181) utc 180 {found = at_minute 1001 180} refl

next_occurrence_utc_example :
    (found : ℕ) × (next_occurrence (at_minute 1000 181) utc 180 ≡ some (instant_at found))
    × ((at_minute 1000 181).nanos < found)
    × (found ≤ (at_minute 1000 181).nanos + day_nanos)
    × (found % day_nanos ≡ 180 * minute_nanos)
unfolding canonical_instant
next_occurrence_utc_example = next_occurrence_utc (at_minute 1000 181) 180 refl (omega arith)

-- Two days, with the clock set back and the policy saved between them.
abbrev two_days : List StoreCall
two_days =
    claim_call [] (at_minute 1000 181)
    ∷ complete_call [] (record { occurrence = at_minute 1000 180 }) (at_minute 1000 182)
    ∷ save_call [] (record { enabled = true; time_zone = codes "UTC"; local_minute = 180 })
        (at_minute 1000 170)
    ∷ claim_call [] (at_minute 1000 181)
    ∷ complete_call [] (record { occurrence = at_minute 1000 180 }) (at_minute 1000 182)
    ∷ claim_call [] (at_minute 1001 181)
    ∷ complete_call [] (record { occurrence = at_minute 1001 180 }) (at_minute 1001 182)
    ∷ []

two_days_log : trigger_log zones two_days (some daily) ≡ 1000 ∷ 1001 ∷ []
unfolding runs
two_days_log = refl

trigger_log-Ascends_example : Ascends (some 999) (trigger_log zones two_days (some daily))
trigger_log-Ascends_example = trigger_log-Ascends zones two_days (some daily) refl

evaluate_ends_example : is_claimed (some triggered) ≡ false
unfolding runs
evaluate_ends_example =
    evaluate_ends zones [] [] (at_minute 1000 181) (at_minute 1000 182) accepted (some daily)
      (some triggered) refl refl

abbrev recovered_one : Row
recovered_one = record daily {
  next_evaluation = stamp_at 1001 180;
  reason_code = codes "trigger_recovered";
  updated_at = stamp_at 1000 200;
}

recover_ends_example : is_claimed (some recovered_one) ≡ false
unfolding runs
recover_ends_example =
    recover_ends zones [] (at_minute 1000 200) false open_claim (some recovered_one) refl refl

claim_due-Takes_example :
    Takes zones
      (record { occurrence = at_minute 1000 180 })
      (at_minute 1000 181)
      (some daily)
      (some open_claim)
unfolding runs
claim_due-Takes_example =
    claim_due-Takes zones [] (at_minute 1000 181) (some daily) (some open_claim)
      {claim = record { occurrence = at_minute 1000 180 }} refl

abbrev gap : Location
gap = record { name = codes "Test/Gap"; clock = gap_clock }

occurrence_on_date-FirstMinute_example :
    FirstMinute gap 100 150 (100 * day_nanos - day_nanos) 4320 (at_minute 100 120).nanos
unfolding runs
occurrence_on_date-FirstMinute_example =
    occurrence_on_date-FirstMinute gap 100 150 {found = (at_minute 100 120).nanos} refl
