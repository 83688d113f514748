-- ===== src/Scheduler/Calculate.antt =====
-- internal/scheduler/calculate.go: the next daily occurrence. Instants are nanoseconds since the zero
-- time; a window that begins before it begins at it.
pub mod First
pub mod Utc
use acme_mux.Prelude.{
  ℕ, zero, suc, ◌+◌, ◌-◌, ◌*◌, Bool, true, false, not, ◌&&◌, ◌||◌, Option, none, some, ltb, leb,
  ◌==◌, if◌then◌else◌,
}
use acme_mux.Scheduler.Types.{Instant, Location, LocalTime, minutes_per_day, canonical_instant}

abbrev pub minute_nanos : ℕ
minute_nanos = 60 * 1000000000

abbrev pub day_nanos : ℕ
day_nanos = 86400 * 1000000000

-- The test of the loop over the instants.
abbrev pub strikes : ℕ → ℕ → LocalTime → Bool
strikes date local_minute local =
    local.date == date && local.second == 0 && leb local_minute local.minute

-- The loop over the minutes of the window, with the rounds left.
unfoldable pub find_strike : Location → ℕ → ℕ → ℕ → ℕ → Option ℕ
find_strike location date local_minute zero instant = none
find_strike location date local_minute (suc rounds) instant =
    let later = find_strike location date local_minute rounds (instant + minute_nanos) in
    if strikes date local_minute (location.clock instant) then some instant else later

-- The minutes of 72 hours.
abbrev pub window_minutes : ℕ
window_minutes = 72 * 60

-- `occurrenceOnDate`.
unfoldable pub occurrence_on_date : Location → ℕ → ℕ → Option ℕ
occurrence_on_date location date local_minute =
    find_strike location date local_minute window_minutes (date * day_nanos - day_nanos)

abbrev pub offsets : ℕ
offsets = 370

-- The loop over the dates, with the rounds left.
unfoldable pub find_after : Location → ℕ → ℕ → ℕ → ℕ → Option ℕ
find_after location local_minute after zero date = none
find_after location local_minute after (suc rounds) date =
    let later = find_after location local_minute after rounds (suc date) in
    elim (occurrence_on_date location date local_minute) [
      | none ↦ none
      | some candidate ↦ if ltb after candidate then some candidate else later
    ]

abbrev pub instant_at : ℕ → Instant
instant_at nanos = record { nanos = nanos; utc = true; monotonic = false }

abbrev pub found_at : Option ℕ → Option Instant
found_at none = none
found_at (some nanos) = some (instant_at nanos)

-- `nextOccurrence`.
unfoldable pub next_occurrence : Instant → Location → ℕ → Option Instant
next_occurrence after location local_minute =
    if not (canonical_instant after true) || leb minutes_per_day local_minute
    then none
    else found_at
        (find_after location local_minute after.nanos offsets (location.clock after.nanos).date)

-- `occurrenceLocalDate`.
abbrev pub occurrence_local_date : Instant → Location → ℕ
occurrence_local_date occurrence location = (location.clock occurrence.nanos).date
