-- ===== src/Scheduler/Calculate/First.antt =====
-- internal/scheduler/calculate.go: the occurrence that the two loops find, in any place.
use mathlib.Core.Path.{subst}
use acme_mux.Prelude.{
  ℕ, zero, suc, ◌+◌, ◌*◌, ◌-◌, ◌<◌, ◌≤◌, Bool, true, false, ◌≡◌, sym, ap, ◌∙◌, inl, inr, some, ltb,
  arith, Bool-cases, Option-cases,
}
use acme_mux.Scheduler.Types.{Instant, Location, LocalTime, minutes_per_day, canonical_instant}
use acme_mux.Scheduler.Calculate.{
  minute_nanos, day_nanos, strikes, find_strike, window_minutes, occurrence_on_date, offsets,
  find_after, found_at, next_occurrence,
}

-- The first rounds of a loop over the minutes miss.
abbrev pub Misses : (ℕ → Bool) → ℕ → ℕ → Type 0
Misses test start k = (j : ℕ) → j < k → test (start + j * minute_nanos) ≡ false

Misses-more :
    (test : ℕ → Bool) (start k : ℕ)
    → test start ≡ false
    → Misses test (start + minute_nanos) k
    → Misses test start (suc k)
Misses-more test start k here later zero below =
    let at : start ≡ start + 0 * minute_nanos = omega arith in subst (λ n. test n ≡ false) at here
Misses-more test start k here later (suc j) below =
    let at : start + minute_nanos + j * minute_nanos ≡ start + suc j * minute_nanos = omega arith in
    subst (λ n. test n ≡ false) at (later j (omega arith))

Misses-less :
    (test : ℕ → Bool) (start k : ℕ)
    → Misses test start (suc k)
    → Misses test (start + minute_nanos) k
Misses-less test start k all j below =
    let at : start + suc j * minute_nanos ≡ start + minute_nanos + j * minute_nanos = omega arith in
    subst (λ n. test n ≡ false) at (all (suc j) (omega arith))

abbrev pub strikes_at : Location → ℕ → ℕ → ℕ → Bool
strikes_at location date local_minute instant = strikes date local_minute (location.clock instant)

-- The round in which the inner loop stops: the first that strikes.
abbrev pub FirstStrike : (ℕ → Bool) → ℕ → ℕ → ℕ → Type 0
FirstStrike test start rounds found =
    (k : ℕ) × (k < rounds)
    × (found ≡ start + k * minute_nanos)
    × (test found ≡ true)
    × Misses test start k

find_strike-FirstStrike :
    (location : Location) (date local_minute rounds start : ℕ) {found : ℕ}
    → find_strike location date local_minute rounds start ≡ some found
    → FirstStrike (strikes_at location date local_minute) start rounds found
unfolding find_strike
find_strike-FirstStrike location date local_minute zero start h = absurd (ground arith)
find_strike-FirstStrike location date local_minute (suc rounds) start {found} h =
    let test = strikes_at location date local_minute in
    elim (Bool-cases (test start)) [
      | inl here ↦
          let same : start ≡ found = ground arith in
          (
            0,
            omega arith,
            omega arith,
            subst (λ n. test n ≡ true) same here,
            λ j below. absurd (omega arith),
          )
      | inr missed ↦
          let (k, inside, at, strike, before) =
            find_strike-FirstStrike location date local_minute rounds (start + minute_nanos)
              {found = found} (ground arith) in
          (suc k, omega arith, omega arith, strike, Misses-more test start k missed before)
    ]

-- A clock shows the start of a minute of the date, at the wanted minute of the day or behind it.
abbrev pub Strikes : ℕ → ℕ → LocalTime → Type 0
Strikes date local_minute local =
    (local.date ≡ date) × (local.second ≡ 0) × (local_minute ≤ local.minute)

-- The first minute from `start` on, of some number of minutes, at which the clock strikes.
abbrev pub FirstMinute : Location → ℕ → ℕ → ℕ → ℕ → ℕ → Type 0
FirstMinute location date local_minute start minutes found =
    (k : ℕ) × (k < minutes)
    × (found ≡ start + k * minute_nanos)
    × Strikes date local_minute (location.clock found)
    × ((j : ℕ) → j < k → ¬ Strikes date local_minute (location.clock (start + j * minute_nanos)))

-- The occurrence on a date is the first minute, of the 72 hours from a day before the date at UTC on,
-- at which the clock of the place shows that date, no seconds, and the wanted minute of the day or a
-- later one.
pub occurrence_on_date-FirstMinute :
    (location : Location) (date local_minute : ℕ) {found : ℕ}
    → occurrence_on_date location date local_minute ≡ some found
    → FirstMinute location date local_minute (date * day_nanos - day_nanos) (72 * 60) found
unfolding occurrence_on_date
occurrence_on_date-FirstMinute location date local_minute {found} h =
    let start = date * day_nanos - day_nanos in
    let (k, inside, at, strike, before) =
      find_strike-FirstStrike location date local_minute window_minutes start h in
    (
      k,
      inside,
      at,
      (ground arith, ground arith, ground arith),
      λ j below struck. let missed = before j below in ground arith,
    )

pub find_strike_found :
    (location : Location) (date local_minute rounds start k : ℕ)
    → k < rounds
    → strikes_at location date local_minute (start + k * minute_nanos) ≡ true
    → Misses (strikes_at location date local_minute) start k
    → find_strike location date local_minute rounds start ≡ some (start + k * minute_nanos)
unfolding find_strike
find_strike_found location date local_minute zero start k inside strike before =
    absurd (omega arith)
find_strike_found location date local_minute (suc rounds) start zero inside strike before =
    let at : start + 0 * minute_nanos ≡ start = omega arith in
    let here = subst (λ n. strikes_at location date local_minute n ≡ true) at strike in ground arith
find_strike_found location date local_minute (suc rounds) start (suc k) inside strike before =
    let test = strikes_at location date local_minute in
    let zeroth : start + 0 * minute_nanos ≡ start = omega arith in
    let missed = subst (λ n. test n ≡ false) zeroth (before 0 (omega arith)) in
    let at : start + suc k * minute_nanos ≡ start + minute_nanos + k * minute_nanos = omega arith in
    let later =
      find_strike_found location date local_minute rounds (start + minute_nanos) k (omega arith)
        (subst (λ n. test n ≡ true) at strike) (Misses-less test start k before) in
    ground arith

-- The first dates from a given one have an occurrence that is not behind an instant.
abbrev pub Passed : Location → ℕ → ℕ → ℕ → ℕ → Type 0
Passed location local_minute after date k =
    (j : ℕ)
    → j < k
    → (early : ℕ) × (occurrence_on_date location (date + j) local_minute ≡ some early)
      × (early ≤ after)

Passed-more :
    (location : Location) (local_minute after date k early : ℕ)
    → occurrence_on_date location date local_minute ≡ some early
    → early ≤ after
    → Passed location local_minute after (suc date) k
    → Passed location local_minute after date (suc k)
Passed-more location local_minute after date k early at old later zero below =
    let same : date + 0 ≡ date = omega arith in
    (early, ap (λ d. occurrence_on_date location d local_minute) same ∙ at, old)
Passed-more location local_minute after date k early at old later (suc j) below =
    let (n, at_n, old_n) = later j (omega arith) in
    let same : date + suc j ≡ suc date + j = omega arith in
    (n, ap (λ d. occurrence_on_date location d local_minute) same ∙ at_n, old_n)

-- The first date from a given one whose occurrence is behind an instant.
abbrev pub FirstAfter : Location → ℕ → ℕ → ℕ → ℕ → ℕ → Type 0
FirstAfter location local_minute after rounds date found =
    (k : ℕ) × (k < rounds)
    × (occurrence_on_date location (date + k) local_minute ≡ some found)
    × (after < found)
    × Passed location local_minute after date k

pub find_after-FirstAfter :
    (location : Location) (local_minute after rounds date : ℕ) {found : ℕ}
    → find_after location local_minute after rounds date ≡ some found
    → FirstAfter location local_minute after rounds date found
unfolding find_after
find_after-FirstAfter location local_minute after zero date h = absurd (ground arith)
find_after-FirstAfter location local_minute after (suc rounds) date {found} h =
    let occurs = λ (d : ℕ). occurrence_on_date location d local_minute in
    let same_date : date ≡ date + 0 = omega arith in
    elim (Option-cases (occurs date)) [
      | inl none_here ↦ absurd (ground arith)
      | inr (n, e) ↦ elim (Bool-cases (ltb after n)) [
        | inl later ↦
            let same : n ≡ found = ground arith in
            (
              0,
              omega arith,
              ap occurs (sym same_date) ∙ e ∙ ap some same,
              ground arith,
              λ j below. absurd (omega arith),
            )
        | inr early ↦
            let (k, inside, at, behind, before) =
              find_after-FirstAfter location local_minute after rounds (suc date) {found = found}
                (ground arith) in
            let moved : date + suc k ≡ suc date + k = omega arith in
            (
              suc k,
              omega arith,
              ap occurs moved ∙ at,
              behind,
              Passed-more location local_minute after date k n e (ground arith) before,
            )
      ]
    ]

pub find_after_here :
    (location : Location) (local_minute after rounds date n : ℕ)
    → occurrence_on_date location date local_minute ≡ some n
    → after < n
    → find_after location local_minute after (suc rounds) date ≡ some n
unfolding find_after
find_after_here location local_minute after rounds date n at ahead = ground arith

pub find_after_later :
    (location : Location) (local_minute after rounds date n : ℕ)
    → occurrence_on_date location date local_minute ≡ some n
    → n ≤ after
    → find_after location local_minute after (suc rounds) date
      ≡ find_after location local_minute after rounds (suc date)
unfolding find_after
find_after_later location local_minute after rounds date n at past = ground arith

pub next_occurrence_of :
    (after : Instant) (location : Location) (local_minute : ℕ)
    → canonical_instant after true ≡ true
    → local_minute < minutes_per_day
    → next_occurrence after location local_minute
      ≡ found_at
          (find_after location local_minute after.nanos offsets (location.clock after.nanos).date)
unfolding next_occurrence
next_occurrence_of after location local_minute valid small = ground arith

-- The next occurrence is behind the instant and of a date less than 370 days on, and the occurrence of
-- no date before that, from the local date of the instant on, is behind the instant.
pub next_occurrence-FirstAfter :
    (after : Instant) (location : Location) (local_minute : ℕ) {found : Instant}
    → next_occurrence after location local_minute ≡ some found
    → FirstAfter location local_minute after.nanos offsets
        (location.clock after.nanos).date
        found.nanos
      × (found.utc ≡ true)
      × (found.monotonic ≡ false)
unfolding next_occurrence
next_occurrence-FirstAfter after location local_minute {found} h =
    let date = (location.clock after.nanos).date in
    elim (Option-cases (find_after location local_minute after.nanos offsets date)) [
      | inl e ↦ absurd (ground arith)
      | inr (n, e) ↦
          let same : n ≡ found.nanos = ground arith in
          (
            find_after-FirstAfter location local_minute after.nanos offsets date (e ∙ ap some same),
            ground arith,
            ground arith,
          )
    ]
