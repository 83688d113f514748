-- ===== src/Scheduler/Calculate/Utc.antt =====
-- internal/scheduler/calculate.go at the place whose clock shows UTC.
use mathlib.Core.Path.{subst}
use acme_mux.Prelude.{
  ℕ, zero, suc, ◌+◌, ◌*◌, ◌-◌, ◌/◌, ◌%◌, ◌<◌, ◌≤◌, true, false, ◌≡◌, sym, ap, ◌∙◌, inl, inr, some,
  ltb, arith, Bool-cases,
}
use acme_mux.Prelude.Bytes.{codes}
use acme_mux.Scheduler.Types.{Instant, Location, LocalTime, minutes_per_day, canonical_instant}
use acme_mux.Scheduler.Calculate.{
  minute_nanos, day_nanos, strikes, window_minutes, occurrence_on_date, instant_at, found_at,
  next_occurrence,
}
use acme_mux.Scheduler.Calculate.First.{
  Misses, strikes_at, find_strike_found, find_after_here, find_after_later, next_occurrence_of,
}

abbrev pub utc_clock : ℕ → LocalTime
utc_clock n = record {
  date = n / day_nanos;
  minute = n % day_nanos / minute_nanos;
  second = n / 1000000000 % 60;
}

abbrev pub utc : Location
utc = record { name = codes "UTC"; clock = utc_clock }

utc_strikes :
    (e j m : ℕ)
    → j < m
    → m < minutes_per_day
    → strikes (suc e) m (utc_clock (e * day_nanos + (1440 + j) * minute_nanos)) ≡ false
utc_strikes e j m h k = ground arith

utc_early :
    (e j m : ℕ)
    → j < 1440
    → strikes (suc e) m (utc_clock (e * day_nanos + j * minute_nanos)) ≡ false
utc_early e j m h = ground arith

utc_hit :
    (e m : ℕ)
    → m < minutes_per_day
    → strikes (suc e) m (utc_clock (e * day_nanos + (1440 + m) * minute_nanos)) ≡ true
utc_hit e m h = ground arith

utc_first_day :
    (j m : ℕ) → j < m → m < minutes_per_day → strikes 0 m (utc_clock (0 + j * minute_nanos)) ≡ false
utc_first_day j m h k = ground arith

utc-Misses :
    (e m : ℕ) → m < minutes_per_day → Misses (strikes_at utc (suc e) m) (e * day_nanos) (1440 + m)
utc-Misses e m small j below = elim (Bool-cases (ltb j 1440)) [
  | inl early ↦ utc_early e j m (ground arith)
  | inr same_day ↦
      let at : j ≡ 1440 + (j - 1440) = ground arith in
      subst (λ i. strikes_at utc (suc e) m (e * day_nanos + i * minute_nanos) ≡ false) (sym at)
        (utc_strikes e (j - 1440) m (ground arith) small)
]

-- The occurrence on a date is at the minute of that day.
utc_occurrence :
    (date m : ℕ)
    → m < minutes_per_day
    → occurrence_on_date utc date m ≡ some (date * day_nanos + m * minute_nanos)
unfolding occurrence_on_date
utc_occurrence zero m small =
    find_strike_found utc 0 m window_minutes 0 m (omega arith) (ground arith)
      (λ j below. utc_first_day j m below small)
utc_occurrence (suc e) m small =
    let start = suc e * day_nanos - day_nanos in
    let test = strikes_at utc (suc e) m in
    let begin : start ≡ e * day_nanos = omega arith in
    let found : start + (1440 + m) * minute_nanos ≡ suc e * day_nanos + m * minute_nanos =
      omega arith in
    find_strike_found utc (suc e) m window_minutes start (1440 + m) (omega arith)
      (subst (λ n. test (n + (1440 + m) * minute_nanos) ≡ true) (sym begin) (utc_hit e m small))
      (subst (λ n. Misses test n (1440 + m)) (sym begin) (utc-Misses e m small))
    ∙ ap some found

-- At UTC every valid instant and minute has a next occurrence: it is behind the instant, at most one
-- day behind it, and at that minute of its day.
pub next_occurrence_utc :
    (after : Instant) (m : ℕ)
    → canonical_instant after true ≡ true
    → m < minutes_per_day
    → (found : ℕ) × (next_occurrence after utc m ≡ some (instant_at found))
      × (after.nanos < found)
      × (found ≤ after.nanos + day_nanos)
      × (found % day_nanos ≡ m * minute_nanos)
next_occurrence_utc after m valid small =
    let date = after.nanos / day_nanos in
    let today = date * day_nanos + m * minute_nanos in
    let tomorrow = suc date * day_nanos + m * minute_nanos in
    let here = utc_occurrence date m small in
    let there = utc_occurrence (suc date) m small in
    let runs = next_occurrence_of after utc m valid small in
    elim (Bool-cases (ltb after.nanos today)) [
      | inl ahead ↦ (
        today,
        runs ∙ ap found_at (find_after_here utc m after.nanos 369 date today here (ground arith)),
        ground arith,
        omega arith,
        omega arith,
      )
      | inr past ↦
          let over = find_after_later utc m after.nanos 369 date today here (ground arith) in
          let behind : after.nanos < tomorrow = omega arith in
          let next = find_after_here utc m after.nanos 368 (suc date) tomorrow there behind in
          (tomorrow, runs ∙ ap found_at (over ∙ next), behind, ground arith, omega arith)
    ]
