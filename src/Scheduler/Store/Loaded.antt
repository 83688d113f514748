-- ===== src/Scheduler/Store/Loaded.antt =====
-- internal/scheduler/store.go: what an update finds, and what loadSchedule shows of a row.
use mathlib.Core.Path.{subst}
use acme_mux.Prelude.{
  Bool, true, false, ◌≡◌, refl, sym, ap, ◌∙◌, inl, inr, Option, none, some, arith, ◌==◌, ok,
  Option-cases, Result-cases, Bool-cases, bind-eq-ok,
}
use acme_mux.Prelude.Bytes.{Bytes}
use acme_mux.Prelude.Transaction.{Session}
use acme_mux.Prelude.Transaction.Laws.{tx_bind-eq-ok, statement-eq-ok}
use acme_mux.Scheduler.Types.{Instant, Location, Schedule, Fault, invalid, failure, validate_update}
use acme_mux.Scheduler.Row.{
  Row, parse_instant, is_claiming, required_of, policy, read_row, read_table,
}
use acme_mux.Scheduler.Store.{Tables, statement, query, update_one, load_schedule}

-- A successful `UPDATE` of the row has found it and changed it.
pub update_one-eq-ok :
    (test : Row → Bool) (change : Row → Row) (s : Session Tables) {w : Unit {0}}
    {u : Session Tables}
    → update_one test change s ≡ ok (w, u)
    → (row : Row) × (s.tables ≡ some row) × (test row ≡ true) × (u.tables ≡ some (change row))
unfolding statement
update_one-eq-ok test change s h = elim (Option-cases s.tables) [
  | inl e ↦ absurd (ground arith)
  | inr (row, e) ↦ elim (Bool-cases (test row)) [
    | inl p ↦ (row, e, p, ground arith)
    | inr p ↦ absurd (ground arith)
  ]
]

module _ (load_location : Bytes → Option Location) where
  -- What a schedule shows of the row that it is read from.
  abbrev pub Shows : Row → Schedule → Type 0
  Shows row s =
      (s.configured ≡ true)
      × (s.enabled ≡ (row.enabled == 1))
      × (s.time_zone ≡ row.time_zone)
      × (s.local_minute ≡ row.local_minute)
      × (s.last_trigger_date ≡ row.last_trigger_date)
      × (s.claiming ≡ is_claiming row.trigger)
      × (parse_instant row.next_evaluation (row.enabled == 1) ≡ some s.next_evaluation)

  required_of-eq-ok :
      {A : Type 0} (e : Fault) (m : Option A) {a : A} → required_of e m ≡ ok a → m ≡ some a
  required_of-eq-ok e none h = absurd (ground arith)
  required_of-eq-ok e (some a) h = ground arith

  pub read_row-Shows :
      (row : Row) (now : Instant) {s : Schedule}
      → read_row load_location row now ≡ ok s
      → Shows row s
  unfolding read_row
  read_row-Shows row now {s} h =
      let (next, e, h₁) =
        bind-eq-ok (required_of failure (parse_instant row.next_evaluation (row.enabled == 1))) _
          h in
      let (_, _, h₂) =
        bind-eq-ok (required_of failure (parse_instant row.last_triggered false)) _ h₁ in
      let (_, _, h₃) =
        bind-eq-ok (required_of failure (parse_instant row.claimed_occurrence false)) _ h₂ in
      let (_, _, h₄) = bind-eq-ok (required_of failure (parse_instant row.updated_at true)) _ h₃ in
      let (_, _, h₅) =
        bind-eq-ok (required_of invalid (validate_update load_location (policy row))) _ h₄ in
      let parsed =
        required_of-eq-ok failure (parse_instant row.next_evaluation (row.enabled == 1)) e in
      let same : next ≡ s.next_evaluation = ground arith in
      (
        ground arith,
        ground arith,
        ground arith,
        ground arith,
        ground arith,
        ground arith,
        parsed ∙ ap some same,
      )

  pub load_schedule-eq-ok :
      (now : Instant) (s : Session Tables) {x : Schedule} {u : Session Tables}
      → load_schedule load_location now s ≡ ok (x, u)
      → (u.tables ≡ s.tables) × (read_table load_location s.tables now ≡ ok x)
  unfolding load_schedule
  load_schedule-eq-ok now s {x} {u} h =
      let (table, v, q, h') = tx_bind-eq-ok (query (λ t. t)) _ s h in
      let (table_is, same) = statement-eq-ok failure (λ t. (t, t)) s q in
      elim (Result-cases (read_table load_location table now)) [
        | inr (e, p) ↦ absurd (ground arith)
        | inl (y, p) ↦
            let ends : (y ≡ x) × (v ≡ u) = ground arith in
            (
              ap (λ s. s.tables) (sym ends.1) ∙ same,
              subst (λ t. read_table load_location t now ≡ ok x) table_is (p ∙ ap ok ends.0),
            )
      ]

  -- A configured schedule is that of the row.
  pub configured_row :
      (table : Tables) (now : Instant) {s : Schedule}
      → read_table load_location table now ≡ ok s
      → s.configured ≡ true
      → (row : Row) × (table ≡ some row) × Shows row s
  unfolding read_table
  configured_row none now {s} h c = absurd (ground arith)
  configured_row (some row) now h c = (row, refl, read_row-Shows row now h)
