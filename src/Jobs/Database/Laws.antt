-- ===== src/Jobs/Database/Laws.antt =====
-- What a successful update of the row of `operation_latest` has done.
use acme_mux.Prelude.{Bool, true, ◌≡◌, some, arith, Option-cases, ok, Bool-cases, inl, inr}
use acme_mux.Jobs.Database.{Row, Session, statement, update_one}

-- A successful `UPDATE` of one row has found it and changed it.
pub update_one-eq-ok :
    (test : Row → Bool) (change : Row → Row) (s : Session) {u : Unit {0}} {t : Session}
    → update_one test change s ≡ ok (u, t)
    → (row : Row) × (s.tables.latest ≡ some row)
      × (test row ≡ true)
      × (t.tables ≡ record (s.tables) { latest = some (change row) })
unfolding statement
update_one-eq-ok test change s h = elim (Option-cases s.tables.latest) [
  | inl e ↦ absurd (ground arith)
  | inr (row, e) ↦ elim (Bool-cases (test row)) [
    | inl p ↦ (row, e, p, ground arith)
    | inr p ↦ absurd (ground arith)
  ]
]
