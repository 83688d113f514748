-- ===== src/Jobs/Database.antt =====
-- The tables of internal/state/migrations (008, 009, 010) that internal/jobs/store.go reads and
-- writes, and a transaction over them. SQLite is a script that says which statements fail.
pub mod Laws
use acme_mux.Prelude.{
  ℕ, suc, Bool, true, false, not, List, [], ◌∷◌, Option, none, some, Result, ok, err, if◌then◌else◌,
}
use acme_mux.Prelude.Bytes.{Bytes}
use acme_mux.Prelude.Int.{ℤ}
pub use acme_mux.Prelude.Time.{TimeText, blank, stamp, malformed}
use acme_mux.Prelude.Transaction
unfoldable pub use acme_mux.Prelude.Transaction.{
  ◌>>=◌, ◌>>◌, pure, throw, throw_if, statement, committed, settle, transact,
}
use acme_mux.Jobs.Types.{
  Kind, State, Phase, InventoryState, ItemState, Instant, Fault, failure, state_changed,
}

-- The row of `operation_latest`.
pub record Row : Type 0 where
  pub operation_id : Bytes
  pub reviewed_evidence_sha256 : Bytes
  pub kind : Kind
  pub state : State
  pub phase : Phase
  pub requested_at : TimeText
  pub started_at : TimeText
  pub finished_at : TimeText
  pub updated_at : TimeText
  pub reason_code : Bytes
  pub may_have_changed : ℤ
  pub inventory_state : InventoryState
  pub inventory_code : Bytes
  pub redacted_output : Bytes
  pub output_truncated : ℤ
  pub certificate_count : Option ℤ
  pub request_kind : Kind
  pub runtime_identity : Bytes
  pub runtime_manifest_id : Bytes
  pub configuration_path : Bytes
  pub storage_path : Bytes

-- A row of `operation_requested_item`; the ordinal is the place in the list.
pub record RequestedRow : Type 0 where
  pub operation_id : Bytes
  pub item_name : Bytes
  pub account : Bytes
  pub ca : Bytes
  pub challenge_kind : Bytes
  pub challenge_mode : Bytes

-- A row of `operation_item_result`.
pub record ResultRow : Type 0 where
  pub operation_id : Bytes
  pub item_name : Bytes
  pub state : ItemState
  pub reason_code : Bytes

pub record Tables : Type 0 where
  pub latest : Option Row
  pub requested : List RequestedRow
  pub results : List ResultRow

abbrev pub empty_tables : Tables
empty_tables = record { latest = none; requested = []; results = [] }

abbrev pub Session : Type 0
Session = Transaction.Session Tables

abbrev pub Tx : Type 0 → Type 0
Tx A = Transaction.Transaction Tables Fault A

abbrev pub query : {A : Type 0} → (Tables → A) → Tx A
query f = statement failure (λ t. (f t, t))

abbrev pub execute : (Tables → Tables) → Tx (Unit {0})
execute f = statement failure (λ t. (tt, f t))

-- The new tables of `UPDATE operation_latest SET … WHERE test`, and whether it changed the row.
abbrev pub update_row : (Row → Bool) → (Row → Row) → Tables → Bool × Tables
update_row test change t = elim t.latest [
  | none ↦ (false, t)
  | some row ↦ if test row then (true, record t { latest = some (change row) }) else (false, t)
]

-- The statement, with `requireOneChanged`.
abbrev pub update_one : (Row → Bool) → (Row → Row) → Tx (Unit {0})
update_one test change = do
  changed ← statement failure (update_row test change)
  throw_if (not changed) state_changed
