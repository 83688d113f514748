-- ===== src/Prelude/Transaction.antt =====
-- `database/sql`: a transaction over the tables of a store. The database is a list of Booleans that
-- says which statements fail.
pub mod Laws
use mathlib.Core.Bool.{Bool, true, false, not}
use mathlib.Core.List.{List, [], ◌∷◌}
use acme_mux.Prelude.Tests.{if◌then◌else◌}
use acme_mux.Prelude.Fallible.{Result, ok, err}

-- An open transaction: its view of the tables, and which of its next statements fail.
pub record Session (T : Type 0) : Type 0 where
  pub tables : T
  pub script : List Bool

abbrev pub Transaction : Type 0 → Type 0 → Type 0 → Type 0
Transaction T E A = Session T → Result E (A × Session T)

infixl 5 ◌>>=◌ ◌>>◌
abbrev pub ◌>>=◌ :
    {T E A B : Type 0} → Transaction T E A → (A → Transaction T E B) → Transaction T E B
◌>>=◌ m f s = elim (m s) [ err e ↦ err e | ok (a, s') ↦ f a s' ]

abbrev pub ◌>>◌ :
    {T E B : Type 0} → Transaction T E (Unit {0}) → Transaction T E B → Transaction T E B
m >> k = m >>= λ _. k

abbrev pub pure : {T E A : Type 0} → A → Transaction T E A
pure a s = ok (a, s)

abbrev pub throw : {T E A : Type 0} → E → Transaction T E A
throw e s = err e

-- `if bad { return err }`.
abbrev pub throw_if : {T E : Type 0} → Bool → E → Transaction T E (Unit {0})
throw_if true e s = err e
throw_if false e s = ok (tt, s)

-- One statement: it changes the tables and returns a value, or fails by the script.
unfoldable pub statement : {T E A : Type 0} → E → (T → A × T) → Transaction T E A
statement fault f s = elim s.script [
  | [] ↦ let (a, t) = f s.tables in ok (a, record s { tables = t })
  | fails ∷ rest ↦
      if fails
      then err fault
      else (let (a, t) = f s.tables in ok (a, record { tables = t; script = rest }))
]

-- `BeginTx`, the body, `Commit`.
abbrev pub committed : {T E A : Type 0} → E → Transaction T E A → Transaction T E A
committed fault body = do
  statement fault (λ t. (tt, t))
  a ← body
  statement fault (λ t. (tt, t))
  pure a

abbrev pub settle : {T E A : Type 0} → T → Result E (A × Session T) → Result E A × T
settle tables (err e) = (err e, tables)
settle tables (ok (a, s)) = (ok a, s.tables)

-- An error of any statement rolls the tables back.
unfoldable pub transact : {T E A : Type 0} → E → List Bool → Transaction T E A → T → Result E A × T
transact fault script body tables =
    settle tables (committed fault body (record { tables = tables; script = script }))

-- What a call of a store does: its result, and the tables behind it.
abbrev pub Call : Type 0 → Type 0 → Type 0 → Type 0
Call T E A = T → Result E A × T

-- `if bad { return err }` before the transaction begins.
abbrev pub refuse_if : {T E A : Type 0} → Bool → E → Call T E A → Call T E A
refuse_if true e call tables = (err e, tables)
refuse_if false e call tables = call tables
