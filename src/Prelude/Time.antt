-- ===== src/Prelude/Time.antt =====
-- `time.Time`, and the time columns of a database.
use Prim.Native.Nat.{ℕ, ◌*◌}
use mathlib.Core.Bool.{Bool, true, false}

-- `time.Time`: nanoseconds since the zero time, whether the location is UTC, and whether a
-- monotonic reading is attached. Times before the zero time are not represented.
pub record Instant : Type 0 where
  pub nanos : ℕ
  pub utc : Bool
  pub monotonic : Bool

abbrev pub zero_time : Instant
zero_time = record { nanos = 0; utc = true; monotonic = false }

-- The first instant of the year 10000.
abbrev pub year_limit : ℕ
year_limit = 3652059 * 86400 * 1000000000

-- A time column: empty, the RFC 3339 text of an instant, or another text.
pub data TimeText : Type 0 where
  blank : TimeText
  stamp : ℕ → Bool → TimeText
  malformed : TimeText
