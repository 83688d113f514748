-- ===== src/Scheduler/Row.antt =====
-- internal/scheduler/store.go, the row of `automatic_schedule` (internal/state/migrations/009) and how
-- it is read. A stored time is its instant, a stored civil date the number of its days, which the
-- texts order in the same way.
use acme_mux.Prelude.{
  ℕ, Bool, true, false, not, ◌&&◌, ◌||◌, [], ◌∷◌, Option, none, some, ltb, leb, within, ◌==◌,
  if◌then◌else◌, length, Result, ok, err, ◌>>=◌,
}
use acme_mux.Prelude.Bytes.{Bytes, codes, equal}
pub use acme_mux.Prelude.Time.{TimeText, blank, stamp, malformed}
use acme_mux.Scheduler.Types.{
  Instant, zero_time, Location, Schedule, Update, State, disabled, scheduled, due, deferred,
  blocked, Fault, invalid, failure, canonical_instant, validate_update,
}

pub data Trigger : Type 0 where
  idle claiming other : Trigger

-- The row of `automatic_schedule`.
pub record Row : Type 0 where
  pub enabled : ℕ
  pub time_zone : Bytes
  pub local_minute : ℕ
  pub next_evaluation : TimeText
  pub last_triggered : TimeText
  pub last_trigger_date : Option ℕ
  pub trigger : Trigger
  pub claimed_occurrence : TimeText
  pub reason_code : Bytes
  pub updated_at : TimeText

-- `formatInstant`.
abbrev pub format_instant : Instant → TimeText
format_instant t = stamp t.nanos t.utc

-- `parseInstant`.
unfoldable pub parse_instant : TimeText → Bool → Option Instant
parse_instant blank required = if required then none else some zero_time
parse_instant malformed required = none
parse_instant (stamp nanos utc) required =
    let parsed : Instant = record { nanos = nanos; utc = utc; monotonic = false } in
    if utc && canonical_instant parsed true then some parsed else none

abbrev pub bool_integer : Bool → ℕ
bool_integer true = 1
bool_integer false = 0

abbrev pub is_claiming : Trigger → Bool
is_claiming claiming = true
is_claiming _ = false

abbrev pub is_idle : Trigger → Bool
is_idle idle = true
is_idle _ = false

abbrev pub after : Instant → Instant → Bool
after t u = ltb u.nanos t.nanos

abbrev pub is_contended : Bytes → Bool
is_contended reason =
    equal reason (codes "operation_active") || equal reason (codes "workspace_busy")

abbrev pub is_blocking : Bytes → Bool
is_blocking reason =
    equal reason (codes "configuration_invalid")
    || equal reason (codes "workspace_invalid")
    || equal reason (codes "recovery_required")
    || equal reason (codes "operation_unavailable")

-- `deriveState`.
unfoldable pub derive_state : Schedule → Instant → State
derive_state s now =
    if not s.configured || not s.enabled
    then disabled
    else if s.claiming || not (after s.next_evaluation now)
    then (if is_contended s.reason_code then deferred else due)
    else if is_blocking s.reason_code
    then blocked
    else scheduled

abbrev pub unconfigured : Schedule
unconfigured = record {
  configured = false;
  enabled = false;
  time_zone = [];
  local_minute = 0;
  next_evaluation = zero_time;
  last_triggered_at = zero_time;
  last_trigger_date = none;
  reason_code = codes "not_configured";
  updated_at = zero_time;
  state = disabled;
  claiming = false;
  claimed_occurrence = zero_time;
}

abbrev pub required_of : {A : Type 0} → Fault → Option A → Result Fault A
required_of e none = err e
required_of e (some a) = ok a

abbrev pub is_lower : ℕ → Bool
is_lower c = within b'a' b'z' c

every_code : Bytes → Bool
every_code [] = true
every_code (c ∷ cs) = (is_lower c || within b'0' b'9' c || c == b'_') && every_code cs

-- `validReason`.
unfoldable pub valid_reason : Bytes → Bool
unfolding every_code
valid_reason [] = false
valid_reason (c ∷ cs) = leb (length (c ∷ cs)) 64 && is_lower c && every_code (c ∷ cs)

-- Equality of two time columns.
unfoldable pub time_eq : TimeText → TimeText → Bool
time_eq blank blank = true
time_eq malformed malformed = true
time_eq (stamp n u) (stamp m v) = n == m && ((u && v) || (not u && not v))
time_eq _ _ = false

abbrev pub policy : Row → Update
policy row = record {
  enabled = row.enabled == 1;
  time_zone = row.time_zone;
  local_minute = row.local_minute;
}

module _ (load_location : Bytes → Option Location) where
  -- `loadSchedule` of a row.
  unfoldable pub read_row : Row → Instant → Result Fault Schedule
  read_row row now = do
    next ← required_of failure (parse_instant row.next_evaluation (row.enabled == 1))
    last ← required_of failure (parse_instant row.last_triggered false)
    claimed ← required_of failure (parse_instant row.claimed_occurrence false)
    updated ← required_of failure (parse_instant row.updated_at true)
    location ← required_of invalid (validate_update load_location (policy row))
    let s : Schedule = record {
      configured = true;
      enabled = row.enabled == 1;
      time_zone = row.time_zone;
      local_minute = row.local_minute;
      next_evaluation = next;
      last_triggered_at = last;
      last_trigger_date = row.last_trigger_date;
      reason_code = row.reason_code;
      updated_at = updated;
      state = disabled;
      claiming = is_claiming row.trigger;
      claimed_occurrence = claimed;
    }
    ok (record s { state = derive_state s now })

  unfoldable pub read_table : Option Row → Instant → Result Fault Schedule
  read_table none now = ok unconfigured
  read_table (some row) now = read_row row now
