-- ===== src/Scheduler/Types.antt =====
-- internal/scheduler/types.go: the schedule, its policy and their validation. A civil date is the
-- number of days since the first of January of the year 1.
use acme_mux.Prelude.{
  ℕ, ◌*◌, Bool, true, false, not, ◌&&◌, ◌||◌, [], ◌∷◌, Option, none, some, ltb, leb, within, ◌==◌,
  if◌then◌else◌, length,
}
use acme_mux.Prelude.Bytes.{Bytes, codes, equal}
pub use acme_mux.Prelude.Time.{Instant, zero_time, year_limit}

abbrev pub maximum_zone_bytes : ℕ
maximum_zone_bytes = 128

abbrev pub minutes_per_day : ℕ
minutes_per_day = 24 * 60

-- `nothing_due` is `ErrNotDue`; `changed` and `failure` are the errors with no name.
pub data Fault : Type 0 where
  invalid nothing_due changed failure : Fault

pub data State : Type 0 where
  disabled scheduled due deferred blocked : State

-- The clock of a place at an instant.
pub record LocalTime : Type 0 where
  pub date : ℕ
  pub minute : ℕ
  pub second : ℕ

-- `time.Location`: its name, and the clock that it shows at each instant.
pub record Location : Type 0 where
  pub name : Bytes
  pub clock : ℕ → LocalTime

pub record Schedule : Type 0 where
  pub configured : Bool
  pub enabled : Bool
  pub time_zone : Bytes
  pub local_minute : ℕ
  pub next_evaluation : Instant
  pub last_triggered_at : Instant
  pub last_trigger_date : Option ℕ
  pub reason_code : Bytes
  pub updated_at : Instant
  pub state : State
  pub claiming : Bool
  pub claimed_occurrence : Instant

pub record Update : Type 0 where
  pub enabled : Bool
  pub time_zone : Bytes
  pub local_minute : ℕ

pub record Claim : Type 0 where
  pub occurrence : Instant

abbrev is_letter : ℕ → Bool
is_letter c = within b'A' b'Z' c || within b'a' b'z' c

abbrev is_digit : ℕ → Bool
is_digit c = within b'0' b'9' c

abbrev is_zone_byte : ℕ → Bool
is_zone_byte c = is_letter c || is_digit c || c == b'.' || c == b'_' || c == b'+' || c == b'-'

-- The rest of a segment, with whether a slash was seen.
zone_rest : Bool → Bytes → Bool
zone_rest seen [] = seen
zone_rest seen (c ∷ []) = seen && is_zone_byte c
zone_rest seen (c ∷ (d ∷ ds)) =
    let inside = zone_rest seen (d ∷ ds) in
    let next = zone_rest true ds in
    if c == b'/' then (is_letter d || is_digit d) && next else is_zone_byte c && inside

-- `zoneName.MatchString`.
unfoldable pub zone_name : Bytes → Bool
unfolding zone_rest equal
zone_name [] = false
zone_name (c ∷ cs) = equal (c ∷ cs) (codes "UTC") || (is_letter c && zone_rest false cs)

-- `canonicalInstant`: `true` is a nil error.
unfoldable pub canonical_instant : Instant → Bool → Bool
canonical_instant t required =
    if t.nanos == 0 then not required else t.utc && not t.monotonic && ltb t.nanos year_limit

-- `validateUpdate`, with `time.LoadLocation` as a parameter.
unfoldable pub validate_update : (Bytes → Option Location) → Update → Option Location
validate_update load_location update =
    if length update.time_zone == 0
      || ltb maximum_zone_bytes (length update.time_zone)
      || not (zone_name update.time_zone)
    then none
    else elim (load_location update.time_zone) [
      | none ↦ none
      | some location ↦
          if not (equal location.name update.time_zone)
          then none
          else if leb minutes_per_day update.local_minute
          then none
          else some location
    ]
