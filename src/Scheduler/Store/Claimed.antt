-- ===== src/Scheduler/Store/Claimed.antt =====
-- internal/scheduler/store.go: the row that ClaimDue finds, and the one that it leaves.
use acme_mux.Prelude.{◌<◌, ◌≤◌, Bool, true, ◌≡◌, refl, List, Option, some, arith, ok}
use acme_mux.Prelude.Bytes.{Bytes}
use acme_mux.Scheduler.Types.{Instant, Location, Claim}
use acme_mux.Scheduler.Row.{
  Row, Trigger, idle, claiming, other, TimeText, blank, stamp, malformed, is_idle, parse_instant,
  format_instant,
}
use acme_mux.Scheduler.Calculate.{next_occurrence, occurrence_local_date}
use acme_mux.Scheduler.Calculate.First.{next_occurrence-FirstAfter}
use acme_mux.Scheduler.Store.{Tables, claim_due}
use acme_mux.Scheduler.Store.Fresh.{Behind, was_triggered-Behind}
use acme_mux.Scheduler.Store.Effects.{claim_due-effect}

-- The row that a claim finds: enabled, idle, and due for the occurrence that is claimed, whose date is
-- behind that of the last trigger.
abbrev pub IsDue : Claim → Instant → Location → Row → Type 0
IsDue claim now location row =
    (row.enabled ≡ 1)
    × (row.trigger ≡ idle)
    × (row.next_evaluation ≡ format_instant claim.occurrence)
    × (claim.occurrence.nanos ≤ now.nanos)
    × Behind row.last_trigger_date (location.clock claim.occurrence.nanos).date

-- The row that it leaves: claimed for the occurrence, and to be evaluated next at a later instant.
abbrev pub IsHeld : Claim → Instant → Instant → Row → Row → Type 0
IsHeld claim now next row left =
    (left.enabled ≡ 1)
    × (left.trigger ≡ claiming)
    × (left.claimed_occurrence ≡ format_instant claim.occurrence)
    × (left.next_evaluation ≡ format_instant next)
    × (now.nanos < next.nanos)
    × (left.last_trigger_date ≡ row.last_trigger_date)
    × (left.time_zone ≡ row.time_zone)
    × (left.local_minute ≡ row.local_minute)

idle_iff : (trigger : Trigger) → is_idle trigger ≡ true → trigger ≡ idle
idle_iff idle h = refl
idle_iff claiming h = absurd (ground arith)
idle_iff other h = absurd (ground arith)

parsed_from :
    (text : TimeText) {t : Instant} → parse_instant text true ≡ some t → text ≡ format_instant t
unfolding parse_instant
parsed_from blank h = absurd (ground arith)
parsed_from malformed h = absurd (ground arith)
parsed_from (stamp nanos utc) {t} h = ground arith

module _ (load_location : Bytes → Option Location) where
  -- What a claim has found and left.
  abbrev pub Takes : Claim → Instant → Tables → Tables → Type 0
  Takes claim now t u =
      (row : Row) × (left : Row) × (location : Location) × (next : Instant) × (t ≡ some row)
      × (u ≡ some left)
      × (load_location row.time_zone ≡ some location)
      × (next_occurrence now location row.local_minute ≡ some next)
      × IsDue claim now location row
      × IsHeld claim now next row left

  -- A claim that succeeds has found a row that is enabled, idle and due for the occurrence claimed, and
  -- whose last trigger, if any, has an earlier local date than the occurrence; it leaves the row in the
  -- state claiming, with that occurrence as the one claimed, with the next occurrence in the place,
  -- which is after the instant of the claim, as the next evaluation, and with the date of the last
  -- trigger, the place and the minute that it had.
  pub claim_due-Takes :
      (script : List Bool) (now : Instant) (t u : Tables) {claim : Claim}
      → claim_due load_location script now t ≡ (ok claim, u)
      → Takes claim now t u
  claim_due-Takes script now t u {claim} h =
      let (
        row,
        at_row,
        (location, next, (place, at_next), enabled, free, parsed, is_due, is_new, left),
      ) =
        claim_due-effect load_location script now t u h in
      let ((_, _, _, later, _), _, _) =
        next_occurrence-FirstAfter now location row.local_minute at_next in
      let on : row.enabled ≡ 1 = ground arith in
      (
        row,
        _,
        location,
        next,
        at_row,
        left,
        place,
        at_next,
        (
          on,
          idle_iff row.trigger free,
          parsed_from row.next_evaluation parsed,
          is_due,
          was_triggered-Behind row.last_trigger_date
              (occurrence_local_date claim.occurrence location) is_new,
        ),
        (on, refl, refl, refl, later, refl, refl, refl),
      )
