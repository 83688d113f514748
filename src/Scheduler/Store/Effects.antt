-- ===== src/Scheduler/Store/Effects.antt =====
-- internal/scheduler/store.go: what a claim and its completion leave.
use mathlib.Core.Path.{subst}
use acme_mux.Prelude.{
  ◌≤◌, Bool, true, false, not, ◌&&◌, ◌||◌, ◌≡◌, sym, ap, ◌∙◌, inl, inr, List, Option, none, some,
  arith, ◌==◌, Result, ok, err, Option-cases, Bool-cases,
}
use acme_mux.Prelude.Bytes.{Bytes}
use acme_mux.Prelude.Transaction.{Session}
use acme_mux.Prelude.Transaction.Laws.{
  tx_bind-eq-ok, statement-eq-ok, transact-eq-ok, refuse_if-eq-ok,
}
use acme_mux.Scheduler.Types.{Instant, Location, Schedule, Claim, Fault, failure, canonical_instant}
use acme_mux.Scheduler.Row.{Row, parse_instant, format_instant, is_idle, after, time_eq, read_table}
use acme_mux.Scheduler.Calculate.{next_occurrence, occurrence_local_date}
use acme_mux.Scheduler.Store.{
  Tables, ◌>>◌, pure, transact, query, execute, update_one, change_row, was_triggered, coalesced,
  claimed_row, claim_at, claimed, holds_claim, completed, zone_of, load_schedule, claim_schedule,
  claim_body, claim_due, complete_in, complete_body,
}
use acme_mux.Scheduler.Store.Loaded.{update_one-eq-ok, Shows, load_schedule-eq-ok, configured_row}

claimed-eq-ok :
    (r : Result Fault (Option Claim)) (u after_claim : Tables) (claim : Claim)
    → ◌≡◌ {A = Result Fault Claim × Tables} (claimed r, u) (ok claim, after_claim)
    → (r ≡ ok (some claim)) × (u ≡ after_claim)
claimed-eq-ok (err e) u after_claim claim h = absurd (ground arith)
claimed-eq-ok (ok none) u after_claim claim h = absurd (ground arith)
claimed-eq-ok (ok (some c)) u after_claim claim h = (ground arith, ground arith)

module _ (load_location : Bytes → Option Location) where
  -- The place, and the next occurrence there.
  abbrev pub Plans : Row → Instant → Location → Instant → Type 0
  Plans row now location next =
      (load_location row.time_zone ≡ some location)
      × (next_occurrence now location row.local_minute ≡ some next)

  -- A claim was made of a due occurrence whose date is behind that of the last trigger.
  abbrev pub ClaimedFrom : Row → Instant → Claim → Tables → Type 0
  ClaimedFrom row now claim after_claim =
      (location : Location) × (next : Instant) × Plans row now location next
      × ((row.enabled == 1) ≡ true)
      × (is_idle row.trigger ≡ true)
      × (parse_instant row.next_evaluation true ≡ some claim.occurrence)
      × (claim.occurrence.nanos ≤ now.nanos)
      × (was_triggered row.last_trigger_date (occurrence_local_date claim.occurrence location)
          ≡ false)
      × (after_claim ≡ some (claimed_row next claim.occurrence now row))

  -- No claim was made, and the next evaluation was moved on.
  abbrev pub CoalescedFrom : Row → Instant → Tables → Type 0
  CoalescedFrom row now after_claim =
      (location : Location) × (next : Instant) × Plans row now location next
      × (after_claim ≡ some (coalesced next now row))

  abbrev pub Claims : Row → Instant → Option Claim → Tables → Type 0
  Claims row now none after_claim = CoalescedFrom row now after_claim
  Claims row now (some claim) after_claim = ClaimedFrom row now claim after_claim

  claim_at-Claims :
      (row : Row) (x : Schedule) (now : Instant) (location : Location) (next : Instant)
      (s : Session Tables) {out : Option Claim} {u : Session Tables}
      → s.tables ≡ some row
      → Shows load_location row x
      → x.enabled ≡ true
      → after x.next_evaluation now ≡ false
      → Plans row now location next
      → claim_at x now location next s ≡ ok (out, u)
      → Claims row now out u.tables
  claim_at-Claims row x now location next s {out} {u} at_row shows enabled is_due plans h =
      let (_, on, _, _, last_is, _, next_is) = shows in
      let date = occurrence_local_date x.next_evaluation location in
      let move = change_row (coalesced next now) in
      let test = λ (r : Row).
        r.enabled == 1
        && is_idle r.trigger
        && time_eq r.next_evaluation (format_instant x.next_evaluation) in
      let claim : Claim = record { occurrence = x.next_evaluation } in
      let change = claimed_row next x.next_evaluation now in
      elim (Bool-cases (was_triggered x.last_trigger_date date)) [
        | inl old ↦
            let ran : (execute move >> pure none) s ≡ ok (out, u) = ground arith in
            let (_, v, e, rest) = tx_bind-eq-ok (execute move) _ s ran in
            let moved = (statement-eq-ok failure (λ t. (tt, move t)) s e).1 in
            let ends : (none ≡ out) × (v ≡ u) = ground arith in
            subst (λ o. Claims row now o u.tables) ends.0
              (location, next, plans, ap (λ w. w.tables) (sym ends.1) ∙ moved ∙ ap move at_row)
        | inr fresh ↦
            let ran : (update_one test change >> pure (some claim)) s ≡ ok (out, u) =
              ground arith in
            let (_, v, e, rest) = tx_bind-eq-ok (update_one test change) _ s ran in
            let (found, at_found, fits, left) = update_one-eq-ok test change s e in
            let ends : (some claim ≡ out) × (v ≡ u) = ground arith in
            let same : found ≡ row = ground arith in
            subst (λ o. Claims row now o u.tables) ends.0
              (
                location,
                next,
                plans,
                sym on ∙ enabled,
                subst (λ r. is_idle r.trigger ≡ true) same (ground arith),
                subst (λ b. parse_instant row.next_evaluation b ≡ some x.next_evaluation)
                    (sym on ∙ enabled) next_is,
                ground arith,
                subst (λ l. was_triggered l date ≡ false) last_is fresh,
                ap (λ w. w.tables) (sym ends.1) ∙ left ∙ ap (λ r. some (change r)) same,
              )
      ]

  claim_schedule-Claims :
      (x : Schedule) (now : Instant) (s : Session Tables) {out : Option Claim} {u : Session Tables}
      → read_table load_location s.tables now ≡ ok x
      → claim_schedule load_location x now s ≡ ok (out, u)
      → (row : Row) × (s.tables ≡ some row) × Claims row now out u.tables
  unfolding claim_schedule
  claim_schedule-Claims x now s {out} {u} read h =
      elim (Bool-cases
        (not x.configured || not x.enabled || x.claiming || after x.next_evaluation now)) [
          | inl refused ↦ absurd (ground arith)
          | inr goes ↦
              let (row, at_row, shows) =
                configured_row load_location s.tables now read (ground arith) in
              elim (Option-cases (load_location x.time_zone)) [
                | inl e ↦ absurd (ground arith)
                | inr (location, e) ↦
                    elim (Option-cases (next_occurrence now location x.local_minute)) [
                      | inl f ↦ absurd (ground arith)
                      | inr (next, f) ↦
                          let (_, _, zone, minute, _, _, _) = shows in
                          let plans : Plans row now location next = (
                            subst (λ z. load_location z ≡ some location) zone e,
                            subst (λ m. next_occurrence now location m ≡ some next) minute f,
                          ) in
                          (
                            row,
                            at_row,
                            claim_at-Claims row x now location next s {u = u} at_row shows
                                (ground arith) (ground arith) plans (ground arith),
                          )
                    ]
              ]
        ]

  pub claim_body-Claims :
      (now : Instant) (s : Session Tables) {out : Option Claim} {u : Session Tables}
      → claim_body load_location now s ≡ ok (out, u)
      → (row : Row) × (s.tables ≡ some row) × Claims row now out u.tables
  unfolding claim_body
  claim_body-Claims now s {out} {u} h =
      let (x, v, e, h') = tx_bind-eq-ok (load_schedule load_location now) _ s h in
      let (same, read) = load_schedule-eq-ok load_location now s e in
      subst (λ t. (row : Row) × (t ≡ some row) × Claims row now out u.tables) same
        (claim_schedule-Claims x now v
          (subst (λ t. read_table load_location t now ≡ ok x) (sym same) read) h')

  -- A claim that succeeds was made of an idle row that is due, in its place and with its next occurrence
  -- there, for a date behind that of the last trigger, and leaves the row claimed.
  pub claim_due-effect :
      (script : List Bool) (now : Instant) (t after_claim : Tables) {claim : Claim}
      → claim_due load_location script now t ≡ (ok claim, after_claim)
      → (row : Row) × (t ≡ some row) × ClaimedFrom row now claim after_claim
  unfolding claim_due
  claim_due-effect script now t after_claim {claim} h =
      let inner : Tables → Result Fault Claim × Tables = λ t.
        let (r, u) = transact failure script (claim_body load_location now) t in (claimed r, u) in
      let (_, h₁) = refuse_if-eq-ok (not (canonical_instant now true)) failure inner t h in
      let run = transact failure script (claim_body load_location now) t in
      let (found, left) = claimed-eq-ok run.0 run.1 after_claim claim h₁ in
      let whole : run ≡ (ok (some claim), after_claim) = λ i. (found i, left i) in
      let (s, u, at_s, ran, at_u) =
        transact-eq-ok failure script (claim_body load_location now) t after_claim whole in
      let (row, at_row, claims) = claim_body-Claims now s ran in
      (row, sym at_s ∙ at_row, subst (ClaimedFrom row now claim) at_u claims)

  -- The end of a claim.
  pub complete_body-effect :
      (claim : Claim) (now : Instant) (s : Session Tables) {w : Unit {0}} {u : Session Tables}
      → complete_body load_location claim now s ≡ ok (w, u)
      → (row : Row) × (location : Location) × (s.tables ≡ some row)
        × (load_location row.time_zone ≡ some location)
        × (holds_claim claim row ≡ true)
        × (u.tables ≡ some (completed now (occurrence_local_date claim.occurrence location) row))
  unfolding complete_body
  complete_body-effect claim now s {w} {u} h =
      let (zone, v, e, h₁) =
        tx_bind-eq-ok (query zone_of) (complete_in load_location claim now) s h in
      let (zone_is, same) = statement-eq-ok failure (λ t. (zone_of t, t)) s e in
      elim (Option-cases zone) [
        | inl p ↦ absurd (ground arith)
        | inr (z, p) ↦ elim (Option-cases (load_location z)) [
          | inl q ↦ absurd (ground arith)
          | inr (location, q) ↦
              let change = completed now (occurrence_local_date claim.occurrence location) in
              let ran : update_one (holds_claim claim) change v ≡ ok (w, u) = ground arith in
              let (row, at_row, fits, left) = update_one-eq-ok (holds_claim claim) change v ran in
              let at_s = sym same ∙ at_row in
              let z_is : z ≡ row.time_zone = ground arith in
              (row, location, at_s, subst (λ z. load_location z ≡ some location) z_is q, fits, left)
        ]
      ]
