-- ===== src/Jobs/Changes/Effects.antt =====
-- internal/jobs/store.go: what an enqueue, a claim and a new phase leave when they succeed.
use mathlib.Core.Path.{subst}
use acme_mux.Prelude.{
  Bool, true, false, not, ◌&&◌, ◌||◌, ◌≡◌, sym, ap, ◌∙◌, inl, inr, List, [], ◌∷◌, Option, none,
  some, arith, ok, Option-cases, Bool-cases,
}
use acme_mux.Prelude.Bytes.{Bytes, equal}
use acme_mux.Jobs.Types.{
  Kind, Phase, Instant, Request, RequestItem, Operation, failure, invalid, state_changed, is_active,
  is_pending, is_running, is_queued, valid_phase_transition,
}
use acme_mux.Jobs.Validate.{validate_id, validate_request, validate_time}
use acme_mux.Jobs.Operation.{valid_kind, is_queued_phase}
use acme_mux.Jobs.Database.{Row, Tables, Session, query, execute, update_one, transact}
use acme_mux.Prelude.Transaction.Laws.{
  refuse_if-eq-ok, tx_bind-eq-ok, tx_guard-eq-ok, statement-eq-ok, transact-eq-ok,
}
use acme_mux.Jobs.Database.Laws.{update_one-eq-ok}
use acme_mux.Jobs.Store.{format_time}
use acme_mux.Jobs.Store.Stored.{stored, load_operation-eq-ok}
use acme_mux.Jobs.Changes.{
  replace_completed, queued_row, no_detail, insert_requested, insert_all_requested, enqueue_body,
  enqueue_kind, has_id, queued_id, claimed, claim_id, claim_body, claim, row_of, phase_eq,
  update_phase_of, update_phase_body, update_phase,
}

-- The latest row is gone or was never there, or it may be replaced.
abbrev pub Free : Option Row → Type 0
Free none = Unit
Free (some row) = (is_active row.state ≡ false) × (is_pending row.inventory_state ≡ false)

insert_all_requested-keeps :
    (id : Bytes) (items : List Bytes) (details : List RequestItem) (s : Session) {w : Unit {0}}
    {u : Session}
    → insert_all_requested id items details s ≡ ok (w, u)
    → u.tables.latest ≡ s.tables.latest
unfolding insert_all_requested
insert_all_requested-keeps id [] details s h = ground arith
insert_all_requested-keeps id (item ∷ items) [] s h =
    let (_, s', e, h') = tx_bind-eq-ok (insert_requested id item (no_detail item)) _ s h in
    insert_all_requested-keeps id items [] s' h'
    ∙ ap (λ t. t.latest) (statement-eq-ok failure _ s e).1
insert_all_requested-keeps id (item ∷ items) (d ∷ ds) s h =
    let (_, s', e, h') = tx_bind-eq-ok (insert_requested id item d) _ s h in
    insert_all_requested-keeps id items ds s' h'
    ∙ ap (λ t. t.latest) (statement-eq-ok failure _ s e).1

replace_completed-Free :
    (row : Option Row) (s : Session) {w : Unit {0}} {u : Session}
    → replace_completed row s ≡ ok (w, u)
    → Free row
replace_completed-Free none s h = tt
replace_completed-Free (some row) s h =
    elim (Bool-cases (is_active row.state || is_pending row.inventory_state)) [
      | inl e ↦ absurd (ground arith)
      | inr e ↦ (ground arith, ground arith)
    ]

-- A successful enqueue found the place free, left the queued row there, and returns what it stored.
pub enqueue_kind-effect :
    (script : List Bool) (id : Bytes) (kind : Kind) (request : Request) (now : Instant)
    (t after : Tables) {o : Operation}
    → enqueue_kind script id kind request now t ≡ (ok o, after)
    → Free t.latest × (after.latest ≡ some (queued_row id kind request now)) × (stored after ≡ ok o)
unfolding enqueue_kind enqueue_body
enqueue_kind-effect script id kind request now t after {o} h =
    let (_, h₀) =
      refuse_if-eq-ok
        (not
          (validate_id id && valid_kind kind && validate_request request && validate_time now true))
        invalid (transact failure script (enqueue_body id kind request now)) t h in
    let (s, u, at_s, ran, at_u) =
      transact-eq-ok failure script (enqueue_body id kind request now) t after h₀ in
    let (row, s₁, q, h₁) = tx_bind-eq-ok (query (λ t. t.latest)) _ s ran in
    let (_, s₂, e₂, h₂) = tx_bind-eq-ok (replace_completed row) _ s₁ h₁ in
    let put = λ (t : Tables). record t { latest = some (queued_row id kind request now) } in
    let (_, s₃, e₃, h₃) = tx_bind-eq-ok (execute put) _ s₂ h₂ in
    let (_, s₄, e₄, h₄) =
      tx_bind-eq-ok (insert_all_requested id request.items request.details) _ s₃ h₃ in
    let (same, is) = load_operation-eq-ok s₄ h₄ in
    let row_is = (statement-eq-ok failure (λ t. (t.latest, t)) s q).0 ∙ ap (λ t. t.latest) at_s in
    let put_there = (statement-eq-ok failure (λ t. (tt, put t)) s₂ e₃).1 in
    let reached = sym same ∙ at_u in
    (
      subst Free row_is (replace_completed-Free row s₁ e₂),
      ap (λ t. t.latest) (sym reached)
          ∙ insert_all_requested-keeps id request.items request.details s₃ e₄
          ∙ ap (λ t. t.latest) put_there,
      subst (λ t. stored t ≡ ok o) reached is,
    )

-- The row with an ID is the latest row, with that ID.
row_of-eq-some :
    (id : Bytes) (latest : Option Row) {row : Row}
    → row_of id latest ≡ some row
    → (latest ≡ some row) × (equal row.operation_id id ≡ true)
row_of-eq-some id none h = absurd (ground arith)
row_of-eq-some id (some r) {row} h = elim (Bool-cases (equal r.operation_id id)) [
  | inl e ↦
      let same : r ≡ row = ground arith in
      (ap some same, subst (λ x. equal x.operation_id id ≡ true) same e)
  | inr e ↦ absurd (ground arith)
]

claim_id-effect :
    (now : Instant) (wanted : Option Bytes) (s : Session) {o : Operation} {u : Session}
    → claim_id now wanted s ≡ ok (o, u)
    → (row : Row) × (s.tables.latest ≡ some row)
      × (is_queued row.state ≡ true)
      × (is_queued_phase row.phase ≡ true)
      × (u.tables ≡ record (s.tables) { latest = some (claimed now row) })
      × (stored u.tables ≡ ok o)
claim_id-effect now none s h = absurd (ground arith)
claim_id-effect now (some id) s {o} h =
    let test = λ (row : Row). has_id id row && is_queued row.state && is_queued_phase row.phase in
    let (_, s', e, h') = tx_bind-eq-ok (update_one test (claimed now)) _ s h in
    let (row, at, fits, changed) = update_one-eq-ok test (claimed now) s e in
    let (same, is) = load_operation-eq-ok s' h' in
    (
      row,
      at,
      ground arith,
      ground arith,
      same ∙ changed,
      subst (λ t. stored t ≡ ok o) (sym same) is,
    )

-- A successful claim found a queued operation, marked it as running, and returns what it stored.
pub claim-effect :
    (script : List Bool) (now : Instant) (t after : Tables) {o : Operation}
    → claim script now t ≡ (ok o, after)
    → (row : Row) × (t.latest ≡ some row)
      × (is_queued row.state ≡ true)
      × (is_queued_phase row.phase ≡ true)
      × (after ≡ record t { latest = some (claimed now row) })
      × (stored after ≡ ok o)
unfolding claim claim_body
claim-effect script now t after {o} h =
    let (_, h₀) =
      refuse_if-eq-ok (not (validate_time now true)) invalid
        (transact failure script (claim_body now)) t h in
    let (s, u, at_s, ran, at_u) = transact-eq-ok failure script (claim_body now) t after h₀ in
    let find = λ (t : Tables). queued_id t.latest in
    let (wanted, s₁, q, h₁) = tx_bind-eq-ok (query find) (claim_id now) s ran in
    let (row, at, queued, phase, changed, is) = claim_id-effect now wanted s₁ h₁ in
    let same = (statement-eq-ok failure (λ t. (find t, t)) s q).1 ∙ at_s in
    (
      row,
      ap (λ t. t.latest) (sym same) ∙ at,
      queued,
      phase,
      sym at_u ∙ changed ∙ ap (λ (t : Tables). record t { latest = some (claimed now row) }) same,
      subst (λ t. stored t ≡ ok o) at_u is,
    )

abbrev pub in_phase : Phase → Instant → Row → Row
in_phase phase now row = record row { phase = phase; updated_at = format_time now }

-- A phase update that succeeds found the operation running in a phase that the new one may follow.
pub update_phase-effect :
    (script : List Bool) (id : Bytes) (phase : Phase) (now : Instant) (t after : Tables)
    {w : Unit {0}}
    → update_phase script id phase now t ≡ (ok w, after)
    → (row : Row) × (t.latest ≡ some row)
      × (equal row.operation_id id ≡ true)
      × (is_running row.state ≡ true)
      × (valid_phase_transition row.phase phase ≡ true)
      × (after ≡ record t { latest = some (in_phase phase now row) })
unfolding update_phase update_phase_body
update_phase-effect script id phase now t after h =
    let (_, h₀) =
      refuse_if-eq-ok (not (validate_id id && validate_time now true)) invalid
        (transact failure script (update_phase_body id phase now)) t h in
    let (s, u, at_s, ran, at_u) =
      transact-eq-ok failure script (update_phase_body id phase now) t after h₀ in
    let find = λ (t : Tables). row_of id t.latest in
    let (current, s₁, q, h₁) = tx_bind-eq-ok (query find) (update_phase_of id phase now) s ran in
    let (is_current, same) = statement-eq-ok failure (λ t. (find t, t)) s q in
    elim (Option-cases current) [
      | inl none_is ↦ absurd (ground arith)
      | inr (c, e) ↦
          let h₂ : update_phase_of id phase now (some c) s₁ ≡ ok (tt, u) =
            subst (λ x. update_phase_of id phase now x s₁ ≡ ok (tt, u)) e h₁ in
          let test =
            λ (row : Row). has_id id row && is_running row.state && phase_eq row.phase c.phase in
          let (allowed, h₃) =
            tx_guard-eq-ok (not (is_running c.state && valid_phase_transition c.phase phase))
              state_changed _ s₁ h₂ in
          let (row, at, fits, changed) = update_one-eq-ok test (in_phase phase now) s₁ h₃ in
          let back = same ∙ at_s in
          let at_t = ap (λ t. t.latest) (sym back) ∙ at in
          let found = row_of-eq-some id t.latest (ap find (sym at_s) ∙ sym is_current ∙ e) in
          let one : c ≡ row = ground arith in
          (
            row,
            at_t,
            ground arith,
            ground arith,
            subst (λ r. valid_phase_transition r.phase phase ≡ true) one (ground arith),
            sym at_u
                ∙ changed
                ∙ ap (λ (t : Tables). record t { latest = some (in_phase phase now row) }) back,
          )
    ]
