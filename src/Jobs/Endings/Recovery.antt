-- ===== src/Jobs/Endings/Recovery.antt =====
-- internal/jobs/store.go: what a recovery and a reconciliation leave when they succeed.
use mathlib.Core.Path.{subst, subst₂}
use acme_mux.Prelude.{
  Bool, true, false, not, ◌&&◌, ◌≡◌, sym, ap, ◌∙◌, inl, inr, List, Option, none, some, arith,
  Result, ok, Bool-cases,
}
use acme_mux.Prelude.Bytes.{Bytes}
use acme_mux.Jobs.Types.{
  Fault, ItemState, InventoryResult, Instant, RequestItem, Operation, failure, invalid, is_pending,
  is_running, is_uncertain,
}
use acme_mux.Jobs.Validate.{validate_id, validate_inventory, validate_time}
use acme_mux.Jobs.Database.{Row, Tables, Session, query, update_one, transact}
use acme_mux.Prelude.Transaction.Laws.{tx_bind-eq-ok, statement-eq-ok, transact-eq-ok}
use acme_mux.Jobs.Database.Laws.{update_one-eq-ok}
use acme_mux.Jobs.Store.{load_operation, load_requested_items, requested_items, requested_of}
use acme_mux.Jobs.Store.Stored.{stored, load_operation-eq-ok}
use acme_mux.Jobs.Changes.{has_id}
use acme_mux.Prelude.Transaction.Laws.{refuse_if-eq-ok}
use acme_mux.Jobs.Endings.{
  insert_results, uniform, service_restarted, interrupted_row, interrupt_running_row, interrupt_row,
  interrupt_body, interrupt_running, is_running_row, reconciled, reconcile_body,
  complete_reconciliation,
}
use acme_mux.Jobs.Endings.Effects.{insert_results-keeps, Ended, runs_as}

-- What a recovery leaves: nothing was running and nothing has changed, or the running operation was interrupted.
abbrev pub Recovered : Instant → Tables → Tables → Option Operation → Type 0
Recovered now t after none = (after ≡ t) × (is_running_row t.latest ≡ false)
Recovered now t after (some o) = Ended (λ row. is_running row.state) (interrupted_row now) t after o

interrupt_running_row-effect :
    (now : Instant) (id : Bytes) (s : Session) {out : Option Operation} {u : Session}
    → interrupt_running_row now id s ≡ ok (out, u)
    → Recovered now s.tables u.tables out
unfolding interrupt_running_row load_requested_items
interrupt_running_row-effect now id s {out} {u} h =
    let read : Tables → (List Bytes × List RequestItem) × Tables =
      λ t. (requested_items (requested_of id t.requested), t) in
    let (requested, s₁, e₁, h₁) = tx_bind-eq-ok (load_requested_items id) _ s h in
    let (_, same) = statement-eq-ok failure read s e₁ in
    let items = uniform ItemState.ambiguous service_restarted requested.0 in
    let (_, s₂, e₂, h₂) = tx_bind-eq-ok (update_one (runs_as id) (interrupted_row now)) _ s₁ h₁ in
    let (row, at, fits, changed) = update_one-eq-ok (runs_as id) (interrupted_row now) s₁ e₂ in
    let (_, s₃, e₃, h₃) = tx_bind-eq-ok (insert_results id items) _ s₂ h₂ in
    let (latest, kept) = insert_results-keeps id items s₂ e₃ in
    let (o, s₄, e₄, h₄) = tx_bind-eq-ok load_operation _ s₃ h₃ in
    let (loaded, is) = load_operation-eq-ok s₃ e₄ in
    let ends : (some o ≡ out) × (s₄ ≡ u) = ground arith in
    let reached = ap (λ s. s.tables) (sym ends.1) ∙ loaded in
    let whole : Recovered now s.tables u.tables (some o) = (
      row,
      ap (λ t. t.latest) (sym same) ∙ at,
      ground arith,
      ap (λ t. t.latest) reached ∙ latest ∙ ap (λ t. t.latest) changed,
      ap (λ t. t.requested) reached
          ∙ kept
          ∙ ap (λ t. t.requested)
              (changed
                ∙ ap (λ (t : Tables). record t { latest = some (interrupted_row now row) }) same),
      subst (λ t. stored t ≡ ok o) (sym reached) is,
    ) in
    subst (Recovered now s.tables u.tables) ends.0 whole

-- A recovery that finds nothing to interrupt.
at_rest :
    (now : Instant) (s u : Session) {out : Option Operation}
    → is_running_row s.tables.latest ≡ false
    → ◌≡◌ {A = Result Fault (Option Operation × Session)} (ok (none, s)) (ok (out, u))
    → Recovered now s.tables u.tables out
at_rest now s u {out} rest h =
    let ends : (none ≡ out) × (s ≡ u) = ground arith in
    subst (Recovered now s.tables u.tables) ends.0 (ap (λ s. s.tables) (sym ends.1), rest)

interrupt_row-effect :
    (now : Instant) (row : Option Row) (s : Session) {out : Option Operation} {u : Session}
    → s.tables.latest ≡ row
    → interrupt_row now row s ≡ ok (out, u)
    → Recovered now s.tables u.tables out
interrupt_row-effect now none s {out} {u} at_row h = at_rest now s u (ap is_running_row at_row) h
interrupt_row-effect now (some row) s {out} {u} at_row h =
    elim (Bool-cases (is_running row.state)) [
      | inl e ↦ interrupt_running_row-effect now row.operation_id s {u = u} (ground arith)
      | inr e ↦ at_rest now s u (ap is_running_row at_row ∙ e) (ground arith)
    ]

pub interrupt_running-effect :
    (script : List Bool) (now : Instant) (t after : Tables) {out : Option Operation}
    → interrupt_running script now t ≡ (ok out, after)
    → Recovered now t after out
unfolding interrupt_running interrupt_body
interrupt_running-effect script now t after {out} h =
    let (_, h₀) =
      refuse_if-eq-ok (not (validate_time now true)) invalid
        (transact failure script (interrupt_body now)) t h in
    let (s, u, at_s, ran, at_u) = transact-eq-ok failure script (interrupt_body now) t after h₀ in
    let (row, s₁, q, h₁) = tx_bind-eq-ok (query (λ t. t.latest)) (interrupt_row now) s ran in
    let (row_is, unread) = statement-eq-ok failure (λ t. (t.latest, t)) s q in
    let at_row : s₁.tables.latest ≡ row = ap (λ t. t.latest) unread ∙ sym row_is in
    subst₂ (λ a b. Recovered now a b out) (unread ∙ at_s) at_u
      (interrupt_row-effect now row s₁ at_row h₁)

rests :
    (now : Instant) (t after : Tables) (out : Option Operation)
    → Recovered now t after out
    → is_running_row after.latest ≡ false
rests now t after none (same, rest) = ap (λ t. is_running_row t.latest) same ∙ rest
rests now t after (some o) (row, _, _, left, _, _) = ap is_running_row left

-- Behind a successful `InterruptRunning` no operation is running.
pub interrupt_running_stops :
    (script : List Bool) (now : Instant) (t after : Tables) {out : Option Operation}
    → interrupt_running script now t ≡ (ok out, after)
    → is_running_row after.latest ≡ false
interrupt_running_stops script now t after {out} h =
    rests now t after out (interrupt_running-effect script now t after h)

abbrev pub waits_as : Bytes → Row → Bool
waits_as id row = has_id id row && is_uncertain row.state && is_pending row.inventory_state

-- A reconciliation that succeeds changed the inventory of a row that waited for it, and no more.
pub complete_reconciliation-effect :
    (script : List Bool) (id : Bytes) (inventory : InventoryResult) (now : Instant)
    (t after : Tables) {o : Operation}
    → complete_reconciliation script id inventory now t ≡ (ok o, after)
    → (row : Row) × (t.latest ≡ some row)
      × (waits_as id row ≡ true)
      × (validate_inventory inventory false ≡ true)
      × (after ≡ record t { latest = some (reconciled inventory now row) })
      × (stored after ≡ ok o)
unfolding complete_reconciliation reconcile_body
complete_reconciliation-effect script id inventory now t after {o} h =
    let (good, h₀) =
      refuse_if-eq-ok
        (not (validate_id id && validate_inventory inventory false && validate_time now true))
        invalid (transact failure script (reconcile_body id inventory now)) t h in
    let (s, u, at_s, ran, at_u) =
      transact-eq-ok failure script (reconcile_body id inventory now) t after h₀ in
    let (_, s₁, e, h₁) =
      tx_bind-eq-ok (update_one (waits_as id) (reconciled inventory now)) _ s ran in
    let (row, at, fits, changed) = update_one-eq-ok (waits_as id) (reconciled inventory now) s e in
    let (same, is) = load_operation-eq-ok s₁ h₁ in
    (
      row,
      ap (λ t. t.latest) (sym at_s) ∙ at,
      fits,
      ground arith,
      sym at_u
          ∙ same
          ∙ changed
          ∙ ap (λ (t : Tables). record t { latest = some (reconciled inventory now row) }) at_s,
      subst (λ t. stored t ≡ ok o) (sym same ∙ at_u) is,
    )
