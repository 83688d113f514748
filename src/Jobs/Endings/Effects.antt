-- ===== src/Jobs/Endings/Effects.antt =====
-- internal/jobs/store.go: what the end of an operation leaves when it succeeds.
use mathlib.Core.Path.{subst, subst₂}
use acme_mux.Prelude.{
  Bool, true, false, not, ◌&&◌, ◌≡◌, sym, ap, ◌∙◌, List, [], ◌∷◌, some, arith, ok,
}
use acme_mux.Prelude.Bytes.{Bytes}
use acme_mux.Jobs.Types.{
  State, ItemResult, ExecutorResult, Instant, RequestItem, Operation, failure, invalid,
  state_changed, is_running, is_uncertain,
}
use acme_mux.Jobs.Validate.{
  validate_id, validate_executor_result, validate_result_scope, validate_time,
}
use acme_mux.Jobs.Database.{Row, Tables, Session, ◌>>◌, statement, update_one, transact}
use acme_mux.Prelude.Transaction.Laws.{
  tx_bind-eq-ok, tx_guard-eq-ok, statement-eq-ok, transact-eq-ok,
}
use acme_mux.Jobs.Database.Laws.{update_one-eq-ok}
use acme_mux.Jobs.Store.{load_operation, load_requested_items, requested_items, requested_of}
use acme_mux.Jobs.Store.Stored.{stored, load_operation-eq-ok}
use acme_mux.Jobs.Changes.{refuse_if, has_id, row_of}
use acme_mux.Prelude.Transaction.Laws.{refuse_if-eq-ok}
use acme_mux.Jobs.Endings.{
  insert_result, insert_results, final_items, finished, is_running_row, finish_body,
  valid_uncertain, finish_with, finish, uncertain_result, finish_uncertain,
}

pub insert_results-keeps :
    (id : Bytes) (items : List ItemResult) (s : Session) {w : Unit {0}} {u : Session}
    → insert_results id items s ≡ ok (w, u)
    → (u.tables.latest ≡ s.tables.latest) × (u.tables.requested ≡ s.tables.requested)
unfolding insert_results
insert_results-keeps id [] s h = (ground arith, ground arith)
insert_results-keeps id (item ∷ items) s h =
    let (_, s', e, h') = tx_bind-eq-ok (insert_result id item) _ s h in
    let (latest, requested) = insert_results-keeps id items s' h' in
    let one = (statement-eq-ok failure _ s e).1 in
    (latest ∙ ap (λ t. t.latest) one, requested ∙ ap (λ t. t.requested) one)

-- The end of an operation: the row it ran in, the row it leaves, and what is stored.
abbrev pub Ended : (Row → Bool) → (Row → Row) → Tables → Tables → Operation → Type 0
Ended test change t after o =
    (row : Row) × (t.latest ≡ some row)
    × (test row ≡ true)
    × (after.latest ≡ some (change row))
    × (after.requested ≡ t.requested)
    × (stored after ≡ ok o)

-- The tail that an end and a recovery share.
write_end :
    (test : Row → Bool) (change : Row → Row) (id : Bytes) (items : List ItemResult) (s : Session)
    {o : Operation} {u : Session}
    → (update_one test change >> (insert_results id items >> load_operation)) s ≡ ok (o, u)
    → Ended test change s.tables u.tables o
write_end test change id items s {o} h =
    let (_, s₁, e₁, h₁) = tx_bind-eq-ok (update_one test change) _ s h in
    let (row, at, fits, changed) = update_one-eq-ok test change s e₁ in
    let (_, s₂, e₂, h₂) = tx_bind-eq-ok (insert_results id items) _ s₁ h₁ in
    let (latest, requested) = insert_results-keeps id items s₁ e₂ in
    let (same, is) = load_operation-eq-ok s₂ h₂ in
    (
      row,
      at,
      fits,
      ap (λ t. t.latest) same ∙ latest ∙ ap (λ t. t.latest) changed,
      ap (λ t. t.requested) same ∙ requested ∙ ap (λ t. t.requested) changed,
      subst (λ t. stored t ≡ ok o) (sym same) is,
    )

abbrev pub runs_as : Bytes → Row → Bool
runs_as id row = has_id id row && is_running row.state

-- The names that were asked for.
abbrev pub asked : Bytes → Tables → List Bytes
asked id t = (requested_items (requested_of id t.requested)).0

finish_body-effect :
    (id : Bytes) (result : ExecutorResult) (now : Instant) (allow_pending : Bool) (s : Session)
    {o : Operation} {u : Session}
    → finish_body id result now allow_pending s ≡ ok (o, u)
    → Ended (runs_as id) (finished result now) s.tables u.tables o
      × (validate_result_scope
            (asked id s.tables)
            (final_items allow_pending result (asked id s.tables))
          ≡ true)
unfolding finish_body load_requested_items
finish_body-effect id result now allow_pending s {o} {u} h =
    let test : Tables → Bool × Tables = λ t. (is_running_row (row_of id t.latest), t) in
    let read : Tables → (List Bytes × List RequestItem) × Tables =
      λ t. (requested_items (requested_of id t.requested), t) in
    let (running, s₁, e₁, h₁) = tx_bind-eq-ok (statement state_changed test) _ s h in
    let (_, h₂) = tx_guard-eq-ok (not running) state_changed _ s₁ h₁ in
    let (requested, s₃, e₃, h₃) = tx_bind-eq-ok (load_requested_items id) _ s₁ h₂ in
    let items = final_items allow_pending result requested.0 in
    let (scope, h₄) =
      tx_guard-eq-ok (not (validate_result_scope requested.0 items)) invalid _ s₃ h₃ in
    let whole = write_end (runs_as id) (finished result now) id items s₃ h₄ in
    let first = (statement-eq-ok state_changed test s e₁).1 in
    let (names, second) = statement-eq-ok failure read s₁ e₃ in
    let same = second ∙ first in
    let names_are = ap (λ r. r.0) names ∙ ap (asked id) first in
    let fits : validate_result_scope requested.0 items ≡ true = ground arith in
    (
      subst (λ t. Ended (runs_as id) (finished result now) t u.tables o) same whole,
      subst (λ ns. validate_result_scope ns (final_items allow_pending result ns) ≡ true) names_are
          fits,
    )

-- An end that succeeds found the operation running, wrote the result, and covers what was asked.
pub finish_with-effect :
    (script : List Bool) (id : Bytes) (result : ExecutorResult) (now : Instant)
    (allow_pending : Bool) (t after : Tables) {o : Operation}
    → finish_with script id result now allow_pending t ≡ (ok o, after)
    → Ended (runs_as id) (finished result now) t after o
      × (validate_result_scope (asked id t) (final_items allow_pending result (asked id t)) ≡ true)
      × ((allow_pending && not (valid_uncertain result)) ≡ false)
unfolding finish_with
finish_with-effect script id result now allow_pending t after {o} h =
    let body = finish_body id result now allow_pending in
    let bad = allow_pending && not (valid_uncertain result) in
    let (_, h₀) =
      refuse_if-eq-ok (not (validate_id id && validate_time now true)) invalid
        (refuse_if bad invalid (transact failure script body)) t h in
    let (good, h₁) = refuse_if-eq-ok bad invalid (transact failure script body) t h₀ in
    let (s, u, at_s, ran, at_u) = transact-eq-ok failure script body t after h₁ in
    let (ended, scope) = finish_body-effect id result now allow_pending s ran in
    (
      subst₂ (λ a b. Ended (runs_as id) (finished result now) a b o) at_s at_u ended,
      subst
          (λ (t : Tables).
            validate_result_scope (asked id t) (final_items allow_pending result (asked id t))
            ≡ true)
          at_s scope,
      good,
    )

-- The end of `finish` and the end of `finish_uncertain`.
pub finish-effect :
    (script : List Bool) (id : Bytes) (result : ExecutorResult) (now : Instant) (t after : Tables)
    {o : Operation}
    → finish script id result now t ≡ (ok o, after)
    → Ended (runs_as id) (finished result now) t after o
      × (validate_executor_result result ≡ true)
      × (validate_result_scope (asked id t) result.items ≡ true)
unfolding finish
finish-effect script id result now t after h =
    let (good, h₀) =
      refuse_if-eq-ok (not (validate_executor_result result)) invalid
        (finish_with script id result now false) t h in
    let (ended, scope, _) = finish_with-effect script id result now false t after h₀ in
    (ended, ground arith, scope)

pub finish_uncertain-effect :
    (script : List Bool) (id : Bytes) (state : State) (code : Bytes) (now : Instant)
    (t after : Tables) {o : Operation}
    → finish_uncertain script id state code now t ≡ (ok o, after)
    → Ended (runs_as id) (finished (uncertain_result state code) now) t after o
      × (is_uncertain state ≡ true)
unfolding finish_uncertain
finish_uncertain-effect script id state code now t after h =
    let (good, h₀) =
      refuse_if-eq-ok (not (is_uncertain state)) invalid
        (finish_with script id (uncertain_result state code) now true) t h in
    let result = uncertain_result state code in
    let (ended, _, _) = finish_with-effect script id result now true t after h₀ in
    (ended, ground arith)
