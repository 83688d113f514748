-- ===== src/Jobs/Store/Stored.antt =====
-- The operation that the tables hold, as a function, and the load that reads it.
use mathlib.Core.Path.{subst₂}
use acme_mux.Prelude.{
  true, ◌≡◌, refl, sym, ap, ◌∙◌, inl, inr, List, [], Option, none, some, arith, Result, ok, err,
  Option-cases,
}
use acme_mux.Prelude.Bytes.{Bytes}
use acme_mux.Jobs.Types.{Fault, not_found, invalid, failure, Operation, ItemResult, RequestItem}
use acme_mux.Jobs.Operation.{validate_operation}
use acme_mux.Jobs.Database.{
  Row, Tables, Session, ◌>>=◌, ◌>>◌, pure, statement, query, settle, transact,
}
use acme_mux.Prelude.Transaction.Laws.{tx_bind-eq-ok, statement-eq-ok}
use acme_mux.Jobs.Store.{
  to_operation, requested_of, results_of, requested_items, load_requested_items, load_row,
  load_operation, latest,
}

-- The rows of one operation, read together.
abbrev pub operation_of : Tables → Row → Option Operation
operation_of t row =
    let requested = requested_items (requested_of row.operation_id t.requested) in
    to_operation row (results_of row.operation_id t.results) requested.0 requested.1

abbrev present : Option Operation → Result Fault Operation
present none = err invalid
present (some o) = ok o

abbrev stored_row : Tables → Option Row → Result Fault Operation
stored_row t none = err not_found
stored_row t (some row) = present (operation_of t row)

-- What the tables hold.
unfoldable pub stored : Tables → Result Fault Operation
stored t = stored_row t t.latest

load_row-eq-ok :
    (row : Option Row) (s : Session) {o : Operation} {u : Session}
    → load_row row s ≡ ok (o, u)
    → (u.tables ≡ s.tables) × (stored_row s.tables row ≡ ok o)
unfolding load_requested_items
load_row-eq-ok none s h = absurd (ground arith)
load_row-eq-ok (some row) s {o} {u} h =
    let id = row.operation_id in
    let (requested, s₁, a, h₁) = tx_bind-eq-ok (load_requested_items id) _ s h in
    let (items, s₂, b, h₂) = tx_bind-eq-ok (query (λ t. results_of id t.results)) _ s₁ h₁ in
    let (requested_is, same) =
      statement-eq-ok failure (λ t. (requested_items (requested_of id t.requested), t)) s a in
    let (items_is, same') = statement-eq-ok failure (λ t. (results_of id t.results, t)) s₁ b in
    elim (Option-cases (to_operation row items requested.0 requested.1)) [
      | inl e ↦ absurd (ground arith)
      | inr (o', e) ↦
          let ends : (o' ≡ o) × (s₂ ≡ u) = ground arith in
          let items_at = items_is ∙ ap (λ t. results_of id t.results) same in
          let whole =
            subst₂ (λ is rs. to_operation row is rs.0 rs.1 ≡ some o') items_at requested_is e in
          (ap (λ v. v.tables) (sym ends.1) ∙ same' ∙ same, ap present whole ∙ ap ok ends.0)
    ]

-- A load that succeeds returns what the tables hold, and leaves them alone.
pub load_operation-eq-ok :
    (s : Session) {o : Operation} {u : Session}
    → load_operation s ≡ ok (o, u)
    → (u.tables ≡ s.tables) × (stored s.tables ≡ ok o)
unfolding load_operation stored
load_operation-eq-ok s {o} h =
    let (row, s', q, h') = tx_bind-eq-ok (query (λ t. t.latest)) load_row s h in
    let (row_is, same) = statement-eq-ok failure (λ t. (t.latest, t)) s q in
    let (after, is) = load_row-eq-ok row s' h' in
    (after ∙ same, subst₂ (λ t r. stored_row t r ≡ ok o) same row_is is)

latest_row :
    (t : Tables) (row : Option Row)
    → settle t (
        (load_row row >>= λ o. query {A = Unit {0}} (λ _. tt) >> pure o)
          (record { tables = t; script = [] }))
      ≡ (stored_row t row, t)
unfolding load_requested_items statement
latest_row t none = refl
latest_row t (some row) = elim (Option-cases (operation_of t row)) [
  | inl e ↦ ground arith
  | inr (o, e) ↦ ground arith
]

-- With no failing statement `Latest` returns what the tables hold.
pub latest-stored : (t : Tables) → latest [] t ≡ (stored t, t)
unfolding latest transact load_operation stored statement load_requested_items
latest-stored t = latest_row t t.latest

to_operation_valid :
    (row : Row) (items : List ItemResult) (names : List Bytes) (details : List RequestItem)
    {o : Operation}
    → to_operation row items names details ≡ some o
    → validate_operation o ≡ true
unfolding to_operation
to_operation_valid row items names details h = ground arith

-- What the tables hold is valid.
pub stored_valid : (t : Tables) {o : Operation} → stored t ≡ ok o → validate_operation o ≡ true
unfolding stored
stored_valid t {o} h = elim (Option-cases t.latest) [
  | inl e ↦ absurd (ground arith)
  | inr (row, e) ↦
      let requested = requested_items (requested_of row.operation_id t.requested) in
      to_operation_valid row (results_of row.operation_id t.results) requested.0 requested.1
        (ground arith)
]
