-- ===== src/Identity/Service/Bounded.antt =====
-- How many sessions createSession leaves.
use acme_mux.Prelude.{
  ℕ, ◌+◌, ◌≤◌, ◌<◌, Bool, not, ◌≡◌, refl, sym, ap, ◌∙◌, inl, inr, List, [], ◌∷◌, ◌++◌, take, length,
  length-take, Option, arith, ok, ◌==◌, if◌then◌else◌, Bool-cases,
}
use mathlib.Core.Path.{subst}
use acme_mux.Prelude.Bytes.{Bytes}
use acme_mux.Prelude.Sort.{sort}
use acme_mux.Prelude.Time.{Instant}
use acme_mux.Prelude.Transaction.{Session}
use acme_mux.Prelude.Transaction.Laws.{tx_bind-eq-ok, tx_guard-eq-ok, statement-eq-ok}
use acme_mux.Identity.Types.{
  invalid_credentials, failure, SessionPolicy, Codec, SessionRow, Administrator, Tables,
  SessionGrant, epoch_is, unix,
}
use acme_mux.Identity.Session.{delete_sessions}
use acme_mux.Identity.Service.Created.{create_session-ran}
use acme_mux.Identity.Service.{
  run_statement, delete_where, is_stale, upgrade_verifier, insert_session, largest_id, has_id,
  seen_later, is_beyond, create_body, create_session,
}

-- How many rows have an identifier.
unfoldable pub count_id : ℕ → List SessionRow → ℕ
count_id id [] = 0
count_id id (r ∷ rs) = if r.id == id then 1 + count_id id rs else count_id id rs

-- The primary key of the table.
abbrev pub IsKeyed : List SessionRow → Type 0
IsKeyed rows = (id : ℕ) → count_id id rows ≤ 1

count_id-delete_sessions :
    (id : ℕ) (test : SessionRow → Bool) (rows : List SessionRow)
    → count_id id (delete_sessions test rows) ≤ count_id id rows
unfolding count_id delete_sessions
count_id-delete_sessions id test [] = omega arith
count_id-delete_sessions id test (r ∷ rs) =
    let rest = count_id-delete_sessions id test rs in ground arith

delete_sessions-IsKeyed :
    (test : SessionRow → Bool) (rows : List SessionRow)
    → IsKeyed rows
    → IsKeyed (delete_sessions test rows)
delete_sessions-IsKeyed test rows keyed id =
    omega (arith, count_id-delete_sessions id test rows, keyed id)

count_id-append :
    (id : ℕ) (rows more : List SessionRow)
    → count_id id (rows ++ more) ≡ count_id id rows + count_id id more
unfolding count_id
count_id-append id [] more = omega arith
count_id-append id (r ∷ rs) more = let rest = count_id-append id rs more in ground arith

count_id-largest : (id : ℕ) (rows : List SessionRow) → largest_id rows < id → count_id id rows ≡ 0
unfolding count_id largest_id
count_id-largest id [] h = refl
count_id-largest id (r ∷ rs) h =
    let rest = count_id-largest id rs (omega (arith, h)) in ground arith

abbrev kept_by : List SessionRow → List SessionRow → List SessionRow
kept_by ks rows = delete_sessions (λ x. not (has_id ks x.id)) rows

kept_by_none : (rows : List SessionRow) → length (kept_by [] rows) ≡ 0
unfolding delete_sessions has_id
kept_by_none [] = refl
kept_by_none (r ∷ rs) = kept_by_none rs

length-kept_by-cons :
    (k : SessionRow) (ks rows : List SessionRow)
    → length (kept_by (k ∷ ks) rows) ≤ count_id k.id rows + length (kept_by ks rows)
unfolding delete_sessions has_id count_id
length-kept_by-cons k ks [] = omega arith
length-kept_by-cons k ks (r ∷ rs) =
    let rest = length-kept_by-cons k ks rs in
    elim (Bool-cases (has_id ks r.id)) [ inl e ↦ ground arith | inr e ↦ ground arith ]

-- Of keyed rows no more are kept than there are rows to keep them by.
length-kept_by : (ks rows : List SessionRow) → IsKeyed rows → length (kept_by ks rows) ≤ length ks
length-kept_by [] rows keyed = let none_kept = kept_by_none rows in omega (arith, none_kept)
length-kept_by (k ∷ ks) rows keyed =
    let one = keyed k.id in
    let first = length-kept_by-cons k ks rows in
    let rest = length-kept_by ks rows keyed in omega (arith, one, first, rest)

insert_session-IsKeyed :
    (row : ℕ → SessionRow) (epoch : ℕ) (t : Tables)
    → ((id : ℕ) → (row id).id ≡ id)
    → IsKeyed t.sessions
    → IsKeyed (insert_session row epoch t).1.sessions
unfolding count_id
insert_session-IsKeyed row epoch t named keyed id =
    let new = 1 + largest_id t.sessions in
    let name = named new in
    let old = keyed id in
    let one : count_id id (row new ∷ []) ≤ 1 = ground arith in
    let whole = count_id-append id t.sessions (row new ∷ []) in
    elim (Bool-cases (epoch_is t.administrator epoch)) [
      | inr e ↦ ground arith
      | inl e ↦ elim (Bool-cases (new == id)) [
        | inl same ↦ let fresh = count_id-largest id t.sessions (ground arith) in ground arith
        | inr other ↦ let not_it : count_id id (row new ∷ []) ≡ 0 = ground arith in ground arith
      ]
    ]

upgrade_verifier-sessions :
    (verifier : Bytes) (a : Administrator) (s : Session Tables) {w : Unit {0}} {u : Session Tables}
    → upgrade_verifier verifier a s ≡ ok (w, u)
    → u.tables.sessions ≡ s.tables.sessions
upgrade_verifier-sessions [] a s h = ground arith
upgrade_verifier-sessions (c ∷ cs) a s h =
    let (_, left) = statement-eq-ok failure _ s h in ap (λ (t : Tables). t.sessions) left

create_body-bounded :
    (policy : SessionPolicy) (now : Instant) (a : Administrator) (replacement : Bytes)
    (row : ℕ → SessionRow) (s : Session Tables) {w : Unit {0}} {u : Session Tables}
    → ((id : ℕ) → (row id).id ≡ id)
    → IsKeyed s.tables.sessions
    → create_body policy now a replacement row s ≡ ok (w, u)
    → (length u.tables.sessions ≤ policy.maximum_sessions) × IsKeyed u.tables.sessions
unfolding create_body
create_body-bounded policy now a replacement row s named keyed h =
    let stale = is_stale (unix now) in
    let limit = policy.maximum_sessions in
    let (_, s₁, e₁, h₁) = tx_bind-eq-ok (delete_where stale) _ s h in
    let (_, s₂, e₂, h₂) = tx_bind-eq-ok (upgrade_verifier replacement a) _ s₁ h₁ in
    let (created, s₃, e₃, h₃) =
      tx_bind-eq-ok (run_statement (insert_session row a.auth_epoch)) _ s₂ h₂ in
    let (_, h₄) =
      tx_guard-eq-ok (not (created == 1)) invalid_credentials (delete_where (is_beyond limit)) s₃
        h₃ in
    let (_, first) = statement-eq-ok failure _ s e₁ in
    let second = upgrade_verifier-sessions replacement a s₁ e₂ in
    let (_, third) = statement-eq-ok failure (insert_session row a.auth_epoch) s₂ e₃ in
    let (_, last) = statement-eq-ok failure _ s₃ h₄ in
    let keyed₂ : IsKeyed s₂.tables.sessions =
      subst IsKeyed (sym (second ∙ ap (λ (t : Tables). t.sessions) first))
        (delete_sessions-IsKeyed (stale s.tables) s.tables.sessions keyed) in
    let keyed₃ : IsKeyed s₃.tables.sessions =
      subst (λ (t : Tables). IsKeyed t.sessions) (sym third)
        (insert_session-IsKeyed row a.auth_epoch s₂.tables named keyed₂) in
    let rows = s₃.tables.sessions in
    let size = length-kept_by (take limit (sort seen_later rows)) rows keyed₃ in
    let taken = length-take limit (sort seen_later rows) in
    let left = ap (λ (t : Tables). t.sessions) last in
    (
      subst (λ rs. length rs ≤ limit) (sym left) (omega (arith, size, taken)),
      subst IsKeyed (sym left) (delete_sessions-IsKeyed (is_beyond limit s₃.tables) rows keyed₃),
    )

-- Where the identifiers of the rows differ, a sign-in that succeeds leaves at most as many sessions as
-- the policy allows, and their identifiers differ.
pub create_session-bounded :
    (codec : Codec) (policy : SessionPolicy) (script : List Bool) (raw raw_csrf : Option Bytes)
    (now : Instant) (a : Administrator) (replacement : Bytes) (t after : Tables) {g : SessionGrant}
    → IsKeyed t.sessions
    → create_session codec policy script raw raw_csrf now a replacement t ≡ (ok g, after)
    → (length after.sessions ≤ policy.maximum_sessions) × IsKeyed after.sessions
create_session-bounded codec policy script raw raw_csrf now a replacement t after {g} keyed h =
    let (row, s, u, named, at_s, ran, at_u) =
      create_session-ran codec policy script raw raw_csrf now a replacement t after {g = g} h in
    let keyed_s = subst (λ (t : Tables). IsKeyed t.sessions) (sym at_s) keyed in
    let (size, kept) = create_body-bounded policy now a replacement row s named keyed_s ran in
    (
      subst (λ (t : Tables). length t.sessions ≤ policy.maximum_sessions) at_u size,
      subst (λ (t : Tables). IsKeyed t.sessions) at_u kept,
    )
