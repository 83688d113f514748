-- ===== src/Identity/Service/Revoked.antt =====
-- What a change of the epoch leaves of the sessions and of the sign-ins that are under way.
use mathlib.Core.Path.{subst}
use acme_mux.Prelude.{
  ℕ, Bool, true, false, not, ◌≡◌, refl, ap, ◌∙◌, inl, inr, List, [], ◌∷◌, Option, none, some, arith,
  ok, err, ◌==◌, Option-cases,
}
use acme_mux.Prelude.Bytes.{Bytes}
use acme_mux.Prelude.Time.{Instant}
use acme_mux.Prelude.Transaction.{Session}
use acme_mux.Prelude.Transaction.Laws.{
  tx_bind-eq-ok, tx_guard-eq-ok, statement-eq-ok, transact-eq-ok,
}
use acme_mux.Identity.Types.{
  uninitialized, invalid_credentials, invalid_session, failure, SessionPolicy, Codec, SessionRow,
  Administrator, Tables, SessionGrant, epoch_is,
}
use acme_mux.Identity.Session.{World, validate_session}
use acme_mux.Identity.Session.Live.{any_session}
use acme_mux.Identity.Session.Ends.{validate_session_refuses}
use acme_mux.Identity.Service.Created.{create_session-ran}
use acme_mux.Identity.Service.{
  run_statement, delete_where, is_stale, upgraded, upgrade_verifier, insert_session, create_body,
  create_session, next_epoch, with_next_epoch, advance_body, advance_epoch, load_administrator,
}

-- A change of the epoch that succeeds found the administrator, gave him the next epoch, and left no
-- session.
pub advance_epoch-effect :
    (script : List Bool) (now : Instant) (verifier : Bytes) (t after : Tables)
    → advance_epoch script now verifier t ≡ (ok tt, after)
    → (a : Administrator) × (t.administrator ≡ some a)
      × (after.administrator ≡ some (next_epoch now verifier a))
      × (after.sessions ≡ [])
unfolding advance_epoch advance_body
advance_epoch-effect script now verifier t after h =
    let clear : Tables → Unit {0} × Tables = λ t. (tt, record t { sessions = [] }) in
    let (s, u, at_s, ran, at_u) =
      transact-eq-ok failure script (advance_body now verifier) t after h in
    let (updated, s₁, e₁, h₁) =
      tx_bind-eq-ok (run_statement (with_next_epoch now verifier)) _ s ran in
    let (found, h₂) = tx_guard-eq-ok (not updated) uninitialized (run_statement clear) s₁ h₁ in
    let (is_updated, next) = statement-eq-ok failure (with_next_epoch now verifier) s e₁ in
    let (_, left) = statement-eq-ok failure clear s₁ h₂ in
    elim (Option-cases t.administrator) [
      | inl e ↦ absurd (ground arith)
      | inr (a, e) ↦ (a, e, ground arith, ground arith)
    ]

-- An upgrade of the verifier keeps the epoch.
upgraded-epoch :
    (verifier : Bytes) (a : Administrator) (x : Option Administrator) (n : ℕ)
    → epoch_is (upgraded verifier a x) n ≡ epoch_is x n
upgraded-epoch verifier a none n = refl
upgraded-epoch verifier a (some x) n = ground arith

upgrade_verifier-epoch :
    (verifier : Bytes) (a : Administrator) (s : Session Tables) (n : ℕ) {w : Unit {0}}
    {u : Session Tables}
    → upgrade_verifier verifier a s ≡ ok (w, u)
    → epoch_is u.tables.administrator n ≡ epoch_is s.tables.administrator n
upgrade_verifier-epoch [] a s n h = ground arith
upgrade_verifier-epoch (c ∷ cs) a s n h =
    let (_, left) = statement-eq-ok failure _ s h in
    ap (λ (t : Tables). epoch_is t.administrator n) left
    ∙ upgraded-epoch (c ∷ cs) a s.tables.administrator n

-- A session is created only for the epoch of the administrator.
create_body-epoch :
    (policy : SessionPolicy) (now : Instant) (a : Administrator) (replacement : Bytes)
    (row : ℕ → SessionRow) (s : Session Tables) {w : Unit {0}} {u : Session Tables}
    → create_body policy now a replacement row s ≡ ok (w, u)
    → epoch_is s.tables.administrator a.auth_epoch ≡ true
unfolding create_body
create_body-epoch policy now a replacement row s h =
    let (_, s₁, e₁, h₁) = tx_bind-eq-ok (delete_where (is_stale _)) _ s h in
    let (_, s₂, e₂, h₂) = tx_bind-eq-ok (upgrade_verifier replacement a) _ s₁ h₁ in
    let (created, s₃, e₃, h₃) =
      tx_bind-eq-ok (run_statement (insert_session row a.auth_epoch)) _ s₂ h₂ in
    let (one, _) = tx_guard-eq-ok (not (created == 1)) invalid_credentials _ s₃ h₃ in
    let (_, first) = statement-eq-ok failure _ s e₁ in
    let (created_is, _) = statement-eq-ok failure (insert_session row a.auth_epoch) s₂ e₃ in
    let kept = upgrade_verifier-epoch replacement a s₁ a.auth_epoch e₂ in
    let same = ap (λ (t : Tables). epoch_is t.administrator a.auth_epoch) first in ground arith

create_session-epoch :
    (codec : Codec) (policy : SessionPolicy) (script : List Bool) (raw raw_csrf : Option Bytes)
    (now : Instant) (a : Administrator) (replacement : Bytes) (t after : Tables) {g : SessionGrant}
    → create_session codec policy script raw raw_csrf now a replacement t ≡ (ok g, after)
    → epoch_is t.administrator a.auth_epoch ≡ true
create_session-epoch codec policy script raw raw_csrf now a replacement t after {g} h =
    let (row, s, u, _, at_s, ran, _) =
      create_session-ran codec policy script raw raw_csrf now a replacement t after {g = g} h in
    subst (λ (t : Tables). epoch_is t.administrator a.auth_epoch ≡ true) at_s
      (create_body-epoch policy now a replacement row s ran)

-- Behind a change of the epoch that succeeds (a new password, or a revocation), every validation whose
-- load does not fail answers `ErrInvalidSession` and changes nothing.
pub advance_epoch-validate_session :
    (codec : Codec) (policy : SessionPolicy) (script : List Bool) (now : Instant) (verifier : Bytes)
    (t u : Tables) (w again : World) (raw : Bytes)
    → advance_epoch script now verifier t ≡ (ok tt, u)
    → w.load_fails ≡ false
    → validate_session codec policy w again raw u ≡ (err invalid_session, u)
unfolding any_session
advance_epoch-validate_session codec policy script now verifier t u w again raw h loads =
    let (_, _, _, gone) = advance_epoch-effect script now verifier t u h in
    validate_session_refuses codec policy w again raw u loads λ digest e. ground arith

stale_epoch :
    (now : Instant) (verifier : Bytes) (a : Administrator) (t : Tables)
    → t.administrator ≡ some (next_epoch now verifier a)
    → epoch_is t.administrator a.auth_epoch ≡ false
stale_epoch now [] a t e = ground arith
stale_epoch now (c ∷ cs) a t e = ground arith

-- No sign-in that read the administrator before a change of the epoch that succeeds creates a session
-- right behind it.
pub advance_epoch-create_session :
    (codec : Codec) (policy : SessionPolicy) (script script' : List Bool) (now later : Instant)
    (verifier replacement : Bytes) (raw raw_csrf : Option Bytes) (t u after : Tables)
    (a : Administrator) (g : SessionGrant)
    → load_administrator false t ≡ (ok a, t)
    → advance_epoch script now verifier t ≡ (ok tt, u)
    → ¬ (create_session codec policy script' raw raw_csrf later a replacement u ≡ (ok g, after))
unfolding load_administrator
advance_epoch-create_session codec policy script script' now later verifier replacement raw raw_csrf
      t u after a g read h made =
    let (b, at_b, next, _) = advance_epoch-effect script now verifier t u h in
    let same : b ≡ a = ground arith in
    let old =
      stale_epoch now verifier a u (next ∙ ap (λ x. some (next_epoch now verifier x)) same) in
    let is =
      create_session-epoch codec policy script' raw raw_csrf later a replacement u after {g = g}
        made in
    ground arith
