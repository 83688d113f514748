-- ===== src/Identity/Session.antt =====
-- internal/identity/session.go: validation, rotation and removal of sessions. Other requests may come
-- between two statements of a validation: what they do to the tables is any function.
pub mod Live
pub mod Ends
use acme_mux.Prelude.{
  ℕ, ◌+◌, ◌/◌, min, max, Bool, true, false, not, ◌&&◌, ◌||◌, List, [], ◌∷◌, Option, none, some, ltb,
  leb, ◌==◌, if◌then◌else◌, Result, ok, err, length,
}
use acme_mux.Prelude.Bytes.{Bytes, equal}
use acme_mux.Prelude.Time.{Instant}
use acme_mux.Identity.Types.{
  digest_size, second, Fault, invalid_session, session_expired, failure, SessionPolicy, Codec,
  SessionRow, Administrator, Tables, ActiveSession, Call, at_once, unix, holds, epoch_is, new_token,
  decode_token,
}

-- `DELETE FROM identity_sessions WHERE …`.
unfoldable pub delete_sessions : (SessionRow → Bool) → List SessionRow → List SessionRow
delete_sessions test [] = []
delete_sessions test (r ∷ rs) =
    let rest = delete_sessions test rs in if test r then rest else r ∷ rest

-- `UPDATE identity_sessions SET … WHERE …`, with the number of rows that it changed.
unfoldable pub update_sessions :
    (SessionRow → Bool) → (SessionRow → SessionRow) → List SessionRow → ℕ × List SessionRow
update_sessions test change [] = (0, [])
update_sessions test change (r ∷ rs) =
    let rest = update_sessions test change rs in
    if test r then (1 + rest.0, change r ∷ rest.1) else (rest.0, r ∷ rest.1)

abbrev pub update_where : (SessionRow → Bool) → (SessionRow → SessionRow) → Tables → ℕ × Tables
update_where test change t =
    let (n, rows) = update_sessions test change t.sessions in (n, record t { sessions = rows })

abbrev pub has_token : Bytes → SessionRow → Bool
has_token h r = equal r.current_token_hash h || holds r.previous_token_hash h

unfoldable pub find_session : Bytes → Option Administrator → List SessionRow → Option SessionRow
find_session h a [] = none
find_session h a (r ∷ rs) =
    let rest = find_session h a rs in
    if epoch_is a r.auth_epoch && has_token h r then some r else rest

-- `loadSession`.
abbrev pub load_session : Bytes → Tables → Option SessionRow
load_session h t = find_session h t.administrator t.sessions

-- The world in one validation: the statements that fail, the time, the random bytes of a new token,
-- and what other requests do between the two statements.
pub record World : Type 0 where
  pub load_fails : Bool
  pub now : Instant
  pub random : Option Bytes
  pub between : Tables → Tables
  pub write_fails : Bool

abbrev pub effective_now : Instant → SessionRow → ℕ
effective_now now r = max (unix now) r.last_seen_at

-- `deleteExpiredSession`.
abbrev pub expired_row : SessionRow → Bytes → SessionRow → Bool
expired_row r h x = (x.id == r.id) && (x.auth_epoch == r.auth_epoch) && has_token h x

abbrev pub forget_expired : SessionRow → Bytes → Tables → Unit {0} × Tables
forget_expired r h t = (tt, record t { sessions = delete_sessions (expired_row r h) t.sessions })

-- The previous token is no longer taken.
abbrev pub drop_previous : SessionRow → SessionRow
drop_previous r = record r { previous_token_hash = none; previous_valid_until = none }

abbrev pub forget_previous : SessionRow → Bytes → Tables → ℕ × Tables
forget_previous r h t =
    update_where (λ x. (x.id == r.id) && holds x.previous_token_hash h) drop_previous t

abbrev pub matched_current : SessionRow → Bytes → Bool
matched_current r h = equal h r.current_token_hash

abbrev pub previous_is : Option Bytes → Bytes → Bool
previous_is none h = false
previous_is (some p) h = (length p == digest_size) && equal h p

abbrev pub until_passed : Option ℕ → ℕ → Bool
until_passed none now = true
until_passed (some until) now = leb until now

abbrev pub until_ahead : Option ℕ → ℕ → Bool
until_ahead none now = false
until_ahead (some until) now = ltb now until

-- What a session that was read allows: to be refused with an error behind a last statement, or to go on.
pub data Verdict : Type 0 where
  refused : Fault → (Tables → Tables) → Verdict
  admitted : Verdict

unfoldable pub judge : ℕ → Bytes → SessionRow → Verdict
judge now h r =
    if leb r.idle_expires_at now || leb r.absolute_expires_at now
    then refused session_expired (λ t. (forget_expired r h t).1)
    else if not (matched_current r h) && not (previous_is r.previous_token_hash h)
    then refused invalid_session (λ t. t)
    else if previous_is r.previous_token_hash h && until_passed r.previous_valid_until now
    then refused invalid_session (λ t. (forget_previous r h t).1)
    else admitted

abbrev pub idle_expiry : SessionPolicy → ℕ → SessionRow → ℕ
idle_expiry policy now r = min (now + policy.idle_lifetime / second) r.absolute_expires_at

abbrev pub active_session : Option Bytes → ℕ → SessionRow → Result Fault ActiveSession
active_session replacement idle r =
    if length r.csrf_token_hash == digest_size
    then ok (record {
      replacement_token = replacement;
      idle_expires_at = idle;
      absolute_expires_at = r.absolute_expires_at;
      csrf_token_hash = r.csrf_token_hash;
    })
    else err failure

abbrev pub seen_at : ℕ → ℕ → SessionRow → SessionRow
seen_at now idle x = record x { last_seen_at = now; idle_expires_at = idle }

abbrev pub may_advance : Option Administrator → SessionRow → Bytes → ℕ → SessionRow → Bool
may_advance a r h now x =
    (x.id == r.id)
    && epoch_is a x.auth_epoch
    && (equal x.current_token_hash h
        || (holds x.previous_token_hash h && until_ahead x.previous_valid_until now))

abbrev pub advanced : ℕ → SessionRow → Result Fault ℕ × Tables → Result Fault ActiveSession × Tables
advanced idle r (err e, t) = (err e, t)
advanced idle r (ok n, t) =
    if n == 1 then (active_session none idle r, t) else (err invalid_session, t)

abbrev pub advance : SessionPolicy → World → Bytes → SessionRow → ℕ → Call ActiveSession
advance policy w h r now t =
    let idle = idle_expiry policy now r in
    advanced idle r (
      at_once w.write_fails
        (λ u. update_where (may_advance u.administrator r h now) (seen_at now idle) u) t)

abbrev pub rotated_row : SessionPolicy → Bytes → ℕ → ℕ → SessionRow → SessionRow
rotated_row policy new_hash now idle x = record x {
  previous_token_hash = some x.current_token_hash;
  previous_valid_until = some (now + policy.previous_grace / second);
  current_token_hash = new_hash;
  last_seen_at = now;
  idle_expires_at = idle;
  rotate_after = now + policy.rotation_after / second;
}

abbrev pub may_rotate : Option Administrator → SessionRow → Bytes → ℕ → SessionRow → Bool
may_rotate a r h now x =
    (x.id == r.id)
    && equal x.current_token_hash h
    && leb x.rotate_after now
    && epoch_is a x.auth_epoch

abbrev pub rotated :
    Bytes
    → ℕ
    → SessionRow
    → Call ActiveSession
    → Result Fault ℕ × Tables
    → Result Fault ActiveSession × Tables
rotated token idle r again (err e, t) = (err e, t)
rotated token idle r again (ok n, t) =
    let later = again t in if n == 1 then (active_session (some token) idle r, t) else later

abbrev pub rotate :
    SessionPolicy
    → World
    → Bytes
    → SessionRow
    → ℕ
    → Call ActiveSession
    → Option (Bytes × Bytes)
    → Call ActiveSession
rotate policy w h r now again none t = (err failure, t)
rotate policy w h r now again (some (token, new_hash)) t =
    let idle = idle_expiry policy now r in
    rotated token idle r again (
      at_once w.write_fails
        (λ u.
          update_where (may_rotate u.administrator r h now) (rotated_row policy new_hash now idle)
            u)
        t)

-- What follows a session that was read, on the tables behind the other requests.
abbrev pub when_admitted : World → Verdict → Call ActiveSession → Call ActiveSession
when_admitted w (refused e last) next t = (err e, if w.write_fails then t else last t)
when_admitted w admitted next t = next t

abbrev pub with_session :
    World → Bytes → (SessionRow → ℕ → Call ActiveSession) → Option SessionRow → Call ActiveSession
with_session w h next none t = (err invalid_session, t)
with_session w h next (some r) t =
    let now = effective_now w.now r in when_admitted w (judge now h r) (next r now) (w.between t)

abbrev pub loaded_session :
    World → Bytes → (SessionRow → ℕ → Call ActiveSession) → Call ActiveSession
loaded_session w h next t =
    if w.load_fails then (err failure, t) else with_session w h next (load_session h t) t

-- `validateSessionHash` with `allowRotation` false.
unfoldable pub validate_again : SessionPolicy → World → Bytes → Call ActiveSession
validate_again policy w h = loaded_session w h (advance policy w h)

-- `validateSessionHash` with `allowRotation` true, and the world of a second attempt.
unfoldable pub validate_hash : Codec → SessionPolicy → World → World → Bytes → Call ActiveSession
validate_hash codec policy w second_world h = loaded_session w h λ r now.
    if matched_current r h && leb r.rotate_after now
    then rotate policy w h r now (validate_again policy second_world h) (new_token codec w.random)
    else advance policy w h r now

abbrev pub with_digest : Option Bytes → (Bytes → Call ActiveSession) → Call ActiveSession
with_digest none next t = (err invalid_session, t)
with_digest (some h) next t = next h t

-- `ValidateSession`.
unfoldable pub validate_session : Codec → SessionPolicy → World → World → Bytes → Call ActiveSession
validate_session codec policy w second_world raw =
    with_digest (decode_token codec raw) (validate_hash codec policy w second_world)

abbrev pub logout_digest : Bool → Option Bytes → Call (Unit {0})
logout_digest fails none t = (ok tt, t)
logout_digest fails (some h) t =
    at_once fails (λ u. (tt, record u { sessions = delete_sessions (has_token h) u.sessions })) t

-- `Logout`.
unfoldable pub logout : Codec → Bool → Bytes → Call (Unit {0})
logout codec fails raw = logout_digest fails (decode_token codec raw)

abbrev pub csrf_is : Option Bytes → ActiveSession → Bool
csrf_is none s = false
csrf_is (some h) s = equal h s.csrf_token_hash

-- `ActiveSession.ValidCSRF`.
unfoldable pub valid_csrf : Codec → ActiveSession → Bytes → Bool
valid_csrf codec s raw = csrf_is (decode_token codec raw) s
