-- ===== src/Identity/Service.antt =====
-- internal/identity: createSession of session.go, and service.go over the tables. Passwords and their
-- verifiers (password.go) are not looked into: a verifier is a text.
pub mod Created
pub mod Revoked
pub mod Bounded
use acme_mux.Prelude.{
  ℕ, ◌+◌, ◌/◌, min, max, Bool, true, false, not, ◌&&◌, ◌||◌, List, [], ◌∷◌, ◌++◌, map, take, Option,
  none, some, ltb, leb, ◌==◌, if◌then◌else◌, Result, ok, err,
}
use acme_mux.Prelude.Bytes.{Bytes, equal}
use acme_mux.Prelude.Sort.{sort}
use acme_mux.Prelude.Time.{Instant}
use acme_mux.Prelude.Transaction
unfoldable use acme_mux.Prelude.Transaction.{◌>>=◌, ◌>>◌, pure, throw_if, statement, transact}
use acme_mux.Identity.Types.{
  second, Fault, uninitialized, already_initialized, invalid_credentials, failure, SessionPolicy,
  Codec, SessionRow, Administrator, Tables, SessionGrant, Call, Tx, at_once, unix, epoch_is,
  new_token,
}
use acme_mux.Identity.Session.{delete_sessions}

abbrev pub run_statement : {A : Type 0} → (Tables → A × Tables) → Tx A
run_statement f = statement failure f

abbrev pub delete_where : (Tables → SessionRow → Bool) → Tx (Unit {0})
delete_where test =
    run_statement λ t. (tt, record t { sessions = delete_sessions (test t) t.sessions })

-- Sessions whose time is over, or of an epoch that is not that of the administrator.
abbrev pub is_stale : ℕ → Tables → SessionRow → Bool
is_stale now t x =
    leb x.idle_expires_at now
    || leb x.absolute_expires_at now
    || not (epoch_is t.administrator x.auth_epoch)

abbrev pub upgraded : Bytes → Administrator → Option Administrator → Option Administrator
upgraded verifier a none = none
upgraded verifier a (some x) =
    if x.auth_epoch == a.auth_epoch && equal x.password_verifier a.password_verifier
    then some (record x { password_verifier = verifier })
    else some x

abbrev pub upgrade_verifier : Bytes → Administrator → Tx (Unit {0})
upgrade_verifier [] a = pure tt
upgrade_verifier verifier a =
    run_statement λ t. (tt, record t { administrator = upgraded verifier a t.administrator })

-- An `INTEGER PRIMARY KEY` that is not given is one more than the largest.
unfoldable pub largest_id : List SessionRow → ℕ
largest_id [] = 0
largest_id (r ∷ rs) = max r.id (largest_id rs)

abbrev pub new_session : SessionPolicy → Bytes → Bytes → Instant → ℕ → ℕ → SessionRow
new_session policy hash csrf now epoch id = record {
  id = id;
  auth_epoch = epoch;
  current_token_hash = hash;
  previous_token_hash = none;
  previous_valid_until = none;
  csrf_token_hash = csrf;
  created_at = unix now;
  last_seen_at = unix now;
  idle_expires_at =
      min (now.nanos + policy.idle_lifetime) (now.nanos + policy.absolute_lifetime) / second;
  absolute_expires_at = (now.nanos + policy.absolute_lifetime) / second;
  rotate_after = (now.nanos + policy.rotation_after) / second;
}

-- `INSERT … SELECT … FROM administrator`, with the number of rows.
abbrev pub insert_session : (ℕ → SessionRow) → ℕ → Tables → ℕ × Tables
insert_session row epoch t =
    if epoch_is t.administrator epoch
    then (1, record t { sessions = t.sessions ++ (row (1 + largest_id t.sessions) ∷ []) })
    else (0, t)

-- `ORDER BY last_seen_at_unix DESC, id DESC`.
abbrev pub seen_later : SessionRow → SessionRow → Bool
seen_later x y =
    ltb y.last_seen_at x.last_seen_at || ((x.last_seen_at == y.last_seen_at) && leb y.id x.id)

unfoldable pub has_id : List SessionRow → ℕ → Bool
has_id [] id = false
has_id (r ∷ rs) id = (r.id == id) || has_id rs id

abbrev pub is_beyond : ℕ → Tables → SessionRow → Bool
is_beyond limit t x = not (has_id (take limit (sort seen_later t.sessions)) x.id)

unfoldable pub create_body :
    SessionPolicy → Instant → Administrator → Bytes → (ℕ → SessionRow) → Tx (Unit {0})
create_body policy now a replacement row = do
  delete_where (is_stale (unix now))
  upgrade_verifier replacement a
  created ← run_statement (insert_session row a.auth_epoch)
  throw_if (not (created == 1)) invalid_credentials
  delete_where (is_beyond policy.maximum_sessions)

abbrev pub granted :
    SessionPolicy
    → Instant
    → Bytes
    → Bytes
    → Result Fault (Unit {0}) × Tables
    → Result Fault SessionGrant × Tables
granted policy now token csrf (err e, t) = (err e, t)
granted policy now token csrf (ok _, t) = (
  ok (record {
    token = token;
    csrf_token = csrf;
    idle_expires_at = min (now.nanos + policy.idle_lifetime) (now.nanos + policy.absolute_lifetime);
    absolute_expires_at = now.nanos + policy.absolute_lifetime;
  }),
  t,
)

abbrev pub create_with_tokens :
    SessionPolicy
    → List Bool
    → Instant
    → Administrator
    → Bytes
    → Option (Bytes × Bytes)
    → Option (Bytes × Bytes)
    → Call SessionGrant
create_with_tokens policy script now a replacement (some (token, hash)) (some (csrf, csrf_hash)) t =
    granted policy now token csrf (
      transact failure script
        (create_body policy now a replacement (new_session policy hash csrf_hash now a.auth_epoch))
        t)
create_with_tokens policy script now a replacement _ _ t = (err failure, t)

-- `createSession`, with the random bytes of the two tokens.
unfoldable pub create_session :
    Codec
    → SessionPolicy
    → List Bool
    → Option Bytes
    → Option Bytes
    → Instant
    → Administrator
    → Bytes
    → Call SessionGrant
create_session codec policy script raw raw_csrf now a replacement =
    create_with_tokens policy script now a replacement (new_token codec raw)
      (new_token codec raw_csrf)

abbrev pub next_epoch : Instant → Bytes → Administrator → Administrator
next_epoch now [] a = record a { auth_epoch = a.auth_epoch + 1 }
next_epoch now verifier a = record a {
  password_verifier = verifier;
  password_changed_at = unix now;
  auth_epoch = a.auth_epoch + 1;
}

abbrev pub with_next_epoch : Instant → Bytes → Tables → Bool × Tables
with_next_epoch now verifier t = elim t.administrator [
  | none ↦ (false, t)
  | some a ↦ (true, record t { administrator = some (next_epoch now verifier a) })
]

unfoldable pub advance_body : Instant → Bytes → Tx (Unit {0})
advance_body now verifier = do
  updated ← run_statement (with_next_epoch now verifier)
  throw_if (not updated) uninitialized
  run_statement (λ t. (tt, record t { sessions = [] }))

-- `advanceEpoch`, with the verifier of a new password, or the empty one.
unfoldable pub advance_epoch : List Bool → Instant → Bytes → Call (Unit {0})
advance_epoch script now verifier = transact failure script (advance_body now verifier)

-- `RevokeSessions`.
unfoldable pub revoke_sessions : List Bool → Instant → Call (Unit {0})
revoke_sessions script now = advance_epoch script now []

abbrev pub insert_administrator : Bytes → Instant → Tables → Bool × Tables
insert_administrator verifier now t = elim t.administrator [
  | some a ↦ (false, t)
  | none ↦ (
    true,
    record t {
      administrator = some (record {
        password_verifier = verifier;
        auth_epoch = 1;
        created_at = unix now;
        password_changed_at = unix now;
      });
    },
  )
]

unfoldable pub bootstrap_body : Bytes → Instant → Tx (Unit {0})
bootstrap_body verifier now = do
  created ← run_statement (insert_administrator verifier now)
  throw_if (not created) already_initialized

-- The transaction of `Bootstrap`, with the verifier of the password.
unfoldable pub bootstrap : List Bool → Bytes → Instant → Call (Unit {0})
bootstrap script verifier now = transact failure script (bootstrap_body verifier now)

abbrev pub found_administrator : Option Administrator → Result Fault Administrator
found_administrator none = err uninitialized
found_administrator (some a) = ok a

-- `loadAdministrator`.
unfoldable pub load_administrator : Bool → Call Administrator
load_administrator fails t =
    if fails then (err failure, t) else (found_administrator t.administrator, t)
