-- ===== src/Identity/Tests.antt =====
-- Runs of the sessions at concrete tokens and times, and the theorems at them.
use acme_mux.Prelude.{
  ℕ, ◌*◌, ◌≤◌, ◌≡◌, refl, true, false, [], ◌∷◌, ◌++◌, take, length, none, some, arith, ok, err,
  Result,
}
use acme_mux.Prelude.Bytes.{Bytes, equal}
use acme_mux.Prelude.Sort.{sort, insert}
use acme_mux.Prelude.Time.{Instant}
use acme_mux.Prelude.Transaction.{statement, transact}
use acme_mux.Identity.Types.{
  Fault, invalid_session, session_expired, SessionPolicy, Codec, SessionRow, Administrator, Tables,
  SessionGrant, ActiveSession, at_once, decode_token, valid_policy, already_initialized,
}
use acme_mux.Identity.Session.{
  delete_sessions, update_sessions, find_session, World, judge, validate_again, validate_hash,
  validate_session, logout, valid_csrf,
}
use acme_mux.Identity.Session.Live.{any_session, IsLive, validate_hash-IsLive}
use acme_mux.Identity.Session.Ends.{logout-validate_session}
use acme_mux.Identity.Service.{
  largest_id, has_id, create_body, create_session, advance_body, advance_epoch, revoke_sessions,
  bootstrap_body, bootstrap, load_administrator, next_epoch,
}
use acme_mux.Identity.Service.Revoked.{advance_epoch-validate_session, advance_epoch-create_session}
use acme_mux.Identity.Service.Bounded.{count_id, IsKeyed, create_session-bounded}

signs : Unit {0}
unfolding equal sort insert statement transact at_once decode_token valid_policy delete_sessions
    update_sessions find_session judge validate_again validate_hash validate_session logout
    valid_csrf any_session largest_id has_id create_body create_session advance_body advance_epoch
    revoke_sessions bootstrap_body bootstrap load_administrator count_id
signs = tt

abbrev bytes_of : ℕ → Bytes
bytes_of n =
    n ∷ 0 ∷ 0 ∷ 0 ∷ 0 ∷ 0 ∷ 0 ∷ 0 ∷ 0 ∷ 0 ∷ 0 ∷ 0 ∷ 0 ∷ 0 ∷ 0 ∷ 0 ∷ 0 ∷ 0 ∷ 0 ∷ 0 ∷ 0 ∷ 0 ∷ 0 ∷ 0
    ∷ 0 ∷ 0 ∷ 0 ∷ 0 ∷ 0 ∷ 0 ∷ 0 ∷ 0 ∷ []

abbrev padding : Bytes
padding = 0 ∷ 0 ∷ 0 ∷ 0 ∷ 0 ∷ 0 ∷ 0 ∷ 0 ∷ 0 ∷ 0 ∷ 0 ∷ []

abbrev codec : Codec
codec = record {
  sha256 = λ raw. take 32 raw;
  encode_base64 = λ contents. contents ++ padding;
  decode_base64 = λ raw. some (take 32 raw);
}

abbrev token_of : ℕ → Bytes
token_of n = bytes_of n ++ padding

abbrev policy : SessionPolicy
policy = record {
  idle_lifetime = 1800000000000;
  absolute_lifetime = 43200000000000;
  rotation_after = 900000000000;
  previous_grace = 30000000000;
  maximum_sessions = 1;
}

policy_is_valid : valid_policy policy ≡ true
unfolding signs
policy_is_valid = refl

abbrev at_second : ℕ → Instant
at_second n = record { nanos = n * 1000000000; utc = true; monotonic = false }

abbrev administrator : Administrator
administrator = record {
  password_verifier = 5 ∷ [];
  auth_epoch = 1;
  created_at = 100;
  password_changed_at = 100;
}

abbrev bare : Tables
bare = record { administrator = some administrator; sessions = [] }

bootstraps_once :
    (bootstrap [] (5 ∷ []) (at_second 100) (record { administrator = none; sessions = [] })
      ≡ (ok tt, bare))
    × (bootstrap [] (6 ∷ []) (at_second 100) bare ≡ (err already_initialized, bare))
unfolding signs
bootstraps_once = (refl, refl)

abbrev first_row : SessionRow
first_row = record {
  id = 1;
  auth_epoch = 1;
  current_token_hash = bytes_of 1;
  previous_token_hash = none;
  previous_valid_until = none;
  csrf_token_hash = bytes_of 2;
  created_at = 100;
  last_seen_at = 100;
  idle_expires_at = 1900;
  absolute_expires_at = 43300;
  rotate_after = 1000;
}

abbrev signed_in : Tables
signed_in = record bare { sessions = first_row ∷ [] }

abbrev grant : SessionGrant
grant = record {
  token = token_of 1;
  csrf_token = token_of 2;
  idle_expires_at = 1900000000000;
  absolute_expires_at = 43300000000000;
}

signs_in :
    create_session codec policy []
      (some (bytes_of 1))
      (some (bytes_of 2))
      (at_second 100)
      administrator
      []
      bare
    ≡ (ok grant, signed_in)
unfolding signs
signs_in = refl

abbrev world : Instant → World
world now = record {
  load_fails = false;
  now = now;
  random = some (bytes_of 3);
  between = λ t. t;
  write_fails = false;
}

abbrev rotated_one : SessionRow
rotated_one = record first_row {
  current_token_hash = bytes_of 3;
  previous_token_hash = some (bytes_of 1);
  previous_valid_until = some 1030;
  last_seen_at = 1000;
  idle_expires_at = 2800;
  rotate_after = 1900;
}

abbrev after_rotation : Tables
after_rotation = record bare { sessions = rotated_one ∷ [] }

abbrev rotated_session : ActiveSession
rotated_session = record {
  replacement_token = some (token_of 3);
  idle_expires_at = 2800;
  absolute_expires_at = 43300;
  csrf_token_hash = bytes_of 2;
}

rotates :
    validate_session codec policy
      (world (at_second 1000))
      (world (at_second 1000))
      (token_of 1)
      signed_in
    ≡ (ok rotated_session, after_rotation)
unfolding signs
rotates = refl

abbrev answer_at : Instant → Bytes → Tables → Result Fault ActiveSession
answer_at now raw t = (validate_session codec policy (world now) (world now) raw t).0

-- The previous token is taken until its grace is over, with no new token.
grace :
    (answer_at (at_second 1020) (token_of 1) after_rotation
      ≡ ok (record rotated_session { replacement_token = none; idle_expires_at = 2820 }))
    × (answer_at (at_second 1030) (token_of 1) after_rotation ≡ err invalid_session)
    × (answer_at (at_second 9000) (token_of 3) after_rotation ≡ err session_expired)
unfolding signs
grace = (refl, refl, refl)

csrf_token_is_bound :
    (valid_csrf codec rotated_session (token_of 2) ≡ true)
    × (valid_csrf codec rotated_session (token_of 4) ≡ false)
unfolding signs
csrf_token_is_bound = (refl, refl)

-- With one session allowed, a sign-in with a clock that has gone back succeeds, and its session is the
-- one that the bound removes.
sign_in_is_removed :
    create_session codec policy []
      (some (bytes_of 7))
      (some (bytes_of 2))
      (at_second 0)
      administrator
      []
      signed_in
    ≡ (
      ok (record {
        token = token_of 7;
        csrf_token = token_of 2;
        idle_expires_at = 1800000000000;
        absolute_expires_at = 43200000000000;
      }),
      signed_in,
    )
unfolding signs
sign_in_is_removed = refl

validate_hash-IsLive_example : IsLive (bytes_of 1) rotated_session after_rotation
unfolding signs
validate_hash-IsLive_example =
    validate_hash-IsLive codec policy (world (at_second 1000)) (world (at_second 1000)) (bytes_of 1)
      signed_in after_rotation rotated_session refl

logout-validate_session_example :
    validate_session codec policy
      (world (at_second 1000))
      (world (at_second 1000))
      (token_of 1)
      bare
    ≡ (err invalid_session, bare)
unfolding signs
logout-validate_session_example =
    logout-validate_session codec policy false (world (at_second 1000)) (world (at_second 1000))
      (token_of 1) signed_in bare refl refl

abbrev revoked : Tables
revoked = record {
  administrator = some (next_epoch (at_second 1000) [] administrator);
  sessions = [];
}

advance_epoch-validate_session_example :
    validate_session codec policy
      (world (at_second 1000))
      (world (at_second 1000))
      (token_of 1)
      revoked
    ≡ (err invalid_session, revoked)
unfolding signs
advance_epoch-validate_session_example =
    advance_epoch-validate_session codec policy [] (at_second 1000) [] signed_in revoked
      (world (at_second 1000)) (world (at_second 1000)) (token_of 1) refl refl

advance_epoch-create_session_example : ¬ (
    create_session codec policy []
      (some (bytes_of 7))
      (some (bytes_of 2))
      (at_second 1020)
      administrator
      []
      revoked
    ≡ (ok grant, revoked))
unfolding signs
advance_epoch-create_session_example =
    advance_epoch-create_session codec policy [] [] (at_second 1000) (at_second 1020) [] []
      (some (bytes_of 7)) (some (bytes_of 2)) signed_in revoked revoked administrator grant refl
      refl

no_rows_IsKeyed : IsKeyed []
unfolding signs
no_rows_IsKeyed id = omega arith

create_session-bounded_example : (length (first_row ∷ []) ≤ 1) × IsKeyed (first_row ∷ [])
unfolding signs
create_session-bounded_example =
    create_session-bounded codec policy [] (some (bytes_of 1)) (some (bytes_of 2)) (at_second 100)
      administrator [] bare signed_in {g = grant} no_rows_IsKeyed refl
