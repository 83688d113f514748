-- ===== src/Identity/Types.antt =====
-- internal/identity: the rows, the policy and the errors. A Unix time is counted in seconds from the
-- zero time, so that it is not negative.
use acme_mux.Prelude.{
  ℕ, ◌/◌, Bool, false, not, ◌&&◌, ◌||◌, List, Option, none, some, ltb, ◌==◌, if◌then◌else◌, ok, err,
  length,
}
use acme_mux.Prelude.Bytes.{Bytes, equal}
use acme_mux.Prelude.Time.{Instant}
use acme_mux.Prelude.Transaction

abbrev pub token_byte_length : ℕ
token_byte_length = 32

-- `sha256.Size`.
abbrev pub digest_size : ℕ
digest_size = 32

-- The length of thirty-two bytes in unpadded base64.
abbrev pub encoded_token_length : ℕ
encoded_token_length = 43

abbrev pub second : ℕ
second = 1000000000

-- errors.go; `failure` is any other error, such as one of the database.
pub data Fault : Type 0 where
  uninitialized already_initialized invalid_credentials invalid_session session_expired failure :
      Fault

-- Durations in nanoseconds.
pub record SessionPolicy : Type 0 where
  pub idle_lifetime : ℕ
  pub absolute_lifetime : ℕ
  pub rotation_after : ℕ
  pub previous_grace : ℕ
  pub maximum_sessions : ℕ

-- `crypto/sha256` and `encoding/base64`, of the Go library.
pub record Codec : Type 0 where
  pub sha256 : Bytes → Bytes
  pub encode_base64 : Bytes → Bytes
  pub decode_base64 : Bytes → Option Bytes

-- A row of `identity_sessions`; every row is of the one administrator.
pub record SessionRow : Type 0 where
  pub id : ℕ
  pub auth_epoch : ℕ
  pub current_token_hash : Bytes
  pub previous_token_hash : Option Bytes
  pub previous_valid_until : Option ℕ
  pub csrf_token_hash : Bytes
  pub created_at : ℕ
  pub last_seen_at : ℕ
  pub idle_expires_at : ℕ
  pub absolute_expires_at : ℕ
  pub rotate_after : ℕ

-- The row of `administrator`.
pub record Administrator : Type 0 where
  pub password_verifier : Bytes
  pub auth_epoch : ℕ
  pub created_at : ℕ
  pub password_changed_at : ℕ

pub record Tables : Type 0 where
  pub administrator : Option Administrator
  pub sessions : List SessionRow

pub record SessionGrant : Type 0 where
  pub token : Bytes
  pub csrf_token : Bytes
  pub idle_expires_at : ℕ
  pub absolute_expires_at : ℕ

pub record ActiveSession : Type 0 where
  pub replacement_token : Option Bytes
  pub idle_expires_at : ℕ
  pub absolute_expires_at : ℕ
  pub csrf_token_hash : Bytes

abbrev pub Call : Type 0 → Type 0
Call A = Transaction.Call Tables Fault A

abbrev pub Tx : Type 0 → Type 0
Tx A = Transaction.Transaction Tables Fault A

-- `ExecContext` or `QueryRowContext` outside a transaction: it fails, or it is done at once.
unfoldable pub at_once : {A : Type 0} → Bool → (Tables → A × Tables) → Call A
at_once fails f t = if fails then (err failure, t) else (let (a, u) = f t in (ok a, u))

abbrev pub unix : Instant → ℕ
unix now = now.nanos / second

-- A hash in a column that may be NULL.
abbrev pub holds : Option Bytes → Bytes → Bool
holds none h = false
holds (some g) h = equal g h

abbrev pub epoch_is : Option Administrator → ℕ → Bool
epoch_is none n = false
epoch_is (some a) n = a.auth_epoch == n

-- `configuration.validate`, the part of the sessions.
unfoldable pub valid_policy : SessionPolicy → Bool
valid_policy p =
    not (
      ltb p.idle_lifetime second
      || ltb p.absolute_lifetime second
      || ltb p.rotation_after second
      || ltb p.previous_grace second)
    && not (ltb p.absolute_lifetime p.idle_lifetime)
    && ltb p.rotation_after p.absolute_lifetime
    && not (ltb p.maximum_sessions 1 || ltb 64 p.maximum_sessions)

-- `newToken`, with the random bytes, or none where they fail.
abbrev pub new_token : Codec → Option Bytes → Option (Bytes × Bytes)
new_token codec none = none
new_token codec (some contents) =
    let raw = codec.encode_base64 contents in some (raw, codec.sha256 raw)

abbrev pub decoded_is_token : Option Bytes → Bool
decoded_is_token none = false
decoded_is_token (some contents) = length contents == token_byte_length

-- `decodeToken`: the digest of a well-formed token.
unfoldable pub decode_token : Codec → Bytes → Option Bytes
decode_token codec raw =
    if length raw == encoded_token_length && decoded_is_token (codec.decode_base64 raw)
    then some (codec.sha256 raw)
    else none
