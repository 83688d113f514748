-- ===== src/Dotenv/Types.antt =====
-- internal/dotenv/dotenv.go, the data: failure codes, policy, changes, entries and the document.
use acme_mux.Prelude.{ℕ, ◌*◌, ◌^◌, Bool, List, Option, Result}
use acme_mux.Prelude.Bytes.{Bytes}

abbrev pub default_maximum_bytes : ℕ
default_maximum_bytes = 2 ^ 20

abbrev pub maximum_allowed_bytes : ℕ
maximum_allowed_bytes = 8 * 2 ^ 20

abbrev pub default_maximum_lines : ℕ
default_maximum_lines = 8192

abbrev pub maximum_allowed_lines : ℕ
maximum_allowed_lines = 32768

abbrev pub default_maximum_value_bytes : ℕ
default_maximum_value_bytes = 64 * 2 ^ 10

abbrev pub maximum_allowed_value_bytes : ℕ
maximum_allowed_value_bytes = 2 ^ 20

pub data Code : Type 0 where
  invalid_policy invalid_utf8 too_large too_many_lines malformed key_not_allowed : Code
  duplicate_key expansion_not_allowed invalid_change value_too_large : Code

-- `Error`; the package never sets `Cause`.
pub record Error : Type 0 where
  pub code : Code
  pub key : Bytes

pub record Policy : Type 0 where
  pub maximum_bytes : ℕ
  pub maximum_lines : ℕ
  pub maximum_value_bytes : ℕ

pub record Presence : Type 0 where
  pub key : Bytes
  pub present : Bool

-- `Action` is a string in the source: `other` is any text but the two constants.
pub data Action : Type 0 where
  replace remove other : Action

pub record Change : Type 0 where
  pub key : Bytes
  pub action : Action
  pub value : Bytes

pub record Summary : Type 0 where
  pub key : Bytes
  pub action : Action

pub record Entry : Type 0 where
  pub key : Bytes
  pub statement_start : ℕ
  pub statement_end : ℕ
  pub value_start : ℕ
  pub value_end : ℕ

-- The map of entries is a list in the order of the scan; `raw` is `none` once `Clear` has run.
pub record Document : Type 0 where
  pub raw : Option Bytes
  pub allowed : List Bytes
  pub entries : List Entry
  pub values : List (Bytes × Bytes)
  pub unsupported : List Bytes
  pub policy : Policy
  pub newline : Bytes
  pub final_newline : Bool

abbrev pub M : Type 0 → Type 0
M = Result Error

abbrev pub error_of : Code → Error
error_of c = record { code = c; key = List.[] }

abbrev pub error_for : Code → Bytes → Error
error_for c k = record { code = c; key = k }
