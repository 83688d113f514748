-- ===== src/Jobs/Types.antt =====
-- internal/jobs/types.go, the data. A string type with named constants is an enumeration, with
-- `unknown` for any other text.
use acme_mux.Prelude.{ℕ, ◌*◌, ◌^◌, Bool, true, false, List, Option}
use acme_mux.Prelude.Bytes.{Bytes}
use acme_mux.Prelude.Int.{ℤ}
pub use acme_mux.Prelude.Time.{Instant, zero_time}

abbrev pub maximum_output_bytes : ℕ
maximum_output_bytes = 256 * 2 ^ 10

abbrev pub maximum_item_results : ℕ
maximum_item_results = 256

abbrev pub maximum_item_name_bytes : ℕ
maximum_item_name_bytes = 255

abbrev pub maximum_certificate_count : ℕ
maximum_certificate_count = 10000

abbrev pub maximum_code_bytes : ℕ
maximum_code_bytes = 64

abbrev pub sha256_hex_bytes : ℕ
sha256_hex_bytes = 64

pub record RequestContext : Type 0 where
  pub runtime_identity : Bytes
  pub runtime_manifest_id : Bytes
  pub configuration_path : Bytes
  pub storage_path : Bytes

pub record RequestItem : Type 0 where
  pub name : Bytes
  pub account : Bytes
  pub ca : Bytes
  pub challenge_kind : Bytes
  pub challenge_mode : Bytes

pub record Request : Type 0 where
  pub reviewed_evidence_sha256 : Bytes
  pub items : List Bytes
  pub context : RequestContext
  pub details : List RequestItem

pub data Kind : Type 0 where
  manual scheduled unknown : Kind

pub data State : Type 0 where
  queued running succeeded failed partial not_attempted timed_out interrupted incompatible : State
  ambiguous unknown : State

-- `blank` is the empty text of an operation with no active phase.
pub data Phase : Type 0 where
  blank queued revalidating executing refreshing_inventory unknown : Phase

pub data InventoryState : Type 0 where
  pending refreshed unavailable unknown : InventoryState

pub data ItemState : Type 0 where
  completed failed not_attempted ambiguous unknown : ItemState

pub record InventoryResult : Type 0 where
  pub state : InventoryState
  pub code : Bytes
  pub certificate_count : Option ℤ

pub record ItemResult : Type 0 where
  pub name : Bytes
  pub state : ItemState
  pub code : Bytes

-- `Result`: what an executor hands over.
pub record ExecutorResult : Type 0 where
  pub state : State
  pub code : Bytes
  pub may_have_changed : Bool
  pub inventory : InventoryResult
  pub output : Bytes
  pub output_truncated : Bool
  pub items : List ItemResult

pub record Operation : Type 0 where
  pub id : Bytes
  pub kind : Kind
  pub state : State
  pub phase : Phase
  pub requested_at : Instant
  pub started_at : Instant
  pub finished_at : Instant
  pub updated_at : Instant
  pub code : Bytes
  pub may_have_changed : Bool
  pub inventory : InventoryResult
  pub output : Bytes
  pub output_truncated : Bool
  pub items : List ItemResult
  pub request : Request

-- internal/jobs/errors.go; `failure` is any other error, such as one of the database.
pub data Fault : Type 0 where
  active not_found no_queued invalid state_changed worker_running failure : Fault

-- `State.active` and `Operation.Active`.
abbrev pub is_active : State → Bool
is_active queued = true
is_active running = true
is_active _ = false

-- `State.terminal` and `Operation.Terminal`.
abbrev pub is_terminal : State → Bool
is_terminal queued = false
is_terminal running = false
is_terminal unknown = false
is_terminal _ = true

abbrev pub is_running : State → Bool
is_running running = true
is_running _ = false

abbrev pub is_queued : State → Bool
is_queued queued = true
is_queued _ = false

-- The two terminal states whose inventory may still be pending.
abbrev pub is_uncertain : State → Bool
is_uncertain interrupted = true
is_uncertain ambiguous = true
is_uncertain _ = false

abbrev pub is_pending : InventoryState → Bool
is_pending pending = true
is_pending _ = false

abbrev pub valid_phase_transition : Phase → Phase → Bool
valid_phase_transition revalidating executing = true
valid_phase_transition revalidating refreshing_inventory = true
valid_phase_transition executing refreshing_inventory = true
valid_phase_transition _ _ = false
