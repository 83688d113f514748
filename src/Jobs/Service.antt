-- ===== src/Jobs/Service.antt =====
-- internal/jobs/worker.go: what the service answers to a browser, and the identifiers it makes.
pub mod Views
use acme_mux.Prelude.{
  ℕ, ◌+◌, ◌-◌, ◌/◌, ◌%◌, Bool, true, false, not, ◌&&◌, ◌||◌, List, [], ◌∷◌, Option, some, none, ltb,
  if◌then◌else◌, Result, ok, err,
}
use acme_mux.Prelude.Bytes.{Bytes}
use acme_mux.Jobs.Types.{
  Request, Kind, State, Phase, InventoryState, Instant, zero_time, Operation, Fault, not_found,
  failure, is_active, is_terminal, is_pending,
}
use acme_mux.Jobs.Database.{Tables}
use acme_mux.Jobs.Store.{latest}
use acme_mux.Jobs.Changes.{Call, enqueue_kind}

abbrev pub hex_digit : ℕ → ℕ
hex_digit d = if ltb d 10 then b'0' + d else b'a' + (d - 10)

-- `hex.EncodeToString`.
unfoldable pub encode_hex : Bytes → Bytes
encode_hex [] = []
encode_hex (b ∷ bs) = hex_digit (b / 16) ∷ hex_digit (b % 16) ∷ encode_hex bs

-- `Service.enqueue`, with the sixteen random bytes, or none where the source of randomness fails.
unfoldable pub service_enqueue :
    List Bool → Option Bytes → Kind → Request → Instant → Call Operation
service_enqueue script none kind request now tables = (err failure, tables)
service_enqueue script (some raw) kind request now tables =
    enqueue_kind script (encode_hex raw) kind request now tables

-- The operation that a pending reconciliation shows: running, with no result.
abbrev pub projection : Operation → Operation
projection o = record {
  id = o.id;
  kind = o.kind;
  state = State.running;
  phase = Phase.refreshing_inventory;
  requested_at = o.requested_at;
  started_at = o.started_at;
  finished_at = zero_time;
  updated_at = o.updated_at;
  code = [];
  may_have_changed = false;
  inventory = record { state = InventoryState.pending; code = []; certificate_count = none };
  output = [];
  output_truncated = false;
  items = [];
  request = record {
    reviewed_evidence_sha256 = [];
    items = [];
    context = record {
      runtime_identity = [];
      runtime_manifest_id = [];
      configuration_path = [];
      storage_path = [];
    };
    details = [];
  };
}

abbrev pub status_view : Result Fault Operation → Result Fault Operation
status_view (err e) = err e
status_view (ok o) =
    if is_active o.state
    then ok o
    else if is_terminal o.state && is_pending o.inventory.state
    then ok (projection o)
    else err not_found

abbrev pub latest_view : Result Fault Operation → Result Fault Operation
latest_view (err e) = err e
latest_view (ok o) =
    if not (is_terminal o.state) || is_pending o.inventory.state then err not_found else ok o

-- `Service.Status`.
unfoldable pub service_status : List Bool → Call Operation
service_status script tables = let (r, t) = latest script tables in (status_view r, t)

-- `Service.Latest`.
unfoldable pub service_latest : List Bool → Call Operation
service_latest script tables = let (r, t) = latest script tables in (latest_view r, t)
