-- ===== src/Broker/Output.antt =====
-- internal/broker/output.go: the collector of the output of the child process. A limit below zero
-- acts as zero there, and is not represented. The mutex makes each write one step.
pub mod Writes
pub mod Exact
pub mod Bounds
use acme_mux.Prelude.{
  ℕ, suc, ◌+◌, ◌-◌, min, Bool, true, false, not, ◌&&◌, ◌||◌, List, [], ◌∷◌, ◌++◌, ◌==◌, ltb,
  if◌then◌else◌, length, take,
}
use acme_mux.Prelude.Bytes.{Bytes}

pub data Stream : Type 0 where
  stdout stderr : Stream

-- `outputCollector`. The callback is a count of its calls; `notified` is `overflowOnce`.
pub record Collector : Type 0 where
  pub out : Bytes
  pub errors : Bytes
  pub out_limit : ℕ
  pub errors_limit : ℕ
  pub aggregate_limit : ℕ
  pub overflowed : Bool
  pub notified : Bool
  pub notices : ℕ

abbrev pub new_collector : ℕ → ℕ → ℕ → Collector
new_collector out_limit errors_limit aggregate_limit = record {
  out = [];
  errors = [];
  out_limit = out_limit;
  errors_limit = errors_limit;
  aggregate_limit = aggregate_limit;
  overflowed = false;
  notified = false;
  notices = 0;
}

abbrev pub room : Stream → Collector → ℕ
room stdout c = c.out_limit - length c.out
room stderr c = c.errors_limit - length c.errors

abbrev pub store : Stream → Bytes → Collector → Collector
store stdout value c = record c { out = c.out ++ value }
store stderr value c = record c { errors = c.errors ++ value }

-- `collector.overflowOnce.Do`.
abbrev pub notify : Collector → Collector
notify c = if c.notified then c else record c { notified = true; notices = suc c.notices }

-- How much of the value `Write` keeps.
unfoldable pub accepted : Stream → Bytes → Collector → ℕ
accepted stream value c =
    min (length value) (min (room stream c) (c.aggregate_limit - length c.out - length c.errors))

-- `streamWriter.Write`.
unfoldable pub write : Stream → Bytes → Collector → Collector
write stream value c =
    let n = accepted stream value c in
    let kept = store stream (take n value) c in
    let overflows = not (n == length value) in
    let marked = record kept { overflowed = c.overflowed || overflows } in
    if overflows && not c.overflowed then notify marked else marked

pub record Taken : Type 0 where
  pub out : Bytes
  pub errors : Bytes
  pub overflowed : Bool

-- `outputCollector.take`.
unfoldable pub take_output : Collector → Taken × Collector
take_output c = (
  if c.overflowed
      then record { out = []; errors = []; overflowed = true }
      else record { out = c.out; errors = c.errors; overflowed = false },
  record c { out = []; errors = [] },
)

abbrev pub Write : Type 0
Write = Stream × Bytes

-- The writes of a process, one behind the other.
unfoldable pub write_all : List Write → Collector → Collector
write_all [] c = c
write_all ((stream, value) ∷ ws) c = write_all ws (write stream value c)
