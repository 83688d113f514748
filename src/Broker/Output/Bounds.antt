-- ===== src/Broker/Output/Bounds.antt =====
-- internal/broker/output.go: the sizes of the buffers of the collector.
use acme_mux.Prelude.{
  ◌-◌, ◌≤◌, ◌≡◌, ap, List, [], ◌∷◌, arith, length, take, length-append, length-take,
}
use acme_mux.Prelude.Bytes.{Bytes}
use acme_mux.Broker.Output.{
  Stream, stdout, stderr, Collector, accepted, write, Write, write_all, room, store,
}
use acme_mux.Broker.Output.Writes.{Fits, write_limits}

-- The buffers are within the limits.
abbrev pub Bounded : Collector → Type 0
Bounded c = Fits c (length c.out) (length c.errors)

accepted_fits :
    (stream : Stream) (value : Bytes) (c : Collector)
    → (accepted stream value c ≤ room stream c)
      × (accepted stream value c ≤ c.aggregate_limit - length c.out - length c.errors)
      × (accepted stream value c ≤ length value)
unfolding accepted
accepted_fits stream value c = (omega arith, omega arith, omega arith)

write_buffers :
    (stream : Stream) (value : Bytes) (c : Collector)
    → ((write stream value c).out ≡ (store stream (take (accepted stream value c) value) c).out)
      × ((write stream value c).errors
          ≡ (store stream (take (accepted stream value c) value) c).errors)
unfolding write
write_buffers stdout value c = (ground arith, ground arith)
write_buffers stderr value c = (ground arith, ground arith)

write-Bounded :
    (stream : Stream) (value : Bytes) (c : Collector) → Bounded c → Bounded (write stream value c)
write-Bounded stdout value c (h₀, h₁, h₂) =
    let (l₀, l₁, l₂) = write_limits stdout value c in
    let (a₀, a₁, a₂) = accepted_fits stdout value c in
    let (out, errors) = write_buffers stdout value c in
    let kept = length-take (accepted stdout value c) value in
    let total = length-append c.out (take (accepted stdout value c) value) in
    let outs = ap length out in
    let errs = ap length errors in (omega arith, omega arith, omega arith)
write-Bounded stderr value c (h₀, h₁, h₂) =
    let (l₀, l₁, l₂) = write_limits stderr value c in
    let (a₀, a₁, a₂) = accepted_fits stderr value c in
    let (out, errors) = write_buffers stderr value c in
    let kept = length-take (accepted stderr value c) value in
    let total = length-append c.errors (take (accepted stderr value c) value) in
    let outs = ap length out in
    let errs = ap length errors in (omega arith, omega arith, omega arith)

-- Any writes leave the two buffers of a collector that is within its limits within them.
pub write_all-Bounded : (ws : List Write) (c : Collector) → Bounded c → Bounded (write_all ws c)
unfolding write_all
write_all-Bounded [] c h = h
write_all-Bounded ((stream, value) ∷ ws) c h =
    write_all-Bounded ws (write stream value c) (write-Bounded stream value c h)
