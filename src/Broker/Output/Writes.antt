-- ===== src/Broker/Output/Writes.antt =====
-- internal/broker/output.go: what a collector holds behind the writes of the two streams.
use mathlib.Core.Path.{subst, subst₂}
use mathlib.Core.List.{append_assoc, append-nil}
use acme_mux.Prelude.{
  ℕ, ◌+◌, ◌-◌, ◌≤◌, ◌<◌, true, false, ◌≡◌, refl, sym, ap, ◌∙◌, ◌⊎◌, inl, inr, List, [], ◌∷◌, ◌++◌,
  ◌==◌, ==_iff, arith, length, take, take_all, length-append, Bool-cases,
}
use acme_mux.Prelude.Bytes.{Bytes}
use acme_mux.Broker.Output.{
  Stream, stdout, stderr, Collector, room, accepted, write, Write, write_all,
}

-- What the process has written to a stream.
abbrev pub written : Stream → List Write → Bytes
written stream [] = []
written stdout ((stdout, value) ∷ ws) = value ++ written stdout ws
written stdout ((stderr, value) ∷ ws) = written stdout ws
written stderr ((stdout, value) ∷ ws) = written stderr ws
written stderr ((stderr, value) ∷ ws) = value ++ written stderr ws

abbrev pub Fits : Collector → ℕ → ℕ → Type 0
Fits c o e = (o ≤ c.out_limit) × (e ≤ c.errors_limit) × (o + e ≤ c.aggregate_limit)

abbrev pub Exceeds : Collector → ℕ → ℕ → Type 0
Exceeds c o e = (c.out_limit < o) ⊎ ((c.errors_limit < e) ⊎ (c.aggregate_limit < o + e))

-- Nothing was lost, or the output is over a limit and this was reported once.
abbrev pub Kept : Collector → Bytes → Bytes → Type 0
Kept c o e =
    (c.overflowed ≡ false)
    × (c.notified ≡ false)
    × (c.notices ≡ 0)
    × (c.out ≡ o)
    × (c.errors ≡ e)
    × Fits c (length o) (length e)

abbrev pub Lost : Collector → Bytes → Bytes → Type 0
Lost c o e =
    (c.overflowed ≡ true) × (c.notified ≡ true) × (c.notices ≡ 1) × Exceeds c (length o) (length e)

abbrev pub Holds : Collector → Bytes → Bytes → Type 0
Holds c o e = Kept c o e ⊎ Lost c o e

abbrev sent_out : Stream → Bytes → Bytes → Bytes
sent_out stdout value o = o ++ value
sent_out stderr value o = o

abbrev sent_errors : Stream → Bytes → Bytes → Bytes
sent_errors stdout value e = e
sent_errors stderr value e = e ++ value

accepted_all :
    (stream : Stream) (value : Bytes) (c : Collector)
    → (accepted stream value c == length value) ≡ true
    → (length value ≤ room stream c)
      × (length value ≤ c.aggregate_limit - length c.out - length c.errors)
      × (take (accepted stream value c) value ≡ value)
unfolding accepted
accepted_all stream value c h =
    let same = (==_iff (accepted stream value c) (length value)).0 h in
    (omega arith, omega arith, take_all (accepted stream value c) value (omega arith))

accepted_less :
    (stream : Stream) (value : Bytes) (c : Collector)
    → (accepted stream value c == length value) ≡ false
    → (room stream c < length value)
      ⊎ (c.aggregate_limit - length c.out - length c.errors < length value)
unfolding accepted
accepted_less stream value c h = ground arith

-- A write that is kept whole.
write_whole :
    (stream : Stream) (value : Bytes) (c : Collector)
    → c.overflowed ≡ false
    → (accepted stream value c == length value) ≡ true
    → ((write stream value c).overflowed ≡ false)
      × ((write stream value c).notified ≡ c.notified)
      × ((write stream value c).notices ≡ c.notices)
      × ((write stream value c).out ≡ sent_out stream value c.out)
      × ((write stream value c).errors ≡ sent_errors stream value c.errors)
unfolding write
write_whole stdout value c clear all =
    let (_, _, whole) = accepted_all stdout value c all in
    (ground arith, ground arith, ground arith, ground arith, ground arith)
write_whole stderr value c clear all =
    let (_, _, whole) = accepted_all stderr value c all in
    (ground arith, ground arith, ground arith, ground arith, ground arith)

-- The first write that is cut.
write_first_cut :
    (stream : Stream) (value : Bytes) (c : Collector)
    → c.overflowed ≡ false
    → c.notified ≡ false
    → c.notices ≡ 0
    → (accepted stream value c == length value) ≡ false
    → ((write stream value c).overflowed ≡ true)
      × ((write stream value c).notified ≡ true)
      × ((write stream value c).notices ≡ 1)
unfolding write
write_first_cut stdout value c clear quiet none_yet cut = (ground arith, ground arith, ground arith)
write_first_cut stderr value c clear quiet none_yet cut = (ground arith, ground arith, ground arith)

-- A write after that.
write_later :
    (stream : Stream) (value : Bytes) (c : Collector)
    → c.overflowed ≡ true
    → ((write stream value c).overflowed ≡ true)
      × ((write stream value c).notified ≡ c.notified)
      × ((write stream value c).notices ≡ c.notices)
unfolding write
write_later stdout value c over = (ground arith, ground arith, ground arith)
write_later stderr value c over = (ground arith, ground arith, ground arith)

pub write_limits :
    (stream : Stream) (value : Bytes) (c : Collector)
    → ((write stream value c).out_limit ≡ c.out_limit)
      × ((write stream value c).errors_limit ≡ c.errors_limit)
      × ((write stream value c).aggregate_limit ≡ c.aggregate_limit)
unfolding write
write_limits stdout value c = (ground arith, ground arith, ground arith)
write_limits stderr value c = (ground arith, ground arith, ground arith)

write-Kept :
    (stream : Stream) (value : Bytes) (c : Collector) (o e : Bytes)
    → Kept c o e
    → Holds (write stream value c) (sent_out stream value o) (sent_errors stream value e)
write-Kept stdout value c o e (clear, quiet, none_yet, out, errors, (f₀, f₁, f₂)) =
    let (l₀, l₁, l₂) = write_limits stdout value c in
    let total = length-append o value in
    let outs = ap length out in
    let errs = ap length errors in
    elim (Bool-cases (accepted stdout value c == length value)) [
      | inl all ↦
          let (a, b, d, w, x) = write_whole stdout value c clear all in
          let (r₀, r₁, _) = accepted_all stdout value c all in
          inl (
            a,
            b ∙ quiet,
            d ∙ none_yet,
            w ∙ ap (λ y. y ++ value) out,
            x ∙ errors,
            (omega arith, omega arith, omega arith),
          )
      | inr cut ↦
          let (a, b, d) = write_first_cut stdout value c clear quiet none_yet cut in
          let over = accepted_less stdout value c cut in inr (a, b, d, ground arith)
    ]
write-Kept stderr value c o e (clear, quiet, none_yet, out, errors, (f₀, f₁, f₂)) =
    let (l₀, l₁, l₂) = write_limits stderr value c in
    let total = length-append e value in
    let outs = ap length out in
    let errs = ap length errors in
    elim (Bool-cases (accepted stderr value c == length value)) [
      | inl all ↦
          let (a, b, d, w, x) = write_whole stderr value c clear all in
          let (r₀, r₁, _) = accepted_all stderr value c all in
          inl (
            a,
            b ∙ quiet,
            d ∙ none_yet,
            w ∙ out,
            x ∙ ap (λ y. y ++ value) errors,
            (omega arith, omega arith, omega arith),
          )
      | inr cut ↦
          let (a, b, d) = write_first_cut stderr value c clear quiet none_yet cut in
          let over = accepted_less stderr value c cut in inr (a, b, d, ground arith)
    ]

write-Lost :
    (stream : Stream) (value : Bytes) (c : Collector) (o e : Bytes)
    → Lost c o e
    → Lost (write stream value c) (sent_out stream value o) (sent_errors stream value e)
write-Lost stdout value c o e (over, told, once, exceeds) =
    let (l₀, l₁, l₂) = write_limits stdout value c in
    let total = length-append o value in
    let (a, b, d) = write_later stdout value c over in (a, b ∙ told, d ∙ once, ground arith)
write-Lost stderr value c o e (over, told, once, exceeds) =
    let (l₀, l₁, l₂) = write_limits stderr value c in
    let total = length-append e value in
    let (a, b, d) = write_later stderr value c over in (a, b ∙ told, d ∙ once, ground arith)

write-Holds :
    (stream : Stream) (value : Bytes) (c : Collector) (o e : Bytes)
    → Holds c o e
    → Holds (write stream value c) (sent_out stream value o) (sent_errors stream value e)
write-Holds stream value c o e (inl kept) = write-Kept stream value c o e kept
write-Holds stream value c o e (inr lost) = inr (write-Lost stream value c o e lost)

pub write_all-Holds :
    (ws : List Write) (c : Collector) (o e : Bytes)
    → Holds c o e
    → Holds (write_all ws c) (o ++ written stdout ws) (e ++ written stderr ws)
unfolding write_all
write_all-Holds [] c o e h = subst₂ (Holds c) (sym (append-nil o)) (sym (append-nil e)) h
write_all-Holds ((stdout, value) ∷ ws) c o e h =
    subst (λ x. Holds (write_all ws (write stdout value c)) x (e ++ written stderr ws))
      (append_assoc o value (written stdout ws))
      (write_all-Holds ws (write stdout value c) (o ++ value) e (write-Holds stdout value c o e h))
write_all-Holds ((stderr, value) ∷ ws) c o e h =
    subst (Holds (write_all ws (write stderr value c)) (o ++ written stdout ws))
      (append_assoc e value (written stderr ws))
      (write_all-Holds ws (write stderr value c) o (e ++ value) (write-Holds stderr value c o e h))

pub write_all_limits :
    (ws : List Write) (c : Collector)
    → ((write_all ws c).out_limit ≡ c.out_limit)
      × ((write_all ws c).errors_limit ≡ c.errors_limit)
      × ((write_all ws c).aggregate_limit ≡ c.aggregate_limit)
unfolding write_all
write_all_limits [] c = (refl, refl, refl)
write_all_limits ((stream, value) ∷ ws) c =
    let (a₀, a₁, a₂) = write_all_limits ws (write stream value c) in
    let (b₀, b₁, b₂) = write_limits stream value c in (a₀ ∙ b₀, a₁ ∙ b₁, a₂ ∙ b₂)
