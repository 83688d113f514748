-- ===== src/Broker/Output/Exact.antt =====
-- internal/broker/output.go: what the collector releases.
use acme_mux.Prelude.{
  ℕ, ◌+◌, Bool, true, false, ◌&&◌, ◌≡◌, refl, sym, ap, ◌∙◌, inl, inr, List, [], leb, arith, length,
}
use acme_mux.Prelude.Bytes.{Bytes}
use acme_mux.Broker.Output.{
  stdout, stderr, Collector, new_collector, Taken, take_output, Write, write_all,
}
use acme_mux.Broker.Output.Writes.{written, Holds, write_all-Holds, write_all_limits}

-- The output is within its three limits.
abbrev pub within_limits : ℕ → ℕ → ℕ → Bytes → Bytes → Bool
within_limits out_limit errors_limit aggregate_limit o e =
    leb (length o) out_limit
    && leb (length e) errors_limit
    && leb (length o + length e) aggregate_limit

-- All of it, or nothing and the mark.
abbrev pub all_or_nothing : Bool → Bytes → Bytes → Taken
all_or_nothing true o e = record { out = o; errors = e; overflowed = false }
all_or_nothing false o e = record { out = []; errors = []; overflowed = true }

abbrev pub notices_due : Bool → ℕ
notices_due true = 0
notices_due false = 1

release_all :
    (c : Collector) {o e : Bytes}
    → c.overflowed ≡ false
    → c.out ≡ o
    → c.errors ≡ e
    → (take_output c).0 ≡ all_or_nothing true o e
unfolding take_output
release_all c clear out errors = ground arith

release_nothing :
    (c : Collector) (o e : Bytes)
    → c.overflowed ≡ true
    → (take_output c).0 ≡ all_or_nothing false o e
unfolding take_output
release_nothing c o e over = ground arith

-- However the writes of the two streams follow each other, the collector releases all that was
-- written where it is within the three limits, with no notice, and else nothing with the mark, with
-- one notice.
pub take_output_exact :
    (out_limit errors_limit aggregate_limit : ℕ) (ws : List Write)
    → ((take_output (write_all ws (new_collector out_limit errors_limit aggregate_limit))).0
        ≡ all_or_nothing
            (within_limits out_limit errors_limit aggregate_limit
              (written stdout ws)
              (written stderr ws))
            (written stdout ws)
            (written stderr ws))
      × ((write_all ws (new_collector out_limit errors_limit aggregate_limit)).notices
          ≡ notices_due (
              within_limits out_limit errors_limit aggregate_limit
                (written stdout ws)
                (written stderr ws)))
take_output_exact out_limit errors_limit aggregate_limit ws =
    let start = new_collector out_limit errors_limit aggregate_limit in
    let o = written stdout ws in
    let e = written stderr ws in
    let fits = within_limits out_limit errors_limit aggregate_limit o e in
    let (l₀, l₁, l₂) = write_all_limits ws start in
    let begin : Holds start [] [] =
      inl (refl, refl, refl, refl, refl, (omega arith, omega arith, omega arith)) in
    elim (write_all-Holds ws start [] [] begin) [
      | inl (clear, quiet, none_yet, out, errors, (f₀, f₁, f₂)) ↦
          let is : fits ≡ true = ground arith in
          (
            release_all (write_all ws start) clear out errors
                ∙ ap (λ b. all_or_nothing b o e) (sym is),
            none_yet ∙ ap notices_due (sym is),
          )
      | inr (over, told, once, exceeds) ↦
          let is : fits ≡ false = ground arith in
          (
            release_nothing (write_all ws start) o e over ∙ ap (λ b. all_or_nothing b o e) (sym is),
            once ∙ ap notices_due (sym is),
          )
    ]
