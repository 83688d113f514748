-- ===== src/Dotenv/Scan/Spans.antt =====
-- The byte spans that a scan records: in order, disjoint and inside the text.
use acme_mux.Prelude.{
  ℕ, ◌≤◌, ◌<◌, ◌≡◌, sym, ap, ◌∙◌, ◌⊎◌, inl, inr, Bool, List, [], ◌∷◌, ◌++◌, some, arith, length,
  get_elem?, get_elem?-lt, ok, Result-cases,
}
use mathlib.Core.Path.{subst}
use acme_mux.Prelude.Bytes.{Bytes}
use acme_mux.Dotenv.Types.{M, Entry}
use acme_mux.Dotenv.Lines.Bounds.{LineEnd, LineStart, current_line_start-le, current_line_start-ge}
use acme_mux.Dotenv.Scan.{
  Scan, Scanned, scan_round, scan_loop, empty_scan, scan_fuel, finish_scan, scan_entries,
  record_statement,
}
use acme_mux.Dotenv.Scan.Rounds.{
  Reads, scan_round_cases, scan_round-Moves, scan_loop_total, scan_loop_inv,
}

-- The entries from `lo` to `hi`, one behind the other, each value inside its statement.
abbrev pub Spans : ℕ → List Entry → ℕ → Type 0
Spans lo [] hi = lo ≤ hi
Spans lo (e ∷ es) hi =
    (lo ≤ e.statement_start)
    × (e.statement_start ≤ e.value_start)
    × (e.value_start ≤ e.value_end)
    × (e.value_end ≤ e.statement_end)
    × Spans e.statement_end es hi

Spans-widen : (lo : ℕ) (es : List Entry) (mid hi : ℕ) → Spans lo es mid → mid ≤ hi → Spans lo es hi
Spans-widen lo [] mid hi h le = omega arith
Spans-widen lo (e ∷ es) mid hi (a, b, c, d, h) le =
    (a, b, c, d, Spans-widen e.statement_end es mid hi h le)

Spans-concat :
    (lo : ℕ) (es : List Entry) (mid : ℕ) (e : Entry) (hi : ℕ)
    → Spans lo es mid
    → Spans mid (e ∷ []) hi
    → Spans lo (es ++ e ∷ []) hi
Spans-concat lo [] mid e hi h (a, b, c, d, k) = (omega arith, b, c, d, k)
Spans-concat lo (x ∷ es) mid e hi (a, b, c, d, h) k =
    (a, b, c, d, Spans-concat x.statement_end es mid e hi h k)

-- What the loop keeps at a position.
record SpanInv (text : Bytes) (position : ℕ) (scan : Scan) : Type 0 where
  inside : position ≤ length text
  line : LineEnd text position
  spans : Spans 0 scan.entries position

-- A recorded statement adds its entry behind the others, or none.
record_statement-entries :
    (allowed : List Bytes) (entry : Entry) (expansion : Bool) (scan scan' : Scan)
    → record_statement allowed entry expansion scan ≡ ok scan'
    → (scan'.entries ≡ scan.entries) ⊎ (scan'.entries ≡ scan.entries ++ entry ∷ [])
unfolding record_statement
record_statement-entries allowed entry expansion scan scan' e = ground arith

-- The statement read from `start` lies behind `position`, since no line starts between.
statement_span :
    (text : Bytes) (allowed : List Bytes) (position start next : ℕ) (scan scan' : Scan)
    (r : Reads text allowed start scan next scan')
    → LineEnd text position
    → position ≤ start
    → start < length text
    → Spans position (r.entry ∷ []) next
statement_span text allowed position start next scan scan' r line le before =
    let first : LineStart text position = elim line [
      | inl end ↦ absurd (omega arith)
      | inr first ↦ first
    ] in
    let lo = current_line_start-ge text position start first le in
    (
      omega (arith, r.starts, lo),
      omega (arith, r.starts, current_line_start-le text start, r.value_start-lt),
      r.value_end-le,
      r.statement_end-le,
      omega (arith, r.next_is),
    )

round-SpanInv :
    (text : Bytes) (allowed : List Bytes) (position start c next : ℕ) (scan scan' : Scan)
    → SpanInv text position scan
    → position ≤ start
    → get_elem? text start ≡ some c
    → scan_round text allowed start c scan ≡ ok (next, scan')
    → SpanInv text next scan'
round-SpanInv text allowed position start c next scan scan' inv le at e =
    let before = get_elem?-lt text start at in
    let moved = scan_round-Moves text allowed start c scan next scan' before e in
    record {
      inside = moved.inside;
      line = moved.line;
      spans = elim (scan_round_cases text allowed start c scan next scan' before e) [
        | inl (same, _) ↦
            rw same (Spans-widen 0 scan.entries position next inv.spans (omega (arith, moved.on)))
        | inr r ↦
            elim (record_statement-entries allowed r.entry r.expansion scan scan' r.recorded) [
              | inl same ↦
                  rw same
                    (Spans-widen 0 scan.entries position next inv.spans (omega (arith, moved.on)))
              | inr added ↦ rw added (
                  Spans-concat 0 scan.entries position r.entry next inv.spans (
                    statement_span text allowed position start next scan scan' r inv.line le
                      before))
            ]
      ];
    }

-- The loop of scanEntries ends within one round more than there are bytes.
pub scan_terminates :
    (text : Bytes) (allowed : List Bytes)
    → (r : M Scan) × (scan_loop (scan_fuel text) text allowed 0 empty_scan ≡ some r)
      × (scan_entries text allowed ≡ finish_scan (some r))
unfolding scan_entries
scan_terminates text allowed =
    let (r, e) = scan_loop_total (scan_fuel text) text allowed 0 empty_scan (omega arith) in
    (r, e, rw e)

-- The scan that a successful `scan_entries` returns.
pub scan_entries_inv :
    (text : Bytes) (allowed : List Bytes) (out : Scanned)
    → scan_entries text allowed ≡ ok out
    → (scan : Scan) × (scan_loop (scan_fuel text) text allowed 0 empty_scan ≡ some (ok scan))
      × (finish_scan (some (ok scan)) ≡ ok out)
scan_entries_inv text allowed out e =
    let (r, ends, is) = scan_terminates text allowed in
    elim (Result-cases r) [
      | inl (scan, q) ↦
          (scan, ends ∙ ap some q, ap (λ x. finish_scan (some x)) (sym q) ∙ sym is ∙ e)
      | inr (x, q) ↦ absurd (cc)
    ]

-- The spans of a successful scan are in order, disjoint and inside the text.
pub scan_entries-Spans :
    (text : Bytes) (allowed : List Bytes) (out : Scanned)
    → scan_entries text allowed ≡ ok out
    → Spans 0 out.entries (length text)
scan_entries-Spans text allowed out e =
    let (scan, ends, is) = scan_entries_inv text allowed out e in
    let (last, inv) =
      scan_loop_inv text allowed (SpanInv text) (round-SpanInv text allowed) (scan_fuel text) 0
        empty_scan scan
        (record {
          inside = omega arith;
          line = inr (λ j q. absurd (omega arith));
          spans = omega arith;
        })
        ends in
    let same : scan.entries ≡ out.entries = ground arith in
    subst (λ es. Spans 0 es (length text)) same
      (Spans-widen 0 scan.entries last (length text) inv.spans inv.inside)
