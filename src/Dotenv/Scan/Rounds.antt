-- ===== src/Dotenv/Scan/Rounds.antt =====
-- One round of `scanEntries`: the statement that it reads, and that it moves on.
use mathlib.Core.Path.{subst}
use acme_mux.Prelude.{
  ℕ, zero, suc, ◌+◌, ◌-◌, ◌≤◌, ◌<◌, Bool, true, false, not, ◌≡◌, refl, sym, ap, ◌∙◌, ◌⊎◌, inl, inr,
  List, [], ◌∷◌, none, some, arith, ◌==◌, Bool-cases, Option-cases, length, get_elem?, drop, slice,
  length-drop, get_elem?-lt, get_elem?-lt-get, ok, err, bind-eq-ok, guard-eq-ok, Result-cases,
}
use acme_mux.Prelude.Bytes.{Bytes, contains}
use acme_mux.Prelude.Utf8.{trim_space}
use acme_mux.Dotenv.Types.{M, Error, Entry, malformed, error_of, duplicate_key, error_for}
use acme_mux.Dotenv.Lines.{skip_whitespace, skip_horizontal, consume_line, current_line_start}
use acme_mux.Dotenv.Lines.Bounds.{
  LineEnd, skip_whitespace_bounds, skip_horizontal_bounds, consume_line_bounds, consume_line-lt,
  consume_line-LineEnd,
}
use acme_mux.Dotenv.Value.{scan_value}
use acme_mux.Dotenv.Value.Bounds.{scan_value-Stops}
use acme_mux.Dotenv.Scan.{
  Scan, valid_source_key, key_start_at, find_separator, record_statement, scan_statement,
  scan_round, scan_loop,
}

key_start_at_bounds :
    (text : Bytes) (position : ℕ)
    → position ≤ length text
    → (position ≤ key_start_at text position) × (key_start_at text position ≤ length text)
unfolding key_start_at
key_start_at_bounds text position inside =
    ground (arith, skip_horizontal_bounds text (position + 6), get_elem?-lt-get text (position + 6))

find_separator_bounds :
    (position : ℕ) (xs : Bytes) (p : ℕ)
    → find_separator position xs ≡ some p
    → (position ≤ p) × (p < position + length xs)
unfolding find_separator
find_separator_bounds position [] p h = absurd (ground arith)
find_separator_bounds position (c ∷ xs) p h =
    ground (arith, find_separator_bounds (suc position) xs p)

-- What a round that reads a statement has read, from its first byte at `position`.
pub record Reads (text : Bytes) (allowed : List Bytes) (position : ℕ) (scan : Scan) (next : ℕ)
    (scan' : Scan) : Type 0 where
  pub entry : Entry
  pub expansion : Bool
  pub starts : entry.statement_start ≡ current_line_start text position
  pub value_start-lt : position < entry.value_start
  pub value_end-le : entry.value_start ≤ entry.value_end
  pub statement_end-le : entry.value_end ≤ entry.statement_end
  pub next_is : next ≡ entry.statement_end
  pub inside : next ≤ length text
  pub line : LineEnd text next
  pub fresh : contains scan.seen entry.key ≡ false
  pub valid : valid_source_key entry.key ≡ true
  pub recorded : record_statement allowed entry expansion scan ≡ ok scan'

scan_statement-Reads :
    (text : Bytes) (allowed : List Bytes) (position key_start separator : ℕ) (scan : Scan)
    (next : ℕ) (scan' : Scan)
    → position ≤ separator
    → separator < length text
    → scan_statement text allowed position key_start separator scan ≡ ok (next, scan')
    → Reads text allowed position scan next scan'
unfolding scan_statement
scan_statement-Reads text allowed position key_start separator scan next scan' lo hi e =
    let key = trim_space (slice text key_start separator) in
    let value_start = skip_horizontal text (separator + 1) in
    let (past, kept) = skip_horizontal_bounds text (separator + 1) in
    let (valid, e₁) = guard-eq-ok (not (valid_source_key key)) (error_of malformed) _ e in
    let (fresh, e₂) = guard-eq-ok (contains scan.seen key) (error_for duplicate_key key) _ e₁ in
    let (value, scanned, e₃) = bind-eq-ok (scan_value text value_start) _ e₂ in
    let (out, recorded, e₄) = bind-eq-ok (record_statement allowed _ value.expansion scan) _ e₃ in
    let stops = scan_value-Stops text value_start value (kept (omega arith)) scanned in
    let same : (value.statement_end ≡ next) × (out ≡ scan') = ground arith in
    record {
      entry = record {
        key = key;
        statement_start = current_line_start text position;
        statement_end = value.statement_end;
        value_start = value_start;
        value_end = value.value_end;
      };
      expansion = value.expansion;
      starts = refl;
      value_start-lt = omega arith;
      value_end-le = stops.value_start-le;
      statement_end-le = stops.value_end-le;
      next_is = sym same.0;
      inside = omega (arith, same.0, stops.statement_end-le);
      line = subst (LineEnd text) same.0 stops.line;
      fresh = fresh;
      valid = ground arith;
      recorded = recorded ∙ ap ok same.1;
    }

-- A round is a comment line or a statement.
pub scan_round_cases :
    (text : Bytes) (allowed : List Bytes) (position c : ℕ) (scan : Scan) (next : ℕ) (scan' : Scan)
    → position < length text
    → scan_round text allowed position c scan ≡ ok (next, scan')
    → ((scan' ≡ scan) × (next ≡ consume_line text position))
      ⊎ Reads text allowed position scan next scan'
unfolding scan_round
scan_round_cases text allowed position c scan next scan' inside e = elim (Bool-cases (c == b'#')) [
  | inl comment ↦ inl (ground arith)
  | inr other ↦
      let key_start = key_start_at text position in
      elim (Option-cases (find_separator key_start (drop key_start text))) [
        | inl missing ↦ absurd (ground arith)
        | inr (separator, found) ↦
            let (lo, hi) = find_separator_bounds key_start (drop key_start text) separator found in
            inr (
              scan_statement-Reads text allowed position key_start separator scan next scan'
                (omega (arith, key_start_at_bounds text position))
                (omega (arith, key_start_at_bounds text position, length-drop key_start text))
                (ground arith))
      ]
]

-- A round moves on, stays inside the text and stops behind a line.
pub record Moves (text : Bytes) (position next : ℕ) : Type 0 where
  pub on : position < next
  pub inside : next ≤ length text
  pub line : LineEnd text next

pub scan_round-Moves :
    (text : Bytes) (allowed : List Bytes) (position c : ℕ) (scan : Scan) (next : ℕ) (scan' : Scan)
    → position < length text
    → scan_round text allowed position c scan ≡ ok (next, scan')
    → Moves text position next
scan_round-Moves text allowed position c scan next scan' inside e =
    elim (scan_round_cases text allowed position c scan next scan' inside e) [
      | inl (_, at) ↦
          let (behind, ends) = consume_line_bounds text position in
          record {
            on = omega (arith, consume_line-lt text position inside);
            inside = omega arith;
            line = subst (LineEnd text) (sym at) (consume_line-LineEnd text position (omega arith));
          }
      | inr r ↦ record {
        on = omega (arith, r.value_start-lt, r.value_end-le, r.statement_end-le, r.next_is);
        inside = r.inside;
        line = r.line;
      }
    ]

-- The three ways of a round of the loop.
module _ (fuel : ℕ) (text : Bytes) (allowed : List Bytes) (position : ℕ) (scan : Scan) where
  loop_end :
      get_elem? text (skip_whitespace text position) ≡ none
      → scan_loop (suc fuel) text allowed position scan ≡ some (ok scan)
  unfolding scan_loop
  loop_end at = rw (at, scan_loop)

  loop_err :
      (c : ℕ) (e : Error)
      → get_elem? text (skip_whitespace text position) ≡ some c
      → scan_round text allowed (skip_whitespace text position) c scan ≡ err e
      → scan_loop (suc fuel) text allowed position scan ≡ some (err e)
  unfolding scan_loop
  loop_err c e at r = rw (at, r, scan_loop)

  loop_next :
      (c next : ℕ) (scan' : Scan)
      → get_elem? text (skip_whitespace text position) ≡ some c
      → scan_round text allowed (skip_whitespace text position) c scan ≡ ok (next, scan')
      → scan_loop (suc fuel) text allowed position scan ≡ scan_loop fuel text allowed next scan'
  unfolding scan_loop
  loop_next c next scan' at r = rw (at, r, scan_loop)

-- With more fuel than bytes left the loop ends.
pub scan_loop_total :
    (fuel : ℕ) (text : Bytes) (allowed : List Bytes) (position : ℕ) (scan : Scan)
    → length text - position < fuel
    → (r : M Scan) × (scan_loop fuel text allowed position scan ≡ some r)
scan_loop_total zero text allowed position scan h = absurd (omega arith)
scan_loop_total (suc fuel) text allowed position scan h =
    let start = skip_whitespace text position in
    elim (Option-cases (get_elem? text start)) [
      | inl at ↦ (ok scan, loop_end fuel text allowed position scan at)
      | inr (c, at) ↦ elim (Result-cases (scan_round text allowed start c scan)) [
        | inr (e, r) ↦ (err e, loop_err fuel text allowed position scan c e at r)
        | inl ((next, scan'), r) ↦
            let m =
              scan_round-Moves text allowed start c scan next scan' (get_elem?-lt text start at)
                r in
            let (out, ends) =
              scan_loop_total fuel text allowed next scan'
                (omega (arith, m.on, m.inside, (skip_whitespace_bounds text position).0)) in
            (out, loop_next fuel text allowed position scan c next scan' at r ∙ ends)
      ]
    ]

-- What holds at the start and is kept by each round holds at the end.
pub scan_loop_inv :
    (text : Bytes) (allowed : List Bytes) (P : ℕ → Scan → Type 0)
    → ((position start c next : ℕ) (scan scan' : Scan)
        → P position scan
        → position ≤ start
        → get_elem? text start ≡ some c
        → scan_round text allowed start c scan ≡ ok (next, scan')
        → P next scan')
    → (fuel position : ℕ) (scan out : Scan) → P position scan
    → scan_loop fuel text allowed position scan ≡ some (ok out)
    → (last : ℕ) × P last out
scan_loop_inv text allowed P keep zero position scan out p e = unfold scan_loop in absurd (cc)
scan_loop_inv text allowed P keep (suc fuel) position scan out p e =
    let start = skip_whitespace text position in
    elim (Option-cases (get_elem? text start)) [
      | inl at ↦
          let same : scan ≡ out = cc (loop_end fuel text allowed position scan at) in
          (position, subst (P position) same p)
      | inr (c, at) ↦ elim (Result-cases (scan_round text allowed start c scan)) [
        | inr (x, r) ↦ absurd (cc (loop_err fuel text allowed position scan c x at r))
        | inl ((next, scan'), r) ↦
            scan_loop_inv text allowed P keep fuel next scan' out
              (keep position start c next scan scan' p (skip_whitespace_bounds text position).0 at
                r)
              (sym (loop_next fuel text allowed position scan c next scan' at r) ∙ e)
      ]
    ]
