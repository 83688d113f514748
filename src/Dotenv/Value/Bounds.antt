-- ===== src/Dotenv/Value/Bounds.antt =====
-- Where `scanValue` stops: the value, then the end of its line, inside the text.
use native.Mathlib.Decide.{dec_lt}
use native.Mathlib.Nat.{le_trans}
use acme_mux.Prelude.{
  ℕ, zero, suc, ◌+◌, ◌-◌, ◌≤◌, ◌<◌, Bool, false, ◌≡◌, inl, inr, [], ◌∷◌, some, arith, Option-cases,
  length, get_elem?, drop, slice, length-drop, length-take, get_elem?-lt, ok,
}
use acme_mux.Prelude.Bytes.{Bytes}
use acme_mux.Dotenv.Lines.{is_horizontal_space, skip_horizontal, line_end, consume_line}
use acme_mux.Dotenv.Lines.Bounds.{
  LineEnd, skip_horizontal_bounds, line_end_bounds, consume_line_bounds, consume_line-lt,
  consume_line-LineEnd,
}
use acme_mux.Dotenv.Value.{
  find_close, find_comment, trim_end, comment_or, ScannedValue, scan_trailer, scan_quoted,
  unquoted_end, scan_unquoted, scan_value,
}

-- The value lies behind `start`, and the statement ends behind it with its line.
pub record Stops (text : Bytes) (start : ℕ) (v : ScannedValue) : Type 0 where
  pub value_start-le : start ≤ v.value_end
  pub value_end-le : v.value_end ≤ v.statement_end
  pub statement_end-le : v.statement_end ≤ length text
  pub line : LineEnd text v.statement_end
  pub moves : start < length text → start < v.statement_end

find_close_bounds :
    (quote previous position : ℕ) (xs : Bytes) (p : ℕ)
    → find_close quote previous position xs ≡ some p
    → (position ≤ p) × (p < position + length xs)
unfolding find_close
find_close_bounds quote previous position [] p h = absurd (ground arith)
find_close_bounds quote previous position (c ∷ xs) p h =
    ground (arith, find_close_bounds quote c (suc position) xs p)

find_comment_bounds :
    (spaced : Bool) (position : ℕ) (xs : Bytes) (p : ℕ)
    → find_comment spaced position xs ≡ some p
    → (position ≤ p) × (p < position + length xs)
unfolding find_comment
find_comment_bounds spaced position [] p h = absurd (ground arith)
find_comment_bounds spaced position (c ∷ xs) p h =
    ground (arith, find_comment_bounds (is_horizontal_space c) (suc position) xs p)

trim_end_bounds :
    (text : Bytes) (start e : ℕ)
    → (trim_end text start e ≤ e) × (start ≤ e → start ≤ trim_end text start e)
unfolding trim_end
trim_end_bounds text start zero = (omega arith, λ h. h)
trim_end_bounds text start (suc e) = ground (arith, trim_end_bounds text start e)

unquoted_end_bounds :
    (text : Bytes) (start : ℕ)
    → start ≤ length text
    → (start ≤ unquoted_end text start) × (unquoted_end text start ≤ line_end text start)
unfolding unquoted_end
unquoted_end_bounds text start h =
    let stop = line_end text start in
    let found = find_comment false start (slice text start stop) in
    let inner : (start ≤ comment_or found stop) × (comment_or found stop ≤ stop) =
      elim (Option-cases found) [
        | inl e ↦ rw e ((line_end_bounds text start).0, omega arith)
        | inr (p, e) ↦ rw e (
            omega (
              arith,
              find_comment_bounds false start (slice text start stop) p e,
              length-take (stop - start) (drop start text),
              line_end_bounds text start,
            ))
      ] in
    let trimmed = trim_end_bounds text start (comment_or found stop) in
    (trimmed.1 inner.0, le_trans trimmed.0 inner.1)

scan_trailer-Stops :
    (text : Bytes) (start quote position : ℕ) (v : ScannedValue)
    → start < position
    → position < length text
    → scan_trailer text start quote position ≡ ok v
    → Stops text start v
unfolding scan_trailer
scan_trailer-Stops text start quote position v lo hi e =
    let trailer = skip_horizontal text (position + 1) in
    let (past, trailer_inside) = skip_horizontal_bounds text (position + 1) in
    let (behind, ends) = consume_line_bounds text trailer in
    let line = consume_line-LineEnd text trailer (omega arith) in ground arith

scan_quoted-Stops :
    (text : Bytes) (start quote : ℕ) (v : ScannedValue)
    → start < length text
    → scan_quoted text start quote ≡ ok v
    → Stops text start v
unfolding scan_quoted
scan_quoted-Stops text start quote v inside e =
    elim (Option-cases (find_close quote quote (start + 1) (drop (start + 1) text))) [
      | inl none_found ↦ absurd (ground arith)
      | inr (p, found) ↦
          let (lo, hi) =
            find_close_bounds quote quote (start + 1) (drop (start + 1) text) p found in
          scan_trailer-Stops text start quote p v (omega arith)
            (omega (arith, length-drop (start + 1) text)) (ground arith)
    ]

scan_unquoted-Stops :
    (text : Bytes) (start : ℕ) (v : ScannedValue)
    → start ≤ length text
    → scan_unquoted text start ≡ ok v
    → Stops text start v
unfolding scan_unquoted
scan_unquoted-Stops text start v inside e =
    let stop = line_end text start in
    let (lo, hi) = unquoted_end_bounds text start inside in
    let (after_start, within_text) = line_end_bounds text start in
    let (behind, ends) = consume_line_bounds text stop in
    let line = consume_line-LineEnd text stop (within_text inside) in
    let moves : start < length text → start < consume_line text stop = λ h.
      elim (dec_lt stop (length text)) [
        | yes p ↦ omega (arith, consume_line-lt text stop p)
        | no p ↦ omega arith
      ] in
    ground arith

blank-Stops :
    (text : Bytes) (start : ℕ) (v : ScannedValue)
    → start ≤ length text
    → v.value_end ≡ start
    → v.statement_end ≡ consume_line text start
    → Stops text start v
blank-Stops text start v inside e f =
    let (behind, ends) = consume_line_bounds text start in
    let line = consume_line-LineEnd text start inside in
    let moves = consume_line-lt text start in
    record {
      value_start-le = omega arith;
      value_end-le = omega arith;
      statement_end-le = omega arith;
      line = rw f line;
      moves = rw f moves;
    }

-- A successful scan of a value stops as it should.
pub scan_value-Stops :
    (text : Bytes) (start : ℕ) (v : ScannedValue)
    → start ≤ length text
    → scan_value text start ≡ ok v
    → Stops text start v
unfolding scan_value
scan_value-Stops text start v inside e = elim (Option-cases (get_elem? text start)) [
  | inl at ↦ blank-Stops text start v inside (ground arith) (ground arith)
  | inr (c, at) ↦
      let within_text = get_elem?-lt text start at in
      ground (
        arith,
        blank-Stops text start v inside,
        scan_quoted-Stops text start c v within_text,
        scan_unquoted-Stops text start v inside,
      )
]
