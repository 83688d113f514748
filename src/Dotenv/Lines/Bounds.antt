-- ===== src/Dotenv/Lines/Bounds.antt =====
-- Where the cursor helpers stop: inside the text, on or behind the place where they start.
use acme_mux.Prelude.{
  ℕ, zero, suc, ◌+◌, ◌≤◌, ◌<◌, Bool, true, false, not, ◌≡◌, ◌≢◌, refl, ◌⊎◌, inl, inr, [], ◌∷◌, some,
  arith, Bool-cases, Option-cases, length, get_elem?, get_or, drop, length-drop, drop-eq-cons,
  drop-eq-nil, get_elem?-lt, get_elem?-get_or,
}
use native.Mathlib.Decide.{dec_lt}
use acme_mux.Prelude.Bytes.{Bytes}
use acme_mux.Dotenv.Lines.{
  has, is_line_end, is_horizontal_space, is_whitespace, skip_from, skip_whitespace, skip_horizontal,
  line_end, after_break, consume_line, current_line_start,
}

pub skip_from-ge :
    (test : ℕ → Bool) (position : ℕ) (xs : Bytes) → position ≤ skip_from test position xs
unfolding skip_from
skip_from-ge test position [] = omega arith
skip_from-ge test position (c ∷ xs) = ground (arith, skip_from-ge test (suc position) xs)

pub skip_from-le :
    (test : ℕ → Bool) (position : ℕ) (xs : Bytes)
    → skip_from test position xs ≤ position + length xs
unfolding skip_from
skip_from-le test position [] = omega arith
skip_from-le test position (c ∷ xs) = ground (arith, skip_from-le test (suc position) xs)

-- The loop stops at the end of the text or at a byte that fails the test.
pub skip_from_stop :
    (test : ℕ → Bool) (text : Bytes) (position : ℕ) (xs : Bytes)
    → drop position text ≡ xs
    → (b : ℕ) → get_elem? text (skip_from test position xs) ≡ some b
    → test b ≡ false
unfolding skip_from
skip_from_stop test text position [] h b e =
    absurd (omega (arith, drop-eq-nil text position h, get_elem?-lt text position e))
skip_from_stop test text position (c ∷ xs) h b e = elim (Bool-cases (test c)) [
  | inl p ↦
      skip_from_stop test text (suc position) xs (drop-eq-cons text position h).1 b
        (ground (arith, e))
  | inr p ↦ ground (arith, drop-eq-cons text position h)
]

module _ (text : Bytes) (position : ℕ) where
  pub skip_whitespace_bounds :
      (position ≤ skip_whitespace text position)
      × (position ≤ length text → skip_whitespace text position ≤ length text)
  unfolding skip_whitespace
  skip_whitespace_bounds = (
    skip_from-ge is_whitespace position (drop position text),
    λ h. omega (
      arith,
      skip_from-le is_whitespace position (drop position text),
      length-drop position text,
    ),
  )

  pub skip_horizontal_bounds :
      (position ≤ skip_horizontal text position)
      × (position ≤ length text → skip_horizontal text position ≤ length text)
  unfolding skip_horizontal
  skip_horizontal_bounds = (
    skip_from-ge is_horizontal_space position (drop position text),
    λ h. omega (
      arith,
      skip_from-le is_horizontal_space position (drop position text),
      length-drop position text,
    ),
  )

  pub line_end_bounds :
      (position ≤ line_end text position)
      × (position ≤ length text → line_end text position ≤ length text)
  unfolding line_end
  line_end_bounds = (
    skip_from-ge (λ c. not (is_line_end c)) position (drop position text),
    λ h. omega (
      arith,
      skip_from-le (λ c. not (is_line_end c)) position (drop position text),
      length-drop position text,
    ),
  )

  pub line_end_stop :
      (b : ℕ) → get_elem? text (line_end text position) ≡ some b → is_line_end b ≡ true
  unfolding line_end
  line_end_stop b e =
      ground (
        arith,
        skip_from_stop (λ c. not (is_line_end c)) text position (drop position text) refl b e,
      )

pub has-lt : (text : Bytes) (i c : ℕ) → has text i c ≡ true → i < length text
has-lt text i c h = elim (Option-cases (get_elem? text i)) [
  | inl e ↦ absurd (ground arith)
  | inr (b, e) ↦ get_elem?-lt text i e
]

-- A place where a line starts: the first byte, or one behind a line end.
abbrev pub LineStart : Bytes → ℕ → Type 0
LineStart text i = (j : ℕ) → i ≡ suc j → is_line_end (get_or text j b'\n') ≡ true

has-LineStart :
    (text : Bytes) (i c : ℕ) → has text i c ≡ true → is_line_end c ≡ true → LineStart text (i + 1)
has-LineStart text i c h e j q =
    let same : i ≡ j = omega arith in
    rw (← same) (ground (arith, get_elem?-get_or text i b'\n' (has-lt text i c h)))

-- The end of a line: behind the text's last byte, or a place where a line starts.
abbrev pub LineEnd : Bytes → ℕ → Type 0
LineEnd text i = (i ≡ length text) ⊎ LineStart text i

module _ (text : Bytes) (stop : ℕ) where
  after_break_bounds :
      (stop ≤ after_break text stop) × (stop ≤ length text → after_break text stop ≤ length text)
  unfolding after_break
  after_break_bounds =
      ground (arith, has-lt text stop b'\r', has-lt text (stop + 1) b'\n', has-lt text stop b'\n')

  after_break-lt :
      ((b : ℕ) → get_elem? text stop ≡ some b → is_line_end b ≡ true)
      → stop < length text
      → stop < after_break text stop
  unfolding after_break
  after_break-lt h inside =
      ground (arith, get_elem?-get_or text stop 0 inside, h (get_or text stop 0))

  after_break-LineEnd :
      ((b : ℕ) → get_elem? text stop ≡ some b → is_line_end b ≡ true)
      → stop ≤ length text
      → LineEnd text (after_break text stop)
  unfolding after_break
  after_break-LineEnd h inside = elim (Bool-cases (has text stop b'\r')) [
    | inl cr ↦ elim (Bool-cases (has text (stop + 1) b'\n')) [
      | inl lf ↦
          rw (cr, lf) (inr (λ j q. has-LineStart text (stop + 1) b'\n' lf refl j (omega arith)))
      | inr other ↦ rw (cr, other) (inr (has-LineStart text stop b'\r' cr refl))
    ]
    | inr plain ↦ elim (Bool-cases (has text stop b'\n')) [
      | inl lf ↦ rw (plain, lf) (inr (has-LineStart text stop b'\n' lf refl))
      | inr other ↦
          rw (plain, other)
            (inl (elim (dec_lt stop (length text)) [
              | yes p ↦
                  absurd (ground (arith, get_elem?-get_or text stop 0 p, h (get_or text stop 0)))
              | no p ↦ omega arith
            ]))
    ]
  ]

module _ (text : Bytes) (position : ℕ) where
  pub consume_line_bounds :
      (position ≤ consume_line text position)
      × (position ≤ length text → consume_line text position ≤ length text)
  unfolding consume_line
  consume_line_bounds =
      ground
        (arith, line_end_bounds text position, after_break_bounds text (line_end text position))

  pub consume_line-lt : position < length text → position < consume_line text position
  unfolding consume_line
  consume_line-lt h = elim (dec_lt (line_end text position) (length text)) [
    | yes p ↦ omega (
      arith,
      after_break-lt text (line_end text position) (line_end_stop text position) p,
      line_end_bounds text position,
    )
    | no p ↦
        omega
          (arith, after_break_bounds text (line_end text position), line_end_bounds text position)
  ]

  pub consume_line-LineEnd : position ≤ length text → LineEnd text (consume_line text position)
  unfolding consume_line
  consume_line-LineEnd h =
      after_break-LineEnd text (line_end text position) (line_end_stop text position)
        ((line_end_bounds text position).1 h)

pub current_line_start-le : (text : Bytes) (i : ℕ) → current_line_start text i ≤ i
unfolding current_line_start
current_line_start-le text zero = omega arith
current_line_start-le text (suc i) = ground (arith, current_line_start-le text i)

-- No line starts between the start of a line and a place on it.
pub current_line_start-ge :
    (text : Bytes) (e i : ℕ) → LineStart text e → e ≤ i → e ≤ current_line_start text i
unfolding current_line_start
current_line_start-ge text e zero h le = omega arith
current_line_start-ge text e (suc i) h le = elim (Bool-cases (is_line_end (get_or text i b'\n'))) [
  | inl p ↦ ground arith
  | inr p ↦
      let ne : e ≢ suc i = λ q. ground (arith, h i q) in
      ground (arith, current_line_start-ge text e i h (omega arith))
]
