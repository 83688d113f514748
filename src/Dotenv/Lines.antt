-- ===== src/Dotenv/Lines.antt =====
-- internal/dotenv/dotenv.go, the cursor helpers. A loop from a position runs over the bytes from
-- there on, with the position as its counter; an index past the end is the end of the data.
pub mod Separator
pub mod Bounds
use acme_mux.Prelude.{
  ℕ, zero, suc, ◌+◌, ◌-◌, Bool, true, false, not, ◌&&◌, ◌||◌, List, [], ◌∷◌, Option, none, some,
  ltb, leb, ◌==◌, if◌then◌else◌, length, get_elem?, get_or, drop,
}
use acme_mux.Prelude.Bytes.{Bytes, codes, has_byte}

-- `position < len(data) && data[position] == c`.
abbrev pub has : Bytes → ℕ → ℕ → Bool
has text i c = elim (get_elem? text i) [ none ↦ false | some b ↦ b == c ]

abbrev pub is_line_end : ℕ → Bool
is_line_end c = c == b'\n' || c == b'\r'

abbrev pub is_horizontal_space : ℕ → Bool
is_horizontal_space c = c == b' ' || c == b'\t' || c == 0x0b || c == 0x0c

abbrev pub is_whitespace : ℕ → Bool
is_whitespace c = is_horizontal_space c || is_line_end c

-- `for position < len(data) && test(data[position]) { position++ }`.
unfoldable pub skip_from : (ℕ → Bool) → ℕ → Bytes → ℕ
skip_from test position [] = position
skip_from test position (c ∷ rest) = if test c then skip_from test (suc position) rest else position

abbrev pub skip : (ℕ → Bool) → Bytes → ℕ → ℕ
skip test text position = skip_from test position (drop position text)

unfoldable pub skip_whitespace : Bytes → ℕ → ℕ
unfolding skip_from
skip_whitespace = skip is_whitespace

unfoldable pub skip_horizontal : Bytes → ℕ → ℕ
unfolding skip_from
skip_horizontal = skip is_horizontal_space

unfoldable pub line_end : Bytes → ℕ → ℕ
unfolding skip_from
line_end = skip (λ c. not (is_line_end c))

-- Behind the line break at `stop`, where the loop of `consumeLine` has stopped.
unfoldable pub after_break : Bytes → ℕ → ℕ
after_break text stop =
    if has text stop b'\r'
    then (if has text (stop + 1) b'\n' then stop + 2 else stop + 1)
    else if has text stop b'\n'
    then stop + 1
    else stop

unfoldable pub consume_line : Bytes → ℕ → ℕ
consume_line text position = after_break text (line_end text position)

-- Called with a position inside the text; `data[position-1]` is then in range.
unfoldable pub current_line_start : Bytes → ℕ → ℕ
current_line_start text zero = zero
current_line_start text (suc position) =
    if is_line_end (get_or text position b'\n')
    then suc position
    else current_line_start text position

unfoldable pub has_final_newline : Bytes → Bool
has_final_newline [] = false
has_final_newline (c ∷ []) = is_line_end c
has_final_newline (c ∷ (d ∷ rest)) = has_final_newline (d ∷ rest)

-- The breaks that `lineCount` counts; the flag says that the byte before was '\r'.
unfoldable pub count_breaks : Bool → Bytes → ℕ
count_breaks after_cr [] = 0
count_breaks after_cr (c ∷ rest) =
    (if c == b'\n' then (if after_cr then 0 else 1) else if c == b'\r' then 1 else 0)
    + count_breaks (c == b'\r') rest

unfoldable pub line_count : Bytes → ℕ
unfolding count_breaks has_final_newline
line_count [] = 0
line_count (c ∷ rest) =
    let count = 1 + count_breaks false (c ∷ rest) in
    if has_final_newline (c ∷ rest) then count - 1 else count

-- Whether the first '\n' stands behind a '\r'.
crlf_at_first_newline : ℕ → Bytes → Bool
crlf_at_first_newline previous [] = false
crlf_at_first_newline previous (c ∷ rest) =
    if c == b'\n' then previous == b'\r' else crlf_at_first_newline c rest

unfoldable pub detect_newline : Bytes → Bytes
unfolding crlf_at_first_newline has_byte
detect_newline text =
    if crlf_at_first_newline 0 text
    then codes "\r\n"
    else if has_byte b'\r' text && not (has_byte b'\n' text)
    then codes "\r"
    else codes "\n"

unfoldable pub preceding_line_separator : Bytes → ℕ → ℕ
preceding_line_separator text position =
    if position == 0 || ltb (length text) position
    then position
    else if has text (position - 1) b'\n'
    then (if ltb 1 position && has text (position - 2) b'\r' then position - 2 else position - 1)
    else if has text (position - 1) b'\r'
    then position - 1
    else position
