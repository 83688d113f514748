-- ===== src/Dotenv/Value.antt =====
-- internal/dotenv/dotenv.go, values: `scanValue`, `containsExpansion` and `encodeValue`.
pub mod Bounds
pub mod Expansion
use acme_mux.Prelude.{
  ℕ, zero, suc, ◌+◌, ◌-◌, ◌%◌, Bool, true, false, not, ◌&&◌, ◌||◌, List, [], ◌∷◌, ◌++◌, Option,
  none, some, ltb, ◌==◌, if◌then◌else◌, is_some, get_elem?, get_or, drop, slice, ok, err, ◌>>=◌,
  ◌>>◌, reject_if,
}
use acme_mux.Prelude.Bytes.{Bytes, codes, equal, has_byte}
use acme_mux.Dotenv.Types.{M, malformed, error_of}
use acme_mux.Dotenv.Lines.{
  has, is_line_end, is_horizontal_space, skip_horizontal, line_end, consume_line,
}

-- The backslashes at the front of the bytes before an index, nearest first.
unfoldable pub backslashes : Bytes → ℕ
backslashes [] = 0
backslashes (c ∷ before) = let rest = backslashes before in if c == b'\\' then suc rest else 0

unfoldable pub expansion_after : Bytes → Bytes → Bool
unfolding backslashes
expansion_after before [] = false
expansion_after before (c ∷ rest) =
    (c == b'$' && backslashes before % 2 == 0) || expansion_after (c ∷ before) rest

-- A '$' with an even number of backslashes before it.
unfoldable pub contains_expansion : Bytes → Bool
unfolding expansion_after
contains_expansion = expansion_after []

-- The first quote that no backslash precedes.
unfoldable pub find_close : ℕ → ℕ → ℕ → Bytes → Option ℕ
find_close quote previous position [] = none
find_close quote previous position (c ∷ rest) =
    if c == quote && not (previous == b'\\')
    then some position
    else find_close quote c (suc position) rest

-- The first '#' behind a horizontal space; the flag says whether such a space stands before.
unfoldable pub find_comment : Bool → ℕ → Bytes → Option ℕ
find_comment spaced position [] = none
find_comment spaced position (c ∷ rest) =
    if c == b'#' && spaced
    then some position
    else find_comment (is_horizontal_space c) (suc position) rest

-- `for valueEnd > start && isHorizontalSpace(data[valueEnd-1]) { valueEnd-- }`.
unfoldable pub trim_end : Bytes → ℕ → ℕ → ℕ
trim_end text start zero = zero
trim_end text start (suc e) =
    if ltb start (suc e) && is_horizontal_space (get_or text e 0)
    then trim_end text start e
    else suc e

pub record ScannedValue : Type 0 where
  pub value_end : ℕ
  pub statement_end : ℕ
  pub expansion : Bool

-- Behind the closing quote at `position`.
unfoldable pub scan_trailer : Bytes → ℕ → ℕ → ℕ → M ScannedValue
scan_trailer text start quote position =
    let trailer = skip_horizontal text (position + 1) in
    let bad : Bool = elim (get_elem? text trailer) [
      | none ↦ false
      | some c ↦ not (c == b'#' || is_line_end c)
    ] in
    if bad
    then err (error_of malformed)
    else ok (record {
      value_end = position + 1;
      statement_end = consume_line text trailer;
      expansion = quote == b'"' && contains_expansion (slice text (start + 1) position);
    })

unfoldable pub scan_quoted : Bytes → ℕ → ℕ → M ScannedValue
scan_quoted text start quote = elim (find_close quote quote (start + 1) (drop (start + 1) text)) [
  | none ↦ err (error_of malformed)
  | some position ↦ scan_trailer text start quote position
]

abbrev comment_or : Option ℕ → ℕ → ℕ
comment_or none e = e
comment_or (some p) e = p

unfoldable pub unquoted_end : Bytes → ℕ → ℕ
unquoted_end text start =
    let stop = line_end text start in
    trim_end text start (comment_or (find_comment false start (slice text start stop)) stop)

unfoldable pub scan_unquoted : Bytes → ℕ → M ScannedValue
scan_unquoted text start =
    let stop = unquoted_end text start in
    ok (record {
      value_end = stop;
      statement_end = consume_line text (line_end text start);
      expansion = contains_expansion (slice text start stop);
    })

unfoldable pub scan_value : Bytes → ℕ → M ScannedValue
scan_value text start = elim (get_elem? text start) [
  | none ↦
      ok (record { value_end = start; statement_end = consume_line text start; expansion = false })
  | some c ↦
      if is_line_end c
      then ok
          (record { value_end = start; statement_end = consume_line text start; expansion = false })
      else if c == b'\'' || c == b'"'
      then scan_quoted text start c
      else scan_unquoted text start
]

-- What `encodeValue` appends for one byte between double quotes.
unfoldable pub escape_byte : ℕ → Bytes
escape_byte c =
    if c == b'\\'
    then codes "\\\\"
    else if c == b'"'
    then codes "\\\""
    else if c == b'$'
    then codes "\\$"
    else if c == b'\n'
    then codes "\\n"
    else if c == b'\r'
    then codes "\\r"
    else c ∷ []

unfoldable pub escape : Bytes → Bytes
unfolding escape_byte
escape [] = []
escape (c ∷ cs) = escape_byte c ++ escape cs

unfoldable pub single_quoted : Bytes → Bytes
single_quoted value = b'\'' ∷ (value ++ b'\'' ∷ [])

unfoldable pub double_quoted : Bytes → Bytes
unfolding escape
double_quoted value = b'"' ∷ (escape value ++ b'"' ∷ [])

-- A result of `godotenv.Parse`: the map, or `none` for an error.
abbrev pub Native : Type 0
Native = Bytes → Option (List (Bytes × Bytes))

unfoldable pub lookup : {V : Type 0} → Bytes → List (Bytes × V) → Option V
lookup key [] = none
lookup key ((k, v) ∷ rest) = if equal k key then some v else lookup key rest

module _ (godotenv : Native) where
  unfoldable pub encoded_value_round_trips : Bytes → Bytes → Bool
  unfolding lookup
  encoded_value_round_trips value encoded = elim (godotenv (codes "ACMEMUX_VALUE=" ++ encoded)) [
    | none ↦ false
    | some parsed ↦ elim (lookup (codes "ACMEMUX_VALUE") parsed) [
      | none ↦ false
      | some parsed_value ↦ equal parsed_value value
    ]
  ]

  unfoldable pub encode_value : Bytes → Option Bytes
  unfolding encoded_value_round_trips single_quoted double_quoted has_byte
  encode_value value =
      if not (has_byte b'\'' value) && encoded_value_round_trips value (single_quoted value)
      then some (single_quoted value)
      else if encoded_value_round_trips value (double_quoted value)
      then some (double_quoted value)
      else none
