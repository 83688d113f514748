-- ===== src/Prelude/Utf8.antt =====
-- `unicode/utf8`: the runes of a byte string, if it is valid UTF-8, and `unicode.IsControl`.
use Prim.Native.Nat.{ℕ, ◌+◌, ◌-◌, ◌*◌, ◌/◌, ◌%◌}
use mathlib.Core.Bool.{Bool, true, false, ◌||◌}
use mathlib.Core.Option
use mathlib.Core.Option.{Option, none, some}
use mathlib.Core.List.{List, [], ◌∷◌, ◌++◌, reverse}
use acme_mux.Prelude.Tests.{ltb, within, is_some, ◌==◌, if◌then◌else◌}
use acme_mux.Prelude.Bytes.{Bytes}

-- What a first byte promises: the bits that it gives, and the ranges of the bytes that follow.
pub data Lead : Type 0 where
  bad : Lead
  lead : ℕ → List (ℕ × ℕ) → Lead

abbrev tail_range : ℕ × ℕ
tail_range = (0x80, 0xbf)

unfoldable pub lead_of : ℕ → Lead
lead_of b =
    if ltb b 0x80
    then lead b []
    else if within 0xc2 0xdf b
    then lead (b - 0xc0) (tail_range ∷ [])
    else if b == 0xe0
    then lead 0 ((0xa0, 0xbf) ∷ tail_range ∷ [])
    else if b == 0xed
    then lead 0x0d ((0x80, 0x9f) ∷ tail_range ∷ [])
    else if within 0xe1 0xef b
    then lead (b - 0xe0) (tail_range ∷ tail_range ∷ [])
    else if b == 0xf0
    then lead 0 ((0x90, 0xbf) ∷ tail_range ∷ tail_range ∷ [])
    else if within 0xf1 0xf3 b
    then lead (b - 0xf0) (tail_range ∷ tail_range ∷ tail_range ∷ [])
    else if b == 0xf4
    then lead 4 ((0x80, 0x8f) ∷ tail_range ∷ tail_range ∷ [])
    else bad

-- The runes, with the ranges still owed by the current rune and its bits so far.
unfoldable pub runes_from : List (ℕ × ℕ) → ℕ → Bytes → Option (List ℕ)
unfolding lead_of
runes_from [] acc [] = some []
runes_from (r ∷ rs) acc [] = none
runes_from [] acc (b ∷ bs) = elim (lead_of b) [
  | bad ↦ none
  | lead v [] ↦ Option.map (◌∷◌ v) (runes_from [] 0 bs)
  | lead v (r ∷ rs) ↦ runes_from (r ∷ rs) v bs
]
runes_from ((lo, hi) ∷ rs) acc (b ∷ bs) = elim (within lo hi b) [
  | false ↦ none
  | true ↦ elim rs [
    | [] ↦ Option.map (◌∷◌ (acc * 64 + (b - 0x80))) (runes_from [] 0 bs)
    | q ∷ qs ↦ runes_from (q ∷ qs) (acc * 64 + (b - 0x80)) bs
  ]
]

unfoldable pub runes : Bytes → Option (List ℕ)
unfolding runes_from
runes = runes_from [] 0

-- `utf8.Valid`, `utf8.ValidString`.
unfoldable pub utf8_valid : Bytes → Bool
unfolding runes
utf8_valid value = is_some (runes value)

-- `unicode.IsControl`.
abbrev pub is_control : ℕ → Bool
is_control r = ltb r 0x20 || within 0x7f 0x9f r

-- `unicode.IsSpace`.
abbrev is_space : ℕ → Bool
is_space r =
    within 0x09 0x0d r
    || r == 0x20
    || r == 0x85
    || r == 0xa0
    || r == 0x1680
    || within 0x2000 0x200a r
    || within 0x2028 0x2029 r
    || r == 0x202f
    || r == 0x205f
    || r == 0x3000

-- `utf8.AppendRune` for one rune.
abbrev pub encode_rune : ℕ → Bytes
encode_rune r =
    if ltb r 0x80
    then r ∷ []
    else if ltb r 0x800
    then (0xc0 + r / 64) ∷ (0x80 + r % 64) ∷ []
    else if ltb r 0x10000
    then (0xe0 + r / 4096) ∷ (0x80 + r / 64 % 64) ∷ (0x80 + r % 64) ∷ []
    else (0xf0 + r / 262144) ∷ (0x80 + r / 4096 % 64) ∷ (0x80 + r / 64 % 64) ∷ (0x80 + r % 64) ∷ []

encode_runes : List ℕ → Bytes
encode_runes [] = []
encode_runes (r ∷ rs) = encode_rune r ++ encode_runes rs

drop_spaces : List ℕ → List ℕ
drop_spaces [] = []
drop_spaces (r ∷ rs) = if is_space r then drop_spaces rs else r ∷ rs

-- `strings.TrimSpace` of valid UTF-8; the callers have checked that it is.
unfoldable pub trim_space : Bytes → Bytes
unfolding runes encode_runes drop_spaces
trim_space value = elim (runes value) [
  | none ↦ value
  | some rs ↦ encode_runes (reverse (drop_spaces (reverse (drop_spaces rs))))
]
