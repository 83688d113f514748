-- ===== src/Broker/Sanitize.antt =====
-- internal/broker/output.go: sanitizeOutput.
pub mod Clean
use acme_mux.Prelude.{
  ℕ, zero, suc, ◌+◌, ◌-◌, ◌*◌, Bool, true, false, not, ◌&&◌, ◌||◌, List, [], ◌∷◌, ◌++◌, Option,
  none, some, ◌==◌, within, if◌then◌else◌, length,
}
use acme_mux.Prelude.Bytes.{Bytes}
use acme_mux.Prelude.Utf8.{Lead, bad, lead, lead_of, is_control, encode_rune}

-- `unicode.Cf`, of Unicode 15.
unfoldable pub is_format : ℕ → Bool
is_format r =
    r == 0xad
    || within 0x600 0x605 r
    || r == 0x61c
    || r == 0x6dd
    || r == 0x70f
    || within 0x890 0x891 r
    || r == 0x8e2
    || r == 0x180e
    || within 0x200b 0x200f r
    || within 0x202a 0x202e r
    || within 0x2060 0x2064 r
    || within 0x2066 0x206f r
    || r == 0xfeff
    || within 0xfff9 0xfffb r
    || r == 0x110bd
    || r == 0x110cd
    || within 0x13430 0x1343f r
    || within 0x1bca0 0x1bca3 r
    || within 0x1d173 0x1d17a r
    || r == 0xe0001
    || within 0xe0020 0xe007f r

-- The rest of a rune: one byte of every range, with the bits so far.
unfoldable pub decode_tail : List (ℕ × ℕ) → ℕ → Bytes → Option ℕ
decode_tail [] acc bs = some acc
decode_tail (q ∷ rs) acc [] = none
decode_tail ((lo, hi) ∷ rs) acc (b ∷ bs) =
    let rest = decode_tail rs (acc * 64 + (b - 0x80)) bs in if within lo hi b then rest else none

abbrev pub with_size : ℕ → Option ℕ → Option (ℕ × ℕ)
with_size n none = none
with_size n (some r) = some (r, n)

abbrev pub decoded_from : Lead → Bytes → Option (ℕ × ℕ)
decoded_from bad bs = none
decoded_from (lead v rs) bs = with_size (length rs) (decode_tail rs v bs)

-- `utf8.DecodeRune` of a text that is not empty: the rune, and how many bytes it has behind its first;
-- `none` for a byte that begins no rune.
unfoldable pub decode_rune : ℕ → Bytes → Option (ℕ × ℕ)
decode_rune b bs = decoded_from (lead_of b) bs

-- What is kept of a rune.
abbrev pub shown : ℕ → Bytes
shown r =
    if not (r == b'\n') && not (r == b'\t') && (is_control r || is_format r)
    then b'?' ∷ []
    else encode_rune r

-- The loop, with the number of bytes of the last rune that are still to be passed over.
unfoldable pub sanitize_from : ℕ → Bytes → Bytes
sanitize_from k [] = []
sanitize_from (suc k) (b ∷ bs) = sanitize_from k bs
sanitize_from zero (b ∷ bs) = elim (decode_rune b bs) [
  | none ↦ b'?' ∷ sanitize_from 0 bs
  | some (r, k) ↦ shown r ++ sanitize_from k bs
]

-- `sanitizeOutput`.
unfoldable pub sanitize_output : Bytes → Bytes
sanitize_output value = sanitize_from 0 value
