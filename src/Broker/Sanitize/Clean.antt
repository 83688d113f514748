-- ===== src/Broker/Sanitize/Clean.antt =====
-- The bytes that sanitizeOutput lets through, and their number.
use mathlib.Core.Path.{subst}
use acme_mux.Prelude.{
  ℕ, zero, suc, ◌+◌, ◌-◌, ◌*◌, ◌≤◌, ◌<◌, Bool, true, not, ◌&&◌, ◌||◌, ◌≡◌, inl, inr, ◌⊎◌, List, [],
  ◌∷◌, ◌++◌, Option, none, some, ◌==◌, ltb, leb, within, length, length-append, All, All-append,
  arith, Option-cases, Bool-cases,
}
use acme_mux.Prelude.Bytes.{Bytes}
use acme_mux.Prelude.Utf8.{Lead, bad, lead, lead_of, encode_rune, is_control}
use acme_mux.Broker.Sanitize.{
  is_format, decode_tail, with_size, decoded_from, decode_rune, shown, sanitize_from,
  sanitize_output,
}

-- A newline, a tab, or a byte that is no ASCII control character.
abbrev pub is_clean : ℕ → Bool
is_clean b = b == b'\n' || b == b'\t' || (leb 0x20 b && not (b == 0x7f))

decode_tail-length :
    (rs : List (ℕ × ℕ)) (acc : ℕ) (bs : Bytes) {r : ℕ}
    → decode_tail rs acc bs ≡ some r
    → length rs ≤ length bs
unfolding decode_tail
decode_tail-length [] acc bs h = omega arith
decode_tail-length (q ∷ rs) acc [] h = absurd (ground arith)
decode_tail-length ((lo, hi) ∷ rs) acc (b ∷ bs) {r} h =
    let rest : decode_tail rs (acc * 64 + (b - 0x80)) bs ≡ some r = ground arith in
    let shorter = decode_tail-length rs (acc * 64 + (b - 0x80)) bs rest in omega (arith, shorter)

encode_rune-IsClean :
    (r : ℕ)
    → (r == b'\n' || r == b'\t' || not (is_control r)) ≡ true
    → All (λ b. is_clean b ≡ true) (encode_rune r)
encode_rune-IsClean r h = elim (Bool-cases (ltb r 0x80)) [
  | inl one ↦ ground arith
  | inr _ ↦ elim (Bool-cases (ltb r 0x800)) [
    | inl two ↦ ground arith
    | inr _ ↦ elim (Bool-cases (ltb r 0x10000)) [
      | inl three ↦ ground arith
      | inr four ↦ ground arith
    ]
  ]
]

shown-IsClean : (r : ℕ) → All (λ b. is_clean b ≡ true) (shown r)
shown-IsClean r =
    elim (Bool-cases (not (r == b'\n') && not (r == b'\t') && (is_control r || is_format r))) [
      | inl hidden ↦ ground arith
      | inr kept ↦ let whole = encode_rune-IsClean r (ground arith) in ground arith
    ]

encode_rune-length :
    (r k : ℕ)
    → (r < 0x80) ⊎ ((r < 0x800) × (1 ≤ k)) ⊎ ((r < 0x10000) × (2 ≤ k)) ⊎ (3 ≤ k)
    → length (shown r) ≤ 1 + k
encode_rune-length r k h =
    elim (Bool-cases (not (r == b'\n') && not (r == b'\t') && (is_control r || is_format r))) [
      | inl hidden ↦ ground arith
      | inr kept ↦ elim (Bool-cases (ltb r 0x80)) [
        | inl one ↦ ground arith
        | inr _ ↦ elim (Bool-cases (ltb r 0x800)) [
          | inl two ↦ ground arith
          | inr _ ↦ elim (Bool-cases (ltb r 0x10000)) [
            | inl three ↦ ground arith
            | inr four ↦ ground arith
          ]
        ]
      ]
    ]

one_tail :
    (lo hi v : ℕ) (bs : Bytes) {r : ℕ}
    → hi ≤ 0xbf
    → decode_tail ((lo, hi) ∷ []) v bs ≡ some r
    → r ≤ v * 64 + 63
unfolding decode_tail
one_tail lo hi v [] small h = absurd (ground arith)
one_tail lo hi v (b ∷ bs) small h = ground arith

two_tails :
    (lo hi lo' hi' v : ℕ) (bs : Bytes) {r : ℕ}
    → hi ≤ 0xbf
    → hi' ≤ 0xbf
    → decode_tail ((lo, hi) ∷ (lo', hi') ∷ []) v bs ≡ some r
    → r ≤ v * 4096 + 4095
unfolding decode_tail
two_tails lo hi lo' hi' v [] small small' h = absurd (ground arith)
two_tails lo hi lo' hi' v (b ∷ bs) {r} small small' h =
    let rest : decode_tail ((lo', hi') ∷ []) (v * 64 + (b - 0x80)) bs ≡ some r = ground arith in
    let bound = one_tail lo' hi' (v * 64 + (b - 0x80)) bs small' rest in
    let first : b ≤ hi = ground arith in omega (arith, bound, first, small)

with_size-eq-some :
    (n : ℕ) (o : Option ℕ) {r k : ℕ} → with_size n o ≡ some (r, k) → (o ≡ some r) × (n ≡ k)
with_size-eq-some n none h = absurd (ground arith)
with_size-eq-some n (some r) h = (ground arith, ground arith)

-- The forms of a first byte.
abbrev Shape : Lead → Type 0
Shape bad = Unit
Shape (lead v []) = v < 0x80
Shape (lead v (q ∷ [])) = (v ≤ 31) × (q.1 ≤ 0xbf)
Shape (lead v (q ∷ (r ∷ []))) = (v ≤ 15) × (q.1 ≤ 0xbf) × (r.1 ≤ 0xbf)
Shape (lead v (q ∷ (r ∷ (t ∷ [])))) = Unit
Shape (lead v (q ∷ (r ∷ (t ∷ (u ∷ rs))))) = ⊥

lead_of-Shape : (b : ℕ) → Shape (lead_of b)
unfolding lead_of
lead_of-Shape b = elim (Bool-cases (ltb b 0x80)) [
  | inl _ ↦ ground arith
  | inr _ ↦ elim (Bool-cases (within 0xc2 0xdf b)) [
    | inl _ ↦ ground arith
    | inr _ ↦ elim (Bool-cases (within 0xe0 0xef b)) [ inl _ ↦ ground arith | inr _ ↦ ground arith ]
  ]
]

sized :
    (l : Lead) (bs : Bytes) {r k : ℕ}
    → Shape l
    → decoded_from l bs ≡ some (r, k)
    → (k ≤ length bs) × ((r < 0x80) ⊎ ((r < 0x800) × (1 ≤ k)) ⊎ ((r < 0x10000) × (2 ≤ k)) ⊎ (3 ≤ k))
unfolding decode_tail
sized bad bs fits h = absurd (ground arith)
sized (lead v []) bs fits h = (ground arith, ground arith)
sized (lead v ((lo, hi) ∷ [])) bs (small, top) h =
    let (tail, size) = with_size-eq-some 1 (decode_tail ((lo, hi) ∷ []) v bs) h in
    let long = decode_tail-length ((lo, hi) ∷ []) v bs tail in
    let bound = one_tail lo hi v bs top tail in (omega (arith, long, size), ground arith)
sized (lead v ((lo, hi) ∷ ((lo', hi') ∷ []))) bs (small, top, top') h =
    let (tail, size) = with_size-eq-some 2 (decode_tail ((lo, hi) ∷ (lo', hi') ∷ []) v bs) h in
    let long = decode_tail-length ((lo, hi) ∷ (lo', hi') ∷ []) v bs tail in
    let bound = two_tails lo hi lo' hi' v bs top top' tail in
    (omega (arith, long, size), ground arith)
sized (lead v (q ∷ (q' ∷ (t ∷ [])))) bs fits h =
    let (tail, size) = with_size-eq-some 3 (decode_tail (q ∷ q' ∷ t ∷ []) v bs) h in
    let long = decode_tail-length (q ∷ q' ∷ t ∷ []) v bs tail in
    (omega (arith, long, size), ground arith)
sized (lead v (q ∷ (q' ∷ (t ∷ (u ∷ rs))))) bs fits h = absurd fits

-- What a decoded rune leaves of the text, and what is kept of it.
decode_rune-size :
    (b : ℕ) (bs : Bytes) {r k : ℕ}
    → decode_rune b bs ≡ some (r, k)
    → (k ≤ length bs) × (length (shown r) ≤ 1 + k)
unfolding decode_rune
decode_rune-size b bs {r} {k} h =
    let (long, form) = sized (lead_of b) bs (lead_of-Shape b) h in
    (long, encode_rune-length r k form)

sanitize_from-length :
    (k : ℕ) (bs : Bytes) → k ≤ length bs → length (sanitize_from k bs) + k ≤ length bs
unfolding sanitize_from
sanitize_from-length k [] small = omega (arith, small)
sanitize_from-length (suc k) (b ∷ bs) small =
    let rest = sanitize_from-length k bs (omega (arith, small)) in omega (arith, rest)
sanitize_from-length zero (b ∷ bs) small = elim (Option-cases (decode_rune b bs)) [
  | inl e ↦ let rest = sanitize_from-length 0 bs (omega arith) in ground arith
  | inr ((r, k), e) ↦
      let (long, short) = decode_rune-size b bs e in
      let rest = sanitize_from-length k bs long in
      let whole = length-append (shown r) (sanitize_from k bs) in ground arith
]

sanitize_from-IsClean : (k : ℕ) (bs : Bytes) → All (λ b. is_clean b ≡ true) (sanitize_from k bs)
unfolding sanitize_from
sanitize_from-IsClean k [] = tt
sanitize_from-IsClean (suc k) (b ∷ bs) = sanitize_from-IsClean k bs
sanitize_from-IsClean zero (b ∷ bs) = elim (Option-cases (decode_rune b bs)) [
  | inl e ↦ let rest = sanitize_from-IsClean 0 bs in ground arith
  | inr ((r, k), e) ↦
      let rest = sanitize_from-IsClean k bs in
      let whole =
        All-append (λ b. is_clean b ≡ true) (shown r) (sanitize_from k bs) (shown-IsClean r) rest in
      let same : shown r ++ sanitize_from k bs ≡ sanitize_from zero (b ∷ bs) = ground arith in
      subst (All (λ b. is_clean b ≡ true)) same whole
]

-- What sanitizeOutput shows is at most as long as what it is given, and has no ASCII control character
-- but newlines and tabs.
pub sanitize_output-IsClean :
    (value : Bytes)
    → (length (sanitize_output value) ≤ length value)
      × All (λ b. is_clean b ≡ true) (sanitize_output value)
unfolding sanitize_output
sanitize_output-IsClean value =
    let size = sanitize_from-length 0 value (omega arith) in
    (omega (arith, size), sanitize_from-IsClean 0 value)
