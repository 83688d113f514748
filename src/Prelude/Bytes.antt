-- ===== src/Prelude/Bytes.antt =====
-- Byte strings: Go's `string` and `[]byte`. Equality, order and membership.
use Prim.Native.Char.{code}
use Prim.Native.String.{String}
use Prim.Native.Nat.{ℕ, compare, Ordering}
use mathlib.Core.Path.{◌≡◌, refl}
use mathlib.Core.Logic.{◌↔◌, inl, inr}
use mathlib.Core.Bool.{Bool, true, false, ◌&&◌, ◌||◌}
use mathlib.Core.List.{List, [], ◌∷◌}
use native.Mathlib.Omega.{arith}
use acme_mux.Prelude.Tests.{◌==◌, Bool-cases}

abbrev pub Bytes : Type 0
Bytes = List ℕ

-- The bytes of an ASCII literal.
abbrev pub codes : String → Bytes
codes String.[] = []
codes (String.◌∷◌ c s) = code c ∷ codes s

-- `bytes.Equal`, and `==` on strings.
unfoldable pub equal : Bytes → Bytes → Bool
equal [] [] = true
equal [] (d ∷ ds) = false
equal (c ∷ cs) [] = false
equal (c ∷ cs) (d ∷ ds) = c == d && equal cs ds

pub equal_iff : (left right : Bytes) → (equal left right ≡ true) ↔ (left ≡ right)
unfolding equal
equal_iff [] [] = (λ _. refl, λ _. refl)
equal_iff [] (d ∷ ds) = (λ h. absurd (ground arith), λ h. absurd (ground arith))
equal_iff (c ∷ cs) [] = (λ h. absurd (ground arith), λ h. absurd (ground arith))
equal_iff (c ∷ cs) (d ∷ ds) = let tails = equal_iff cs ds in ground arith

pub equal_refl : (a : Bytes) → equal a a ≡ true
equal_refl a = (equal_iff a a).1 refl

-- `bytes.HasPrefix(value, prefix)`.
unfoldable pub has_prefix : Bytes → Bytes → Bool
has_prefix value [] = true
has_prefix [] (p ∷ ps) = false
has_prefix (c ∷ cs) (p ∷ ps) = c == p && has_prefix cs ps

-- `slices.Contains`, and a lookup in a Go set.
unfoldable pub contains : List Bytes → Bytes → Bool
contains [] key = false
contains (k ∷ ks) key = equal k key || contains ks key

-- A key that was seen differs from one that was not.
pub equal_of_seen :
    (seen : List Bytes) (a b : Bytes)
    → contains seen a ≡ true
    → contains seen b ≡ false
    → equal a b ≡ false
equal_of_seen seen a b ha hb = elim (Bool-cases (equal a b)) [
  | inl e ↦ absurd (cc (ha, hb, (equal_iff a b).0 e))
  | inr e ↦ e
]

pub contains_more :
    (seen : List Bytes) (key a : Bytes) → contains seen a ≡ true → contains (key ∷ seen) a ≡ true
unfolding contains
contains_more seen key a h = ground arith

pub contains_head : (seen : List Bytes) (key : Bytes) → contains (key ∷ seen) key ≡ true
unfolding contains
contains_head seen key = ground (arith, equal_refl key)

-- `bytes.IndexByte(value, c) >= 0`.
unfoldable pub has_byte : ℕ → Bytes → Bool
has_byte b [] = false
has_byte b (c ∷ cs) = c == b || has_byte b cs

-- The order of `sort.Strings`.
unfoldable pub bytes_leb : Bytes → Bytes → Bool
bytes_leb [] ys = true
bytes_leb (x ∷ xs) [] = false
bytes_leb (x ∷ xs) (y ∷ ys) =
    let rest = bytes_leb xs ys in
    elim (compare x y) [ Ordering.lt ↦ true | Ordering.eq ↦ rest | Ordering.gt ↦ false ]

pub bytes_leb_antisym : (a b : Bytes) → bytes_leb a b ≡ true → bytes_leb b a ≡ true → a ≡ b
unfolding bytes_leb
bytes_leb_antisym [] [] h k = refl
bytes_leb_antisym [] (y ∷ b) h k = absurd (ground arith)
bytes_leb_antisym (x ∷ a) [] h k = absurd (ground arith)
bytes_leb_antisym (x ∷ a) (y ∷ b) h k = ground (arith, bytes_leb_antisym a b)

pub bytes_leb_total : (a b : Bytes) → bytes_leb a b ≡ false → bytes_leb b a ≡ true
unfolding bytes_leb
bytes_leb_total [] b h = absurd (ground arith)
bytes_leb_total (x ∷ a) [] h = refl
bytes_leb_total (x ∷ a) (y ∷ b) h = ground (arith, bytes_leb_total a b)

pub bytes_leb_trans :
    (a b c : Bytes) → bytes_leb a b ≡ true → bytes_leb b c ≡ true → bytes_leb a c ≡ true
unfolding bytes_leb
bytes_leb_trans [] b c h k = refl
bytes_leb_trans (x ∷ a) [] c h k = absurd (ground arith)
bytes_leb_trans (x ∷ a) (y ∷ b) [] h k = absurd (ground arith)
bytes_leb_trans (x ∷ a) (y ∷ b) (z ∷ c) h k = ground (arith, bytes_leb_trans a b c)
