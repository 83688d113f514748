-- ===== src/Prelude/Lists.antt =====
-- Lists measured and indexed by native numbers, under the library's names.
use Prim.Native.Nat.{ℕ, zero, suc, ◌+◌, ◌-◌, ◌≤◌, ◌<◌, min}
use mathlib.Core.Logic.{◌⊎◌, inl, inr}
use mathlib.Core.Path.{◌≡◌, refl, sym, ap, ◌∙◌}
use mathlib.Core.List.{List, [], ◌∷◌, ◌++◌}
use mathlib.Core.Option.{Option, none, some}
use native.Mathlib.Omega.{arith}

module _ {ℓ} {A : Type ℓ} where
  abbrev pub length : List A → ℕ
  length [] = 0
  length (x ∷ xs) = suc (length xs)

  abbrev pub get_elem? : List A → ℕ → Option A
  get_elem? [] i = none
  get_elem? (x ∷ xs) zero = some x
  get_elem? (x ∷ xs) (suc i) = get_elem? xs i

  abbrev pub get_or : List A → ℕ → A → A
  get_or [] i d = d
  get_or (x ∷ xs) zero d = x
  get_or (x ∷ xs) (suc i) d = get_or xs i d

  abbrev pub take : ℕ → List A → List A
  take zero xs = []
  take (suc n) [] = []
  take (suc n) (x ∷ xs) = x ∷ take n xs

  abbrev pub drop : ℕ → List A → List A
  drop zero xs = xs
  drop (suc n) [] = []
  drop (suc n) (x ∷ xs) = drop n xs

  abbrev pub slice : List A → ℕ → ℕ → List A
  slice xs start end = take (end - start) (drop start xs)

  -- A predicate by recursion computes to tuples, which the tactics read and build.
  abbrev pub All {κ} : (A → Type κ) → List A → Type κ
  All P [] = Unit
  All P (x ∷ xs) = P x × All P xs

module _ {ℓ} {A : Type ℓ} where
  pub length-append : (xs ys : List A) → length (xs ++ ys) ≡ length xs + length ys
  length-append [] ys = omega arith
  length-append (x ∷ xs) ys = omega (arith, length-append xs ys)

  pub length-take : (n : ℕ) (xs : List A) → length (take n xs) ≡ min n (length xs)
  length-take zero xs = omega arith
  length-take (suc n) [] = omega arith
  length-take (suc n) (x ∷ xs) = omega (arith, length-take n xs)

  pub length-drop : (n : ℕ) (xs : List A) → length (drop n xs) ≡ length xs - n
  length-drop zero xs = omega arith
  length-drop (suc n) [] = omega arith
  length-drop (suc n) (x ∷ xs) = omega (arith, length-drop n xs)

  pub take-append-drop : (n : ℕ) (xs : List A) → take n xs ++ drop n xs ≡ xs
  take-append-drop zero xs = refl
  take-append-drop (suc n) [] = refl
  take-append-drop (suc n) (x ∷ xs) = rw (take-append-drop n xs)

  pub take_all : (n : ℕ) (xs : List A) → length xs ≤ n → take n xs ≡ xs
  take_all zero [] h = refl
  take_all zero (x ∷ xs) h = absurd (omega arith)
  take_all (suc n) [] h = refl
  take_all (suc n) (x ∷ xs) h = ap (◌∷◌ x) (take_all n xs (omega arith))

  pub get_elem?-lt : (xs : List A) (i : ℕ) {a : A} → get_elem? xs i ≡ some a → i < length xs
  get_elem?-lt [] i h = absurd (ground arith)
  get_elem?-lt (x ∷ xs) zero h = omega arith
  get_elem?-lt (x ∷ xs) (suc i) h = omega (arith, get_elem?-lt xs i h)

  pub drop-suc :
      (xs : List A) (i : ℕ) {a : A} → get_elem? xs i ≡ some a → drop i xs ≡ a ∷ drop (suc i) xs
  drop-suc [] i h = absurd (ground arith)
  drop-suc (x ∷ xs) zero h = ground arith
  drop-suc (x ∷ xs) (suc i) h = drop-suc xs i h

  pub drop_past : (xs : List A) (i : ℕ) → get_elem? xs i ≡ none → drop i xs ≡ []
  drop_past [] zero h = refl
  drop_past [] (suc i) h = refl
  drop_past (x ∷ xs) zero h = absurd (ground arith)
  drop_past (x ∷ xs) (suc i) h = drop_past xs i h

  pub All-append {κ} :
      (Holds : A → Type κ) (left right : List A)
      → All Holds left
      → All Holds right
      → All Holds (left ++ right)
  All-append Holds [] right _ r = r
  All-append Holds (x ∷ left) right (first, others) r =
      (first, All-append Holds left right others r)

module _ {ℓ} {A : Type ℓ} where
  pub drop-eq-nil : (xs : List A) (i : ℕ) → drop i xs ≡ [] → length xs ≤ i
  drop-eq-nil [] i h = omega arith
  drop-eq-nil (x ∷ xs) zero h = absurd (ground arith)
  drop-eq-nil (x ∷ xs) (suc i) h = omega (arith, drop-eq-nil xs i h)

  pub drop-eq-cons :
      (xs : List A) (i : ℕ) {a : A} {ys : List A}
      → drop i xs ≡ a ∷ ys
      → (get_elem? xs i ≡ some a) × (drop (suc i) xs ≡ ys)
  drop-eq-cons [] zero h = absurd (ground arith)
  drop-eq-cons [] (suc i) h = absurd (ground arith)
  drop-eq-cons (x ∷ xs) zero h = ground arith
  drop-eq-cons (x ∷ xs) (suc i) h = drop-eq-cons xs i h

  pub get_elem?-none : (xs : List A) (i : ℕ) → get_elem? xs i ≡ none → length xs ≤ i
  get_elem?-none [] i h = omega arith
  get_elem?-none (x ∷ xs) zero h = absurd (ground arith)
  get_elem?-none (x ∷ xs) (suc i) h = omega (arith, get_elem?-none xs i h)

  pub get_elem?_past : (xs : List A) (i : ℕ) → length xs ≤ i → get_elem? xs i ≡ none
  get_elem?_past [] i h = refl
  get_elem?_past (x ∷ xs) zero h = absurd (omega arith)
  get_elem?_past (x ∷ xs) (suc i) h = get_elem?_past xs i (omega arith)

  pub get_elem?-get_or :
      (xs : List A) (i : ℕ) (d : A) → i < length xs → get_elem? xs i ≡ some (get_or xs i d)
  get_elem?-get_or [] i d h = absurd (omega arith)
  get_elem?-get_or (x ∷ xs) zero d h = refl
  get_elem?-get_or (x ∷ xs) (suc i) d h = get_elem?-get_or xs i d (omega arith)

  pub get_elem?-lt-get : (xs : List A) (i : ℕ) → (get_elem? xs i ≡ none) ⊎ (i < length xs)
  get_elem?-lt-get [] i = inl refl
  get_elem?-lt-get (x ∷ xs) zero = inr (omega arith)
  get_elem?-lt-get (x ∷ xs) (suc i) = elim (get_elem?-lt-get xs i) [
    | inl e ↦ inl e
    | inr h ↦ inr (omega arith)
  ]

  pub drop_nil : (n : ℕ) → drop n (let e : List A = [] in e) ≡ []
  drop_nil zero = refl
  drop_nil (suc n) = refl

  pub drop-drop : (k n m : ℕ) (xs : List A) → m ≡ n + k → drop k (drop n xs) ≡ drop m xs
  drop-drop k zero m xs h = ap (λ i. drop i xs) (omega arith)
  drop-drop k (suc n) zero xs h = absurd (omega arith)
  drop-drop k (suc n) (suc m) [] h = drop_nil k
  drop-drop k (suc n) (suc m) (x ∷ xs) h = drop-drop k n m xs (omega arith)

  -- A stretch of a list and what follows it.
  pub slice-append-drop : (xs : List A) (n m : ℕ) → n ≤ m → slice xs n m ++ drop m xs ≡ drop n xs
  slice-append-drop xs n m h =
      ap (λ ys. slice xs n m ++ ys) (sym (drop-drop (m - n) n m xs (omega arith)))
      ∙ take-append-drop (m - n) (drop n xs)
