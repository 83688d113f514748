-- ===== src/Prelude/Sort.antt =====
-- `sort.Slice` and `sort.Strings`: insertion sort by a Boolean order, which is stable.
use mathlib.Core.Path.{◌≡◌, refl}
use mathlib.Core.Bool.{Bool, true, false}
use mathlib.Core.List.{List, [], ◌∷◌, Perm}
use mathlib.Core.List.Perm
use native.Mathlib.Omega.{arith}
use acme_mux.Prelude.Tests.{if◌then◌else◌, Bool-cases}
use mathlib.Core.Logic.{inl, inr}

module _ {A : Type 0} (leq : A → A → Bool) where
  unfoldable pub insert : A → List A → List A
  insert a [] = a ∷ []
  insert a (x ∷ xs) = if leq a x then a ∷ x ∷ xs else x ∷ insert a xs

  unfoldable pub sort : List A → List A
  sort [] = []
  sort (x ∷ xs) = insert x (sort xs)

  -- Every element is at most the one behind it.
  abbrev pub Ascending : List A → Type 0
  Ascending [] = Unit
  Ascending (x ∷ []) = Unit
  Ascending (x ∷ (y ∷ ys)) = (leq x y ≡ true) × Ascending (y ∷ ys)

  pub sort_fixed : (xs : List A) → Ascending xs → sort xs ≡ xs
  unfolding sort insert
  sort_fixed [] h = refl
  sort_fixed (x ∷ []) h = refl
  sort_fixed (x ∷ (y ∷ ys)) h = rw (sort_fixed (y ∷ ys) h.1) (rw h.0)

  pub insert-perm : (a : A) (xs : List A) → Perm (insert a xs) (a ∷ xs)
  unfolding insert
  insert-perm a [] = Perm.refl (a ∷ [])
  insert-perm a (x ∷ xs) = elim (Bool-cases (leq a x)) [
    | inl e ↦ rw e (Perm.refl (a ∷ x ∷ xs))
    | inr e ↦ rw e (Perm.trans (Perm.cons x (insert-perm a xs)) (Perm.swap a x xs))
  ]

  pub sort-perm : (xs : List A) → Perm (sort xs) xs
  unfolding sort
  sort-perm [] = Perm.refl []
  sort-perm (x ∷ xs) = Perm.trans (insert-perm x (sort xs)) (Perm.cons x (sort-perm xs))

module _ {A : Type 0} (leq : A → A → Bool)
    (total : (a b : A) → leq a b ≡ false → leq b a ≡ true) where
  pub insert-Ascending : (a : A) (xs : List A) → Ascending leq xs → Ascending leq (insert leq a xs)
  unfolding insert
  insert-Ascending a [] h = tt
  insert-Ascending a (x ∷ []) h = elim (Bool-cases (leq a x)) [
    | inl e ↦ rw e (e, tt)
    | inr e ↦ rw e (total a x e, tt)
  ]
  insert-Ascending a (x ∷ (y ∷ ys)) h =
      ground (arith, total a x, total a y, insert-Ascending a (y ∷ ys) h.1)

  pub sort-Ascending : (xs : List A) → Ascending leq (sort leq xs)
  unfolding sort
  sort-Ascending [] = tt
  sort-Ascending (x ∷ xs) = insert-Ascending x (sort leq xs) (sort-Ascending xs)
