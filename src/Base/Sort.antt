-- ===== src/Base/Sort.antt =====
-- package sort: a stable sort by a comparison, and that it permutes and orders.
use mathlib.Core.List.{Perm}
use mathlib.Core.List.Perm
use multi_agent_system_turbo.Base.Tests.{if◌then◌else◌, Bool-cases}
use multi_agent_system_turbo.Base.Lists.{any, is_empty, length}
use Prim.Native.Nat.{suc}
use mathlib.Core.Path.{◌≡◌, refl, ap, ◌∙◌}
use mathlib.Core.Logic.{inl, inr}
use mathlib.Core.Bool.{Bool, true, false, ◌||◌}
use mathlib.Core.List.{List, [], ◌∷◌, map}
use native.Mathlib.Omega.{arith}

module _ {ℓ} {A : Type ℓ} (less : A → A → Bool) where
  -- Before the first item that is less than none of those kept: equal items keep their order.
  unfoldable pub insert : A → List A → List A
  insert x [] = x ∷ []
  insert x (y ∷ ys) = if less y x then y ∷ insert x ys else x ∷ y ∷ ys

  unfoldable pub sort : List A → List A
  unfolding insert
  sort [] = []
  sort (x ∷ xs) = insert x (sort xs)

  insert-perm : (x : A) (ys : List A) → Perm (insert x ys) (x ∷ ys)
  unfolding insert
  insert-perm x [] = Perm.refl (x ∷ [])
  insert-perm x (y ∷ ys) = elim (Bool-cases (less y x)) [
    | inl below ↦ rw below (Perm.trans (Perm.cons y (insert-perm x ys)) (Perm.swap x y ys))
    | inr rest ↦ rw rest (Perm.refl (x ∷ y ∷ ys))
  ]

  pub sort-perm : (xs : List A) → Perm (sort xs) xs
  unfolding sort
  sort-perm [] = Perm.refl []
  sort-perm (x ∷ xs) = Perm.trans (insert-perm x (sort xs)) (Perm.cons x (sort-perm xs))

  length-insert : (x : A) (ys : List A) → length (insert x ys) ≡ suc (length ys)
  unfolding insert
  length-insert x [] = refl
  length-insert x (y ∷ ys) = ground (arith, length-insert x ys)

  pub length-sort : (xs : List A) → length (sort xs) ≡ length xs
  unfolding sort
  length-sort [] = refl
  length-sort (x ∷ xs) = length-insert x (sort xs) ∙ ap suc (length-sort xs)

  -- No item is less than the one before it.
  abbrev pub IsOrdered : List A → Type 0
  IsOrdered [] = Unit
  IsOrdered (x ∷ []) = Unit
  IsOrdered (x ∷ y ∷ ys) = (less y x ≡ false) × IsOrdered (y ∷ ys)

  module _ (asym : (a b : A) → less a b ≡ true → less b a ≡ false) where
    insert-IsOrdered : (x : A) (ys : List A) → IsOrdered ys → IsOrdered (insert x ys)
    unfolding insert
    insert-IsOrdered x [] h = tt
    insert-IsOrdered x (y ∷ []) h = elim (Bool-cases (less y x)) [
      | inl below ↦ rw below (asym y x below, tt)
      | inr rest ↦ rw rest (rest, tt)
    ]
    insert-IsOrdered x (y ∷ z ∷ ys) (h, k) = elim (Bool-cases (less y x)) [
      | inl below ↦ elim (Bool-cases (less z x)) [
        | inl lower ↦ rw (below, lower) (h, rw lower at (insert-IsOrdered x (z ∷ ys) k))
        | inr other ↦ rw (below, other) (asym y x below, (other, k))
      ]
      | inr rest ↦ rw rest (rest, (h, k))
    ]

    pub sort-IsOrdered : (xs : List A) → IsOrdered (sort xs)
    unfolding sort
    sort-IsOrdered [] = tt
    sort-IsOrdered (x ∷ xs) = insert-IsOrdered x (sort xs) (sort-IsOrdered xs)

-- A sort keeps what holds of some item.
module _ {ℓ} {A : Type ℓ} (less p : A → A → Bool) where
  any-insert : (a x : A) (ys : List A) → any (p a) (insert less x ys) ≡ (p a x || any (p a) ys)
  unfolding insert
  any-insert a x [] = refl
  any-insert a x (y ∷ ys) = ground (arith, any-insert a x ys)

  pub any-sort : (a : A) (xs : List A) → any (p a) (sort less xs) ≡ any (p a) xs
  unfolding sort
  any-sort a [] = refl
  any-sort a (x ∷ xs) = any-insert a x (sort less xs) ∙ ap (λ t. p a x || t) (any-sort a xs)

module _ {ℓ} {A : Type ℓ} (less : A → A → Bool) where
  is_empty-insert : (x : A) (ys : List A) → is_empty (insert less x ys) ≡ false
  unfolding insert
  is_empty-insert x [] = refl
  is_empty-insert x (y ∷ ys) = ground arith

  pub is_empty-sort : (xs : List A) → is_empty (sort less xs) ≡ is_empty xs
  unfolding sort
  is_empty-sort [] = refl
  is_empty-sort (x ∷ xs) = is_empty-insert x (sort less xs)

-- Sorting the images is sorting by the images.
module _ {ℓ κ} {A : Type ℓ} {B : Type κ} (less : B → B → Bool) (f : A → B) where
  insert-map :
      (x : A) (ys : List A)
      → insert less (f x) (map f ys) ≡ map f (insert (λ a b. less (f a) (f b)) x ys)
  unfolding insert
  insert-map x [] = refl
  insert-map x (y ∷ ys) = elim (Bool-cases (less (f y) (f x))) [
    | inl below ↦ rw below (ap (λ l. f y ∷ l) (insert-map x ys))
    | inr rest ↦ rw rest
  ]

  pub sort-map : (xs : List A) → sort less (map f xs) ≡ map f (sort (λ a b. less (f a) (f b)) xs)
  unfolding sort
  sort-map [] = refl
  sort-map (x ∷ xs) =
      ap (insert less (f x)) (sort-map xs) ∙ insert-map x (sort (λ a b. less (f a) (f b)) xs)
