-- ===== src/Base/Stable.antt =====
-- Sorting forgets the order that the items came in, where the comparison tells them apart.
use Prim.Native.Nat.{ℕ}
use mathlib.Core.List.{Mem, Perm, Permᴰ, mem-cons_of_mem, mem-cons_self}
use mathlib.Core.List.Perm
use mathlib.Core.Logic.{∥∥₁_elim}
use mathlib.Core.Path.{◌≡◌, refl, sym, ap, ◌∙◌}
use mathlib.Core.Logic.{inl, inr}
use mathlib.Core.Bool.{Bool, true, false}
use mathlib.Core.List.{List, [], ◌∷◌}
use multi_agent_system_turbo.Base.Tests.{Bool-cases}
use multi_agent_system_turbo.Base.Sort.{insert, sort}

-- A strict order, as a test.
pub record IsStrict {ℓ} {A : Type ℓ} (less : A → A → Bool) : Type ℓ where
  pub asym : (a b : A) → less a b ≡ true → less b a ≡ false
  pub trans : (a b c : A) → less a b ≡ true → less b c ≡ true → less a c ≡ true

-- Of two items of the list that are not the same, one is less.
abbrev pub TellsApart {ℓ} : {A : Type ℓ} → (A → A → Bool) → List A → Type ℓ
TellsApart {A} less xs =
    (a b : A) → Mem a xs → Mem b xs → less a b ≡ false → less b a ≡ false → a ≡ b

-- Two items of the list with the same id are the same item.
abbrev pub IsKeyed {ℓ} : {A : Type ℓ} → (A → List ℕ) → List A → Type ℓ
IsKeyed {A} id xs = (a b : A) → Mem a xs → Mem b xs → id a ≡ id b → a ≡ b

module _ {ℓ} {A : Type ℓ} (less : A → A → Bool) (strict : IsStrict less) where
  insert-insert_of_less :
      (x y : A) (l : List A)
      → less x y ≡ true
      → insert less x (insert less y l) ≡ insert less y (insert less x l)
  unfolding insert
  insert-insert_of_less x y [] h = rw (h, strict.asym x y h)
  insert-insert_of_less x y (z ∷ l) h = elim (Bool-cases (less z x)) [
    | inl zx ↦
        let zy = strict.trans z x y zx h in
        rw (zx, zy) (rw (zx) (ap (λ t. z ∷ t) (insert-insert_of_less x y l h)))
    | inr zx ↦ elim (Bool-cases (less z y)) [
      | inl zy ↦ rw (zx, zy) (rw (zx, h))
      | inr zy ↦ rw (zx, zy) (rw (h, strict.asym x y h))
    ]
  ]

  insert_comm :
      (x y : A) (l : List A)
      → (less x y ≡ false → less y x ≡ false → x ≡ y)
      → insert less x (insert less y l) ≡ insert less y (insert less x l)
  insert_comm x y l same = elim (Bool-cases (less x y)) [
    | inl xy ↦ insert-insert_of_less x y l xy
    | inr xy ↦ elim (Bool-cases (less y x)) [
      | inl yx ↦ sym (insert-insert_of_less y x l yx)
      | inr yx ↦ rw (same xy yx)
    ]
  ]

  sort-Permᴰ : {xs ys : List A} → Permᴰ xs ys → TellsApart less xs → sort less xs ≡ sort less ys
  unfolding sort
  sort-Permᴰ Permᴰ.nil apart = refl
  sort-Permᴰ (Permᴰ.cons {a} {b} {l₁} e d) apart = rw e (
      ap (insert less b)
        (sort-Permᴰ d (λ p q mp mq. apart p q (mem-cons_of_mem a mp) (mem-cons_of_mem a mq))))
  sort-Permᴰ (Permᴰ.swap {a} {b} {a'} {b'} {l} e f) apart =
      insert_comm a b (sort less l) (apart a b mem-cons_self (mem-cons_of_mem a mem-cons_self))
      ∙ rw (e, f)
  sort-Permᴰ (Permᴰ.trans d₁ d₂) apart =
      sort-Permᴰ d₁ apart
      ∙ sort-Permᴰ d₂
          (λ p q mp mq. apart p q ((Perm.mem_iff ∣ d₁ ∣₁).1 mp) ((Perm.mem_iff ∣ d₁ ∣₁).1 mq))

  -- Lists with the same items sort alike.
  pub sort-Perm :
      (xs ys : List A)
      → IsSet (List A)
      → Perm xs ys
      → TellsApart less xs
      → sort less xs ≡ sort less ys
  sort-Perm xs ys set p apart =
      ∥∥₁_elim p (set (sort less xs) (sort less ys)) (λ d. sort-Permᴰ d apart)
