-- ===== src/Base/Keyed.antt =====
-- Items told apart by an id: a test of it.
use mathlib.Core.List.{Mem, not-mem-nil, eq-or-mem_of_mem-cons}
use mathlib.Core.Logic.Or
use mathlib.Core.Path.{◌≡◌, sym, ap, ◌∙◌}
use mathlib.Core.Bool.{Bool, true, false, not, ◌&&◌}
use mathlib.Core.List.{List, [], ◌∷◌}
use native.Mathlib.Omega.{arith}
use multi_agent_system_turbo.Base.Lists.{any}
use multi_agent_system_turbo.Base.Text.{Str, str_eq, str_eq_complete}
use multi_agent_system_turbo.Base.Stable.{IsKeyed}

Bool-set : IsSet Bool
Bool-set = hlevel

any-Mem {ℓ} :
    {A : Type ℓ} (p : A → Bool) (a : A) (xs : List A) → Mem a xs → p a ≡ true → any p xs ≡ true
any-Mem p a [] m h = absurd (not-mem-nil m)
any-Mem p a (x ∷ xs) m h =
    Or.elim (Bool-set (any p (x ∷ xs)) true) (eq-or-mem_of_mem-cons m)
      (λ e. let e' = ap p e in ground (arith, e')) (λ n. ground (arith, any-Mem p a xs n h))

module _ {ℓ} {A : Type ℓ} (id : A → Str) where
  unfoldable pub has_distinct : List A → Bool
  unfolding str_eq
  has_distinct [] = true
  has_distinct (x ∷ xs) = not (any (λ y. str_eq (id x) (id y)) xs) && has_distinct xs

  absent :
      (x b : A) (xs : List A)
      → any (λ y. str_eq (id x) (id y)) xs ≡ false
      → Mem b xs
      → id x ≡ id b
      → ⊥
  absent x b xs h m e =
      let held = any-Mem (λ y. str_eq (id x) (id y)) b xs m (str_eq_complete (id x) (id b) e) in
      ground (arith, held)

  pub has_distinct-IsKeyed : IsSet A → (xs : List A) → has_distinct xs ≡ true → IsKeyed id xs
  unfolding has_distinct
  has_distinct-IsKeyed set [] h a b m n e = absurd (not-mem-nil m)
  has_distinct-IsKeyed set (x ∷ xs) h a b m n e =
      let apart : any (λ y. str_eq (id x) (id y)) xs ≡ false = ground arith in
      let rest : has_distinct xs ≡ true = ground arith in
      Or.elim (set a b) (eq-or-mem_of_mem-cons m)
        (λ ax.
          Or.elim (set a b) (eq-or-mem_of_mem-cons n) (λ bx. ax ∙ sym bx)
            (λ bn. absurd (absent x b xs apart bn (ap id (sym ax) ∙ e))))
        (λ an.
          Or.elim (set a b) (eq-or-mem_of_mem-cons n)
            (λ bx. absurd (absent x a xs apart an (ap id (sym bx) ∙ sym e)))
            (λ bn. has_distinct-IsKeyed set xs rest a b an bn e))
