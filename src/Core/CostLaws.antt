-- ===== src/Core/CostLaws.antt =====
-- What a sum of costs says: the total is known exactly when every part is.
use mathlib.Core.Path.{ap₂}
use multi_agent_system_turbo.Base.{
  ◌≡◌, refl, ap, ◌∙◌, true, false, not, ◌&&◌, ◌||◌, List, [], ◌∷◌, ◌++◌, Str, arith, is_empty,
  any-append, member, str_eq, str_eq_iff, str_lt, Bool-cases, inl, inr,
}
use multi_agent_system_turbo.Base.Sort.{sort, any-sort}
use multi_agent_system_turbo.Core.Cost.{Cost, fresh_names, merged_names, add_cost}

-- The constructors of a cost build no other: a known cost names no model.
abbrev pub IsHonest : Cost → Type 0
IsHonest c = c.known ≡ true → c.unpriced ≡ []

member-fresh :
    (m : Str) (seen ns : List Str)
    → member m (fresh_names seen ns) ≡ (not (is_empty m) && (not (member m seen) && member m ns))
unfolding fresh_names
member-fresh m seen [] = ground arith
member-fresh m seen (n ∷ ns) =
    ground (arith, str_eq_iff m n, member-fresh m seen ns, member-fresh m (n ∷ seen) ns)

pub member-merged_names :
    (m : Str) (ms ns : List Str)
    → member m (merged_names ms ns) ≡ (not (is_empty m) && (member m ms || member m ns))
unfolding merged_names
member-merged_names m ms ns =
    any-sort str_lt str_eq m (fresh_names [] (ms ++ ns))
    ∙ member-fresh m [] (ms ++ ns)
    ∙ ap (λ t. not (is_empty m) && t) (any-append (str_eq m) ms ns)

-- A sum names exactly the models that either part names, and never an empty name.
pub member-add_cost :
    (m : Str) (c o : Cost)
    → member m (add_cost c o).unpriced
      ≡ (not (is_empty m) && (member m c.unpriced || member m o.unpriced))
unfolding add_cost
member-add_cost m c o = member-merged_names m c.unpriced o.unpriced

pub add_cost-IsHonest : (c o : Cost) → IsHonest (add_cost c o)
unfolding add_cost
add_cost-IsHonest c o k = empty_names (merged_names c.unpriced o.unpriced) (ground arith)
  where
    empty_names : (ns : List Str) → is_empty ns ≡ true → ns ≡ []
    empty_names [] e = refl
    empty_names (n ∷ ns) e = absurd (cc)

merged-none : merged_names [] [] ≡ []
unfolding merged_names fresh_names sort
merged-none = refl

-- A sum is known exactly when both parts are.
pub known-add_cost :
    (c o : Cost) → IsHonest c → IsHonest o → (add_cost c o).known ≡ (c.known && o.known)
unfolding add_cost
known-add_cost c o h k = elim (Bool-cases (c.known && o.known)) [
  | inl both ↦
      let names : merged_names c.unpriced o.unpriced ≡ [] =
        ap₂ merged_names (h (ground arith)) (k (ground arith)) ∙ merged-none in
      rw names
  | inr some_unknown ↦ ground arith
]

pub unknown-add_cost : (c o : Cost) → c.known ≡ false → (add_cost c o).known ≡ false
unfolding add_cost
unknown-add_cost c o e = ground arith
