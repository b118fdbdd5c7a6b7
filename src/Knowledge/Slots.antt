-- ===== src/Knowledge/Slots.antt =====
-- internal/knowledge/resolve.go: the steps that stay can run.
use multi_agent_system_turbo.Base.{◌≡◌, ◌⊎◌, Bool, none, [], ◌∷◌, Str, any, member}
use multi_agent_system_turbo.Core.Identifiers.{identifiers}
use multi_agent_system_turbo.Knowledge.Resolve.{ScopedStep, condition_of}

module _ {V : Type 0} where
  -- A step that collects reads nothing: it has no expression and concludes nothing.
  abbrev pub IsSingle : ScopedStep V → Type 0
  IsSingle st = (st.step.collect ≡ none) ⊎ ((st.step.evaluate ≡ []) × (st.step.conclude ≡ none))

  -- The identifiers that a step reads.
  unfoldable pub reads : Str → ScopedStep V → Bool
  reads ident st =
      any (λ e. member ident (identifiers e)) (st.step.evaluate ∷ condition_of st.step.conclude)
