-- ===== src/Orchestrator/Eligible.antt =====
-- internal/orchestrator/blackboard.go: what a round keeps and brings about.
use multi_agent_system_turbo.Base.{
  result_cases, ◌≡◌, subst, ◌⊎◌, inl, inr, Bool, true, false, List, [], ◌∷◌, ◌++◌, Str, Bool-cases,
  Any, if◌then◌else◌,
}
use multi_agent_system_turbo.Orchestrator.Agents.{Role, Step}
use multi_agent_system_turbo.Orchestrator.Blackboard.{
  Board, BoardState, Contributor, eligible, run_contributor, run_eligible,
}

-- A conditional is one of its branches.
pub which_of : {A : Type 0} {x y z : A} (c : Bool) → (if c then x else y) ≡ z → (x ≡ z) ⊎ (y ≡ z)
which_of true e = inl e
which_of false e = inr e

module _ (active : List Str) (step : Role → Step) where
  -- What every eligible contributor keeps, a round keeps.
  pub run_eligible-keeps :
      (P : Board → Type 0) (before : BoardState)
      → ((c : Contributor) (b b' : Board)
          → eligible c before ≡ true
          → P b
          → run_contributor active step c b ≡ inr b'
          → P b')
      → (cs : List Contributor) (b b' : Board) (ran ran' : List Contributor) → P b
      → run_eligible active step before cs b ran ≡ inr (b', ran')
      → P b'
  unfolding run_eligible
  run_eligible-keeps P before keeps [] b b' ran ran' p e = let same : b ≡ b' = cc in subst P same p
  run_eligible-keeps P before keeps (c ∷ cs) b b' ran ran' p e =
      elim (Bool-cases (eligible c before)) [
        | inr off ↦ run_eligible-keeps P before keeps cs b b' ran ran' p (rw off at e)
        | inl on ↦ elim (result_cases (run_contributor active step c b)) [
          | inl (code, failed) ↦ (let e' = rw (on, failed) at e in absurd (cc))
          | inr (b₁, ok) ↦
              run_eligible-keeps P before keeps cs b₁ b' (ran ++ c ∷ []) ran' (keeps c b b₁ on p ok)
                (rw (on, ok) at e)
        ]
      ]

  -- What an eligible contributor brings about and the eligible ones keep holds after a round.
  pub run_eligible-makes :
      (P : Board → Type 0) (before : BoardState)
      → ((c : Contributor) (b b' : Board)
          → eligible c before ≡ true
          → P b
          → run_contributor active step c b ≡ inr b'
          → P b')
      → (d : Contributor) → eligible d before ≡ true
      → ((b b' : Board) → run_contributor active step d b ≡ inr b' → P b')
      → (cs : List Contributor) (b b' : Board) (ran ran' : List Contributor) → Any (λ x. x ≡ d) cs
      → run_eligible active step before cs b ran ≡ inr (b', ran')
      → P b'
  unfolding run_eligible
  run_eligible-makes P before keeps d on makes [] b b' ran ran' m e = elim m [ ]
  run_eligible-makes P before keeps d on makes (c ∷ cs) b b' ran ran' (inl same) e =
      let on' : eligible c before ≡ true = rw same on in
      elim (result_cases (run_contributor active step c b)) [
        | inl (code, failed) ↦ (let e' = rw (on', failed) at e in absurd (cc))
        | inr (b₁, ok) ↦
            run_eligible-keeps P before keeps cs b₁ b' (ran ++ c ∷ []) ran'
              (makes b b₁ (rw same at ok)) (rw (on', ok) at e)
      ]
  run_eligible-makes P before keeps d on makes (c ∷ cs) b b' ran ran' (inr later) e =
      elim (Bool-cases (eligible c before)) [
        | inr off ↦
            run_eligible-makes P before keeps d on makes cs b b' ran ran' later (rw off at e)
        | inl also ↦ elim (result_cases (run_contributor active step c b)) [
          | inl (code, failed) ↦ (let e' = rw (also, failed) at e in absurd (cc))
          | inr (b₁, ok) ↦
              run_eligible-makes P before keeps d on makes cs b₁ b' (ran ++ c ∷ []) ran' later
                (rw (also, ok) at e)
        ]
      ]
