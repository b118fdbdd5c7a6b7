-- ===== src/Rules/Support.antt =====
-- internal/rules/engine.go, Run: what a finding cites, what a run concludes and how far it goes.
use multi_agent_system_turbo.Base.{
  ℕ, ◌+◌, ◌≤◌, ◌≡◌, refl, ◌⊎◌, inl, inr, false, List, [], ◌∷◌, Str, arith, leb, Bool-cases, length,
}
use multi_agent_system_turbo.Rules.Playbook.{Step, Playbook, Env, helpers}
use multi_agent_system_turbo.Rules.Output.{Services, Output, no_output, Verdict, go_on, stop, fail}
use multi_agent_system_turbo.Rules.Engine.{run_step, run_steps, run}
use multi_agent_system_turbo.Rules.Steps.{IsSupported, IsSupported-of, run_step-Extends}

Verdict-cases : (v : Verdict) → (v ≡ go_on) ⊎ ((v ≡ stop) ⊎ ((code : Str) × (v ≡ fail code)))
Verdict-cases go_on = inl refl
Verdict-cases stop = inr (inl refl)
Verdict-cases (fail code) = inr (inr (code, refl))

module _ {V : Type 0} (services : Services V) where
  run_steps-IsSupported :
      (playbook lang : Str) (max_steps i : ℕ) (steps : List (Step V)) (env : Env V) (out : Output)
      → IsSupported services out
      → IsSupported services (run_steps services playbook lang max_steps i steps env out).0
  unfolding run_steps
  run_steps-IsSupported playbook lang max_steps i [] env out v = v
  run_steps-IsSupported playbook lang max_steps i (st ∷ steps) env out v =
      elim (Bool-cases (leb max_steps i)) [
        | inl over ↦ rw (run_steps, over) (IsSupported-of services out _ refl refl refl v)
        | inr under ↦
            let r = run_step services playbook lang i st env out in
            let w = (run_step-Extends services playbook lang i st env out).supported v in
            elim (Verdict-cases r.verdict) [
              | inl e ↦
                  rw (run_steps, under, e)
                    (run_steps-IsSupported playbook lang max_steps (i + 1) steps r.env r.out w)
              | inr (inl e) ↦ rw (run_steps, under, e) w
              | inr (inr (code, e)) ↦ rw (run_steps, under, e) w
            ]
      ]

  run_steps-bounded :
      (playbook lang : Str) (max_steps i : ℕ) (steps : List (Step V)) (env : Env V) (out : Output)
      → i ≤ max_steps
      → length out.evidence ≤ i
      → length (run_steps services playbook lang max_steps i steps env out).0.evidence ≤ max_steps
  unfolding run_steps
  run_steps-bounded playbook lang max_steps i [] env out le b = omega (arith, le, b)
  run_steps-bounded playbook lang max_steps i (st ∷ steps) env out le b =
      elim (Bool-cases (leb max_steps i)) [
        | inl over ↦ rw (run_steps, over) (omega (arith, le, b))
        | inr under ↦
            let r = run_step services playbook lang i st env out in
            let room : i + 1 ≤ max_steps = ground arith in
            let one = (run_step-Extends services playbook lang i st env out).at_most_one in
            elim (Verdict-cases r.verdict) [
              | inl e ↦
                  rw (run_steps, under, e)
                    (run_steps-bounded playbook lang max_steps (i + 1) steps r.env r.out room
                      (omega (arith, one, b)))
              | inr (inl e) ↦ rw (run_steps, under, e) (omega (arith, one, b, room))
              | inr (inr (code, e)) ↦ rw (run_steps, under, e) (omega (arith, one, b, room))
            ]
      ]

  -- Whatever the tools and the expressions give, in a run of a playbook each finding cites only
  -- evidence that the run collected, and each conclusion is a failure mode that the pack knows.
  pub run-IsSupported :
      (language : Str) (max_steps : ℕ) (pb : Playbook V)
      → IsSupported services (run services language max_steps pb).0
  unfolding run
  run-IsSupported language max_steps pb =
      run_steps-IsSupported pb.id _ _ 0 pb.steps helpers no_output
        (record { backed = tt; concluded = tt })

  -- A run with a step limit collects no more pieces of evidence than the limit says.
  pub run-bounded :
      (language : Str) (max_steps : ℕ) (pb : Playbook V)
      → 1 ≤ max_steps
      → length (run services language max_steps pb).0.evidence ≤ max_steps
  unfolding run
  run-bounded language max_steps pb p =
      let limit : leb max_steps 0 ≡ false = ground arith in
      rw (run, limit)
        (run_steps-bounded pb.id _ max_steps 0 pb.steps helpers no_output (omega arith)
          (omega arith))
