-- ===== src/Rules/Honesty.antt =====
-- internal/rules/engine.go, runEvaluate: what was not measured is never reported.
use multi_agent_system_turbo.Base.{
  ◌≡◌, refl, sym, ◌∙◌, ◌⊎◌, inl, inr, Bool, true, false, not, ◌&&◌, List, [], ◌∷◌, Str, bytes,
  arith, Bool-cases, any, is_empty, str_lt,
}
use multi_agent_system_turbo.Base.Sort.{is_empty-sort}
use multi_agent_system_turbo.Core.Model.{unavailable}
use multi_agent_system_turbo.Core.Identifiers.{identifiers, is_expr_builtin}
use multi_agent_system_turbo.Rules.Playbook.{Step, Env}
use multi_agent_system_turbo.Rules.Output.{
  Evaluated, rejected, crashed, truth, no_truth, Services, Output, add_gap, step_name, distinct,
}
use multi_agent_system_turbo.Rules.Engine.{
  lookup, is_bound, is_empty_metric, missing_references, empty_metric_slots, run_evaluate,
}

distinct-none :
    (wanted : Str → Bool) (names : List Str)
    → is_empty (distinct wanted [] names) ≡ true
    → any wanted names ≡ false
unfolding distinct
distinct-none wanted [] h = refl
distinct-none wanted (name ∷ names) h = elim (Bool-cases (wanted name)) [
  | inl w ↦ ground arith
  | inr n ↦ rw n (distinct-none wanted names (rw n at h))
]

pub Evaluated-cases :
    (e : Evaluated)
    → (e ≡ truth true) ⊎ ((e ≡ truth false) ⊎ ((e ≡ rejected) ⊎ ((e ≡ crashed) ⊎ (e ≡ no_truth))))
Evaluated-cases (truth true) = inl refl
Evaluated-cases (truth false) = inr (inl refl)
Evaluated-cases rejected = inr (inr (inl refl))
Evaluated-cases crashed = inr (inr (inr (inl refl)))
Evaluated-cases no_truth = inr (inr (inr (inr refl)))

module _ {V : Type 0} where
  -- Each name that the expression reads is built in or bound.
  abbrev pub is_complete : Str → Env V → Bool
  is_complete expression env =
      not (
        any (λ name. not (is_bound env name) && not (is_expr_builtin name))
          (identifiers expression))

  -- The expression reads a slot with a metric that has no series.
  abbrev pub reads_empty : Str → Env V → Bool
  reads_empty expression env =
      any (λ name. is_empty_metric (lookup name env) && not (is_expr_builtin name))
        (identifiers expression)

  -- The check ran: everything it reads is there, the expression has a truth value, and if that
  -- is false then no metric it reads is without a series.
  abbrev pub IsMeasured : Services V → Str → Env V → Type 0
  IsMeasured services expression env =
      (is_complete expression env ≡ true)
      × ((services.evaluate expression env ≡ truth true)
          ⊎ ((services.evaluate expression env ≡ truth false)
              × (reads_empty expression env ≡ false)))

  missing-none :
      (expression : Str) (env : Env V)
      → is_empty (missing_references expression env) ≡ true
      → is_complete expression env ≡ true
  unfolding missing_references
  missing-none expression env h =
      ground (arith, distinct-none _ (identifiers expression) (sym (is_empty-sort str_lt _) ∙ h))

  empty-none :
      (expression : Str) (env : Env V)
      → is_empty (empty_metric_slots expression env) ≡ true
      → reads_empty expression env ≡ false
  unfolding empty_metric_slots
  empty-none expression env h =
      distinct-none _ (identifiers expression) (sym (is_empty-sort str_lt _) ∙ h)

  -- An evaluated step reports no finding and no passed check unless the check ran: each name it
  -- reads is built in or bound, the expression has a truth value, and a false one does not rest
  -- on a metric without a series.
  pub run_evaluate-IsMeasured :
      (services : Services V) (playbook : Str) (st : Step V) (lang : Str) (env : Env V)
      (out : Output)
      → let r = run_evaluate services playbook st lang env out in
        ((r.out.findings ≡ out.findings) × (r.out.checks_passed ≡ out.checks_passed))
        ⊎ IsMeasured services st.evaluate env
  unfolding run_evaluate
  run_evaluate-IsMeasured services playbook st lang env out =
      elim (Bool-cases (is_empty (missing_references st.evaluate env))) [
        | inr some_missing ↦ inl (rw some_missing (refl, refl))
        | inl complete ↦ elim (Evaluated-cases (services.evaluate st.evaluate env)) [
          | inl yes_held ↦ inr (missing-none st.evaluate env complete, inl yes_held)
          | inr (inl not_held) ↦ elim (Bool-cases (is_empty (empty_metric_slots st.evaluate env))) [
            | inl measured ↦ inr (
              missing-none st.evaluate env complete,
              inr (not_held, empty-none st.evaluate env measured),
            )
            | inr unmeasured ↦ inl (rw (complete, not_held, unmeasured) (refl, refl))
          ]
          | inr (inr (inl e)) ↦ inl (rw (complete, e) (refl, refl))
          | inr (inr (inr (inl e))) ↦ inl (rw (complete, e) (refl, refl))
          | inr (inr (inr (inr e))) ↦ inl (rw (complete, e) (refl, refl))
        ]
      ]

  -- A check that cannot run because a name it reads is not bound, or because the
  -- expression is false and a metric it reads has no series, is recorded as one gap of code MAS-5015.
  pub run_evaluate-gap :
      (services : Services V) (playbook : Str) (st : Step V) (lang : Str) (env : Env V)
      (out : Output)
      → (is_complete st.evaluate env ≡ false)
        ⊎ ((services.evaluate st.evaluate env ≡ truth false) × (reads_empty st.evaluate env ≡ true))
      → (run_evaluate services playbook st lang env out).out
        ≡ add_gap (step_name playbook st.id) unavailable (bytes "MAS-5015") out
  unfolding run_evaluate
  run_evaluate-gap services playbook st lang env out h =
      elim (Bool-cases (is_empty (missing_references st.evaluate env))) [
        | inr some_missing ↦ rw some_missing
        | inl complete ↦
            let c = missing-none st.evaluate env complete in
            elim h [
              | inl incomplete ↦ absurd (cc)
              | inr (not_held, empty) ↦
                  elim (Bool-cases (is_empty (empty_metric_slots st.evaluate env))) [
                    | inl measured ↦ let m = empty-none st.evaluate env measured in absurd (cc)
                    | inr unmeasured ↦ rw (complete, not_held, unmeasured)
                  ]
            ]
      ]
