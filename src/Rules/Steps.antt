-- ===== src/Rules/Steps.antt =====
-- internal/rules/engine.go, runCollect, runEvaluate and runConclude: what one step does to the output.
use multi_agent_system_turbo.Base.{
  ℕ, ◌+◌, ◌≤◌, ◌≡◌, refl, sym, ◌∙◌, subst, ◌⊎◌, inl, inr, true, Option, none, some, List, [], ◌∷◌,
  ◌++◌, Str, arith, Bool-cases, Option-cases, any-append, is_empty, member, All, All-append, length,
  length-append, str_eq, str_eq_refl,
}
use multi_agent_system_turbo.Core.Model.{Evidence, Gap, Finding}
use multi_agent_system_turbo.Core.Text.{text_in}
use multi_agent_system_turbo.Rules.Playbook.{Collect, Conclude, Step, Branch, Env, Payload}
use multi_agent_system_turbo.Rules.Output.{
  Invoked, collected, missed, Services, Output, evidence_ids, with_pass,
}
use multi_agent_system_turbo.Rules.Engine.{
  missing_references, empty_metric_slots, new_finding, run_collect, take_branch, followed,
  run_evaluate, attach, run_conclude, run_step,
}
use multi_agent_system_turbo.Rules.Honesty.{Evaluated-cases}

All-weaken {ℓ} :
    {A : Type ℓ} {P Q : A → Type 0} → ((a : A) → P a → Q a) → (xs : List A) → All P xs → All Q xs
All-weaken f [] h = tt
All-weaken f (x ∷ xs) (p, h) = (f x p, All-weaken f xs h)

-- Every item of a list is a member of it, and of what extends it to the left.
All-members : (xs ys : List Str) → All (λ s. member s (ys ++ xs) ≡ true) xs
All-members [] ys = tt
All-members (x ∷ xs) ys = (
  any-append (str_eq x) ys (x ∷ xs) ∙ ground (arith, str_eq_refl x),
  All-weaken
      (λ s m.
        any-append (str_eq s) ys (x ∷ xs) ∙ ground (arith, sym (any-append (str_eq s) ys xs) ∙ m))
      xs (All-members xs ys),
)

evidence_ids-append :
    (es : List Evidence) (ev : Evidence) (id : Str)
    → member id (evidence_ids es) ≡ true
    → member id (evidence_ids (es ++ ev ∷ [])) ≡ true
unfolding evidence_ids
evidence_ids-append [] ev id h = ground arith
evidence_ids-append (e ∷ es) ev id h = elim (Bool-cases (is_empty e.id)) [
  | inl blank ↦ rw blank (evidence_ids-append es ev id (rw blank at h))
  | inr named ↦ rw named (elim (Bool-cases (str_eq id e.id)) [
    | inl same ↦ rw same
    | inr other ↦ rw other (evidence_ids-append es ev id (rw other at (rw named at h)))
  ])
]

-- The finding cites only evidence of the list.
abbrev pub IsBacked : List Evidence → Finding → Type 0
IsBacked evidence f = All (λ id. member id (evidence_ids evidence) ≡ true) f.evidence

Invoked-cases :
    {V : Type 0} (r : Invoked V)
    → ((gap : Gap) × (r ≡ missed gap))
      ⊎ ((ev : Evidence) × (payload : Payload V) × (r ≡ collected ev payload))
Invoked-cases (missed gap) = inl (gap, refl)
Invoked-cases (collected ev payload) = inr (ev, payload, refl)

module _ {V : Type 0} (services : Services V) where
  pub record IsSupported (out : Output) : Type 0 where
    pub backed : All (IsBacked out.evidence) out.findings
    pub concluded : All (λ m. services.is_failure_mode m ≡ true) out.conclusions

  pub IsSupported-of :
      (out out' : Output)
      → out'.findings ≡ out.findings
      → out'.evidence ≡ out.evidence
      → out'.conclusions ≡ out.conclusions
      → IsSupported out
      → IsSupported out'
  IsSupported-of out out' f e c v = record {
    backed = rw f (rw e v.backed);
    concluded = rw c v.concluded;
  }

  -- What one step does to the output: it stays supported and gains at most one piece of evidence.
  pub record Extends (out out' : Output) : Type 0 where
    pub supported : IsSupported out → IsSupported out'
    pub at_most_one : length out'.evidence ≤ length out.evidence + 1

  Extends-of :
      (out out' : Output)
      → out'.findings ≡ out.findings
      → out'.evidence ≡ out.evidence
      → out'.conclusions ≡ out.conclusions
      → Extends out out'
  Extends-of out out' f e c = record {
    supported = IsSupported-of out out' f e c;
    at_most_one = rw e (omega arith);
  }

  length-snoc : (es : List Evidence) (ev : Evidence) → length (es ++ ev ∷ []) ≤ length es + 1
  length-snoc es ev = omega (arith, length-append es (ev ∷ []))

  collected-Extends :
      (ev : Evidence) (out : Output)
      → Extends out (record out { evidence = out.evidence ++ ev ∷ [] })
  collected-Extends ev out = record {
    supported = λ v. record {
      backed =
          All-weaken
            (λ f b. All-weaken (λ id m. evidence_ids-append out.evidence ev id m) f.evidence b)
            out.findings v.backed;
      concluded = v.concluded;
    };
    at_most_one = length-snoc out.evidence ev;
  }

  run_collect-Extends :
      (i : ℕ) (playbook : Str) (st : Step V) (c : Collect V) (env : Env V) (out : Output)
      → Extends out (run_collect services i playbook st c env out).out
  unfolding run_collect
  run_collect-Extends i playbook st c env out =
      elim (Option-cases (services.expand_signals c.args)) [
        | inl e ↦ rw (run_collect, e) (Extends-of out _ refl refl refl)
        | inr (args, e) ↦
            rw (run_collect, e)
              (elim (Invoked-cases (services.invoke i c.tool args)) [
                | inl (gap, m) ↦ rw m (Extends-of out _ refl refl refl)
                | inr (ev, payload, m) ↦ rw m (collected-Extends ev out)
              ])
      ]

  with_pass-same :
      (s : Str) (out : Output)
      → ((with_pass s out).findings ≡ out.findings)
        × ((with_pass s out).evidence ≡ out.evidence)
        × ((with_pass s out).conclusions ≡ out.conclusions)
  with_pass-same [] out = (refl, refl, refl)
  with_pass-same (c ∷ s) out = (refl, refl, refl)

  -- A finding that cites all the evidence of the run so far.
  found-Extends :
      (f : Finding) (s : Str) (out : Output)
      → f.evidence ≡ evidence_ids out.evidence
      → Extends out (with_pass s (record out { findings = out.findings ++ f ∷ [] }))
  found-Extends f s out e =
      let found : Output = record out { findings = out.findings ++ f ∷ [] } in
      let (fs, es, cs) = with_pass-same s found in
      record {
        supported = λ v. IsSupported-of found _ fs es cs (record {
          backed = All-append _ out.findings (f ∷ []) v.backed (
            subst (λ ids. All (λ id. member id (evidence_ids out.evidence) ≡ true) ids) (sym e)
                (All-members (evidence_ids out.evidence) []),
            tt,
          );
          concluded = v.concluded;
        });
        at_most_one = rw es (omega arith);
      }

  take_branch-Extends :
      (playbook : Str) (st : Step V) (lang : Str) (b : Branch) (env : Env V) (out : Output)
      → Extends out (take_branch services.severity_named playbook st lang b env out).out
  unfolding take_branch
  take_branch-Extends playbook st lang b env out = elim (Option-cases b.finding) [
    | inl e ↦
        let (fs, es, cs) = with_pass-same (text_in lang b.pass) out in
        rw e (Extends-of out _ fs es cs)
    | inr (f, e) ↦ rw e (
        found-Extends (new_finding services.severity_named playbook st lang f out.evidence)
          (text_in lang b.pass) out refl)
  ]

  followed-Extends :
      (playbook : Str) (st : Step V) (lang : Str) (o : Option Branch) (env : Env V) (out : Output)
      → Extends out (followed services.severity_named playbook st lang o env out).out
  unfolding followed
  followed-Extends playbook st lang none env out = Extends-of out _ refl refl refl
  followed-Extends playbook st lang (some b) env out =
      take_branch-Extends playbook st lang b env out

  run_evaluate-Extends :
      (playbook : Str) (st : Step V) (lang : Str) (env : Env V) (out : Output)
      → Extends out (run_evaluate services playbook st lang env out).out
  unfolding run_evaluate
  run_evaluate-Extends playbook st lang env out =
      elim (Bool-cases (is_empty (missing_references st.evaluate env))) [
        | inr some_missing ↦ rw (run_evaluate, some_missing) (Extends-of out _ refl refl refl)
        | inl complete ↦ elim (Evaluated-cases (services.evaluate st.evaluate env)) [
          | inl e ↦
              rw (run_evaluate, complete, e) (followed-Extends playbook st lang st.on_true env out)
          | inr (inl e) ↦ elim (Bool-cases (is_empty (empty_metric_slots st.evaluate env))) [
            | inl measured ↦
                rw (run_evaluate, complete, e, measured)
                  (followed-Extends playbook st lang st.on_false env out)
            | inr unmeasured ↦
                rw (run_evaluate, complete, e, unmeasured) (Extends-of out _ refl refl refl)
          ]
          | inr (inr (inl e)) ↦ rw (run_evaluate, complete, e) (Extends-of out _ refl refl refl)
          | inr (inr (inr (inl e))) ↦
              rw (run_evaluate, complete, e) (Extends-of out _ refl refl refl)
          | inr (inr (inr (inr e))) ↦
              rw (run_evaluate, complete, e) (Extends-of out _ refl refl refl)
        ]
      ]

  attach-Extends :
      (mode : Str) (env : Env V) (out : Output) → Extends out (attach services mode env out).out
  unfolding attach
  attach-Extends mode env out = elim (Bool-cases (services.is_failure_mode mode)) [
    | inr unknown ↦ rw (attach, unknown) (Extends-of out _ refl refl refl)
    | inl known ↦
        rw (attach, known)
          (record {
            supported = λ v. record {
              backed = v.backed;
              concluded = All-append _ out.conclusions (mode ∷ []) v.concluded (known, tt);
            };
            at_most_one = omega arith;
          })
  ]

  run_conclude-Extends :
      (c : Conclude) (env : Env V) (out : Output)
      → Extends out (run_conclude services c env out).out
  unfolding run_conclude
  run_conclude-Extends c env out = elim (Bool-cases (is_empty c.condition)) [
    | inl always ↦ rw (run_conclude, always) (attach-Extends c.failure_mode env out)
    | inr guarded ↦ elim (Bool-cases (is_empty (missing_references c.condition env))) [
      | inr m ↦ rw (run_conclude, guarded, m) (Extends-of out _ refl refl refl)
      | inl m ↦ elim (Evaluated-cases (services.evaluate c.condition env)) [
        | inl e ↦ rw (run_conclude, guarded, m, e) (attach-Extends c.failure_mode env out)
        | inr (inl e) ↦ rw (run_conclude, guarded, m, e) (Extends-of out _ refl refl refl)
        | inr (inr (inl e)) ↦ rw (run_conclude, guarded, m, e) (Extends-of out _ refl refl refl)
        | inr (inr (inr (inl e))) ↦
            rw (run_conclude, guarded, m, e) (Extends-of out _ refl refl refl)
        | inr (inr (inr (inr e))) ↦
            rw (run_conclude, guarded, m, e) (Extends-of out _ refl refl refl)
      ]
    ]
  ]

  pub run_step-Extends :
      (playbook lang : Str) (i : ℕ) (st : Step V) (env : Env V) (out : Output)
      → Extends out (run_step services playbook lang i st env out).out
  unfolding run_step
  run_step-Extends playbook lang i st env out = elim (Option-cases st.collect) [
    | inr (c, e) ↦ rw (run_step, e) (run_collect-Extends i playbook st c env out)
    | inl e ↦ elim (Bool-cases (is_empty st.evaluate)) [
      | inr n ↦ rw (run_step, e, n) (run_evaluate-Extends playbook st lang env out)
      | inl n ↦ elim (Option-cases st.conclude) [
        | inl f ↦ rw (run_step, e, n, f) (Extends-of out _ refl refl refl)
        | inr (c, f) ↦ rw (run_step, e, n, f) (run_conclude-Extends c env out)
      ]
    ]
  ]
