-- ===== src/Rules/Engine.antt =====
-- internal/rules/engine.go: Run and RunAll. The tools, the expression language and the expansion
-- of signals are a record of operations; a call of a tool is told apart by the number of its step.
-- The text of a gap is left out, its code and its intent are kept.
use multi_agent_system_turbo.Base.{
  ℕ, ◌+◌, length, Bool, true, false, not, ◌&&◌, Option, none, some, List, [], ◌∷◌, ◌++◌, Str, bytes,
  if◌then◌else◌, leb, is_empty, str_eq, str_lt,
}
use multi_agent_system_turbo.Base.Sort.{sort}
use multi_agent_system_turbo.Core.Text.{text_in}
use multi_agent_system_turbo.Core.Model.{
  Evidence, unavailable, truncated, unsupported, Severity, Finding,
}
use multi_agent_system_turbo.Core.Identifiers.{identifiers, is_expr_builtin}
use multi_agent_system_turbo.Rules.Playbook.{
  StepFinding, Collect, Branch, Conclude, Step, Playbook, metric_view, bind_evidence, Binding, held,
  Env, helpers,
}
use multi_agent_system_turbo.Rules.Output.{
  collected, missed, rejected, crashed, truth, no_truth, Services, Output, no_output, add_gap,
  Verdict, go_on, stop, fail, Ran, step_name, distinct, severity_or, evidence_ids, with_pass, stamp,
  merge,
}

module _ {V : Type 0} where
  unfoldable pub lookup : Str → Env V → Option (Binding V)
  lookup name [] = none
  lookup name ((n, b) ∷ env) = if str_eq n name then some b else lookup name env

  abbrev pub is_bound : Env V → Str → Bool
  is_bound env name = elim (lookup name env) [ none ↦ false | some b ↦ true ]

  -- The slot holds a metric without a series.
  abbrev pub is_empty_metric : Option (Binding V) → Bool
  is_empty_metric (some (held (metric_view s))) = s.empty
  is_empty_metric b = false

  unfoldable pub missing_references : Str → Env V → List Str
  missing_references expression env = sort str_lt (
      distinct (λ name. not (is_bound env name) && not (is_expr_builtin name)) []
        (identifiers expression))

  unfoldable pub empty_metric_slots : Str → Env V → List Str
  empty_metric_slots expression env = sort str_lt (
      distinct (λ name. is_empty_metric (lookup name env) && not (is_expr_builtin name)) []
        (identifiers expression))

  unfoldable pub run_collect : Services V → ℕ → Str → Step V → Collect V → Env V → Output → Ran V
  unfolding bind_evidence
  run_collect services i playbook st c env out = elim (services.expand_signals c.args) [
    | none ↦ record {
      env = env;
      out = add_gap (step_name playbook st.id) unsupported services.expand_code out;
      verdict = go_on;
    }
    | some args ↦ elim (services.invoke i c.tool args) [
      | missed gap ↦ record {
        env = env;
        out = record out {
          gaps =
              out.gaps
              ++ record gap { intent = step_name playbook st.id ++ (bytes ": " ++ gap.intent) }
                ∷ [];
        };
        verdict = go_on;
      }
      | collected ev payload ↦ record {
        env = (c.slot, held (bind_evidence payload)) ∷ env;
        out = record out { evidence = out.evidence ++ ev ∷ [] };
        verdict = go_on;
      }
    ]
  ]

  abbrev pub unchanged : Env V → Output → Verdict → Ran V
  unchanged env out verdict = record { env = env; out = out; verdict = verdict }

  abbrev pub new_finding :
      (Str → Severity) → Str → Step V → Str → StepFinding → List Evidence → Finding
  new_finding named playbook st lang f evs = record {
    id = [];
    origin = bytes "rule:" ++ step_name playbook st.id;
    severity = severity_or named f.severity;
    statement = text_in lang f.statement;
    detail = text_in lang f.detail;
    evidence = evidence_ids evs;
    confidence = f.confidence;
  }

  unfoldable pub take_branch :
      (Str → Severity) → Str → Step V → Str → Branch → Env V → Output → Ran V
  unfolding evidence_ids
  take_branch named playbook st lang b env out =
      let found : Output = elim b.finding [
        | none ↦ out
        | some f ↦ record out {
          findings = out.findings ++ new_finding named playbook st lang f out.evidence ∷ [];
        }
      ] in
      unchanged env (with_pass (text_in lang b.pass) found) (if b.stop then stop else go_on)

  -- A branch that is not there does nothing.
  unfoldable pub followed :
      (Str → Severity) → Str → Step V → Str → Option Branch → Env V → Output → Ran V
  unfolding take_branch
  followed named playbook st lang none env out = unchanged env out go_on
  followed named playbook st lang (some b) env out = take_branch named playbook st lang b env out

  unfoldable pub run_evaluate : Services V → Str → Step V → Str → Env V → Output → Ran V
  unfolding followed missing_references empty_metric_slots
  run_evaluate services playbook st lang env out =
      let skipped =
        unchanged env (add_gap (step_name playbook st.id) unavailable (bytes "MAS-5015") out)
          go_on in
      let follow : Option Branch → Ran V =
        λ b. followed services.severity_named playbook st lang b env out in
      if not (is_empty (missing_references st.evaluate env))
      then skipped
      else elim (services.evaluate st.evaluate env) [
        | rejected ↦ unchanged env out (fail (bytes "MAS-5010"))
        | crashed ↦ unchanged env out (fail (bytes "MAS-5011"))
        | no_truth ↦ unchanged env out (fail (bytes "MAS-5011"))
        | truth true ↦ follow st.on_true
        | truth false ↦
            if not (is_empty (empty_metric_slots st.evaluate env))
            then skipped
            else follow st.on_false
      ]

  unfoldable pub attach : Services V → Str → Env V → Output → Ran V
  attach services mode env out =
      if services.is_failure_mode mode
      then unchanged env (record out { conclusions = out.conclusions ++ mode ∷ [] }) go_on
      else unchanged env out (fail (bytes "MAS-5014"))

  unfoldable pub run_conclude : Services V → Conclude → Env V → Output → Ran V
  unfolding attach missing_references
  run_conclude services c env out =
      if is_empty c.condition
      then attach services c.failure_mode env out
      else if not (is_empty (missing_references c.condition env))
      then unchanged env out go_on
      else elim (services.evaluate c.condition env) [
        | rejected ↦ unchanged env out (fail (bytes "MAS-5010"))
        | crashed ↦ unchanged env out (fail (bytes "MAS-5011"))
        | no_truth ↦ unchanged env out go_on
        | truth true ↦ attach services c.failure_mode env out
        | truth false ↦ unchanged env out go_on
      ]

  unfoldable pub run_step : Services V → Str → Str → ℕ → Step V → Env V → Output → Ran V
  unfolding run_collect run_evaluate run_conclude
  run_step services playbook lang i st env out = elim st.collect [
    | some c ↦ run_collect services i playbook st c env out
    | none ↦
        if not (is_empty st.evaluate)
        then run_evaluate services playbook st lang env out
        else elim st.conclude [
          | some c ↦ run_conclude services c env out
          | none ↦ unchanged env out go_on
        ]
  ]

  -- From step `i` on: the output, and the code of the error that ended the run.
  unfoldable pub run_steps :
      Services V → Str → Str → ℕ → ℕ → List (Step V) → Env V → Output → Output × Option Str
  unfolding run_step
  run_steps services playbook lang max_steps i [] env out = (out, none)
  run_steps services playbook lang max_steps i (st ∷ steps) env out = elim (leb max_steps i) [
    | true ↦ (
      record (add_gap (bytes "playbook " ++ playbook) truncated (bytes "MAS-5013") out) {
        truncated = true;
      },
      none,
    )
    | false ↦
        let r = run_step services playbook lang i st env out in
        elim r.verdict [
          | go_on ↦ run_steps services playbook lang max_steps (i + 1) steps r.env r.out
          | stop ↦ (r.out, none)
          | fail code ↦ (r.out, some code)
        ]
  ]

  -- A limit of 0 or below is 0 here.
  unfoldable pub run : Services V → Str → ℕ → Playbook V → Output × Option Str
  unfolding run_steps helpers
  run services language max_steps pb =
      run_steps services pb.id (if is_empty language then bytes "en" else language)
        (if leb max_steps 0 then 32 else max_steps) 0 pb.steps helpers no_output

  unfoldable pub run_selected : Services V → Str → ℕ → List (Playbook V) → ℕ → Output → Output
  unfolding run stamp
  run_selected services language max_steps [] seq merged = merged
  run_selected services language max_steps (pb ∷ pbs) seq merged =
      let (out, error) = run services language max_steps pb in
      elim error [
        | some code ↦
            run_selected services language max_steps pbs seq
              (add_gap (bytes "playbook " ++ pb.id) unsupported code merged)
        | none ↦
            run_selected services language max_steps pbs (seq + length out.findings)
              (merge merged (stamp seq out.findings) out)
      ]
