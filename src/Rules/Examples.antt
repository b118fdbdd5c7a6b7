-- ===== src/Rules/Examples.antt =====
-- The engine run on a small playbook, and its theorems there.
use multi_agent_system_turbo.Base.{
  ℕ, ◌≤◌, ◌≡◌, refl, ◌⊎◌, inr, true, false, none, some, [], ◌∷◌, Str, bytes, arith, if◌then◌else◌,
  length, str_eq, text_run,
}
use multi_agent_system_turbo.Base.Sort.{sort}
use multi_agent_system_turbo.Core.Model.{Evidence, unavailable, Severity, major, unranked}
use multi_agent_system_turbo.Core.Identifiers.{
  flush, scan_code, scan_byte, scan, identifiers, is_expr_builtin, expr_builtins,
}
use multi_agent_system_turbo.Rules.Playbook.{
  Branch, Step, Playbook, SeriesStats, series_payload, metric_view, held, Env, helpers,
  bind_evidence,
}
use multi_agent_system_turbo.Rules.Output.{
  collected, truth, Services, no_output, add_gap, step_name, distinct,
}
use multi_agent_system_turbo.Rules.Engine.{
  lookup, missing_references, empty_metric_slots, run_collect, run_evaluate, run_conclude, run_step,
  run_steps, run, run_selected,
}
use multi_agent_system_turbo.Rules.Honesty.{IsMeasured, run_evaluate-IsMeasured, run_evaluate-gap}
use multi_agent_system_turbo.Rules.Steps.{IsSupported}
use multi_agent_system_turbo.Rules.Support.{run-IsSupported, run-bounded}
use multi_agent_system_turbo.Rules.Numbering.{IsCounted, run_selected-IsCounted}

abbrev no_series : SeriesStats ℕ
no_series = record { empty = true; series = 0; count = 0; figures = 0 }

abbrev reading : Evidence
reading = record {
  id = bytes "ev-1";
  kind = bytes "metric";
  source = bytes "prometheus";
  query = bytes "lag";
  summary = bytes "none";
  truncated = false;
  digest = bytes "";
}

abbrev severity_of : Str → Severity
severity_of s = if str_eq s (bytes "major") then major else unranked s

-- Every call gives a metric without a series, and no expression holds.
abbrev idle : Services ℕ
idle = record {
  expand_signals = λ args. some args;
  expand_code = bytes "MAS-5012";
  invoke = λ i tool args. collected reading (series_payload no_series);
  evaluate = λ e env. truth false;
  is_failure_mode = λ m. str_eq m (bytes "lagging");
  severity_named = severity_of;
}

abbrev healthy : Branch
healthy = record {
  finding = none;
  pass = record { en = bytes "no lag"; zh = bytes "" };
  stop = false;
}

abbrev collect_step : Step ℕ
collect_step = record {
  id = bytes "get";
  collect = some (record { tool = bytes "query"; args = []; slot = bytes "lag" });
  evaluate = bytes "";
  on_true = none;
  on_false = none;
  conclude = none;
}

abbrev check_step : Step ℕ
check_step = record {
  id = bytes "check";
  collect = none;
  evaluate = bytes "lag.latest > 9";
  on_true = none;
  on_false = some healthy;
  conclude = none;
}

abbrev lag_playbook : Playbook ℕ
lag_playbook = record {
  id = bytes "lag";
  matches = bytes "Lag" ∷ [];
  steps = collect_step ∷ check_step ∷ [];
}

abbrev lag_env : Env ℕ
lag_env = (bytes "lag", held (metric_view no_series)) ∷ []

-- The metric came back without a series, so the check does not pass.
unmeasured_test : (run idle (bytes "en") 0 lag_playbook).0.checks_passed ≡ []
unfolding text_run run run_steps run_step run_collect run_evaluate run_conclude identifiers scan
    scan_byte scan_code flush lookup missing_references empty_metric_slots distinct sort
    is_expr_builtin expr_builtins helpers bind_evidence
unmeasured_test = refl

run_evaluate-IsMeasured_example :
    let r = run_evaluate idle (bytes "lag") check_step (bytes "en") lag_env no_output in
    ((r.out.findings ≡ []) × (r.out.checks_passed ≡ []))
    ⊎ IsMeasured idle (bytes "lag.latest > 9") lag_env
run_evaluate-IsMeasured_example =
    run_evaluate-IsMeasured idle (bytes "lag") check_step (bytes "en") lag_env no_output

run_evaluate-gap_example :
    (run_evaluate idle (bytes "lag") check_step (bytes "en") lag_env no_output).out
    ≡ add_gap (step_name (bytes "lag") (bytes "check")) unavailable (bytes "MAS-5015") no_output
unfolding text_run identifiers scan scan_byte scan_code flush lookup is_expr_builtin expr_builtins
run_evaluate-gap_example =
    run_evaluate-gap idle (bytes "lag") check_step (bytes "en") lag_env no_output (inr (refl, refl))

run-IsSupported_example : IsSupported idle (run idle (bytes "en") 5 lag_playbook).0
run-IsSupported_example = run-IsSupported idle (bytes "en") 5 lag_playbook

run-bounded_example : length (run idle (bytes "en") 1 lag_playbook).0.evidence ≤ 1
run-bounded_example = run-bounded idle (bytes "en") 1 lag_playbook (omega arith)

run_selected-IsCounted_example :
    IsCounted 0 (run_selected idle (bytes "en") 5 (lag_playbook ∷ []) 0 no_output).findings
run_selected-IsCounted_example = run_selected-IsCounted idle (bytes "en") 5 (lag_playbook ∷ [])
