-- ===== src/Eval/Examples.antt =====
-- A case scored, and a run compared against a baseline.
use multi_agent_system_turbo.Base.{
  ◌≡◌, refl, ◌&&◌, not, ◌↔◌, false, none, some, [], ◌∷◌, map, bytes, all, any, member, text_run,
}
use multi_agent_system_turbo.Base.Sort.{sort}
use multi_agent_system_turbo.Core.Cost.{zero_usage, given, known_cost}
use multi_agent_system_turbo.Eval.Score.{
  Outcome, Expect, Report, declared_codes, score, hit, hit_class, class_of, by_topology,
}
use multi_agent_system_turbo.Eval.Compare.{
  Cell, key_of, cell_of, put, index, index_from, find_cell, is_hit, transition_of, changes_now,
  changes_gone, compare, gate,
}
use multi_agent_system_turbo.Eval.Verdicts.{score-hit, cost_known, by_topology-unknown}
use multi_agent_system_turbo.Eval.Regressions.{has_regressed, gate_iff}

abbrev expected : Expect
expected = record {
  failure_modes = bytes "full-disk" ∷ [];
  not_failure_modes = bytes "split-brain" ∷ [];
  gaps = [];
}

abbrev report : Report
report = record {
  conclusions = bytes "full-disk" ∷ bytes "split-brain" ∷ [];
  gaps = [];
  usage = record zero_usage { cost = known_cost (given (bytes "0.03")) };
}

abbrev outcome : Outcome
outcome = score (bytes "disk") expected report

score-hit_example :
    (hit outcome ≡ (
      all (λ want. member want report.conclusions) expected.failure_modes
      && (not (any (λ ruled. member ruled report.conclusions) expected.not_failure_modes)
          && all (λ want. member want (declared_codes report.gaps)) expected.gaps)))
    × (is_hit (class_of outcome) ≡ hit outcome)
score-hit_example = score-hit (bytes "disk") expected report

by_topology-unknown_example : any cost_known (by_topology (outcome ∷ [])) ≡ false
by_topology-unknown_example = by_topology-unknown (outcome ∷ [])

abbrev recorded : Cell
recorded = record {
  case_id = bytes "disk";
  topology = bytes "";
  model = bytes "";
  class = hit_class;
  missing = [];
  false_conclusions = [];
  gaps_missed = [];
}

-- A hit that became a wrong conclusion fails the build.
gate_test : gate (compare (recorded ∷ []) (outcome ∷ [])) ≡ some 1
unfolding text_run gate compare index index_from put key_of cell_of changes_now changes_gone
    find_cell transition_of class_of score sort
gate_test = refl

gate_iff_example :
    (gate (compare (recorded ∷ []) (outcome ∷ [])) ≡ none)
    ↔ (any (has_regressed (index (recorded ∷ []))) (index (map cell_of (outcome ∷ []))) ≡ false)
gate_iff_example = gate_iff (recorded ∷ []) (outcome ∷ [])
