-- ===== src/Orchestrator/Examples.antt =====
-- The blackboard run with small agents.
use multi_agent_system_turbo.Base.{
  ◌≡◌, refl, ◌⊎◌, inl, inr, [], ◌∷◌, ◌++◌, Str, bytes, map, text_run,
}
use multi_agent_system_turbo.Base.Int.{pos}
use multi_agent_system_turbo.Core.Model.{Hypothesis, proposed, supported}
use multi_agent_system_turbo.Agent.State.{State, new_state}
use multi_agent_system_turbo.Orchestrator.Agents.{
  Role, planner, correlator, critic, reporter, investigator, executor, Step, evidence_digest,
}
use multi_agent_system_turbo.Orchestrator.Blackboard.{
  assessed_count, run_blackboard, Settled, capped, none_eligible,
}
use multi_agent_system_turbo.Orchestrator.Once.{AsksEachOnce, run_blackboard-asks}

abbrev guess : Hypothesis
guess = record {
  id = bytes "h-1";
  statement = bytes "the disk is full";
  status = proposed;
  confidence = pos 500;
  supporting = [];
  contradicting = [];
  rationale = [];
  rank = 0;
}

abbrev supports : Hypothesis → Hypothesis
supports h = record h { status = supported }

abbrev notes_one : State → State
notes_one s = record s { notes = s.notes ++ bytes "note" ∷ [] }

-- What each agent makes of the state.
abbrev does : Role → State → State
does planner s = notes_one s
does (investigator d) s = notes_one s
does correlator s = record s { hypotheses = s.hypotheses ++ guess ∷ [] }
does critic s = record s { hypotheses = map supports s.hypotheses }
does reporter s = record s { summary = bytes "done" }
does (executor o) s = s

abbrev step : Role → Step
step r s = inr (does r s)

abbrev empty_state : State
empty_state =
    new_state [] (record { max_steps = 0; max_tool_calls = 0; max_tokens = 0; max_wall = 0 }) 0

-- What a run comes back with, where it does.
abbrev settled_as : Str ⊎ Settled → Settled
settled_as (inl e) = record {
  board = record { state = empty_state; investigated = []; last_correlated = []; asked = [] };
  rounds = 0;
  reason = capped;
}
settled_as (inr r) = r

abbrev outcome : Settled
outcome = settled_as (run_blackboard (bytes "logs" ∷ []) step empty_state)

runs : run_blackboard (bytes "logs" ∷ []) step empty_state ≡ inr outcome
unfolding run_blackboard new_state text_run assessed_count evidence_digest
runs = refl

rounds_test : outcome.reason ≡ none_eligible
unfolding run_blackboard new_state text_run assessed_count evidence_digest
rounds_test = refl

run_blackboard-asks_example : AsksEachOnce (bytes "logs" ∷ []) outcome.board.asked
run_blackboard-asks_example = run_blackboard-asks (bytes "logs" ∷ []) step empty_state outcome runs

-- A critic that leaves the hypotheses as they are, which the code allows, is asked again: the run
-- takes a fourth round.
abbrev silent : Role → Step
silent critic s = inr s
silent r s = step r s

silent_test : (settled_as (run_blackboard (bytes "logs" ∷ []) silent empty_state)).rounds ≡ 4
unfolding run_blackboard new_state text_run assessed_count evidence_digest
silent_test = refl
