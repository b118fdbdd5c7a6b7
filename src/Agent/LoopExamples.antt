-- ===== src/Agent/LoopExamples.antt =====
-- A loop whose model asks for a tool in its first turn and answers in its second.
use multi_agent_system_turbo.Base.{
  ℕ, zero, suc, ◌≡◌, refl, inl, inr, false, [], ◌∷◌, bytes, text_run,
}
use multi_agent_system_turbo.Core.Model.{unavailable, Gap}
use multi_agent_system_turbo.Agent.State.{State, new_state, add_gap, consume_step, spend}
use multi_agent_system_turbo.Agent.Loop.{
  Response, Loop, or_six, run_calls, after_completion, run_turns, run_loop,
}
use multi_agent_system_turbo.Agent.LoopOps.{Leads, run_loop-Leads}

abbrev answers : ℕ → Response ℕ
answers zero = record {
  text = bytes "look";
  tool_calls = record { id = bytes "c"; name = bytes "promql"; args = 0 } ∷ [];
  refusal = false;
}
answers (suc n) = record { text = bytes "done"; tool_calls = []; refusal = false }

abbrev nothing_there : Gap
nothing_there = record {
  id = [];
  intent = bytes "promql";
  reason = unavailable;
  code = bytes "MAS-4001";
}

abbrev two_turns : Loop ℕ ℕ
two_turns = record {
  role = bytes "investigator";
  prompt = bytes "why";
  max_turns = 0;
  complete = λ turn messages. record {
    prompt_tokens = 10;
    completion_tokens = 5;
    answer = inr (answers turn);
  };
  invoke = λ w name args. (w, inl nothing_there);
  clock = λ turn. 0;
}

abbrev fresh : State
fresh = new_state [] (record { max_steps = 0; max_tool_calls = 0; max_tokens = 0; max_wall = 0 }) 0

text_test : (run_loop two_turns fresh 0).text ≡ bytes "done"
unfolding run_loop run_turns after_completion run_calls new_state consume_step spend add_gap
    text_run
text_test = refl

steps_test : (run_loop two_turns fresh 0).state.steps ≡ 2
unfolding run_loop run_turns after_completion run_calls new_state consume_step spend add_gap
    text_run
steps_test = refl

run_loop-Leads_example : Leads (or_six two_turns.max_turns) fresh (run_loop two_turns fresh 0).state
run_loop-Leads_example = run_loop-Leads two_turns fresh 0
