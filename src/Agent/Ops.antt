-- ===== src/Agent/Ops.antt =====
-- The operations on the shared state as a sequence of steps, whichever agent makes each. A call of
-- AddHypothesis is one step; its parts among the steps of others are in Agent/Interleaved.
use multi_agent_system_turbo.Base.{ℕ, List, [], ◌∷◌, Str}
use multi_agent_system_turbo.Base.Int.{ℤ}
use multi_agent_system_turbo.Core.Cost.{Usage}
use multi_agent_system_turbo.Core.Model.{
  Evidence, Gap, HypothesisStatus, Hypothesis, Recommendation,
}
use multi_agent_system_turbo.Agent.State.{
  State, add_evidence, add_gap, add_hypothesis, update_hypothesis, add_recommendation, add_note,
  set_summary, spend, truncate, consume_step,
}

pub data Op : Type 0 where
  see : Evidence → Op
  miss : Gap → Op
  propose : Hypothesis → Op
  judge : Str → HypothesisStatus → ℤ → Str → Op
  advise : Recommendation → Op
  say : Str → Op
  sum_up : Str → Op
  use_model : Usage → Op
  give_up : Str → Op
  take_step : ℕ → Op

unfoldable pub perform : Op → State → State
perform (see ev) s = add_evidence ev s
perform (miss g) s = add_gap g s
perform (propose h) s = (add_hypothesis h s).0
perform (judge id st confidence rationale) s = (update_hypothesis id st confidence rationale s).0
perform (advise r) s = add_recommendation r s
perform (say note) s = add_note note s
perform (sum_up v) s = set_summary v s
perform (use_model u) s = spend u s
perform (give_up reason) s = truncate reason s
perform (take_step now) s = (consume_step now s).0

unfoldable pub perform_all : List Op → State → State
perform_all [] s = s
perform_all (op ∷ ops) s = perform_all ops (perform op s)
