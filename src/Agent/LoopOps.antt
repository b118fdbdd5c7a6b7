-- ===== src/Agent/LoopOps.antt =====
-- internal/agent/loop.go: what a loop does to the shared state.
use multi_agent_system_turbo.Base.{
  ℕ, zero, suc, ◌+◌, ◌≤◌, ◌≡◌, refl, ◌⊎◌, inl, inr, Bool, true, false, not, ◌==◌, all, ◌&&◌, List,
  [], ◌∷◌, ◌++◌, Str, bytes, arith, Bool-cases, is_empty, is_blank, ltb, if◌then◌else◌,
}
use multi_agent_system_turbo.Core.Cost.{add_usage}
use multi_agent_system_turbo.Core.Model.{Evidence, Gap, truncated, unavailable, unsupported}
use multi_agent_system_turbo.Agent.State.{
  State, add_evidence, add_gap, spend, cut_short, consume_step,
}
use multi_agent_system_turbo.Agent.Ops.{Op, see, miss, use_model, take_step, perform, perform_all}
use multi_agent_system_turbo.Agent.Loop.{
  ToolCall, Response, Message, user, assistant, Loop, Ran, Turn, one_call, or_six, answered,
  run_calls, ended, after_completion, run_turns, run_loop, reasoning_gap, tool_use_gap,
  max_repair_attempts,
}

abbrev pub model_calls : List Op → ℕ
model_calls [] = 0
model_calls (use_model u ∷ ops) = suc (model_calls ops)
model_calls (op ∷ ops) = model_calls ops

abbrev pub steps_asked : List Op → ℕ
steps_asked [] = 0
steps_asked (take_step now ∷ ops) = suc (steps_asked ops)
steps_asked (op ∷ ops) = steps_asked ops

-- What a loop may do: see evidence, note a gap, ask for a step, and charge one call of the model.
abbrev pub is_of_loop : Op → Bool
is_of_loop (see e) = true
is_of_loop (miss g) = true
is_of_loop (take_step now) = true
is_of_loop (use_model u) = u.llm_calls == 1
is_of_loop op = false

-- The operations that lead from one state to another: no more steps are asked for than `turns`, and
-- the model is called no more often than that. Between the two states one call of the model is
-- charged for each step that was granted, and no call without one.
pub record Leads (turns : ℕ) (s s' : State) : Type 0 where
  pub ops : List Op
  pub performed : perform_all ops s ≡ s'
  pub only : all is_of_loop ops ≡ true
  pub asked : steps_asked ops ≤ turns
  pub called : model_calls ops ≤ steps_asked ops
  pub charged : s'.usage.llm_calls + s.steps ≡ s.usage.llm_calls + s'.steps
  pub turned : s'.steps ≤ s.steps + turns

Leads-none : (turns : ℕ) (s : State) → Leads turns s s
unfolding perform_all
Leads-none turns s = record {
  ops = [];
  performed = refl;
  only = refl;
  asked = omega arith;
  called = omega arith;
  charged = refl;
  turned = omega arith;
}

Leads-miss : (turns : ℕ) (g : Gap) (s s' : State) → Leads turns (add_gap g s) s' → Leads turns s s'
unfolding perform_all perform
Leads-miss turns g s s' l = record {
  ops = miss g ∷ l.ops;
  performed = l.performed;
  only = l.only;
  asked = l.asked;
  called = l.called;
  charged = unfold add_gap in l.charged;
  turned = unfold add_gap in l.turned;
}

steps-add_evidence : (e : Evidence) (s : State) → (add_evidence e s).steps ≡ s.steps
unfolding add_evidence
steps-add_evidence e s = ground arith

calls-add_evidence :
    (e : Evidence) (s : State) → (add_evidence e s).usage.llm_calls ≡ s.usage.llm_calls
unfolding add_evidence
calls-add_evidence e s = ground arith

Leads-see :
    (turns : ℕ) (e : Evidence) (s s' : State) → Leads turns (add_evidence e s) s' → Leads turns s s'
unfolding perform_all perform
Leads-see turns e s s' l =
    let steps = steps-add_evidence e s in
    let calls = calls-add_evidence e s in
    let even = l.charged in
    let near = l.turned in
    record {
      ops = see e ∷ l.ops;
      performed = l.performed;
      only = l.only;
      asked = l.asked;
      called = l.called;
      charged = omega (arith, steps, calls, even);
      turned = omega (arith, steps, near);
    }

steps-granted :
    (now : ℕ) (s : State)
    → (consume_step now s).1 ≡ true
    → (consume_step now s).0.steps ≡ s.steps + 1
unfolding consume_step
steps-granted now s h = ground arith

steps-denied :
    (now : ℕ) (s : State) → (consume_step now s).1 ≡ false → (consume_step now s).0.steps ≡ s.steps
unfolding consume_step cut_short
steps-denied now s h = ground arith

calls-consume_step :
    (now : ℕ) (s : State) → (consume_step now s).0.usage.llm_calls ≡ s.usage.llm_calls
unfolding consume_step cut_short
calls-consume_step now s = ground arith

calls-spend :
    (p c : ℕ) (s : State) → (spend (one_call p c) s).usage.llm_calls ≡ s.usage.llm_calls + 1
unfolding spend add_usage
calls-spend p c s = refl

steps-spend : (p c : ℕ) (s : State) → (spend (one_call p c) s).steps ≡ s.steps
unfolding spend
steps-spend p c s = refl

-- A granted step and the one call of the model that it is for.
Leads-turn :
    (turns now p c : ℕ) (s s' : State)
    → (consume_step now s).1 ≡ true
    → Leads turns (spend (one_call p c) (consume_step now s).0) s'
    → Leads (suc turns) s s'
unfolding perform_all perform
Leads-turn turns now p c s s' granted l =
    let stepped = (consume_step now s).0 in
    let steps = steps-granted now s granted in
    let calls = calls-consume_step now s in
    let spent = calls-spend p c stepped in
    let kept = steps-spend p c stepped in
    let even = l.charged in
    let near = l.turned in
    record {
      ops = take_step now ∷ use_model (one_call p c) ∷ l.ops;
      performed = l.performed;
      only = l.only;
      asked = (let a = l.asked in omega arith);
      called = (let a = l.called in omega arith);
      charged = omega (arith, steps, calls, spent, kept, even);
      turned = omega (arith, steps, kept, near);
    }

-- A step that is refused: no call of the model goes with it.
Leads-refused :
    (turns now : ℕ) (s s' : State)
    → (consume_step now s).1 ≡ false
    → Leads turns (consume_step now s).0 s'
    → Leads (suc turns) s s'
unfolding perform_all perform
Leads-refused turns now s s' denied l =
    let steps = steps-denied now s denied in
    let calls = calls-consume_step now s in
    let even = l.charged in
    let near = l.turned in
    record {
      ops = take_step now ∷ l.ops;
      performed = l.performed;
      only = l.only;
      asked = (let a = l.asked in omega arith);
      called = (let a = l.called in omega arith);
      charged = omega (arith, steps, calls, even);
      turned = omega (arith, steps, near);
    }

module _ {A W : Type 0} (loop : Loop A W) where
  answered-Leads :
      (turns : ℕ) (call : ToolCall A) (t : Turn A W) (s' : State) (r : W × (Gap ⊎ Evidence))
      → Leads turns (answered loop call t r).state s'
      → Leads turns t.state s'
  answered-Leads turns call t s' (w, inl g) k = Leads-miss turns g t.state s' k
  answered-Leads turns call t s' (w, inr e) k = Leads-see turns e t.state s' k

  run_calls-Leads :
      (turns : ℕ) (calls : List (ToolCall A)) (t : Turn A W) (s' : State)
      → Leads turns (run_calls loop calls t).state s'
      → Leads turns t.state s'
  unfolding run_calls
  run_calls-Leads turns [] t s' l = l
  run_calls-Leads turns (call ∷ calls) t s' l =
      let r = loop.invoke t.tools call.name call.args in
      answered-Leads turns call t s' r (run_calls-Leads turns calls (answered loop call t r) s' l)

  ended-Leads :
      (turns : ℕ) (text : Str) (w : W) (s : State) (g : Gap)
      → Leads turns s (ended loop text w (s, g)).state
  ended-Leads turns text w s g = Leads-miss turns g s (add_gap g s) (Leads-none turns (add_gap g s))

  after_completion-Leads :
      (turns : ℕ) (messages : List (Message A)) (last : Str) (repairs : ℕ) (s : State) (w : W)
      (next : Str → Turn A W → Ran W) (answer : Str ⊎ Response A)
      → ((text : Str) (t : Turn A W) → Leads turns t.state (next text t).state)
      → Leads turns s (after_completion loop messages last repairs s w next answer).state
  unfolding after_completion
  after_completion-Leads turns messages last repairs s w next (inl code) go_on =
      ended-Leads turns last w s (reasoning_gap loop.role unavailable code)
  after_completion-Leads turns messages last repairs s w next (inr resp) go_on =
      let text = if is_blank resp.text then last else resp.text in
      let begun : Turn A W = record {
        state = s;
        tools = w;
        messages = messages ++ assistant resp.text resp.tool_calls ∷ [];
        usable = false;
        repairs = repairs;
      } in
      let t = run_calls loop resp.tool_calls begun in
      elim (Bool-cases resp.refusal) [
        | inl refuses ↦
            rw refuses
              (ended-Leads turns last w s (reasoning_gap loop.role unsupported (bytes "MAS-2006")))
        | inr speaks ↦ elim (Bool-cases (is_empty resp.tool_calls)) [
          | inl final ↦ rw (speaks, final) (Leads-none turns s)
          | inr calls ↦ elim (Bool-cases (not t.usable && ltb max_repair_attempts t.repairs)) [
            | inl stuck ↦
                rw (speaks, calls, stuck)
                  (run_calls-Leads turns resp.tool_calls begun _
                    (ended-Leads turns text t.tools t.state (tool_use_gap loop.role)))
            | inr fine ↦
                rw (speaks, calls, fine)
                  (run_calls-Leads turns resp.tool_calls begun _ (go_on text t))
          ]
        ]
      ]

  run_turns-Leads :
      (turns turn : ℕ) (messages : List (Message A)) (last : Str) (repairs : ℕ) (s : State) (w : W)
      → Leads turns s (run_turns loop turns turn messages last repairs s w).state
  unfolding run_turns
  run_turns-Leads zero turn messages last repairs s w =
      ended-Leads zero last w s (reasoning_gap loop.role truncated (bytes "MAS-3010"))
  run_turns-Leads (suc turns) turn messages last repairs s w =
      let now = loop.clock turn in
      let c = loop.complete turn messages in
      let spent = spend (one_call c.prompt_tokens c.completion_tokens) (consume_step now s).0 in
      let next = λ (text : Str) (t : Turn A W).
        run_turns loop turns (turn + 1) t.messages text t.repairs t.state t.tools in
      elim (Bool-cases (consume_step now s).1) [
        | inr denied ↦ rw denied (
            Leads-refused turns now s _ denied (
              ended-Leads turns last w (consume_step now s).0
                (reasoning_gap loop.role truncated (bytes "MAS-3005"))))
        | inl granted ↦ rw granted (
            Leads-turn turns now c.prompt_tokens c.completion_tokens s _ granted (
              after_completion-Leads turns messages last repairs spent w next c.answer (λ text t.
                run_turns-Leads turns (turn + 1) t.messages text t.repairs t.state t.tools)))
      ]

  -- Whatever the model and the tools answer, a loop only does to the shared state what four guarded
  -- operations do: it adds evidence, notes gaps, asks for steps and charges calls of the model. It
  -- asks for at most as many steps as it has turns, six where none are set; it is granted no more
  -- than that; and it charges exactly one call of the model for each step that is granted, none for
  -- a step that is refused.
  pub run_loop-Leads :
      (s : State) (w : W) → Leads (or_six loop.max_turns) s (run_loop loop s w).state
  unfolding run_loop
  run_loop-Leads s w = run_turns-Leads (or_six loop.max_turns) 0 (user loop.prompt ∷ []) [] 0 s w
