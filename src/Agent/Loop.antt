-- ===== src/Agent/Loop.antt =====
-- internal/agent/loop.go: the reasoning loop of one agent. The model is a function of the turn and
-- of the messages so far; the tools keep a state of their own, of type W; the clock and the text
-- that shows evidence to the model are parameters. The record of the run for a transcript is left
-- out.
use multi_agent_system_turbo.Base.{
  ℕ, zero, suc, ◌+◌, Bool, true, false, not, ◌&&◌, ◌||◌, List, [], ◌∷◌, ◌++◌, Str, bytes,
  if◌then◌else◌, ltb, is_empty, is_blank, str_eq, ◌⊎◌, inl, inr, ◌==◌,
}
use multi_agent_system_turbo.Core.Cost.{Usage, zero_usage}
use multi_agent_system_turbo.Core.Model.{
  Evidence, GapReason, unavailable, truncated, unsupported, Gap,
}
use multi_agent_system_turbo.Agent.State.{State, add_evidence, add_gap, spend, consume_step}

abbrev pub max_repair_attempts : ℕ
max_repair_attempts = 2

pub record ToolCall (A : Type 0) : Type 0 where
  pub id : Str
  pub name : Str
  pub args : A

pub record Response (A : Type 0) : Type 0 where
  pub text : Str
  pub tool_calls : List (ToolCall A)
  pub refusal : Bool

pub data Message (A : Type 0) : Type 0 where
  user : Str → Message A
  assistant : Str → List (ToolCall A) → Message A
  tool_data : Str → Str → Evidence → Message A
  tool_gap : Str → Str → Gap → Message A

pub record Completion (A : Type 0) : Type 0 where
  pub prompt_tokens : ℕ
  pub completion_tokens : ℕ
  pub answer : Str ⊎ Response A

pub record Loop (A W : Type 0) : Type 0 where
  pub role : Str
  pub prompt : Str
  pub max_turns : ℕ
  pub complete : ℕ → List (Message A) → Completion A
  pub invoke : W → Str → A → W × (Gap ⊎ Evidence)
  pub clock : ℕ → ℕ

-- How a loop ends: the state, the tools, and the last text.
pub record Ran (W : Type 0) : Type 0 where
  pub state : State
  pub tools : W
  pub text : Str

abbrev pub reasoning_gap : Str → GapReason → Str → Gap
reasoning_gap role reason code = record {
  id = [];
  intent = role ++ bytes " reasoning";
  reason = reason;
  code = code;
}

abbrev pub tool_use_gap : Str → Gap
tool_use_gap role = record {
  id = [];
  intent = role ++ bytes " tool use";
  reason = unsupported;
  code = bytes "MAS-2004";
}

abbrev pub one_call : ℕ → ℕ → Usage
one_call prompt completion = record zero_usage {
  llm_calls = 1;
  prompt_tokens = prompt;
  completion_tokens = completion;
}

abbrev pub or_six : ℕ → ℕ
or_six n = if n == 0 then 6 else n

-- Where the calls of one turn have come to.
pub record Turn (A W : Type 0) : Type 0 where
  pub state : State
  pub tools : W
  pub messages : List (Message A)
  pub usable : Bool
  pub repairs : ℕ

abbrev pub is_malformed : Gap → Bool
is_malformed g = str_eq g.code (bytes "MAS-8005") || str_eq g.code (bytes "MAS-8006")

module _ {A W : Type 0} (loop : Loop A W) where
  abbrev pub answered : ToolCall A → Turn A W → W × (Gap ⊎ Evidence) → Turn A W
  answered call t (w, inl g) = record t {
    state = add_gap g t.state;
    tools = w;
    messages = t.messages ++ tool_gap call.id call.name g ∷ [];
    repairs = if is_malformed g then t.repairs + 1 else t.repairs;
  }
  answered call t (w, inr ev) = record t {
    state = add_evidence ev t.state;
    tools = w;
    messages = t.messages ++ tool_data call.id call.name ev ∷ [];
    usable = true;
  }

  unfoldable pub run_calls : List (ToolCall A) → Turn A W → Turn A W
  unfolding add_gap add_evidence
  run_calls [] t = t
  run_calls (call ∷ calls) t =
      run_calls calls (answered call t (loop.invoke t.tools call.name call.args))

  abbrev pub ended : Str → W → State × Gap → Ran W
  ended text w (s, g) = record { state = add_gap g s; tools = w; text = text }

  -- What comes of a completion; `next` goes on with the next turn.
  unfoldable pub after_completion :
      List (Message A) → Str → ℕ → State → W → (Str → Turn A W → Ran W) → Str ⊎ Response A → Ran W
  unfolding add_gap run_calls
  after_completion messages last repairs s w next (inl code) =
      ended last w (s, reasoning_gap loop.role unavailable code)
  after_completion messages last repairs s w next (inr resp) =
      let text = if is_blank resp.text then last else resp.text in
      let begun : Turn A W = record {
        state = s;
        tools = w;
        messages = messages ++ assistant resp.text resp.tool_calls ∷ [];
        usable = false;
        repairs = repairs;
      } in
      let t = run_calls resp.tool_calls begun in
      if resp.refusal
      then ended last w (s, reasoning_gap loop.role unsupported (bytes "MAS-2006"))
      else if is_empty resp.tool_calls
      then record { state = s; tools = w; text = text }
      else if not t.usable && ltb max_repair_attempts t.repairs
      then ended text t.tools (t.state, tool_use_gap loop.role)
      else next text t

  -- `turns` are those left, `turn` is the number of the next.
  unfoldable pub run_turns : ℕ → ℕ → List (Message A) → Str → ℕ → State → W → Ran W
  unfolding add_gap spend consume_step after_completion
  run_turns zero turn messages last repairs s w =
      ended last w (s, reasoning_gap loop.role truncated (bytes "MAS-3010"))
  run_turns (suc turns) turn messages last repairs s w =
      let stepped = consume_step (loop.clock turn) s in
      let c = loop.complete turn messages in
      let spent = spend (one_call c.prompt_tokens c.completion_tokens) stepped.0 in
      let next = λ (text : Str) (t : Turn A W).
        run_turns turns (turn + 1) t.messages text t.repairs t.state t.tools in
      if not stepped.1
      then ended last w (stepped.0, reasoning_gap loop.role truncated (bytes "MAS-3005"))
      else after_completion messages last repairs spent w next c.answer

  unfoldable pub run_loop : State → W → Ran W
  unfolding run_turns
  run_loop s w = run_turns (or_six loop.max_turns) 0 (user loop.prompt ∷ []) [] 0 s w
