-- ===== src/Tool/Invoker.antt =====
-- internal/tool/tool.go: NewInvoker and Invoke. The state is what the invoker counts, the steps it
-- records, and the effects that reached a tool, which the code leaves to the tool itself. What is
-- written to the log and the metrics is left out, and so is the text of a gap.
use multi_agent_system_turbo.Base.{
  ℕ, ◌+◌, Bool, not, ◌&&◌, inl, inr, Option, none, some, List, [], ◌∷◌, ◌++◌, Str, bytes,
  if◌then◌else◌, ◌==◌, ltb, leb, is_empty, map, join,
}
use multi_agent_system_turbo.Base.Sort.{sort}
use multi_agent_system_turbo.Base.Decimal.{numbered}
use multi_agent_system_turbo.Base.{str_lt}
use multi_agent_system_turbo.Core.Model.{
  Evidence, Gap, GapReason, refused, truncated, not_configured, unavailable,
}
use multi_agent_system_turbo.Safety.Effects.{
  Class, undeclared, Call, Url, Guard, Code, mas_8001, mas_8002, mas_8003, mas_8005, mas_8010,
}
use multi_agent_system_turbo.Safety.Authorize.{authorize}
use multi_agent_system_turbo.Tool.Registry.{got, failed, timed_out, Args, Tool, get_tool}

-- An invoker as NewInvoker builds it: `max_calls` is 0 for no limit. `redact`, `digest` and the
-- printing of a value are the code of other components.
pub record Invoker (V : Type 0) : Type 0 where
  pub registry : List (Tool V)
  pub guard : Guard
  pub online : Bool
  pub timeout : ℕ
  pub max_calls : ℕ
  pub parse_url : Str → Option Url
  pub redact : Str → Str
  pub digest : Evidence → Str
  pub print : V → Str

abbrev pub or_default_timeout : ℕ → ℕ
or_default_timeout t = if t == 0 then 30000000000 else t

-- A step that is recorded: the tool's name and the code of the error, empty on success.
pub record Step : Type 0 where
  pub name : Str
  pub code : Str

pub record Counters : Type 0 where
  pub seq_evidence : ℕ
  pub seq_gap : ℕ
  pub calls : ℕ
  pub steps : List Step
  pub reached : List (Str × Call)

abbrev pub new_counters : Counters
new_counters = record { seq_evidence = 0; seq_gap = 0; calls = 0; steps = []; reached = [] }

pub data Invoked : Type 0 where
  collected : Evidence → Invoked
  missed : Gap → Invoked

abbrev pub code_text : Code → Str
code_text mas_8001 = bytes "MAS-8001"
code_text mas_8002 = bytes "MAS-8002"
code_text mas_8003 = bytes "MAS-8003"
code_text mas_8005 = bytes "MAS-8005"
code_text mas_8010 = bytes "MAS-8010"

abbrev pub or_class : Class → Class → Class
or_class (undeclared []) c = c
or_class declared_class c = declared_class

module _ {V : Type 0} where
  abbrev pub key_before : Str × V → Str × V → Bool
  key_before (j, v) (k, w) = str_lt j k

  unfoldable pub describe_intent : (V → Str) → Str → Args V → Str
  describe_intent print name [] = name
  describe_intent print name (a ∷ args) =
      name
      ++ b'('
        ∷ (join (bytes ", ") (map (λ (k, v). k ++ b'=' ∷ print v) (sort key_before (a ∷ args)))
            ++ b')' ∷ [])

  unfoldable pub give_gap :
      Invoker V → Str → Args V → GapReason → Str → Counters → Counters × Invoked
  unfolding describe_intent
  give_gap inv name args reason code w = (
    record w {
      seq_gap = w.seq_gap + 1;
      steps = w.steps ++ record { name = name; code = code } ∷ [];
    },
    missed (record {
      id = numbered (bytes "gap-") (w.seq_gap + 1);
      intent = describe_intent inv.print name args;
      reason = reason;
      code = code;
    }),
  )

  -- The planned call with the name, class and timeout that the invoker fills in.
  unfoldable pub completed : Invoker V → Tool V → Str → Call → Call
  completed inv t name c = record c {
    tool = name;
    class = or_class c.class t.safety;
    timeout = if c.timeout == 0 then inv.timeout else c.timeout;
  }

  -- Evidence as it is handed out: with an id, redacted, its digest computed last.
  unfoldable pub finished : Invoker V → ℕ → Evidence → Evidence
  finished inv n ev =
      let id = if is_empty ev.id then numbered (bytes "ev-") n else ev.id in
      let clean = record ev {
        id = id;
        query = inv.redact ev.query;
        summary = inv.redact ev.summary;
      } in
      record clean { digest = inv.digest clean }

  -- The read itself, once it is authorised.
  unfoldable pub read_evidence :
      Invoker V → Tool V → Str → Args V → Call → Counters → Counters × Invoked
  unfolding give_gap finished
  read_evidence inv t name args call w =
      let w' = record w { reached = w.reached ++ (name, call) ∷ [] } in
      elim (t.read w.calls args) [
        | failed code ↦ give_gap inv name args unavailable code w'
        | timed_out ↦ give_gap inv name args unavailable (bytes "MAS-8010") w'
        | got ev ↦
            let n = if is_empty ev.id then w.seq_evidence + 1 else w.seq_evidence in
            (
              record w' {
                seq_evidence = n;
                steps = w.steps ++ record { name = name; code = [] } ∷ [];
              },
              collected (finished inv (w.seq_evidence + 1) ev),
            )
      ]

  unfoldable pub authorise_and_read :
      Invoker V → Tool V → Str → Args V → Counters → Counters × Invoked
  unfolding give_gap completed read_evidence
  authorise_and_read inv t name args w = elim (t.plan args) [
    | inl code ↦ give_gap inv name args refused code w
    | inr planned ↦
        let call = completed inv t name planned in
        elim (authorize inv.parse_url inv.guard call) [
          | some r ↦ give_gap inv name args refused (code_text r.code) w
          | none ↦ read_evidence inv t name args call w
        ]
  ]

  -- What follows the counting of the call.
  unfoldable pub invoke_tool : Invoker V → Tool V → Str → Args V → Counters → Counters × Invoked
  unfolding give_gap authorise_and_read
  invoke_tool inv t name args w =
      if t.needs_online && not inv.online
      then give_gap inv name args not_configured (bytes "MAS-1011") w
      else elim (t.validate args) [
        | inl code ↦ give_gap inv name args refused code w
        | inr validated ↦ authorise_and_read inv t name validated w
      ]

  abbrev pub is_exhausted : Invoker V → ℕ → Bool
  is_exhausted inv calls = ltb 0 inv.max_calls && leb inv.max_calls calls

  -- One invocation from beginning to end, with no other between its steps.
  unfoldable pub invoke : Invoker V → Str → Args V → Counters → Counters × Invoked
  unfolding get_tool give_gap invoke_tool
  invoke inv name args w = elim (get_tool name inv.registry) [
    | none ↦ give_gap inv name args refused (bytes "MAS-8006") w
    | some t ↦
        if is_exhausted inv w.calls
        then give_gap inv name args truncated (bytes "MAS-3007") w
        else invoke_tool inv t name args (record w { calls = w.calls + 1 })
  ]

  -- Invocations one after the other: what is counted in the end, and what each came back with.
  unfoldable pub invoke_all : Invoker V → List (Str × Args V) → Counters → Counters × List Invoked
  unfolding invoke
  invoke_all inv [] w = (w, [])
  invoke_all inv ((name, args) ∷ requests) w =
      let (w', r) = invoke inv name args w in
      let (w'', rs) = invoke_all inv requests w' in (w'', r ∷ rs)
