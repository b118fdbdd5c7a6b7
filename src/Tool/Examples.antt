-- ===== src/Tool/Examples.antt =====
-- The invoker run on a tool, and its theorems there.
use multi_agent_system_turbo.Base.{
  ℕ, ◌≤◌, ◌+◌, ◌≡◌, refl, inr, ◌⊎◌, false, Option, none, some, List, [], ◌∷◌, Str, bytes, arith,
  length, All, text_run,
}
use multi_agent_system_turbo.Core.Model.{Evidence}
use multi_agent_system_turbo.Safety.Effects.{read_only, Regexp, Url, Guard}
use multi_agent_system_turbo.Safety.Guard.{SafetyConfig, compile_all, new_guard}
use multi_agent_system_turbo.Safety.Authorize.{authorize, authorize_file}
use multi_agent_system_turbo.Tool.Registry.{got, Tool, Args, get_tool}
use multi_agent_system_turbo.Tool.Invoker.{Invoker, new_counters, invoke, invoke_all}
use multi_agent_system_turbo.Tool.Guarded.{IsRead, invoke_all-IsRead}
use multi_agent_system_turbo.Tool.Schedule.{Board, new_board, Reach, start, Reach-overshoot}

abbrev file_line : Evidence
file_line = record {
  id = [];
  kind = bytes "file";
  source = bytes "host";
  query = bytes "cat";
  summary = bytes "ok";
  truncated = false;
  digest = [];
}

abbrev read_file : Tool ℕ
read_file = record {
  name = bytes "read_file";
  domain = bytes "host";
  safety = read_only;
  needs_online = false;
  validate = λ args. inr args;
  plan = λ args. inr (record {
    tool = [];
    class = read_only;
    http = none;
    command = none;
    exec = none;
    file = some (record { path = bytes "/var/log/app.log" });
    size = 0;
    timeout = 0;
  });
  read = λ i args. got file_line;
}

abbrev no_pattern : Str → Option Regexp
no_pattern p = none

abbrev no_url : Str → Option Url
no_url s = none

abbrev plain : SafetyConfig
plain = record {
  max_response_bytes = 0;
  max_timeout = 0;
  extra_denied_binaries = [];
  extra_denied_args = [];
}

abbrev or_shut : Option Guard → Guard
or_shut none = record {
  commands = [];
  paths = [];
  denied_args = [];
  max_bytes = 0;
  max_timeout = 0;
}
or_shut (some g) = g

abbrev one_call : Invoker ℕ
one_call = record {
  registry = read_file ∷ [];
  guard = or_shut (new_guard no_pattern plain);
  online = false;
  timeout = 1000;
  max_calls = 1;
  parse_url = no_url;
  redact = λ s. s;
  digest = λ e. bytes "d";
  print = λ v. [];
}

abbrev two_requests : List (Str × Args ℕ)
two_requests = (bytes "read_file", []) ∷ (bytes "read_file", []) ∷ []

-- The second request is past the budget: one effect reached the tool.
budget_test : length (invoke_all one_call two_requests new_counters).0.reached ≡ 1
unfolding text_run invoke_all invoke get_tool new_guard compile_all authorize authorize_file
budget_test = refl

invoke_all-IsRead_example :
    let reached = (invoke_all one_call two_requests new_counters).0.reached in
    All (IsRead one_call) reached
    × ((one_call.max_calls ≡ 0) ⊎ (length reached ≤ one_call.max_calls))
unfolding new_guard compile_all
invoke_all-IsRead_example = invoke_all-IsRead no_pattern plain one_call two_requests refl

Reach-overshoot_example :
    (new_board.calls + 1 ≤ 10 + 4) × ((c : Board) × Reach 4 10 c × (c.calls + 1 ≡ 10 + 4))
Reach-overshoot_example = Reach-overshoot 4 10 new_board (omega arith) (omega arith) start
