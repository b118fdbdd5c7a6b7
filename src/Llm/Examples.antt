-- ===== src/Llm/Examples.antt =====
-- The ledger run on exchanges and a router built, and their theorems there.
use multi_agent_system_turbo.Base.{
  ◌≡◌, refl, all, List, [], ◌∷◌, Str, bytes, ◌⊎◌, inl, inr, text_run,
}
use multi_agent_system_turbo.Base.Int.{pos}
use multi_agent_system_turbo.Llm.Router.{
  ProviderConfig, LlmConfig, Router, new_router, add_roles, open_named, find_named, inherit,
  route_for,
}
use multi_agent_system_turbo.Llm.Routed.{IsRouted, new_router-IsRouted}
use multi_agent_system_turbo.Core.Cost.{given, known_cost, unpriced_cost}
use multi_agent_system_turbo.Llm.Ledger.{Exchange, new_ledger, record_exchange, record_all}
use multi_agent_system_turbo.Llm.Balance.{IsBalanced, record_all-IsBalanced, record_all-known}

abbrev critic_call : Exchange
critic_call = record {
  agent = bytes "critic";
  provider = bytes "lab";
  model = bytes "large";
  prompt_tokens = 30;
  completion_tokens = 7;
  elapsed = 12;
  cost = known_cost (given (bytes "0.44"));
}

abbrev nameless_call : Exchange
nameless_call = record critic_call { agent = bytes ""; cost = unpriced_cost (bytes "large") }

abbrev calls : List Exchange
calls = critic_call ∷ nameless_call ∷ critic_call ∷ []

ledger_test : (record_all new_ledger calls).prompt_tokens ≡ 90
unfolding record_all record_exchange new_ledger
ledger_test = refl

record_all-IsBalanced_example : IsBalanced calls (record_all new_ledger calls)
record_all-IsBalanced_example = record_all-IsBalanced calls

record_all-known_example : (record_all new_ledger calls).cost.known ≡ all (λ e. e.cost.known) calls
record_all-known_example =
    record_all-known calls ((λ k. refl), ((λ k. absurd (cc)), ((λ k. refl), tt)))

abbrev settings : ProviderConfig
settings = record {
  provider = bytes "anthropic";
  model = bytes "large";
  api_key = bytes "k";
  base_url = [];
  timeout = 30;
  max_tokens = 0;
  temperature = pos 0;
  mock_script = [];
}

-- The critic goes to a declared provider, which leaves all but its model out.
abbrev routing : LlmConfig
routing = record {
  base = settings;
  per_agent =
      (bytes "critic", record { provider = bytes "cheap"; model = []; temperature = pos 0 }) ∷ [];
  providers =
      (
        bytes "cheap",
        record settings { provider = []; model = bytes "small"; api_key = []; timeout = 0 },
      )
      ∷ [];
}

-- A provider is its settings.
abbrev open_any : LlmConfig → Str ⊎ ProviderConfig
open_any c = inr c.base

abbrev as_built : Str ⊎ Router ProviderConfig → Router ProviderConfig
as_built (inl code) = record {
  providers = [];
  by_role = [];
  fallback = record {
    name = bytes "default";
    provider = settings;
    model = [];
    temperature = pos 0;
  };
}
as_built (inr r) = r

abbrev router : Router ProviderConfig
router = as_built (new_router open_any routing)

built : new_router open_any routing ≡ inr router
unfolding new_router add_roles open_named find_named inherit text_run
built = refl

critic_test : (route_for router (bytes "critic")).provider.api_key ≡ bytes "k"
unfolding new_router add_roles open_named find_named inherit route_for text_run
critic_test = refl

new_router-IsRouted_example : IsRouted open_any routing (route_for router (bytes "critic"))
new_router-IsRouted_example = new_router-IsRouted open_any routing router (bytes "critic") built
