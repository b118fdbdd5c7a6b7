-- ===== src/Llm/Ledger.antt =====
-- internal/llm/llm.go and pricing.go: Ledger.record, Ledger.ByRole and Pricing.CostOf.
-- The mutex makes each record one step. The map from roles is a list with one entry for a role.
use multi_agent_system_turbo.Base.{
  ℕ, ◌+◌, Bool, not, Option, none, some, List, [], ◌∷◌, Str, bytes, if◌then◌else◌, ltb, ◌==◌,
  is_empty, str_eq, str_lt,
}
use multi_agent_system_turbo.Base.Sort.{sort}
use multi_agent_system_turbo.Core.Cost.{
  Usd, whole, plus, times, over, no_usd, Cost, known_cost, unpriced_cost, add_cost,
}

-- Prices for a million tokens.
pub record ModelPrice : Type 0 where
  pub input : Usd
  pub output : Usd

abbrev pub per_million : Usd
per_million = whole 1000000

unfoldable pub find_price : Str → List (Str × ModelPrice) → Option ModelPrice
find_price m [] = none
find_price m ((n, p) ∷ prices) = if str_eq n m then some p else find_price m prices

unfoldable pub cost_of : List (Str × ModelPrice) → Str → ℕ → ℕ → Cost
unfolding find_price
cost_of prices model prompt completion = elim (find_price model prices) [
  | none ↦ unpriced_cost model
  | some p ↦ known_cost (
      plus (times (over (whole prompt) per_million) p.input)
        (times (over (whole completion) per_million) p.output))
]

pub record RoleUsage : Type 0 where
  pub role : Str
  pub provider : Str
  pub model : Str
  pub calls : ℕ
  pub prompt_tokens : ℕ
  pub completion_tokens : ℕ
  pub wall_millis : ℕ
  pub cost : Cost

-- One exchange, as `record` is given it.
pub record Exchange : Type 0 where
  pub agent : Str
  pub provider : Str
  pub model : Str
  pub prompt_tokens : ℕ
  pub completion_tokens : ℕ
  pub elapsed : ℕ
  pub cost : Cost

pub record Ledger : Type 0 where
  pub calls : ℕ
  pub prompt_tokens : ℕ
  pub completion_tokens : ℕ
  pub cost : Cost
  pub by_role : List RoleUsage

unfoldable pub new_ledger : Ledger
new_ledger = record {
  calls = 0;
  prompt_tokens = 0;
  completion_tokens = 0;
  cost = known_cost no_usd;
  by_role = [];
}

abbrev pub role_of : Exchange → Str
role_of e = if is_empty e.agent then bytes "(unattributed)" else e.agent

abbrev pub new_entry : Exchange → RoleUsage
new_entry e = record {
  role = role_of e;
  provider = e.provider;
  model = e.model;
  calls = 0;
  prompt_tokens = 0;
  completion_tokens = 0;
  wall_millis = 0;
  cost = known_cost no_usd;
}

unfoldable pub charge : Exchange → RoleUsage → RoleUsage
charge e r = record r {
  calls = r.calls + 1;
  prompt_tokens = r.prompt_tokens + e.prompt_tokens;
  completion_tokens = r.completion_tokens + e.completion_tokens;
  wall_millis = r.wall_millis + e.elapsed;
  cost = add_cost r.cost e.cost;
}

unfoldable pub charge_role : Exchange → List RoleUsage → List RoleUsage
charge_role e [] = charge e (new_entry e) ∷ []
charge_role e (r ∷ rs) = if str_eq r.role (role_of e) then charge e r ∷ rs else r ∷ charge_role e rs

unfoldable pub record_exchange : Exchange → Ledger → Ledger
record_exchange e l = record {
  calls = l.calls + 1;
  prompt_tokens = l.prompt_tokens + e.prompt_tokens;
  completion_tokens = l.completion_tokens + e.completion_tokens;
  cost = add_cost l.cost e.cost;
  by_role = charge_role e l.by_role;
}

unfoldable pub record_all : Ledger → List Exchange → Ledger
record_all l [] = l
record_all l (e ∷ es) = record_all (record_exchange e l) es

-- Descending cost, then descending calls, then the name; `same` and `less` compare amounts.
module _ (same less : Usd → Usd → Bool) where
  unfoldable pub dearer : RoleUsage → RoleUsage → Bool
  dearer a b =
      if not (same a.cost.usd b.cost.usd)
      then less b.cost.usd a.cost.usd
      else if not (a.calls == b.calls)
      then ltb b.calls a.calls
      else str_lt a.role b.role

  unfoldable pub by_role : Ledger → List RoleUsage
  by_role l = sort dearer l.by_role
