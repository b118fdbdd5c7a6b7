-- ===== src/Core/Cost.antt =====
-- internal/core/model.go: Cost and Usage. An amount of money is the expression of float64 operations
-- that the code computes it by, in the order of the code. Nothing is assumed of what the operations
-- round to: no sum is regrouped, and how two amounts compare is a parameter.
use multi_agent_system_turbo.Base.{
  ℕ, ◌+◌, Bool, true, false, not, ◌&&◌, ◌||◌, List, [], ◌∷◌, ◌++◌, Str, if◌then◌else◌, is_empty,
  member, str_lt,
}
use multi_agent_system_turbo.Base.Sort.{sort}

-- A float64: one that is given by its text, a whole number, or what an operation makes of two.
pub data Usd : Type 0 where
  given : Str → Usd
  whole : ℕ → Usd
  plus times over : Usd → Usd → Usd

abbrev pub no_usd : Usd
no_usd = whole 0

pub record Cost : Type 0 where
  pub usd : Usd
  pub known : Bool
  pub unpriced : List Str

abbrev pub known_cost : Usd → Cost
known_cost usd = record { usd = usd; known = true; unpriced = [] }

abbrev pub unpriced_cost : Str → Cost
unpriced_cost model = record { usd = no_usd; known = false; unpriced = model ∷ [] }

-- The zero value of the type.
abbrev pub zero_cost : Cost
zero_cost = record { usd = no_usd; known = false; unpriced = [] }

-- The names that are not empty and not seen before, in order.
unfoldable pub fresh_names : List Str → List Str → List Str
fresh_names seen [] = []
fresh_names seen (m ∷ ms) =
    let skipped = fresh_names seen ms in
    let taken = m ∷ fresh_names (m ∷ seen) ms in
    if is_empty m || member m seen then skipped else taken

unfoldable pub merged_names : List Str → List Str → List Str
merged_names ms ns = sort str_lt (fresh_names [] (ms ++ ns))

unfoldable pub add_cost : Cost → Cost → Cost
add_cost c o =
    let names = merged_names c.unpriced o.unpriced in
    record {
      usd = plus c.usd o.usd;
      known = if is_empty names then c.known && o.known else false;
      unpriced = names;
    }

-- `less` is the order of the amounts.
unfoldable pub is_partial : (Usd → Usd → Bool) → Cost → Bool
is_partial less c = not c.known && less no_usd c.usd

pub record Usage : Type 0 where
  pub llm_calls : ℕ
  pub prompt_tokens : ℕ
  pub completion_tokens : ℕ
  pub tool_calls : ℕ
  pub cost : Cost
  pub wall_millis : ℕ

abbrev pub zero_usage : Usage
zero_usage = record {
  llm_calls = 0;
  prompt_tokens = 0;
  completion_tokens = 0;
  tool_calls = 0;
  cost = zero_cost;
  wall_millis = 0;
}

-- The wall time of the receiver stays.
unfoldable pub add_usage : Usage → Usage → Usage
add_usage u o = record u {
  llm_calls = u.llm_calls + o.llm_calls;
  prompt_tokens = u.prompt_tokens + o.prompt_tokens;
  completion_tokens = u.completion_tokens + o.completion_tokens;
  tool_calls = u.tool_calls + o.tool_calls;
  cost = add_cost u.cost o.cost;
}
