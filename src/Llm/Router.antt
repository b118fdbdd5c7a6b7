-- ===== src/Llm/Router.antt =====
-- internal/llm/router.go: which provider and which model a role's work goes to. Opening a provider
-- is a parameter; the order in which the roles are read is that of the list. A float is a signed
-- number, of which only 0 is told apart.
use multi_agent_system_turbo.Base.{
  ℕ, Option, none, some, List, [], ◌∷◌, Str, bytes, if◌then◌else◌, ltb, is_empty, str_eq,
  trim_space, ◌⊎◌, inl, inr,
}
use multi_agent_system_turbo.Base.Int.{ℤ, pos, int_eq}

pub record ProviderConfig : Type 0 where
  pub provider : Str
  pub model : Str
  pub api_key : Str
  pub base_url : Str
  pub timeout : ℕ
  pub max_tokens : ℕ
  pub temperature : ℤ
  pub mock_script : Str

pub record AgentModel : Type 0 where
  pub provider : Str
  pub model : Str
  pub temperature : ℤ

-- The defaults of a run, with what is declared for a role and under a name.
pub record LlmConfig : Type 0 where
  pub base : ProviderConfig
  pub per_agent : List (Str × AgentModel)
  pub providers : List (Str × ProviderConfig)

abbrev pub or_text : Str → Str → Str
or_text new old = if is_empty new then old else new

abbrev pub or_number : ℕ → ℕ → ℕ
or_number new old = if ltb 0 new then new else old

abbrev pub or_float : ℤ → ℤ → ℤ
or_float new old = if int_eq new (pos 0) then old else new

unfoldable pub inherit : LlmConfig → ProviderConfig → LlmConfig
inherit def named = record {
  base = record {
    provider = or_text named.provider def.base.provider;
    model = or_text named.model def.base.model;
    api_key = or_text named.api_key def.base.api_key;
    base_url = or_text named.base_url def.base.base_url;
    timeout = or_number named.timeout def.base.timeout;
    max_tokens = or_number named.max_tokens def.base.max_tokens;
    temperature = or_float named.temperature def.base.temperature;
    mock_script = or_text named.mock_script def.base.mock_script;
  };
  per_agent = [];
  providers = [];
}

module _ {A : Type 0} where
  unfoldable pub find_named : Str → List (Str × A) → Option A
  find_named k [] = none
  find_named k ((j, a) ∷ xs) = if str_eq j k then some a else find_named k xs

pub record Route (P : Type 0) : Type 0 where
  pub name : Str
  pub provider : P
  pub model : Str
  pub temperature : ℤ

-- The default provider is under the empty name.
pub record Router (P : Type 0) : Type 0 where
  pub providers : List (Str × P)
  pub by_role : List (Str × Route P)
  pub fallback : Route P

module _ {P : Type 0} (open_provider : LlmConfig → Str ⊎ P) (cfg : LlmConfig) where
  abbrev pub with_override : AgentModel → Route P → Route P
  with_override o r = record r {
    model = or_text o.model r.model;
    temperature = or_float o.temperature r.temperature;
  }

  abbrev pub named_route : Str → P → ProviderConfig → Route P
  named_route name p named = record {
    name = name;
    provider = p;
    model = (inherit cfg named).base.model;
    temperature = (inherit cfg named).base.temperature;
  }

  -- The provider of that name, opened where it was not yet; and the list with it.
  unfoldable pub open_named : Str → List (Str × P) → Str ⊎ ((P × ProviderConfig) × List (Str × P))
  unfolding find_named
  open_named name opened = elim (find_named name cfg.providers) [
    | none ↦ inl (bytes "MAS-1003")
    | some named ↦ elim (find_named name opened) [
      | some p ↦ inr ((p, named), opened)
      | none ↦ elim (open_provider (inherit cfg named)) [
        | inl code ↦ inl code
        | inr p ↦ inr ((p, named), (name, p) ∷ opened)
      ]
    ]
  ]

  -- `roles` are those left.
  unfoldable pub add_roles : List (Str × AgentModel) → Router P → Str ⊎ Router P
  unfolding open_named
  add_roles [] r = inr r
  add_roles ((role, o) ∷ roles) r =
      let name = trim_space o.provider in
      if is_empty name
      then add_roles roles (record r { by_role = (role, with_override o r.fallback) ∷ r.by_role })
      else elim (open_named name r.providers) [
        | inl code ↦ inl code
        | inr ((p, named), opened) ↦ add_roles roles (record r {
          providers = opened;
          by_role = (role, with_override o (named_route name p named)) ∷ r.by_role;
        })
      ]

  unfoldable pub new_router : Str ⊎ Router P
  unfolding add_roles
  new_router = elim (open_provider cfg) [
    | inl code ↦ inl code
    | inr p ↦ add_roles cfg.per_agent (record {
      providers = ([], p) ∷ [];
      by_role = [];
      fallback = record {
        name = bytes "default";
        provider = p;
        model = cfg.base.model;
        temperature = cfg.base.temperature;
      };
    })
  ]

abbrev pub or_route : {P : Type 0} → Route P → Option (Route P) → Route P
or_route fallback none = fallback
or_route fallback (some r) = r

unfoldable pub route_for : {P : Type 0} → Router P → Str → Route P
unfolding find_named
route_for r role = or_route r.fallback (find_named role r.by_role)
